-- ===== src/Speaking/Priorities/Conserve.antt =====
-- No operation on the queues loses a message: what leaves a queue is freed, once.
use opentts.Prelude.{
  ℕ, ◌+◌, ◌≡◌, ◌∙◌, inl, inr, Bool, true, false, not, ◌&&◌, List, [], ◌∷◌, ◌++◌, ◌==◌,
  if◌then◌else◌, arith, Bool-cases,
}
use opentts.Types.{
  Priority, important, message, text, notification, progress, Queues, Event, Server,
}
use opentts.Speaking.Queues.{
  same_priority, get_queue, put_queue, speaking_get_queue, speaking_set_queue, get-put_queue,
  put-put_queue,
}
use opentts.Speaking.Queues.Count.{
  count, queued, count-append, count-push_all, count-select, count-put_queue,
}
use opentts.Speaking.Queues.Ends.{split_last-Unlinked}
use opentts.Speaking.Queues.Loops.{select, push_all, purge_group_lem, empty_queue_lem}
use opentts.Speaking.Priorities.Steps.{
  stop_if-SameScheduler, queues-stop_priority, freed-stop_priority,
}
use opentts.Speaking.Priorities.{
  stop_if, stop_priority, stop_priority_except_first, keep_last_progress, resolve_priorities,
}

-- How often an address stands in a queue or among the freed.
unfoldable pub tally : ℕ → Queues → List ℕ → ℕ
tally a qs freed = count a (queued qs) + count a freed

abbrev pub occurrences : ℕ → Server → ℕ
occurrences a s = tally a s.queues s.freed

-- One queue is exchanged for another, and the difference is freed.
pub tally-put_queue :
    (a : ℕ) (p : Priority) (q : List ℕ) (qs : Queues) (freed freed' : List ℕ)
    → count a q + count a freed' ≡ count a (get_queue p qs) + count a freed
    → tally a (put_queue p q qs) freed' ≡ tally a qs freed
unfolding tally
tally-put_queue a p q qs freed freed' h = omega (arith, count-put_queue a p q qs)

-- The last message stays, and those in front of it are freed.
tally_last :
    (a : ℕ) (p : Priority) (front : List ℕ) (last : ℕ) (qs : Queues) (freed : List ℕ)
    → get_queue p qs ≡ front ++ last ∷ []
    → tally a (put_queue p (last ∷ []) qs) (push_all front freed) ≡ tally a qs freed
tally_last a p front last qs freed parts =
    tally-put_queue a p (last ∷ []) qs freed (push_all front freed)
      (rw parts (omega (arith, count-push_all a front freed, count-append a front (last ∷ []))))

tally-select :
    (a : ℕ) (p : Priority) (test : ℕ → Bool) (qs : Queues) (freed : List ℕ)
    → tally a
        (put_queue p (select test (get_queue p qs)) qs)
        (push_all (select (λ m. not (test m)) (get_queue p qs)) freed)
      ≡ tally a qs freed
tally-select a p test qs freed =
    tally-put_queue a p (select test q) qs freed (push_all (select (λ m. not (test m)) q) freed)
      (omega (arith, count-push_all a (select (λ m. not (test m)) q) freed, count-select a test q))
  where
    q : List ℕ
    q = get_queue p qs

occurrences-keep_last_progress :
    (a : ℕ) (s : Server) → occurrences a (keep_last_progress s) ≡ occurrences a s
unfolding keep_last_progress speaking_get_queue speaking_set_queue
occurrences-keep_last_progress a s = elim (split_last-Unlinked s.queues.p5) [
  | inl (e, empty) ↦ rw (e, keep_last_progress)
  | inr (front, last, e, parts) ↦
      rw (e, keep_last_progress)
        (rw empty_queue_lem (tally_last a progress front last s.queues s.freed parts))
]

occurrences-if :
    (a : ℕ) (b : Bool) (s t u : Server)
    → occurrences a s ≡ occurrences a u
    → occurrences a t ≡ occurrences a u
    → occurrences a (if b then s else t) ≡ occurrences a u
occurrences-if a true s t u p q = p
occurrences-if a false s t u p q = q

module _ (pipe_ok : List Event → Bool) (a : ℕ) where
  pub occurrences-stop_priority :
      (p : Priority) (s : Server) → occurrences a (stop_priority pipe_ok p s) ≡ occurrences a s
  occurrences-stop_priority p s =
      rw (queues-stop_priority pipe_ok p s, freed-stop_priority pipe_ok p s)
        (tally-put_queue a p [] s.queues s.freed (push_all (get_queue p s.queues) s.freed)
          (omega (arith, count-push_all a (get_queue p s.queues) s.freed)))

  occurrences-stop_priority_except_first :
      (p : Priority) (s : Server)
      → occurrences a (stop_priority_except_first pipe_ok p s) ≡ occurrences a s
  unfolding stop_priority_except_first speaking_get_queue speaking_set_queue
  occurrences-stop_priority_except_first p s = elim (split_last-Unlinked (get_queue p s.queues)) [
    | inl (e, empty) ↦ rw (e, stop_priority_except_first)
    | inr (front, last, e, parts) ↦ elim (Bool-cases ((s.messages last).settings.reparted == 0)) [
      | inl alone ↦
          rw (e, alone, stop_priority_except_first)
            (rw
              (
                queues-stop_priority,
                freed-stop_priority,
                get-put_queue p front s.queues,
                put-put_queue p front [] s.queues,
                put-put_queue p [] (last ∷ []) s.queues,
              )
              (tally_last a p front last s.queues s.freed parts))
      | inr block ↦
          let gid = (s.messages last).settings.reparted in
          let away = same_priority s.current_priority p && not (s.speaking_gid == gid) in
          let same = stop_if-SameScheduler pipe_ok away s in
          rw (e, block, stop_priority_except_first)
            (rw purge_group_lem
              (rw (same.queues, same.freed, same.messages) (tally-select a p _ s.queues s.freed)))
    ]
  ]

  pub occurrences-stop_if :
      (b : Bool) (s : Server) → occurrences a (stop_if pipe_ok b s) ≡ occurrences a s
  occurrences-stop_if b s =
      let same = stop_if-SameScheduler pipe_ok b s in rw (same.queues, same.freed)

  -- `resolve_priorities` moves addresses from the queues to the freed ones and nowhere else: each
  -- address occurs in the queues and among the freed ones together as often as before.
  pub resolve_priorities-conserves :
      (p : Priority) (s : Server) → occurrences a (resolve_priorities pipe_ok p s) ≡ occurrences a s
  unfolding resolve_priorities
  resolve_priorities-conserves important s =
      rw (occurrences-stop_priority, occurrences-stop_priority) (occurrences-stop_if _ s)
  resolve_priorities-conserves message s =
      rw (occurrences-stop_priority, occurrences-stop_priority, occurrences-stop_priority)
        (occurrences-stop_if _ s)
  resolve_priorities-conserves text s =
      rw (occurrences-stop_priority, occurrences-stop_priority)
        (occurrences-stop_priority_except_first text s)
  resolve_priorities-conserves notification s =
      occurrences-if a _ _ _ s
        (occurrences-stop_priority notification _
          ∙ occurrences-stop_priority_except_first notification s)
        (occurrences-stop_priority_except_first notification s)
  resolve_priorities-conserves progress s =
      occurrences-if a _ _ _ s
        (occurrences-keep_last_progress a _ ∙ occurrences-stop_priority notification s)
        (occurrences-stop_priority notification s)
