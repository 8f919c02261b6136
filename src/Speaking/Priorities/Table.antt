-- ===== src/Speaking/Priorities/Table.antt =====
-- What `resolve_priorities` makes of the five queues, as a table.
use opentts.Prelude.{
  ◌≡◌, refl, sym, ◌∙◌, ap, inl, inr, Bool, not, ◌&&◌, List, [], ◌∷◌, ◌==◌, if◌then◌else◌,
  Bool-cases,
}
use opentts.Types.{
  Priority, important, message, text, notification, progress, Queues, Event, Server,
}
use opentts.Speaking.Queues.{
  same_priority, get_queue, put_queue, speaking_get_queue, speaking_set_queue, put-get_queue,
  put-put_queue,
}
use opentts.Speaking.Queues.Ends.{split_last-Unlinked}
use opentts.Speaking.Queues.Loops.{purge_group_lem, empty_queue_lem}
use opentts.Speaking.Priorities.Steps.{
  last_group, last_only, stop_if-SameScheduler, queues-stop_priority, speaking-stop_priority,
  current_priority-stop_priority,
}
use opentts.Speaking.Priorities.{stop_priority_except_first, keep_last_progress, resolve_priorities}

-- The queues after a message of the given priority has come in.
unfoldable pub priority_table : Priority → Server → Queues
priority_table important s = record s.queues { p4 = []; p5 = [] }
priority_table message s = record s.queues { p3 = []; p4 = []; p5 = [] }
priority_table text s = record s.queues { p3 = last_group s.messages s.queues.p3; p4 = []; p5 = [] }
priority_table notification s = record s.queues {
  p4 =
      if s.speaking && not (same_priority s.current_priority notification)
      then []
      else last_group s.messages s.queues.p4;
}
priority_table progress s = record s.queues {
  p4 = [];
  p5 = if s.speaking then last_only s.queues.p5 else s.queues.p5;
}

module _ (pipe_ok : List Event → Bool) where
  pub queues-stop_priority_except_first :
      (p : Priority) (s : Server)
      → (stop_priority_except_first pipe_ok p s).queues
        ≡ put_queue p (last_group s.messages (get_queue p s.queues)) s.queues
  unfolding stop_priority_except_first speaking_get_queue speaking_set_queue
  queues-stop_priority_except_first p s = elim (split_last-Unlinked (get_queue p s.queues)) [
    | inl (e, empty) ↦
        rw (e, stop_priority_except_first, last_group)
          (sym (put-get_queue p s.queues) ∙ ap (λ q. put_queue p q s.queues) empty)
    | inr (front, last, e, parts) ↦ elim (Bool-cases ((s.messages last).settings.reparted == 0)) [
      | inl alone ↦
          rw (e, alone, stop_priority_except_first, last_group)
            (ap (put_queue p (last ∷ [])) (
                queues-stop_priority pipe_ok p (speaking_set_queue p front s)
                ∙ put-put_queue p front [] s.queues)
              ∙ put-put_queue p [] (last ∷ []) s.queues)
      | inr block ↦
          rw (e, block, stop_priority_except_first, last_group)
            (rw purge_group_lem (
              rw
                (
                  (stop_if-SameScheduler pipe_ok _ s).queues,
                  (stop_if-SameScheduler pipe_ok _ s).messages,
                )
                refl))
    ]
  ]

  pub context-stop_priority_except_first :
      (p : Priority) (s : Server)
      → ((stop_priority_except_first pipe_ok p s).speaking ≡ s.speaking)
        × ((stop_priority_except_first pipe_ok p s).current_priority ≡ s.current_priority)
  unfolding stop_priority_except_first speaking_get_queue speaking_set_queue
  context-stop_priority_except_first p s = elim (split_last-Unlinked (get_queue p s.queues)) [
    | inl (e, empty) ↦ rw (e, stop_priority_except_first) (refl, refl)
    | inr (front, last, e, parts) ↦ elim (Bool-cases ((s.messages last).settings.reparted == 0)) [
      | inl alone ↦
          rw (e, alone, stop_priority_except_first)
            (
              speaking-stop_priority pipe_ok p (speaking_set_queue p front s),
              current_priority-stop_priority pipe_ok p (speaking_set_queue p front s),
            )
      | inr block ↦
          rw (e, block, stop_priority_except_first)
            (rw purge_group_lem (
              (stop_if-SameScheduler pipe_ok _ s).speaking,
              (stop_if-SameScheduler pipe_ok _ s).current_priority,
            ))
    ]
  ]

  queues-keep_last_progress :
      (s : Server) → (keep_last_progress s).queues ≡ record s.queues { p5 = last_only s.queues.p5 }
  unfolding keep_last_progress speaking_get_queue speaking_set_queue
  queues-keep_last_progress s = elim (split_last-Unlinked s.queues.p5) [
    | inl (e, empty) ↦
        rw (e, keep_last_progress, last_only) (ap (λ q. put_queue progress q s.queues) empty)
    | inr (front, last, e, parts) ↦ rw (e, keep_last_progress, last_only) (rw empty_queue_lem refl)
  ]

  -- After `resolve_priorities` for a message of priority `p`, the queues hold what the priority table
  -- says of the queues before.
  pub resolve_priorities-table :
      (p : Priority) (s : Server) → (resolve_priorities pipe_ok p s).queues ≡ priority_table p s
  unfolding resolve_priorities priority_table
  resolve_priorities-table important s =
      rw (queues-stop_priority, queues-stop_priority) (rw (stop_if-SameScheduler _ _ s).queues refl)
  resolve_priorities-table message s =
      rw (queues-stop_priority, queues-stop_priority, queues-stop_priority)
        (rw (stop_if-SameScheduler _ _ s).queues refl)
  resolve_priorities-table text s =
      rw (queues-stop_priority, queues-stop_priority, queues-stop_priority_except_first)
  resolve_priorities-table notification s =
      let kept = context-stop_priority_except_first notification s in
      elim (Bool-cases (s.speaking && not (same_priority s.current_priority notification))) [
        | inl other ↦
            rw (kept.0, kept.1, other)
              (queues-stop_priority pipe_ok notification _
                ∙ ap (put_queue notification []) (queues-stop_priority_except_first notification s))
        | inr own ↦ rw (kept.0, kept.1, own) (queues-stop_priority_except_first notification s)
      ]
  resolve_priorities-table progress s = elim (Bool-cases s.speaking) [
    | inl on ↦
        rw (speaking-stop_priority, on) (rw (queues-keep_last_progress, queues-stop_priority))
    | inr off ↦ rw (speaking-stop_priority, off) (rw queues-stop_priority)
  ]
