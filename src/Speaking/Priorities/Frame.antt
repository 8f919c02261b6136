-- ===== src/Speaking/Priorities/Frame.antt =====
-- What the operations on priorities leave alone.
use opentts.Prelude.{
  ℕ, ◌≡◌, refl, inl, inr, Bool, true, false, not, ◌&&◌, List, [], ◌∷◌, none, some, ◌==◌,
  if◌then◌else◌, arith, Bool-cases, Option-cases,
}
use opentts.Types.{
  Priority, important, message, text, notification, progress, Event, command, stop_command, Server,
}
use opentts.Clients.{update}
use opentts.Output.{output_stop, output_send_data, module_failed}
use opentts.Speaking.Queues.{same_priority, get_queue, speaking_get_queue, speaking_set_queue}
use opentts.Speaking.Queues.Ends.{split_last-Unlinked}
use opentts.Speaking.Queues.Loops.{
  select, is_older, purge_group_lem, empty_queue_lem, empty_queue_by_time_lem,
}
use opentts.Speaking.Priorities.Steps.{stop_priority_lem}
use opentts.Speaking.Priorities.{
  stop_if, stop_priority, stop_priority_older_than, stop_priority_except_first, keep_last_progress,
  resolve_priorities,
}
use opentts.Speaking.Priorities.Only.{
  OnlyQueues, OnlyQueues-refl, OnlyQueues-trans, queues-OnlyQueues, set_queue-OnlyQueues,
  discarded-OnlyQueues,
}

module _ (pipe_ok : List Event → Bool) where
  -- What `output_stop` comes to: no module speaks, its pipe takes the command, or the pipe is broken.
  stop_silent : (s : Server) → s.speaking_module ≡ none → output_stop pipe_ok s ≡ s
  unfolding output_stop
  stop_silent s nobody = ground (arith, nobody)

  stop_sent :
      (m : ℕ) (s : Server)
      → s.speaking_module ≡ some m
      → pipe_ok s.events ≡ true
      → output_stop pipe_ok s ≡ record s { events = command m stop_command ∷ s.events }
  unfolding output_stop output_send_data
  stop_sent m s speaks ok = ground (arith, speaks, ok)

  stop_failed :
      (m : ℕ) (s : Server)
      → s.speaking_module ≡ some m
      → pipe_ok s.events ≡ false
      → output_stop pipe_ok s
        ≡ record s { working = update s.working m false; speaking_module = none }
  unfolding output_stop output_send_data module_failed
  stop_failed m s speaks bad = ground (arith, speaks, bad)

  failed-OnlyQueues :
      (m : ℕ) (s : Server)
      → s.speaking_module ≡ some m
      → pipe_ok s.events ≡ false
      → OnlyQueues pipe_ok s
          (record s { working = update s.working m false; speaking_module = none })
  failed-OnlyQueues m s speaks bad = record {
    only = refl;
    sent = ([], refl);
    modules = inr (record {
      failed = m;
      new = [];
      spoke = speaks;
      refused = bad;
      silent = refl;
      working = refl;
    });
  }

  pub output_stop-OnlyQueues : (s : Server) → OnlyQueues pipe_ok s (output_stop pipe_ok s)
  output_stop-OnlyQueues s = elim (Option-cases s.speaking_module) [
    | inl nobody ↦ rw (stop_silent s nobody) (OnlyQueues-refl pipe_ok s)
    | inr (m, speaks) ↦ elim (Bool-cases (pipe_ok s.events)) [
      | inl ok ↦ rw (stop_sent m s speaks ok) (
          queues-OnlyQueues pipe_ok s.queues s.freed (command m stop_command ∷ s.events)
            (command m stop_command ∷ []) s refl)
      | inr bad ↦ rw (stop_failed m s speaks bad) (failed-OnlyQueues m s speaks bad)
    ]
  ]

  stop_if-OnlyQueues : (b : Bool) (s : Server) → OnlyQueues pipe_ok s (stop_if pipe_ok b s)
  stop_if-OnlyQueues true s = output_stop-OnlyQueues s
  stop_if-OnlyQueues false s = OnlyQueues-refl pipe_ok s

  pub stop_priority-OnlyQueues :
      (p : Priority) (s : Server) → OnlyQueues pipe_ok s (stop_priority pipe_ok p s)
  unfolding speaking_set_queue
  stop_priority-OnlyQueues p s = rw (stop_priority_lem pipe_ok p s) (
      OnlyQueues-trans pipe_ok (stop_if-OnlyQueues (same_priority s.current_priority p) s) (
        let s1 = stop_if pipe_ok (same_priority s.current_priority p) s in
        discarded-OnlyQueues pipe_ok p [] (get_queue p s.queues) s1))

  pub stop_priority_older_than-OnlyQueues :
      (p : Priority) (uid : ℕ) (s : Server)
      → OnlyQueues pipe_ok s (stop_priority_older_than pipe_ok p uid s)
  unfolding stop_priority_older_than speaking_get_queue speaking_set_queue
  stop_priority_older_than-OnlyQueues p uid s =
      rw (empty_queue_by_time_lem, stop_priority_older_than)
        (OnlyQueues-trans pipe_ok (stop_if-OnlyQueues (same_priority s.current_priority p) s) (
          let s1 = stop_if pipe_ok (same_priority s.current_priority p) s in
          discarded-OnlyQueues pipe_ok p
            (select (λ m. not (is_older s1.messages uid m)) (get_queue p s.queues))
            (select (is_older s1.messages uid) (get_queue p s.queues)) s1))

  stop_priority_except_first-OnlyQueues :
      (p : Priority) (s : Server) → OnlyQueues pipe_ok s (stop_priority_except_first pipe_ok p s)
  unfolding stop_priority_except_first speaking_get_queue speaking_set_queue
  stop_priority_except_first-OnlyQueues p s = elim (split_last-Unlinked (get_queue p s.queues)) [
    | inl (e, empty) ↦ rw (e, stop_priority_except_first) (OnlyQueues-refl pipe_ok s)
    | inr (front, last, e, parts) ↦
        let gid = (s.messages last).settings.reparted in
        elim (Bool-cases (gid == 0)) [
          | inl alone ↦
              let s1 = speaking_set_queue p front s in
              rw (e, alone, stop_priority_except_first)
                (OnlyQueues-trans pipe_ok {s = s} {t = s1} (set_queue-OnlyQueues pipe_ok p front s)
                  (OnlyQueues-trans pipe_ok (stop_priority-OnlyQueues p s1)
                    (set_queue-OnlyQueues pipe_ok p (last ∷ []) (stop_priority pipe_ok p s1))))
          | inr block ↦
              let away = same_priority s.current_priority p && not (s.speaking_gid == gid) in
              rw (e, block, stop_priority_except_first)
                (rw purge_group_lem (
                  OnlyQueues-trans pipe_ok (stop_if-OnlyQueues away s) (
                    let s1 = stop_if pipe_ok away s in
                    queues-OnlyQueues pipe_ok _ _ s1.events [] s1 refl)))
        ]
  ]

  keep_last_progress-OnlyQueues : (s : Server) → OnlyQueues pipe_ok s (keep_last_progress s)
  unfolding keep_last_progress speaking_get_queue speaking_set_queue
  keep_last_progress-OnlyQueues s = elim (split_last-Unlinked s.queues.p5) [
    | inl (e, empty) ↦ rw (e, keep_last_progress) (OnlyQueues-refl pipe_ok s)
    | inr (front, last, e, parts) ↦
        rw (e, keep_last_progress)
          (rw empty_queue_lem (discarded-OnlyQueues pipe_ok progress (last ∷ []) front s))
  ]

  if-OnlyQueues :
      {s : Server} (b : Bool) (t u : Server)
      → OnlyQueues pipe_ok s t
      → OnlyQueues pipe_ok s u
      → OnlyQueues pipe_ok s (if b then t else u)
  if-OnlyQueues true t u p q = p
  if-OnlyQueues false t u p q = q

  -- `resolve_priorities` changes nothing but the queues, what is freed, what goes out to clients and
  -- modules, which is only added to, and the state of the modules. That changes only if the module that
  -- speaks does not take a command: then it is marked as not working, the others are as before, and no
  -- module speaks any more.
  pub resolve_priorities-OnlyQueues :
      (p : Priority) (s : Server) → OnlyQueues pipe_ok s (resolve_priorities pipe_ok p s)
  unfolding resolve_priorities
  resolve_priorities-OnlyQueues important s = OnlyQueues-trans pipe_ok (stop_if-OnlyQueues _ s) (
      OnlyQueues-trans pipe_ok (stop_priority-OnlyQueues notification _)
        (stop_priority-OnlyQueues progress _))
  resolve_priorities-OnlyQueues message s = OnlyQueues-trans pipe_ok (stop_if-OnlyQueues _ s) (
      OnlyQueues-trans pipe_ok (stop_priority-OnlyQueues text _) (
        OnlyQueues-trans pipe_ok (stop_priority-OnlyQueues notification _)
          (stop_priority-OnlyQueues progress _)))
  resolve_priorities-OnlyQueues text s =
      OnlyQueues-trans pipe_ok (stop_priority_except_first-OnlyQueues text s) (
        OnlyQueues-trans pipe_ok (stop_priority-OnlyQueues notification _)
          (stop_priority-OnlyQueues progress _))
  resolve_priorities-OnlyQueues notification s =
      let first = stop_priority_except_first-OnlyQueues notification s in
      if-OnlyQueues _ _ _ (OnlyQueues-trans pipe_ok first (stop_priority-OnlyQueues notification _))
        first
  resolve_priorities-OnlyQueues progress s =
      let first = stop_priority-OnlyQueues notification s in
      if-OnlyQueues _ _ _ (OnlyQueues-trans pipe_ok first (keep_last_progress-OnlyQueues _)) first
