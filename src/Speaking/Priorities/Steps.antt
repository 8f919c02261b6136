-- ===== src/Speaking/Priorities/Steps.antt =====
-- `stop_priority` and its like as equations, free of loops.
use opentts.Prelude.{
  ℕ, ◌≡◌, refl, Bool, true, false, List, [], ◌∷◌, none, some, ◌==◌, if◌then◌else◌,
}
use opentts.Types.{Priority, Message, Event, Server}
use opentts.Output.Frame.{SameScheduler, SameScheduler-refl, output_stop-SameScheduler}
use opentts.Speaking.Queues.{
  same_priority, get_queue, put_queue, speaking_get_queue, speaking_set_queue, split_last,
}
use opentts.Speaking.Queues.Loops.{select, push_all, discard, empty_queue_lem}
use opentts.Speaking.Priorities.{stop_if, stop_priority}

-- The group of the last message: that message alone, or all of its block.
abbrev pub last_group : (ℕ → Message) → List ℕ → List ℕ
last_group h q = elim (split_last q) [
  | none ↦ []
  | some (_, last) ↦
      if (h last).settings.reparted == 0
      then last ∷ []
      else select (λ p. (h p).settings.reparted == (h last).settings.reparted) q
]

abbrev pub last_only : List ℕ → List ℕ
last_only q = elim (split_last q) [ none ↦ [] | some (_, last) ↦ last ∷ [] ]

module _ (pipe_ok : List Event → Bool) where
  pub stop_if-SameScheduler : (b : Bool) (s : Server) → SameScheduler s (stop_if pipe_ok b s)
  stop_if-SameScheduler true s = output_stop-SameScheduler pipe_ok s
  stop_if-SameScheduler false s = SameScheduler-refl s

  pub stop_priority_lem :
      (p : Priority) (s : Server)
      → stop_priority pipe_ok p s
        ≡ speaking_set_queue p [] (
            discard (get_queue p s.queues) (stop_if pipe_ok (same_priority s.current_priority p) s))
  unfolding stop_priority speaking_get_queue
  stop_priority_lem p s = rw empty_queue_lem refl

  pub queues-stop_priority :
      (p : Priority) (s : Server) → (stop_priority pipe_ok p s).queues ≡ put_queue p [] s.queues
  unfolding speaking_set_queue
  queues-stop_priority p s = rw (stop_priority_lem p s) (rw (stop_if-SameScheduler _ s).queues refl)

  pub freed-stop_priority :
      (p : Priority) (s : Server)
      → (stop_priority pipe_ok p s).freed ≡ push_all (get_queue p s.queues) s.freed
  unfolding speaking_set_queue
  freed-stop_priority p s = rw (stop_priority_lem p s) (rw (stop_if-SameScheduler _ s).freed refl)

  pub messages-stop_priority :
      (p : Priority) (s : Server) → (stop_priority pipe_ok p s).messages ≡ s.messages
  unfolding speaking_set_queue
  messages-stop_priority p s = rw (stop_priority_lem p s) (stop_if-SameScheduler _ s).messages

  pub speaking-stop_priority :
      (p : Priority) (s : Server) → (stop_priority pipe_ok p s).speaking ≡ s.speaking
  unfolding speaking_set_queue
  speaking-stop_priority p s = rw (stop_priority_lem p s) (stop_if-SameScheduler _ s).speaking

  pub current_priority-stop_priority :
      (p : Priority) (s : Server)
      → (stop_priority pipe_ok p s).current_priority ≡ s.current_priority
  unfolding speaking_set_queue
  current_priority-stop_priority p s =
      rw (stop_priority_lem p s) (stop_if-SameScheduler _ s).current_priority
