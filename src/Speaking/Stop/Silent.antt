-- ===== src/Speaking/Stop/Silent.antt =====
-- STOP where it takes nothing off.
use opentts.Prelude.{
  ℕ, zero, suc, ◌≡◌, ◌≢◌, refl, ◌∙◌, ◌⊎◌, inl, inr, Bool, false, List, [], ◌∷◌, ◌++◌, some, ◌==◌,
  arith, Bool-cases, length,
}
use opentts.Types.{Message, Event, Server}
use opentts.Output.{output_stop}
use opentts.Output.Frame.{SameScheduler, output_stop-SameScheduler}
use opentts.Speaking.Queues.{
  get_queue, speaking_get_queue, speaking_set_queue, split_last, strip_rounds, put-get_queue,
}
use opentts.Speaking.Queues.Ends.{split_last-concat}
use opentts.Speaking.Stop.{
  get_speaking_client_uid, strip_current, stop_any_block, speaking_stop, speaking_stop_all,
}

strip_rounds_refused :
    (rounds : ℕ) (test : Message → Bool) (q front : List ℕ) (last : ℕ) (s : Server)
    → split_last q ≡ some (front, last)
    → test (s.messages last) ≡ false
    → strip_rounds rounds test q s ≡ (q, s)
unfolding strip_rounds
strip_rounds_refused zero test q front last s e refused = refl
strip_rounds_refused (suc rounds) test q front last s e refused = rw (e, refused, strip_rounds)

stop_any_block_refused :
    (s : Server) (front : List ℕ) (last : ℕ)
    → get_queue s.current_priority s.queues ≡ front ++ last ∷ []
    → (s.messages last).settings.reparted ≢ 1
    → ((stop_any_block s).queues ≡ s.queues) × ((stop_any_block s).freed ≡ s.freed)
unfolding stop_any_block strip_current speaking_get_queue speaking_set_queue
stop_any_block_refused s front last parts other =
    let q = get_queue s.current_priority s.queues in
    let e : split_last q ≡ some (front, last) = rw parts (split_last-concat front last) in
    elim (Bool-cases ((s.messages last).settings.reparted == 0)) [
      | inl zero' ↦ rw (e, zero', stop_any_block) (refl, refl)
      | inr block ↦
          rw (e, block, stop_any_block)
            (rw
              (strip_rounds_refused (length q) (λ m. m.settings.reparted == 1) q front last s e
                (ground arith))
              (put-get_queue s.current_priority s.queues, refl))
    ]

module _ (pipe_ok : List Event → Bool) (uid : ℕ) (s : Server) where
  -- STOP for a client that is not the one speaking leaves the queues and the messages alone, and
  -- sends nothing to the module.
  speaking_stop_silent :
      (s.speaking ≡ false) ⊎ (s.speaking_uid ≢ uid)
      → uid ≢ 0
      → SameScheduler s (speaking_stop pipe_ok uid s)
        × ((speaking_stop pipe_ok uid s).events ≡ s.events)
  unfolding speaking_stop get_speaking_client_uid
  speaking_stop_silent (inl off) h = ground arith
  speaking_stop_silent (inr other) h = ground arith

  -- STOP ALL while the last message of the current queue belongs to a block with another number
  -- than 1: no message leaves any queue, and none is freed.
  pub speaking_stop_all_misses :
      (front : List ℕ) (last : ℕ)
      → get_queue s.current_priority s.queues ≡ front ++ last ∷ []
      → (s.messages last).settings.reparted ≢ 1
      → ((speaking_stop_all pipe_ok s).queues ≡ s.queues)
        × ((speaking_stop_all pipe_ok s).freed ≡ s.freed)
  unfolding speaking_stop_all
  speaking_stop_all_misses front last parts other =
      let same = output_stop-SameScheduler pipe_ok s in
      let s' = output_stop pipe_ok s in
      let (q, f) =
        stop_any_block_refused s' front last (rw (same.queues, same.current_priority) parts)
          (rw same.messages other) in
      (q ∙ same.queues, f ∙ same.freed)
