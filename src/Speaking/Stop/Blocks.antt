-- ===== src/Speaking/Stop/Blocks.antt =====
-- STOP takes the rest of a block off its queue.
use mathlib.Core.List.{append-nil}
use opentts.Prelude.{
  ℕ, ◌≡◌, ◌≢◌, refl, sym, ◌∙◌, inl, inr, Bool, true, not, ◌&&◌, List, [], ◌∷◌, ◌++◌, ◌==◌, arith,
  Bool-cases, length,
}
use opentts.Types.{Message, Event, Server}
use opentts.Output.{output_stop}
use opentts.Output.Frame.{SameScheduler, SameScheduler-refl, output_stop-SameScheduler}
use opentts.Speaking.Queues.{
  get_queue, put_queue, speaking_get_queue, speaking_set_queue, put-get_queue,
}
use opentts.Speaking.Queues.Ends.{
  split_last-Unlinked, split_last-concat, Accepted, EndsRefused, strip_rounds-Stripped,
}
use opentts.Speaking.Stop.{
  get_speaking_client_uid, in_group, strip_current, stop_block, speaking_stop,
}

-- From `s` to `t`, the messages `tail`, all accepted by the test, left the end of the queue of
-- the current priority and were freed; those in front stayed, and so did the other queues.
pub record TookOff (test : Message → Bool) (s t : Server) (front tail : List ℕ) : Type 0 where
  pub parts : get_queue s.current_priority s.queues ≡ front ++ tail
  pub queues : t.queues ≡ put_queue s.current_priority front s.queues
  pub freed : t.freed ≡ tail ++ s.freed
  pub messages : t.messages ≡ s.messages
  pub accepted : Accepted test s.messages tail

-- The same, and nothing more could be taken.
abbrev pub TookAll : (Message → Bool) → Server → Server → Type 0
TookAll test s t =
    (front : List ℕ) × (tail : List ℕ) × TookOff test s t front tail
    × EndsRefused test s.messages front

pub strip_current-TookAll :
    (test : Message → Bool) (s : Server) → TookAll test s (strip_current test s)
unfolding strip_current speaking_get_queue speaking_set_queue
strip_current-TookAll test s =
    let q = get_queue s.current_priority s.queues in
    let (front, tail, r, parts, accepted, rest) =
      strip_rounds-Stripped (length q) test q s (omega arith) in
    (
      front,
      tail,
      record {
        parts = parts;
        queues = rw r refl;
        freed = rw r refl;
        messages = rw r refl;
        accepted = accepted;
      },
      rest,
    )

pub TookOff-nothing :
    (test : Message → Bool) (s t : Server)
    → SameScheduler s t
    → TookOff test s t (get_queue s.current_priority s.queues) []
TookOff-nothing test s t same = record {
  parts = sym (append-nil (get_queue s.current_priority s.queues));
  queues = same.queues ∙ sym (put-get_queue s.current_priority s.queues);
  freed = same.freed;
  messages = same.messages;
  accepted = tt;
}

TookOff-from :
    {test : Message → Bool} {s s' t : Server} {front tail : List ℕ}
    → SameScheduler s s'
    → TookOff test s' t front tail
    → TookOff test s t front tail
TookOff-from same took = record {
  parts = rw (same.queues, same.current_priority) at (took.parts);
  queues = rw (same.queues, same.current_priority) at (took.queues);
  freed = rw same.freed at (took.freed);
  messages = took.messages ∙ same.messages;
  accepted = rw same.messages at (took.accepted);
}

TookAll-from :
    {test : Message → Bool} {s s' t : Server}
    → SameScheduler s s'
    → TookAll test s' t
    → TookAll test s t
TookAll-from same (front, tail, took, rest) =
    (front, tail, TookOff-from same took, rw same.messages at rest)

stop_block-eq-strip_current :
    (uid : ℕ) (s : Server) (front : List ℕ) (last gid : ℕ)
    → get_queue s.current_priority s.queues ≡ front ++ last ∷ []
    → (s.messages last).settings.uid ≡ uid
    → (s.messages last).settings.reparted ≡ gid
    → gid ≢ 0
    → stop_block uid s ≡ strip_current (in_group gid uid) s
unfolding stop_block
stop_block-eq-strip_current uid s front last gid parts owner group block =
    rw (parts, split_last-concat front last, stop_block) (ground arith)

get_speaking_client_uid-SameScheduler : (s : Server) → SameScheduler s (get_speaking_client_uid s).1
unfolding get_speaking_client_uid
get_speaking_client_uid-SameScheduler s = ground arith

Accepted-in_group :
    (h : ℕ → Message) (gid uid : ℕ) (q : List ℕ)
    → Accepted (in_group gid uid) h q
    → Accepted (λ m. m.settings.uid == uid) h q
Accepted-in_group h gid uid [] a = tt
Accepted-in_group h gid uid (p ∷ q) a = (ground arith, Accepted-in_group h gid uid q a.1)

stop_block-TookOff :
    (uid : ℕ) (s : Server)
    → (front : List ℕ) × (tail : List ℕ) × TookOff
        (λ m. m.settings.uid == uid)
        s
        (stop_block uid s)
        front
        tail
unfolding stop_block
stop_block-TookOff uid s =
    let nothing = TookOff-nothing (λ m. m.settings.uid == uid) s s (SameScheduler-refl s) in
    let q = get_queue s.current_priority s.queues in
    elim (split_last-Unlinked q) [
      | inl (e, empty) ↦ (q, [], rw (e, stop_block) nothing)
      | inr (front, last, e, parts) ↦
          let gid = (s.messages last).settings.reparted in
          elim (Bool-cases (not (gid == 0) && (s.messages last).settings.uid == uid)) [
            | inl own ↦
                let (f, t, took, _) = strip_current-TookAll (in_group gid uid) s in
                (
                  f,
                  t,
                  rw (e, own, stop_block)
                      (record {
                        parts = took.parts;
                        queues = took.queues;
                        freed = took.freed;
                        messages = took.messages;
                        accepted = Accepted-in_group s.messages gid uid t took.accepted;
                      }),
                )
            | inr other ↦ (q, [], rw (e, other, stop_block) nothing)
          ]
    ]

module _ (pipe_ok : List Event → Bool) (uid : ℕ) (s : Server) where
  -- STOP from the client that is speaking, whose block numbered `gid` is at the end of the current
  -- queue: all messages of the block at that end go, up to the first that is not of the block.
  pub speaking_stop-TookAll :
      (front : List ℕ) (last gid : ℕ)
      → s.speaking ≡ true
      → s.speaking_uid ≡ uid
      → get_queue s.current_priority s.queues ≡ front ++ last ∷ []
      → (s.messages last).settings.uid ≡ uid
      → (s.messages last).settings.reparted ≡ gid
      → gid ≢ 0
      → TookAll (in_group gid uid) s (speaking_stop pipe_ok uid s)
  unfolding speaking_stop
  speaking_stop-TookAll front last gid on speaker parts owner group block =
      let same = output_stop-SameScheduler pipe_ok s in
      let s' = output_stop pipe_ok s in
      let e : speaking_stop pipe_ok uid s ≡ stop_block uid s' = ground arith in
      rw
        (
          e,
          stop_block-eq-strip_current uid s' front last gid
              (rw (same.queues, same.current_priority) parts) (rw same.messages owner)
              (rw same.messages group) block,
        )
        (TookAll-from same (strip_current-TookAll (in_group gid uid) s'))

  -- Whatever STOP takes off a queue belongs to the client.
  pub speaking_stop-TookOff :
      (front : List ℕ) × (tail : List ℕ) × TookOff
        (λ m. m.settings.uid == uid)
        s
        (speaking_stop pipe_ok uid s)
        front
        tail
  unfolding speaking_stop
  speaking_stop-TookOff =
      let (speaker, s1) = get_speaking_client_uid s in
      elim (Bool-cases (speaker == uid)) [
        | inl own ↦
            let (front, tail, took) = stop_block-TookOff uid (output_stop pipe_ok s1) in
            (
              front,
              tail,
              rw (own, speaking_stop)
                  (TookOff-from speaker-SameScheduler
                    (TookOff-from (output_stop-SameScheduler pipe_ok s1) took)),
            )
        | inr other ↦ (
          get_queue s.current_priority s.queues,
          [],
          rw (other, speaking_stop)
              (TookOff-nothing (λ m. m.settings.uid == uid) s s1 speaker-SameScheduler),
        )
      ]
    where
      speaker-SameScheduler : SameScheduler s (get_speaking_client_uid s).1
      speaker-SameScheduler = get_speaking_client_uid-SameScheduler s
