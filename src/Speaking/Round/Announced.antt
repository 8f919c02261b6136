-- ===== src/Speaking/Round/Announced.antt =====
-- While something is said there is a current message.
use opentts.Prelude.{
  ℕ, ◌≡◌, refl, ◌∙◌, ◌≢◌, inl, inr, Bool, true, false, not, List, [], ◌∷◌, ◌++◌, Option, none, some,
  ◌==◌, if◌then◌else◌, arith, Bool-cases, Option-cases,
}
use opentts.Prelude.Int.{ℤ}
use opentts.Types.{Report, end, pause, cancel, Bytes, Event, Server}
use opentts.QueueMessage.{store_message}
use opentts.Speaking.Queues.{split_last}
use opentts.Settings.{same_text}
use opentts.Speaking.Pause.{speaking_semaphore_post}
use opentts.Speaking.Select.{get_message_from_queues, message_nto_speak}
use opentts.Speaking.Round.{
  is_zero, is_text, handle_resume, say_progress, insert_marks, output_speak, hand_over,
  start_speaking, replace_current, said_progress, say_marked, say_message, say_next, say_something,
  resume_and_say, handle_pause, speak,
}
use opentts.Speaking.Round.Queued.{free_block-SameThread}
use opentts.Speaking.Round.Voice.{
  SameVoice, SameVoices, SameVoice-refl, if-SameVoice, SameThread-SameVoice,
}
use opentts.Speaking.Round.Frame.{
  handle_resume-SameVoice, handle_pause-SameVoice, say_progress-SameVoice,
  get_message_from_queues-SameVoice,
}
use opentts.Output.{module_failed}
use opentts.Speaking.Thread.{
  ModuleReply, broken_pipe, no_index_mark, reply_mark, notify, on_begin, on_index_mark, on_mark,
  forget_module, on_reply, is_sb_speaking, begin_mark, end_mark, paused_mark, stopped_mark, no_mark,
  speaking_module_cleanup,
}

abbrev pub Announced : Server → Type 0
Announced s = s.speaking ≡ true → s.current_message ≢ none

abbrev pub Announces : Option Server → Type 0
Announces none = Unit
Announces (some s) = Announced s

keeps : {s t : Server} → SameVoice s t → Announced s → Announced t
keeps h a on = rw h.current (a (rw h.speaking at on))

silent : (s : Server) → s.speaking ≡ false → Announced s
silent s off on = absurd (ground (arith, off, on))

known : (s : Server) (p : ℕ) → s.current_message ≡ some p → Announced s
known s p cur on gone = absurd (ground (arith, cur, gone))

if-Announced :
    (test : Bool) (a b : Server) → Announced a → Announced b → Announced (if test then a else b)
if-Announced true a b p q = p
if-Announced false a b p q = q

on_begin-current : (p : ℕ) (s : Server) → (on_begin p s).current_message ≡ s.current_message
unfolding on_begin notify store_message
on_begin-current p s = ground arith

on_index_mark-SameVoice : (p : ℕ) (b : Bytes) (s : Server) → SameVoice s (on_index_mark p b s)
unfolding on_index_mark notify store_message
on_index_mark-SameVoice p b s = record { speaking = ground arith; current = ground arith }

notify-speaking : (r : Report) (p : ℕ) (s : Server) → (notify r p s).speaking ≡ s.speaking
unfolding notify
notify-speaking r p s = ground arith

forget_module-SameVoice : (s : Server) → SameVoice s (forget_module s)
unfolding forget_module
forget_module-SameVoice s = record { speaking = ground arith; current = ground arith }

on_mark-Announced :
    (p : ℕ) (b : Bytes) (s : Server)
    → s.current_message ≡ some p
    → Announced s
    → Announced (on_mark p b s)
unfolding on_mark speaking_semaphore_post
on_mark-Announced p b s cur h =
    let off : Server = record s { speaking = false } in
    let ended : Server = speaking_semaphore_post (notify end p off) in
    let paused : Server = record (notify pause p off) { current_message = none } in
    let stopped : Server = speaking_semaphore_post (notify cancel p off) in
    let other = on_index_mark p b s in
    let last = if same_text b stopped_mark then stopped else other in
    let later = if same_text b paused_mark then paused else last in
    if-Announced (same_text b begin_mark) (on_begin p s)
      (if same_text b end_mark then ended else later)
      (known (on_begin p s) p (on_begin-current p s ∙ cur))
      (if-Announced (same_text b end_mark) ended later (silent ended (notify-speaking end p off)) (
        if-Announced (same_text b paused_mark) paused last
          (silent paused (notify-speaking pause p off))
          (if-Announced (same_text b stopped_mark) stopped other
            (silent stopped (notify-speaking cancel p off))
            (keeps (on_index_mark-SameVoice p b s) h))))

on_reply-Announced :
    (m p : ℕ) (r : ModuleReply) (s : Server)
    → s.current_message ≡ some p
    → Announced s
    → Announced (on_reply m p r s)
unfolding on_reply
on_reply-Announced m p broken_pipe s cur h = λ on. absurd (ground (arith, on))
on_reply-Announced m p no_index_mark s cur h = λ on. absurd (ground (arith, on))
on_reply-Announced m p (reply_mark b) s cur h =
    if-Announced (same_text b no_mark) s (forget_module (on_mark p b s)) h
      (keeps (forget_module-SameVoice (on_mark p b s)) (on_mark-Announced p b s cur h))

pub is_sb_speaking-Announced :
    (r : ModuleReply) (s : Server) → Announced s → Announced (is_sb_speaking r s)
unfolding is_sb_speaking
is_sb_speaking-Announced r s h = elim (Option-cases s.speaking_module) [
  | inl none_speaks ↦ rw (none_speaks, is_sb_speaking) (λ on. absurd (ground (arith, on)))
  | inr (m, on) ↦ elim (Option-cases s.current_message) [
    | inl nothing ↦ rw (on, is_sb_speaking) (rw nothing h)
    | inr (p, cur) ↦ rw (on, is_sb_speaking) (rw cur (on_reply-Announced m p r s cur h))
  ]
]

speaking_module_cleanup-Announced : (s : Server) → Announced (speaking_module_cleanup s)
unfolding speaking_module_cleanup
speaking_module_cleanup-Announced s on = absurd (ground (arith, on))

module _ (module_of : Server → ℕ → Option ℕ) (deliver : Server → ℕ → ℤ × Bool) where
  output_speak-SameVoice : (p : ℕ) (s : Server) → SameVoice s (output_speak module_of deliver p s).1
  unfolding output_speak hand_over store_message module_failed
  output_speak-SameVoice p s = elim (Option-cases (module_of s p)) [
    | inl none_works ↦ rw (none_works, output_speak) (SameVoice-refl s)
    | inr (target, chosen) ↦
        let s1 = hand_over target p s in
        let broken = (deliver s1 p).1 in
        let handed : SameVoice s s1 = record { speaking = refl; current = refl } in
        let failed : SameVoice s (module_failed target s1) = record {
          speaking = refl;
          current = refl;
        } in
        rw (chosen, output_speak) (if-SameVoice broken failed handed)
  ]

insert_marks-SameVoice :
    (isspace : Bytes → Bool) (p : ℕ) (s : Server) → SameVoices s (insert_marks isspace p s)
unfolding insert_marks store_message
insert_marks-SameVoice isspace p s = elim (Bool-cases (is_text (s.messages p).settings.type)) [
  | inl on ↦ elim (Option-cases (s.messages p).buf) [
    | inl empty ↦ rw (on, insert_marks) (rw empty tt)
    | inr (buf, filled) ↦
        rw (on, insert_marks) (rw filled (record { speaking = refl; current = refl }))
  ]
  | inr off ↦ rw (off, insert_marks) (SameVoice-refl s)
]

said_progress-SameVoice : (p : ℕ) (s : Server) → SameVoice s (said_progress p s)
unfolding said_progress
said_progress-SameVoice p s = elim (Option-cases (split_last s.last_p5_block)) [
  | inl empty ↦ rw (empty, said_progress) (SameVoice-refl s)
  | inr ((front, last), e) ↦
      let same = (s.messages last).settings.reparted == (s.messages p).settings.reparted in
      rw (e, said_progress)
        (if-SameVoice same (SameThread-SameVoice (free_block-SameThread s.last_p5_block s))
          (SameVoice-refl s))
]

start_speaking-current : (p : ℕ) (s : Server) → (start_speaking p s).current_message ≡ some p
unfolding start_speaking replace_current
start_speaking-current p s =
    let s1 = record s { speaking = true; speaking_uid = (s.messages p).settings.uid } in
    (said_progress-SameVoice p (replace_current p s1)).current

SameVoices-Announces : (s : Server) (o : Option Server) → SameVoices s o → Announced s → Announces o
SameVoices-Announces s none same h = tt
SameVoices-Announces s (some t) same h = keeps same h

-- What is done with a state, if there is one.
and_then-Announces :
    (o : Option Server) (f : Server → Option Server)
    → Announces o
    → ((t : Server) → Announced t → Announces (f t))
    → Announces (elim o [ none ↦ none | some t ↦ f t ])
and_then-Announces none f h g = tt
and_then-Announces (some t) f h g = g t h

if-Announces :
    (test : Bool) (a b : Option Server)
    → Announces a
    → Announces b
    → Announces (if test then a else b)
if-Announces true a b p q = p
if-Announces false a b p q = q

module _ (pipe_ok : List Event → Bool) (strtol : Bytes → Option ℤ) (isspace : Bytes → Bool)
    (module_of : Server → ℕ → Option ℕ) (deliver : Server → ℕ → ℤ × Bool) where
  say_marked-Announced :
      (p : ℕ) (s : Server)
      → Announced s
      → Announced (say_marked pipe_ok strtol isspace module_of deliver p s)
  unfolding say_marked
  say_marked-Announced p s h =
      let (ret, s1) = output_speak module_of deliver p s in
      if-Announced (is_zero ret) (start_speaking p s1) s1
        (known (start_speaking p s1) p (start_speaking-current p s1))
        (keeps (output_speak-SameVoice module_of deliver p s) h)

  say_message-Announced :
      (p : ℕ) (s : Server)
      → Announced s
      → Announces (say_message pipe_ok strtol isspace module_of deliver p s)
  unfolding say_message
  say_message-Announced p s h =
      let say = say_marked pipe_ok strtol isspace module_of deliver p in
      let later : Server = record s { paused_list = s.paused_list ++ p ∷ [] } in
      if-Announces (message_nto_speak s p) (some later)
        (elim (insert_marks isspace p s) [ none ↦ none | some s1 ↦ some (say s1) ])
        (keeps {s = s} {t = later} (record { speaking = refl; current = refl }) h)
        (and_then-Announces (insert_marks isspace p s) (λ s1. some (say s1))
          (SameVoices-Announces s (insert_marks isspace p s) (insert_marks-SameVoice isspace p s) h)
          (say_marked-Announced p))

  say_next-Announced :
      (s : Server) → Announced s → Announces (say_next pipe_ok strtol isspace module_of deliver s)
  unfolding say_next
  say_next-Announced s h =
      let s1 = (get_message_from_queues s).1 in
      let still : Announced s1 = keeps (get_message_from_queues-SameVoice s) h in
      elim (Option-cases ((get_message_from_queues s).0)) [
        | inl nothing ↦ rw (nothing, say_next) still
        | inr (p, e) ↦ rw (e, say_next) (say_message-Announced p s1 still)
      ]

  say_something-Announced :
      (s : Server)
      → Announced s
      → Announces (say_something pipe_ok strtol isspace module_of deliver s)
  unfolding say_something
  say_something-Announced s h = elim (Option-cases (split_last s.last_p5_block)) [
    | inl empty ↦ rw (empty, say_something) (say_next-Announced s h)
    | inr ((front, last), e) ↦
        rw (e, say_something)
          (by_queue s.queues.p5 (say_progress pipe_ok last s)
            (say_next pipe_ok strtol isspace module_of deliver s)
            (keeps (say_progress-SameVoice pipe_ok last s) h) (say_next-Announced s h))
  ]
    where
      by_queue :
          (q : List ℕ) (b : Server) (a : Option Server)
          → Announced b
          → Announces a
          → Announces (elim q [ [] ↦ some b | p ∷ q1 ↦ a ])
      by_queue [] b a x y = x
      by_queue (p ∷ q1) b a x y = y

  resume_and_say-Announced :
      (s : Server)
      → Announced s
      → Announces (resume_and_say pipe_ok strtol isspace module_of deliver s)
  unfolding resume_and_say
  resume_and_say-Announced s h =
      let say = say_something pipe_ok strtol isspace module_of deliver in
      let resumed = handle_resume pipe_ok strtol s in
      if-Announces s.resume_requested (elim resumed [ none ↦ none | some s1 ↦ say s1 ]) (say s)
        (and_then-Announces resumed say
          (SameVoices-Announces s resumed (handle_resume-SameVoice pipe_ok strtol s) h)
          say_something-Announced)
        (say_something-Announced s h)

  speak-Announced :
      (s : Server) → Announced s → Announces (speak pipe_ok strtol isspace module_of deliver s)
  unfolding speak
  speak-Announced s h =
      let rest = resume_and_say pipe_ok strtol isspace module_of deliver s in
      if-Announces (not (s.pause_requested == 0)) (some (handle_pause pipe_ok s))
        (if s.speaking then some s else rest) (keeps (handle_pause-SameVoice pipe_ok s) h)
        (if-Announces s.speaking (some s) rest h (resume_and_say-Announced s h))

  -- What can happen while the speaking thread runs: its module reports something, or dies, `speak` goes
  -- through a round, or the thread of the clients does something, as `queue_message`, that leaves
  -- SPEAKING and the current message alone.
  pub data Step : Server → Server → Type 0 where
    reported : (r : ModuleReply) (s : Server) → Step s (is_sb_speaking r s)
    died : (s : Server) → Step s (speaking_module_cleanup s)
    round : (s t : Server) → speak pipe_ok strtol isspace module_of deliver s ≡ some t → Step s t
    clients : (s t : Server) → SameVoice s t → Step s t

  pub data Reached (s : Server) : Server → Type 0 where
    start : Reached s s
    next : (t u : Server) → Reached s t → Step t u → Reached s u

  Step-Announced : {s t : Server} → Step s t → Announced s → Announced t
  Step-Announced (reported r s) h = is_sb_speaking-Announced r s h
  Step-Announced (died s) h = speaking_module_cleanup-Announced s
  Step-Announced (round s t e) h =
      let after : Announces (some t) = rw e at (speak-Announced s h) in after
  Step-Announced (clients s t same) h = keeps same h

  -- From a state in which nothing is said, whatever the module reports, however often it dies, and
  -- whichever rounds `speak` goes through between steps of the clients that leave SPEAKING and the
  -- current message alone: while SPEAKING is set there is a current message.
  pub Reached-Announced :
      (s t : Server)
      → s.speaking ≡ false
      → Reached s t
      → t.speaking ≡ true
      → t.current_message ≢ none
  Reached-Announced s _ off start = silent s off
  Reached-Announced s _ off (next x t path step) =
      Step-Announced step (Reached-Announced s x off path)
