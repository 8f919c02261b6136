-- ===== src/Speaking/Thread/Reported.antt =====
-- What the clients hear when a module reports something.
use opentts.Prelude.{
  ℕ, ◌≡◌, refl, ◌⊎◌, inl, inr, Bool, true, false, not, List, ◌∷◌, none, some, if◌then◌else◌,
  Bool-cases,
}
use opentts.Types.{Bytes, Message, Report, begin, end, pause, resume, cancel, mark, Event, Server}
use opentts.Output.{module_failed}
use opentts.Settings.{same_text}
use opentts.QueueMessage.{store_message}
use opentts.Speaking.Queues.{has_flag, report_event}
use opentts.IndexMarks.{starts_with}
use opentts.Speaking.Pause.{speaking_semaphore_post}
use opentts.Speaking.Thread.{
  ModuleReply, broken_pipe, no_index_mark, reply_mark, flag_of, notify, on_begin, on_index_mark,
  on_mark, end_of_pause, marked, mark_body, forget_module, on_reply, is_sb_speaking, begin_mark,
  end_mark, paused_mark, stopped_mark, no_mark,
}

-- One report about the message, that its client has asked for.
pub record Asked (m : Message) (before after : List Event) : Type 0 where
  pub what : Report
  pub asked : has_flag m.settings.notification (flag_of what) ≡ true
  pub said : after ≡ report_event what m ∷ before

-- Nobody is told anything, or one report goes out.
abbrev pub Told : Message → Server → Server → Type 0
Told m s t = (t.events ≡ s.events) ⊎ Asked m s.events t.events

notify-Told : (r : Report) (p : ℕ) (s : Server) → Told (s.messages p) s (notify r p s)
unfolding notify
notify-Told r p s = elim (Bool-cases (has_flag (s.messages p).settings.notification (flag_of r))) [
  | inl on ↦ rw (on, notify) (inr (record { what = r; asked = on; said = refl }))
  | inr off ↦ rw (off, notify) (inl refl)
]

if-Told :
    (test : Bool) (m : Message) (s a b : Server)
    → Told m s a
    → Told m s b
    → Told m s (if test then a else b)
if-Told true m s a b p q = p
if-Told false m s a b p q = q

on_begin-Told : (p : ℕ) (s : Server) → Told (s.messages p) s (on_begin p s)
unfolding on_begin store_message
on_begin-Told p s =
    let m = s.messages p in
    let on : Server = record s { speaking = true } in
    let resumed = store_message p (end_of_pause m) (notify resume p on) in
    if-Told (not m.settings.paused_while_speaking) m s (notify begin p on) resumed
      (notify-Told begin p on) (notify-Told resume p on)

on_index_mark-Told : (p : ℕ) (b : Bytes) (s : Server) → Told (s.messages p) s (on_index_mark p b s)
unfolding on_index_mark store_message
on_index_mark-Told p b s =
    let m = s.messages p in
    if-Told (starts_with mark_body b) m s (store_message p (marked b m) s) (notify (mark b) p s)
      (inl refl) (notify-Told (mark b) p s)

on_mark-Told : (p : ℕ) (b : Bytes) (s : Server) → Told (s.messages p) s (on_mark p b s)
unfolding on_mark speaking_semaphore_post
on_mark-Told p b s =
    let m = s.messages p in
    let off : Server = record s { speaking = false } in
    let ended : Server = speaking_semaphore_post (notify end p off) in
    let paused : Server = record (notify pause p off) { current_message = none } in
    let stopped : Server = speaking_semaphore_post (notify cancel p off) in
    let other = on_index_mark p b s in
    let last = if same_text b stopped_mark then stopped else other in
    let later = if same_text b paused_mark then paused else last in
    if-Told (same_text b begin_mark) m s (on_begin p s)
      (if same_text b end_mark then ended else later) (on_begin-Told p s)
      (if-Told (same_text b end_mark) m s ended later (notify-Told end p off) (
        if-Told (same_text b paused_mark) m s paused last (notify-Told pause p off) (
          if-Told (same_text b stopped_mark) m s stopped other (notify-Told cancel p off)
            (on_index_mark-Told p b s))))

forget_module-Told : (m : Message) (s t : Server) → Told m s t → Told m s (forget_module t)
unfolding forget_module
forget_module-Told m s t h = if-Told t.speaking m s t (record t { speaking_module = none }) h h

on_reply-Told : (m p : ℕ) (r : ModuleReply) (s : Server) → Told (s.messages p) s (on_reply m p r s)
unfolding on_reply module_failed
on_reply-Told m p broken_pipe s = inl refl
on_reply-Told m p no_index_mark s = inl refl
on_reply-Told m p (reply_mark b) s =
    if-Told (same_text b no_mark) (s.messages p) s s (forget_module (on_mark p b s)) (inl refl)
      (forget_module-Told (s.messages p) s (on_mark p b s) (on_mark-Told p b s))

-- While a module speaks a message, whatever it answers, `is_sb_speaking` tells the client of that
-- message at most one thing, and only one that the client has asked for.
pub is_sb_speaking-Told :
    (r : ModuleReply) (p m : ℕ) (s : Server)
    → s.speaking_module ≡ some m
    → s.current_message ≡ some p
    → Told (s.messages p) s (is_sb_speaking r s)
unfolding is_sb_speaking
is_sb_speaking-Told r p m s on cur = rw (on, is_sb_speaking) (rw cur (on_reply-Told m p r s))
