-- ===== src/Speaking/Thread.antt =====
-- What the speaking thread of src/server/speaking.c does when the module that speaks reports something,
-- or dies. Not modelled: `poll_count`, whose effect is that a module is heard only while it speaks.
pub mod Reported
use opentts.Prelude.{
  ℕ, zero, suc, Bool, true, false, not, ◌&&◌, ◌||◌, List, [], ◌∷◌, ◌++◌, Option, none, some, length,
  drop, ◌==◌, leb, if◌then◌else◌,
}
use opentts.Prelude.Int.{ℤ, pos, negsuc, ◌+ℤ◌, ltb_ℤ}
use opentts.Types.{
  Bytes, Priority, message, text, notification, progress, text_type, MessageType, Message, Report,
  begin, end, pause, resume, cancel, mark, Event, Server,
}
use opentts.Clients.{update, get_client_settings_by_uid}
use opentts.Settings.{same_text}
use opentts.Output.{module_failed}
use opentts.IndexMarks.{insert_index_marks, find_index_mark, strip_index_marks, starts_with}
use opentts.QueueMessage.{store_message, queue_message, free_block}
use opentts.Protocol.{minus}
use opentts.Speaking.Queues.{
  cancel_flag, has_flag, report_event, mem_free_message, split_last, same_priority,
}
use opentts.Speaking.Priorities.{stop_priority, stop_priority_older_than}
use opentts.Speaking.Select.{message_nto_speak, find_speakable, get_message_from_queues}
use opentts.Speaking.Pause.{speaking_semaphore_post, speaking_pause, speaking_pause_all}

-- SPD_BEGIN and its like.
abbrev pub flag_of : Report → ℕ
flag_of begin = 1
flag_of end = 2
flag_of pause = 16
flag_of resume = 32
flag_of cancel = cancel_flag
flag_of (mark b) = 4

-- A report about the message at `p`, if its client has asked for it.
unfoldable pub notify : Report → ℕ → Server → Server
notify r p s =
    if has_flag (s.messages p).settings.notification (flag_of r)
    then record s { events = report_event r (s.messages p) ∷ s.events }
    else s

-- SD_MARK_BODY, and the marks with a meaning of their own.
abbrev pub mark_body : Bytes
mark_body = b'_' ∷ b'_' ∷ b's' ∷ b'p' ∷ b'd' ∷ b'_' ∷ []

abbrev pub begin_mark : Bytes
begin_mark = mark_body ++ b'b' ∷ b'e' ∷ b'g' ∷ b'i' ∷ b'n' ∷ []

abbrev pub end_mark : Bytes
end_mark = mark_body ++ b'e' ∷ b'n' ∷ b'd' ∷ []

abbrev pub paused_mark : Bytes
paused_mark = mark_body ++ b'p' ∷ b'a' ∷ b'u' ∷ b's' ∷ b'e' ∷ b'd' ∷ []

abbrev pub stopped_mark : Bytes
stopped_mark = mark_body ++ b's' ∷ b't' ∷ b'o' ∷ b'p' ∷ b'p' ∷ b'e' ∷ b'd' ∷ []

abbrev pub no_mark : Bytes
no_mark = b'n' ∷ b'o' ∷ []

-- What `output_is_speaking` returns; `no_index_mark` if the module answers with an error.
pub data ModuleReply : Type 0 where
  broken_pipe no_index_mark : ModuleReply
  reply_mark : Bytes → ModuleReply

abbrev pub end_of_pause : Message → Message
end_of_pause m = record m { settings = record m.settings { paused_while_speaking = false } }

unfoldable pub on_begin : ℕ → Server → Server
unfolding store_message
on_begin p s =
    let s1 = record s { speaking = true } in
    if not (s.messages p).settings.paused_while_speaking
    then notify begin p s1
    else store_message p (end_of_pause (s.messages p)) (notify resume p s1)

abbrev pub marked : Bytes → Message → Message
marked b m = record m { settings = record m.settings { index_mark = some b } }

unfoldable pub on_index_mark : ℕ → Bytes → Server → Server
unfolding store_message
on_index_mark p b s =
    if starts_with mark_body b
    then store_message p (marked b (s.messages p)) s
    else notify (mark b) p s

unfoldable pub on_mark : ℕ → Bytes → Server → Server
unfolding on_begin on_index_mark
on_mark p b s =
    if same_text b begin_mark
    then on_begin p s
    else if same_text b end_mark
    then speaking_semaphore_post (notify end p (record s { speaking = false }))
    else if same_text b paused_mark
    then record (notify pause p (record s { speaking = false })) { current_message = none }
    else if same_text b stopped_mark
    then speaking_semaphore_post (notify cancel p (record s { speaking = false }))
    else on_index_mark p b s

unfoldable pub forget_module : Server → Server
forget_module s = if s.speaking then s else record s { speaking_module = none }

unfoldable pub on_reply : ℕ → ℕ → ModuleReply → Server → Server
unfolding on_mark forget_module
on_reply m p broken_pipe s = record (module_failed m s) { speaking = false }
on_reply m p no_index_mark s = record s { speaking = false }
on_reply m p (reply_mark b) s = if same_text b no_mark then s else forget_module (on_mark p b s)

unfoldable pub is_sb_speaking : ModuleReply → Server → Server
unfolding on_reply
is_sb_speaking r s = elim s.speaking_module [
  | none ↦ record s { speaking = false; speaking_module = none }
  | some m ↦ elim s.current_message [ none ↦ s | some p ↦ on_reply m p r s ]
]

-- The first part of `speaking_module_cleanup`: the current message is given up.
unfoldable pub discard_current : Server → Server
unfolding notify mem_free_message
discard_current s = elim s.current_message [
  | none ↦ s
  | some p ↦
      let s1 = if s.speaking then notify end p s else s in
      let s2 =
        if not (s.messages p).settings.paused_while_speaking then mem_free_message p s1 else s1 in
      record s2 { current_message = none }
]

unfoldable pub speaking_module_cleanup : Server → Server
unfolding discard_current
speaking_module_cleanup s =
    let s1 = discard_current s in
    let working : ℕ → Bool = elim s1.speaking_module [
      | none ↦ s1.working
      | some m ↦ update s1.working m false
    ] in
    record s1 { speaking = false; working = working; speaking_module = none }
