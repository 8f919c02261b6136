-- ===== src/Speaking/Round.antt =====
-- A round of `speak` of src/server/speaking.c, and messages that are loaded again after a pause. `none`
-- as a result is the end of the process.
-- Parameters: `strtol` reads a number (`none` if there are no digits), `isspace` is that of IndexMarks,
-- `module_of` is the choice of a module in src/server/output.c, and `deliver` the talk with it while a
-- message is handed over, as the value that it ends with and whether the pipe broke. Not modelled:
-- `thread_must_stop`.
pub mod Accounts
pub mod Conserved
pub mod Resumed
pub mod Queued
pub mod Voice
pub mod Frame
pub mod Announced
use opentts.Prelude.{
  ℕ, zero, suc, Bool, true, false, not, ◌&&◌, ◌||◌, List, [], ◌∷◌, ◌++◌, Option, none, some, length,
  drop, ◌==◌, leb, if◌then◌else◌,
}
use opentts.Prelude.Int.{ℤ, pos, negsuc, ◌+ℤ◌, ltb_ℤ}
use opentts.Types.{
  Bytes, Priority, message, text, notification, progress, text_type, sound_icon_type, char_type,
  key_type, MessageType, DataMode, data_text, Message, Settings, Event, Server,
}
use opentts.Clients.{update, get_client_settings_by_uid}
use opentts.Output.{module_failed}
use opentts.Output.Dots.{escape_dot}
use opentts.IndexMarks.{insert_index_marks, find_index_mark, strip_index_marks}
use opentts.QueueMessage.{store_message, queue_message, free_block}
use opentts.Protocol.{minus}
use opentts.Speaking.Queues.{mem_free_message, split_last}
use opentts.Speaking.Priorities.{stop_priority, stop_priority_older_than}
use opentts.Speaking.Select.{message_nto_speak, find_speakable, get_message_from_queues}
use opentts.Speaking.Pause.{speaking_semaphore_post, speaking_pause, speaking_pause_all}

-- The text behind the mark with the number `im`, or the whole text for a number below 0.
abbrev pub text_from : ℤ → Bytes → Option Bytes
text_from (pos n) buf = find_index_mark buf n
text_from (negsuc n) buf = some buf

abbrev pub with_buf : Bytes → Message → Message
with_buf b m = record m { buf = some b; bytes = pos (length b) }

abbrev pub is_zero : ℤ → Bool
is_zero (pos zero) = true
is_zero (pos (suc n)) = false
is_zero (negsuc n) = false

-- The message is a text again or not at all: `insert_index_marks` of `speak`.
abbrev pub is_text : MessageType → Bool
is_text text_type = true
is_text sound_icon_type = false
is_text char_type = false
is_text key_type = false

-- `g_list_insert_sorted` with `sortbyuid`.
unfoldable pub insert_sorted : (ℕ → Message) → ℕ → List ℕ → List ℕ
insert_sorted store p [] = p ∷ []
insert_sorted store p (q ∷ qs) = elim (leb (store p).id (store q).id) [
  | true ↦ p ∷ q ∷ qs
  | false ↦ q ∷ insert_sorted store p qs
]

-- The messages of `last_p5_block` go to the queue of SPD_MESSAGE.
unfoldable pub transfer : (ℕ → Message) → List ℕ → List ℕ → List ℕ
unfolding insert_sorted
transfer store [] p2 = p2
transfer store (p ∷ block) p2 = transfer store block (insert_sorted store p p2)

module _ (pipe_ok : List Event → Bool) where
  -- What `speak` does with the last block of progress messages, of which `last` is the last.
  unfoldable pub say_progress : ℕ → Server → Server
  unfolding transfer
  say_progress last s =
      let s1 = record s {
        queues = record s.queues { p2 = transfer s.messages s.last_p5_block s.queues.p2 };
        last_p5_block = [];
        current_priority = message;
      } in
      let s2 = stop_priority_older_than pipe_ok text (s.messages last).id s1 in
      speaking_semaphore_post
        (stop_priority pipe_ok progress (stop_priority pipe_ok notification s2))

  unfoldable pub handle_pause : Server → Server
  handle_pause s =
      let s1 : Server =
        if s.pause_requested == 1
        then (speaking_pause_all pipe_ok s).1
        else if s.pause_requested == 2
        then (speaking_pause pipe_ok s.pause_requested_uid s).1
        else s in
      record s1 { pause_requested = 0 }

module _ (pipe_ok : List Event → Bool) (strtol : Bytes → Option ℤ) where
  -- `queue_message` for a message that is there already. A result of 0 is taken for a failure.
  unfoldable pub queue_reloaded : ℕ → Server → Option Server
  queue_reloaded p s =
      elim (queue_message pipe_ok (some p) (minus (s.messages p).settings.uid) text_type 0 s) [
        | none ↦ none
        | some (pos zero, s1) ↦ some (mem_free_message p s1)
        | some (pos (suc id), s1) ↦ some s1
        | some (negsuc r, s1) ↦ some s1
      ]

  -- From the number `im` on, with the context that the client wants.
  unfoldable pub reload_from : ℤ → ℕ → Settings → Server → Option Server
  unfolding queue_reloaded
  reload_from im p client s = elim (s.messages p).buf [
    | none ↦ none
    | some buf ↦ elim (text_from (im +ℤ client.pause_context) buf) [
      | none ↦ some s
      | some rest ↦
          let stripped = strip_index_marks rest client.ssml_mode in
          queue_reloaded p (store_message p (with_buf stripped (s.messages p)) s)
    ]
  ]

  unfoldable pub reload_message : ℕ → Server → Option Server
  unfolding reload_from queue_reloaded
  reload_message p s = elim (s.messages p).settings.index_mark [
    | none ↦ queue_reloaded p s
    | some b ↦ elim (strtol (drop 6 b)) [
      | none ↦ some s
      | some im ↦ elim (get_client_settings_by_uid s (pos (s.messages p).settings.uid)) [
        | none ↦ none
        | some client ↦ reload_from im p client s
      ]
    ]
  ]

  -- The loop of a resume request: at most one round for each message of the list.
  unfoldable pub resume_rounds : ℕ → Server → Option Server
  unfolding reload_message
  resume_rounds zero s = some s
  resume_rounds (suc fuel) s = elim (find_speakable s s.paused_list) [
    | none ↦ some s
    | some (p, rest) ↦ elim (reload_message p (record s { paused_list = rest })) [
      | none ↦ none
      | some s1 ↦ resume_rounds fuel s1
    ]
  ]

  unfoldable pub handle_resume : Server → Option Server
  unfolding resume_rounds
  handle_resume s = elim (resume_rounds (length s.paused_list) s) [
    | none ↦ none
    | some s1 ↦ some (record s1 { resume_requested = false })
  ]

-- Index marks for a text; a message without a text ends the process (`assert`).
unfoldable pub insert_marks : (Bytes → Bool) → ℕ → Server → Option Server
unfolding store_message
insert_marks isspace p s =
    let m = s.messages p in
    if is_text m.settings.type
    then elim m.buf [
      | none ↦ none
      | some buf ↦
          let text = insert_index_marks isspace m.settings.ssml_mode buf in
          some (store_message p (record m { buf = some text }) s)
    ]
    else some s

-- `escape_dot`, `bytes` of -1, and `output_set_speaking_monitor`.
unfoldable pub hand_over : ℕ → ℕ → Server → Server
unfolding store_message
hand_over target p s =
    let m = s.messages p in
    record (store_message p (record m { buf = escape_dot m.buf; bytes = negsuc 0 }) s) {
      speaking_module = some target;
      speaking_uid = m.settings.uid;
      speaking_gid = m.settings.reparted;
    }

module _ (module_of : Server → ℕ → Option ℕ) (deliver : Server → ℕ → ℤ × Bool) where
  unfoldable pub output_speak : ℕ → Server → ℤ × Server
  unfolding hand_over
  output_speak p s = elim (module_of s p) [
    | none ↦ (negsuc 0, s)
    | some target ↦
        let s1 = hand_over target p s in
        let (ret, broken) = deliver s1 p in (ret, if broken then module_failed target s1 else s1)
  ]

-- The message that was said before is freed, if it was not paused.
unfoldable pub replace_current : ℕ → Server → Server
unfolding mem_free_message
replace_current p s =
    let freed : Server = elim s.current_message [
      | none ↦ s
      | some q ↦
          if not (s.messages q).settings.paused_while_speaking then mem_free_message q s else s
    ] in
    record freed { current_message = some p }

-- The last block of progress messages is not needed any more if this message is of it.
unfoldable pub said_progress : ℕ → Server → Server
said_progress p s = elim (split_last s.last_p5_block) [
  | none ↦ s
  | some (_, last) ↦
      if (s.messages last).settings.reparted == (s.messages p).settings.reparted
      then free_block s.last_p5_block s
      else s
]

unfoldable pub start_speaking : ℕ → Server → Server
unfolding replace_current said_progress
start_speaking p s =
    said_progress p
      (replace_current p (record s { speaking = true; speaking_uid = (s.messages p).settings.uid }))

module _ (pipe_ok : List Event → Bool) (strtol : Bytes → Option ℤ) (isspace : Bytes → Bool)
    (module_of : Server → ℕ → Option ℕ) (deliver : Server → ℕ → ℤ × Bool) where
  unfoldable pub say_marked : ℕ → Server → Server
  unfolding output_speak start_speaking
  say_marked p s =
      let (ret, s1) = output_speak module_of deliver p s in
      if is_zero ret then start_speaking p s1 else s1

  -- What `speak` does with the message that it took from its queue.
  unfoldable pub say_message : ℕ → Server → Option Server
  unfolding insert_marks say_marked
  say_message p s =
      if message_nto_speak s p
      then some (record s { paused_list = s.paused_list ++ p ∷ [] })
      else elim (insert_marks isspace p s) [ none ↦ none | some s1 ↦ some (say_marked p s1) ]

  unfoldable pub say_next : Server → Option Server
  unfolding say_message
  say_next s = elim ((get_message_from_queues s).0) [
    | none ↦ some (get_message_from_queues s).1
    | some p ↦ say_message p (get_message_from_queues s).1
  ]

  -- A block of progress messages that came to its end, or the next message.
  unfoldable pub say_something : Server → Option Server
  unfolding say_next say_progress
  say_something s = elim (split_last s.last_p5_block) [
    | none ↦ say_next s
    | some (_, last) ↦ elim s.queues.p5 [
      | [] ↦ some (say_progress pipe_ok last s)
      | p ∷ q ↦ say_next s
    ]
  ]

  unfoldable pub resume_and_say : Server → Option Server
  unfolding say_something handle_resume
  resume_and_say s =
      if s.resume_requested
      then elim (handle_resume pipe_ok strtol s) [ none ↦ none | some s1 ↦ say_something s1 ]
      else say_something s

  -- The rest of a round of `speak`, behind what the module has reported.
  unfoldable pub speak : Server → Option Server
  unfolding handle_pause resume_and_say
  speak s =
      if not (s.pause_requested == 0)
      then some (handle_pause pipe_ok s)
      else if s.speaking
      then some s
      else resume_and_say s
