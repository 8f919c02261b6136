-- ===== src/QueueMessage.antt =====
-- src/server/server.c: how a message comes into the queues; `copy_message` of src/server/alloc.c.
-- `none` as a result is the end of the process: FATAL, or a NULL pointer that is followed.
pub mod Placed
pub mod Block
use opentts.Prelude.{
  ℕ, zero, suc, ◌+◌, Bool, true, false, not, ◌||◌, List, [], ◌∷◌, ◌++◌, Option, none, some, ◌==◌,
  if◌then◌else◌, take,
}
use opentts.Prelude.Int.{ℤ, pos, negsuc}
use opentts.Types.{Bytes, Priority, progress, MessageType, Settings, Message, Event, Server}
use opentts.Clients.{update, get_client_settings_by_fd, get_client_settings_by_uid}
use opentts.Speaking.Queues.{
  speaking_get_queue, speaking_set_queue, split_last, mem_free_message, same_priority,
}
use opentts.Speaking.Pause.{speaking_semaphore_post}
use opentts.Speaking.Priorities.{resolve_priorities}

unfoldable pub store_message : ℕ → Message → Server → Server
store_message p m s = record s { messages = update s.messages p m }

-- Not `buf == NULL` and not `strlen(buf) < 1`.
abbrev pub has_text : Option Bytes → Bool
has_text none = false
has_text (some []) = false
has_text (some (c ∷ cs)) = not (c == 0)

abbrev pub copied : ℕ → Message → Message
copied n old = record old { buf = elim old.buf [ none ↦ none | some text ↦ some (take n text) ] }

-- The copy stands at a fresh address. With `bytes` below 0 `memcpy` is asked for more than there is.
unfoldable pub copy_sized : ℤ → ℕ → Server → Option (ℕ × Server)
unfolding store_message
copy_sized (negsuc n) p s = none
copy_sized (pos n) p s = some (
  s.allocated,
  record (store_message s.allocated (copied n (s.messages p)) s) { allocated = suc s.allocated },
)

unfoldable pub copy_message : ℕ → Server → Option (ℕ × Server)
unfolding copy_sized
copy_message p s = copy_sized (s.messages p).bytes p s

-- `g_list_foreach(last_p5_block, mem_free_message)`, and the list is gone.
unfoldable pub free_block : List ℕ → Server → Server
unfolding mem_free_message
free_block [] s = record s { last_p5_block = [] }
free_block (p ∷ q) s = free_block q (mem_free_message p s)

-- Is the message of another block than the last one of `last_p5_block`, or is there none?
unfoldable pub starts_block : ℕ → Server → Bool
starts_block p s = elim (split_last s.last_p5_block) [
  | none ↦ true
  | some (_, last) ↦ not ((s.messages last).settings.reparted == (s.messages p).settings.reparted)
]

unfoldable pub clear_other_block : ℕ → Server → Server
clear_other_block p s = if starts_block p s then free_block s.last_p5_block s else s

unfoldable pub keep_copy : ℕ → Server → Option Server
keep_copy p s = elim (copy_message p s) [
  | none ↦ none
  | some (copy, s1) ↦ some (record s1 { last_p5_block = s1.last_p5_block ++ copy ∷ [] })
]

-- The part of the case SPD_PROGRESS that keeps copies of the last block.
unfoldable pub remember_progress : ℕ → Server → Option Server
unfolding keep_copy clear_other_block
remember_progress p s = keep_copy p (clear_other_block p s)

-- The settings that a new message gets from its client, and its number.
abbrev pub fill_in : Settings → MessageType → ℕ → ℕ → Message → Message
fill_in client type id reparted m = record m {
  id = id;
  settings = record client {
    type = type;
    index_mark = none;
    paused_while_speaking = false;
    reparted = reparted;
  };
}

abbrev pub set_reparted : ℕ → Message → Message
set_reparted reparted m = record m { settings = record m.settings { reparted = reparted } }

unfoldable pub append_message : Priority → ℕ → Server → Server
unfolding speaking_get_queue speaking_set_queue
append_message prio p s = speaking_set_queue prio (speaking_get_queue prio s ++ p ∷ []) s

module _ (pipe_ok : List Event → Bool) where
  -- From the `switch` on: the message is at `p`, filled in, and `prio` is its client's priority.
  unfoldable pub put_in_queue : Priority → ℕ → Server → Option (ℤ × Server)
  unfolding append_message remember_progress speaking_semaphore_post
  put_in_queue prio p s =
      let s1 = append_message prio p s in
      let remembered = if same_priority prio progress then remember_progress p s1 else some s1 in
      elim remembered [
        | none ↦ none
        | some s2 ↦
            some
              (pos (s.messages p).id, speaking_semaphore_post (resolve_priorities pipe_ok prio s2))
      ]

  -- The message for a client that is connected: `fd > 0`.
  unfoldable pub queue_new : ℕ → ℤ → MessageType → ℕ → Server → Option (ℤ × Server)
  unfolding store_message put_in_queue get_client_settings_by_fd
  queue_new p fd type reparted s = elim (get_client_settings_by_fd s fd) [
    | none ↦ none
    | some client ↦
        let id = suc s.last_message_id in
        let m = fill_in client type id reparted (s.messages p) in
        put_in_queue client.priority p (store_message p m (record s { last_message_id = id }))
  ]

  -- The message that is reloaded: `fd < 0`, and `-fd` is the client's number.
  unfoldable pub queue_again : ℕ → ℕ → ℕ → Server → Option (ℤ × Server)
  unfolding store_message put_in_queue get_client_settings_by_uid
  queue_again p uid reparted s = elim (get_client_settings_by_uid s (pos uid)) [
    | none ↦ none
    | some client ↦
        put_in_queue client.priority p (store_message p (set_reparted reparted (s.messages p)) s)
  ]

  abbrev pub queue_text : ℕ → ℤ → MessageType → ℕ → Server → Option (ℤ × Server)
  queue_text p (pos zero) type reparted s = some (negsuc 0, s)
  queue_text p (pos (suc n)) type reparted s = queue_new p (pos (suc n)) type reparted s
  queue_text p (negsuc n) type reparted s = queue_again p (suc n) reparted s

  -- `history_flag` is not here: the code that it guards is compiled out, `if (0)`.
  unfoldable pub queue_message : Option ℕ → ℤ → MessageType → ℕ → Server → Option (ℤ × Server)
  unfolding queue_new queue_again
  queue_message none fd type reparted s = some (negsuc 0, s)
  queue_message (some p) fd type reparted s =
      if has_text (s.messages p).buf then queue_text p fd type reparted s else some (negsuc 0, s)
