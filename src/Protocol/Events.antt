-- ===== src/Protocol/Events.antt =====
-- The commands CHAR, KEY and SOUND_ICON: `parse_general_event` of src/server/parse.c. Whether the line
-- is valid UTF-8 is a parameter, `valid`; so is what the memory of a new message holds, `garbage`.
use opentts.Prelude.{ℕ, suc, Bool, false, List, [], ◌∷◌, none, some, length, if◌then◌else◌}
use opentts.Prelude.Int.{pos}
use opentts.Types.{Bytes, MessageType, char_type, key_type, sound_icon_type, Message, Event, Server}
use opentts.Messages.{err_missing_parameter, err_invalid_encoding, ok_message_queued}
use opentts.Protocol.{get_param}
use opentts.Protocol.Set.{Outcome, check_param}
use opentts.QueueMessage.{store_message, queue_message}

-- The new message: the word and its length, at a fresh address.
unfoldable pub new_event : Message → Bytes → Server → Server
unfolding store_message
new_event garbage param s =
    record (store_message s.allocated
      (record garbage { buf = some param; bytes = pos (length param) }) s) {
        allocated = suc s.allocated;
      }

module _ (strdown : Bytes → Bytes) (pipe_ok : List Event → Bool) (valid : Bytes → ℕ → Bool)
    (garbage : Message) where
  -- The reply does not depend on what `queue_message` returns.
  unfoldable pub queue_event : Bytes → ℕ → MessageType → Server → Outcome
  unfolding new_event
  queue_event param fd type s =
      elim (queue_message pipe_ok (some s.allocated) (pos fd) type (s.sockets fd).inside_block
        (new_event garbage param s)) [ none ↦ none | some (id, s1) ↦ some (ok_message_queued, s1) ]

  unfoldable pub check_event : Bytes → Bytes → ℕ → MessageType → Server → Outcome
  unfolding queue_event
  check_event buf [] fd type s = some (err_missing_parameter, s)
  check_event buf (c ∷ cs) fd type s =
      if valid buf (length buf)
      then queue_event (c ∷ cs) fd type s
      else some (err_invalid_encoding, s)

  unfoldable pub parse_general_event : Bytes → ℕ → MessageType → Server → Outcome
  unfolding get_param check_event
  parse_general_event buf fd type s =
      check_param (get_param strdown buf 1 false) (λ param. check_event buf param fd type s) s

  unfoldable pub parse_snd_icon : Bytes → ℕ → Server → Outcome
  unfolding parse_general_event
  parse_snd_icon buf fd s = parse_general_event buf fd sound_icon_type s

  unfoldable pub parse_char : Bytes → ℕ → Server → Outcome
  unfolding parse_general_event
  parse_char buf fd s = parse_general_event buf fd char_type s

  unfoldable pub parse_key : Bytes → ℕ → Server → Outcome
  unfolding parse_general_event
  parse_key buf fd s = parse_general_event buf fd key_type s
