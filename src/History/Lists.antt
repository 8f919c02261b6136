-- ===== src/History/Lists.antt =====
-- The lists that src/server/history.c sends, and HISTORY SAY.
use opentts.Prelude.{
  ℕ, zero, suc, ◌+◌, true, false, List, [], ◌∷◌, ◌++◌, Option, none, some, ◌==◌, if◌then◌else◌,
}
use opentts.Prelude.Int.{ℤ, pos, negsuc, ◌+ℤ◌}
use opentts.Types.{Bytes, Settings, Message, Server}
use opentts.Messages.{
  Answer, decimal, or_null, err_internal, err_id_not_exist, err_no_message, err_no_such_client,
  err_not_implemented, ok_message_queued, ok_client_list_sent, ok_client_id_sent, ok_msgs_list_sent,
  ok_last_msg,
}
use opentts.Clients.{get_client_uid_by_fd, get_client_settings_by_uid}
use opentts.Speaking.Queues.{split_last}
use opentts.QueueMessage.{copy_message}
use opentts.History.{unsigned, nth, message_history, client_messages}

-- `g_string_append` of NULL appends nothing.
abbrev pub appended : Option Bytes → Bytes
appended none = []
appended (some w) = w

abbrev pub client_line : Settings → Bytes
client_line c =
    decimal c.uid
    ++ b' ' ∷ (appended c.client_name ++ b' ' ∷ (if c.active then b'1' else b'0') ∷ [])

-- From the client `i` on, `n` clients; `none` where the assertion fails that there are settings.
unfoldable pub client_lines : ℕ → ℕ → Server → Option (List Bytes)
client_lines zero i s = some []
client_lines (suc n) i s =
    let rest = client_lines n (i + 1) s in
    elim (s.fd_settings i) [
      | none ↦ none
      | some c ↦ elim rest [ none ↦ none | some lines ↦ some (client_line c ∷ lines) ]
    ]

unfoldable pub history_get_client_list : Server → Option (Answer × Server)
unfolding client_lines
history_get_client_list s = elim (client_lines s.max_uid 1 s) [
  | none ↦ none
  | some lines ↦ some (ok_client_list_sent lines, s)
]

unfoldable pub history_get_client_id : ℤ → Server → Answer
unfolding get_client_uid_by_fd
history_get_client_id fd s =
    let uid = get_client_uid_by_fd s fd in if uid == 0 then err_internal else ok_client_id_sent uid

-- The code that looks the message up is compiled out, `#if 0`.
unfoldable pub history_get_message : ℤ → Answer
history_get_message id = err_not_implemented

abbrev pub message_line : Option Bytes → Message → Bytes
message_line name m = decimal m.id ++ b' ' ∷ or_null name

-- At most `n` lines, from the place `i` of the list on.
unfoldable pub message_lines : (ℕ → Message) → Option Bytes → List ℕ → ℕ → ℤ → List Bytes
unfolding nth
message_lines h name msgs zero i = []
message_lines h name msgs (suc n) i =
    let rest = message_lines h name msgs n (i +ℤ pos 1) in
    elim (nth msgs (unsigned i)) [ none ↦ [] | some p ↦ message_line name (h p) ∷ rest ]

-- How often the loop over `num` messages runs.
abbrev pub rounds : ℤ → ℕ
rounds (pos n) = n
rounds (negsuc n) = 0

-- `g_list_find_custom` with `message_compare_id`. `value` is the address that is handed over, taken
-- for an `int`: the comparison does not follow it to the id.
unfoldable pub find_id : (ℕ → Message) → ℤ → List ℕ → Option ℕ
find_id h (negsuc value) q = none
find_id h (pos value) [] = none
find_id h (pos value) (p ∷ q) = elim ((h p).id == value) [
  | true ↦ some p
  | false ↦ find_id h (pos value) q
]

unfoldable pub history_get_message_list : ℤ → ℤ → ℤ → Server → Answer
unfolding get_client_settings_by_uid client_messages message_lines
history_get_message_list client_id from num s = elim (get_client_settings_by_uid s client_id) [
  | none ↦ err_no_such_client
  | some c ↦ ok_msgs_list_sent (
      message_lines s.messages c.client_name (client_messages (unsigned client_id) s) (rounds num)
        from)
]

unfoldable pub history_get_last : Server → Answer
history_get_last s = elim (split_last message_history) [
  | none ↦ err_no_message
  | some (front, p) ↦ ok_last_msg (s.messages p).id
]

-- `address` is that of the local variable `id`. The message is copied; the call that would queue the copy is commented out.
unfoldable pub history_say_id : ℤ → ℤ → Server → Option (Answer × Server)
unfolding copy_message find_id
history_say_id address id s = elim (find_id s.messages address message_history) [
  | none ↦ some (err_id_not_exist, s)
  | some p ↦ elim (copy_message p s) [
    | none ↦ none
    | some (copy, s1) ↦ some (ok_message_queued, s1)
  ]
]
