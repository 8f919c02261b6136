-- ===== src/History.antt =====
-- The history of messages: src/server/history.c. A reply is its code here; Protocol/Past turns it into a
-- reply of src/server/msg.h.
pub mod Cursor
pub mod Lists
use opentts.Prelude.{
  ℕ, zero, suc, ◌+◌, ◌-◌, ◌^◌, ◌%◌, Bool, true, false, List, [], ◌∷◌, ◌++◌, Option, none, some,
  length, leb, ltb, ◌==◌, if◌then◌else◌,
}
use opentts.Prelude.Int.{ℤ, pos, negsuc, ◌+ℤ◌, ◌-ℤ◌, ltb_ℤ}
use opentts.Types.{Settings, Message, Server}
use opentts.Clients.{get_client_uid_by_fd, get_client_settings_by_fd, put_settings}

-- The replies of the cursor's commands.
pub data Reply : Type 0 where
  ok_cur_set_last ok_cur_set_first ok_cur_set_pos ok_cur_mov_for ok_cur_mov_back : Reply
  err_pos_low err_pos_high err_no_message err_id_not_exist : Reply
  ok_cur_pos ok_last_msg : ℕ → Reply
  ok_message_queued : Reply

-- An `int` taken for an unsigned number of 32 bits.
abbrev pub unsigned : ℤ → ℕ
unsigned (pos n) = n % 2 ^ 32
unsigned (negsuc n) = 2 ^ 32 - 1 - n % 2 ^ 32

-- `g_list_length(l) - 1`, unsigned.
abbrev pub last_place : List ℕ → ℕ
last_place [] = 2 ^ 32 - 1
last_place (p ∷ q) = length q % 2 ^ 32

unfoldable pub get_messages_by_client : (ℕ → Message) → ℕ → List ℕ → List ℕ
get_messages_by_client h uid [] = []
get_messages_by_client h uid (p ∷ q) =
    let rest = get_messages_by_client h uid q in
    if (h p).settings.uid == uid then p ∷ rest else rest

-- `g_list_nth`; a negative place, taken for an unsigned one, is beyond the end.
unfoldable pub nth : List ℕ → ℕ → Option ℕ
nth [] n = none
nth (p ∷ q) zero = some p
nth (p ∷ q) (suc n) = nth q n

abbrev pub put_cursor : ℕ → ℤ → ℕ → Settings → Server → Server
put_cursor uid at client_id settings s =
    put_settings uid (record settings { hist_cur_pos = at; hist_cur_uid = client_id }) s

-- The list of the addresses of messages, the oldest first. It is NULL at the start and stays so:
-- `history_add_message`, which alone appends to it, is called nowhere but under `if (0)`.
abbrev pub message_history : List ℕ
message_history = []

-- `none` as a result: FATAL, there are no settings for the client.
unfoldable pub client_messages : ℕ → Server → List ℕ
unfolding get_messages_by_client
client_messages uid s = get_messages_by_client s.messages uid message_history

unfoldable pub history_cursor_set_last : ℤ → ℕ → Server → Option (Reply × Server)
unfolding client_messages get_client_settings_by_fd put_settings
history_cursor_set_last fd client_id s = elim (get_client_settings_by_fd s fd) [
  | none ↦ none
  | some settings ↦ some (
    ok_cur_set_last,
    put_cursor (get_client_uid_by_fd s fd) (pos (length (client_messages client_id s)) -ℤ pos 1)
        client_id settings s,
  )
]

unfoldable pub history_cursor_set_first : ℤ → ℕ → Server → Option (Reply × Server)
unfolding get_client_settings_by_fd put_settings
history_cursor_set_first fd client_id s = elim (get_client_settings_by_fd s fd) [
  | none ↦ none
  | some settings ↦
      some (ok_cur_set_first, put_cursor (get_client_uid_by_fd s fd) (pos 0) client_id settings s)
]

unfoldable pub history_cursor_set_pos : ℤ → ℕ → ℤ → Server → Option (Reply × Server)
unfolding client_messages get_client_settings_by_fd put_settings
history_cursor_set_pos fd client_id (negsuc n) s = some (err_pos_low, s)
history_cursor_set_pos fd client_id (pos at) s =
    if ltb (last_place (client_messages client_id s)) at
    then some (err_pos_high, s)
    else elim (get_client_settings_by_fd s fd) [
      | none ↦ none
      | some settings ↦
          some
            (ok_cur_set_pos, put_cursor (get_client_uid_by_fd s fd) (pos at) client_id settings s)
    ]

unfoldable pub history_cursor_forward : ℤ → Server → Option (Reply × Server)
unfolding client_messages get_client_settings_by_fd put_settings
history_cursor_forward fd s = elim (get_client_settings_by_fd s fd) [
  | none ↦ none
  | some settings ↦
      let next = settings.hist_cur_pos +ℤ pos 1 in
      if ltb (last_place (client_messages settings.hist_cur_uid s)) (unsigned next)
      then some (err_pos_high, s)
      else some (
        ok_cur_mov_for,
        put_cursor (get_client_uid_by_fd s fd) next settings.hist_cur_uid settings s,
      )
]

unfoldable pub history_cursor_backward : ℤ → Server → Option (Reply × Server)
unfolding get_client_settings_by_fd put_settings
history_cursor_backward fd s = elim (get_client_settings_by_fd s fd) [
  | none ↦ none
  | some settings ↦
      let before = settings.hist_cur_pos -ℤ pos 1 in
      if ltb_ℤ before (pos 0)
      then some (err_pos_low, s)
      else some (
        ok_cur_mov_back,
        put_cursor (get_client_uid_by_fd s fd) before settings.hist_cur_uid settings s,
      )
]

unfoldable pub history_cursor_get : ℤ → Server → Option (Reply × Server)
unfolding client_messages get_client_settings_by_fd nth
history_cursor_get fd s = elim (get_client_settings_by_fd s fd) [
  | none ↦ none
  | some settings ↦
      elim (nth (client_messages settings.hist_cur_uid s) (unsigned settings.hist_cur_pos)) [
        | none ↦ some (err_no_message, s)
        | some p ↦ some (ok_cur_pos (s.messages p).id, s)
      ]
]
