-- ===== src/Protocol/Past.antt =====
-- The command HISTORY: `parse_history` of src/server/parse.c. `id_address` is the address that
-- `history_say_id` compares with ids.
use opentts.Prelude.{ℕ, true, false, ◌||◌, Option, none, some, codes, if◌then◌else◌}
use opentts.Prelude.Int.{ℤ, pos}
use opentts.Types.{Bytes, Server}
use opentts.Messages.{
  Answer, ok_cur_set_first, ok_cur_set_last, ok_cur_set_pos, ok_cur_mov_for, ok_cur_mov_back,
  ok_message_queued, ok_cur_pos_ret, ok_last_msg, err_pos_low, err_pos_high, err_no_message,
  err_id_not_exist, err_not_implemented, err_missing_parameter, err_not_a_number,
}
use opentts.Settings.{same_text}
use opentts.History.{
  Reply, unsigned, history_cursor_set_last, history_cursor_set_first, history_cursor_set_pos,
  history_cursor_forward, history_cursor_backward, history_cursor_get,
}
use opentts.History.Lists.{
  history_get_client_list, history_get_client_id, history_get_message, history_get_message_list,
  history_get_last, history_say_id,
}
use opentts.Protocol.{get_param, isanum, atoi}
use opentts.Protocol.Set.{Outcome, check_param, check_number}

abbrev pub answer_of : Reply → Answer
answer_of Reply.ok_cur_set_last = ok_cur_set_last
answer_of Reply.ok_cur_set_first = ok_cur_set_first
answer_of Reply.ok_cur_set_pos = ok_cur_set_pos
answer_of Reply.ok_cur_mov_for = ok_cur_mov_for
answer_of Reply.ok_cur_mov_back = ok_cur_mov_back
answer_of Reply.err_pos_low = err_pos_low
answer_of Reply.err_pos_high = err_pos_high
answer_of Reply.err_no_message = err_no_message
answer_of Reply.err_id_not_exist = err_id_not_exist
answer_of (Reply.ok_cur_pos id) = ok_cur_pos_ret id
answer_of (Reply.ok_last_msg id) = ok_last_msg id
answer_of Reply.ok_message_queued = ok_message_queued

abbrev pub outcome_of : Option (Reply × Server) → Outcome
outcome_of none = none
outcome_of (some (r, s)) = some (answer_of r, s)

module _ (strdown : Bytes → Bytes) (id_address : ℤ) where
  unfoldable pub messages_of_client : Bytes → Server → Outcome
  unfolding get_param isanum atoi history_get_message_list
  messages_of_client buf s =
      check_param (get_param strdown buf 3 true)
        (λ who.
          if same_text who (codes "self") || same_text who (codes "all")
          then some (err_not_implemented, s)
          else if isanum who
          then check_number (get_param strdown buf 4 false)
              (λ start.
                check_number (get_param strdown buf 5 false)
                  (λ num. some (history_get_message_list (atoi who) start num s, s)) s)
              s
          else some (err_not_a_number, s))
        s

  unfoldable pub parse_history_get : Bytes → ℕ → Server → Outcome
  unfolding get_param isanum atoi history_get_client_list history_get_client_id messages_of_client
      history_get_last history_get_message
  parse_history_get buf fd s =
      check_param (get_param strdown buf 2 true)
        (λ hist_get_sub.
          if same_text hist_get_sub (codes "client_list")
          then history_get_client_list s
          else if same_text hist_get_sub (codes "client_id")
          then some (history_get_client_id (pos fd) s, s)
          else if same_text hist_get_sub (codes "client_messages")
          then messages_of_client buf s
          else if same_text hist_get_sub (codes "last")
          then some (history_get_last s, s)
          else if same_text hist_get_sub (codes "message")
          then check_number (get_param strdown buf 3 false)
              (λ msg_id. some (history_get_message msg_id, s)) s
          else some (err_missing_parameter, s))
        s

  unfoldable pub set_cursor : Bytes → ℕ → Server → Outcome
  unfolding get_param isanum atoi history_cursor_set_last history_cursor_set_first
      history_cursor_set_pos
  set_cursor buf fd s =
      check_number (get_param strdown buf 3 false)
        (λ who.
          check_param (get_param strdown buf 4 true)
            (λ location.
              if same_text location (codes "last")
              then outcome_of (history_cursor_set_last (pos fd) (unsigned who) s)
              else if same_text location (codes "first")
              then outcome_of (history_cursor_set_first (pos fd) (unsigned who) s)
              else if same_text location (codes "pos")
              then check_number (get_param strdown buf 5 false)
                  (λ at. outcome_of (history_cursor_set_pos (pos fd) (unsigned who) at s)) s
              else some (err_missing_parameter, s))
            s)
        s

  unfoldable pub parse_history_cursor : Bytes → ℕ → Server → Outcome
  unfolding get_param set_cursor history_cursor_forward history_cursor_backward history_cursor_get
  parse_history_cursor buf fd s =
      check_param (get_param strdown buf 2 true)
        (λ hist_cur_sub.
          if same_text hist_cur_sub (codes "set")
          then set_cursor buf fd s
          else if same_text hist_cur_sub (codes "forward")
          then outcome_of (history_cursor_forward (pos fd) s)
          else if same_text hist_cur_sub (codes "backward")
          then outcome_of (history_cursor_backward (pos fd) s)
          else if same_text hist_cur_sub (codes "get")
          then outcome_of (history_cursor_get (pos fd) s)
          else some (err_missing_parameter, s))
        s

  unfoldable pub parse_history : Bytes → ℕ → Server → Outcome
  unfolding get_param isanum atoi parse_history_get parse_history_cursor history_say_id
  parse_history buf fd s =
      check_param (get_param strdown buf 1 true)
        (λ cmd_main.
          if same_text cmd_main (codes "get")
          then parse_history_get buf fd s
          else if same_text cmd_main (codes "cursor")
          then parse_history_cursor buf fd s
          else if same_text cmd_main (codes "say")
          then check_number (get_param strdown buf 2 false)
              (λ msg_id. history_say_id id_address msg_id s) s
          else if same_text cmd_main (codes "sort")
          then some (err_not_implemented, s)
          else some (err_missing_parameter, s))
        s
