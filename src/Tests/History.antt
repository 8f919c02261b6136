-- ===== src/Tests/History.antt =====
-- Runs of the history's cursor.
use opentts.Prelude.{◌≡◌, refl, some, arith}
use opentts.Prelude.Int.{pos}
use opentts.Types.{Server}
use opentts.Clients.{get_client_uid_by_fd}
use opentts.History.Cursor.{history_cursor-anywhere}
use opentts.History.{
  ok_cur_set_pos, ok_cur_mov_for, ok_cur_mov_back, err_no_message, history_cursor_set_pos,
  history_cursor_forward, history_cursor_backward, history_cursor_get,
}
use opentts.Tests.Samples.{demo, first_client}

-- Client 1 looks for the messages of client 2, from place 40 on.
history_cursor-anywhere_example :
    (t u v : Server) × (history_cursor_set_pos (pos 5) 2 (pos 40) demo ≡ some (ok_cur_set_pos, t))
    × (history_cursor_get (pos 5) t ≡ some (err_no_message, t))
    × (history_cursor_forward (pos 5) t ≡ some (ok_cur_mov_for, u))
    × (history_cursor_get (pos 5) u ≡ some (err_no_message, u))
    × (history_cursor_backward (pos 5) u ≡ some (ok_cur_mov_back, v))
    × (v.fd_settings 1 ≡ some (record first_client { hist_cur_pos = pos 40; hist_cur_uid = 2 }))
unfolding get_client_uid_by_fd
history_cursor-anywhere_example =
    history_cursor-anywhere 5 0 2 40 first_client demo refl refl (omega arith)
