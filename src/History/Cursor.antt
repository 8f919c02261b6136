-- ===== src/History/Cursor.antt =====
-- Where the cursor of the history can stand.
use opentts.Prelude.{ℕ, suc, ◌+◌, ◌-◌, ◌^◌, ◌%◌, ◌<◌, ◌≡◌, refl, ◌∙◌, false, some, ltb, ◌==◌, arith}
use opentts.Prelude.Int.{pos, ◌+ℤ◌, ◌-ℤ◌}
use opentts.Types.{Settings, Server}
use opentts.Clients.{update, get_client_uid_by_fd, get_client_settings_by_fd, put_settings}
use opentts.QueueMessage.Placed.{update_self}
use opentts.Settings.Everyone.{client_on-frame}
use opentts.History.{
  ok_cur_set_pos, ok_cur_mov_for, ok_cur_mov_back, err_no_message, nth, put_cursor, client_messages,
  get_messages_by_client, history_cursor_set_pos, history_cursor_forward, history_cursor_backward,
  history_cursor_get,
}

settings_found :
    (fd uid : ℕ) (c : Settings) (s : Server)
    → get_client_uid_by_fd s (pos fd) ≡ suc uid
    → s.fd_settings (suc uid) ≡ some c
    → get_client_settings_by_fd s (pos fd) ≡ some c
unfolding get_client_settings_by_fd
settings_found fd uid c s known there =
    let busy : (get_client_uid_by_fd s (pos fd) == 0) ≡ false = ground (arith, known) in
    rw (busy, known, get_client_settings_by_fd) there

next_place : (k : ℕ) → pos k +ℤ pos 1 ≡ pos (suc k)
unfolding ◌+ℤ◌
next_place k = ground arith

place_before : (k : ℕ) → pos (suc k) -ℤ pos 1 ≡ pos k
unfolding ◌-ℤ◌
place_before k = ground arith

module _ (fd uid : ℕ) (c : Settings) (s : Server)
    (known : get_client_uid_by_fd s (pos fd) ≡ suc uid)
    (there : s.fd_settings (suc uid) ≡ some c) where
  set_pos_lem :
      (client_id at : ℕ)
      → at < 2 ^ 31
      → history_cursor_set_pos (pos fd) client_id (pos at) s
        ≡ some (ok_cur_set_pos, put_cursor (suc uid) (pos at) client_id c s)
  unfolding history_cursor_set_pos client_messages get_messages_by_client
  set_pos_lem client_id at fits =
      let found = settings_found fd uid c s known there in
      let low : ltb (2 ^ 32 - 1) at ≡ false = ground (arith, fits) in
      rw (low, found) (rw known refl)

  get_lem : history_cursor_get (pos fd) s ≡ some (err_no_message, s)
  unfolding history_cursor_get client_messages get_messages_by_client nth
  get_lem = rw (settings_found fd uid c s known there, history_cursor_get) refl

  forward_lem :
      (k : ℕ)
      → c.hist_cur_pos ≡ pos k
      → suc k < 2 ^ 31
      → history_cursor_forward (pos fd) s
        ≡ some (ok_cur_mov_for, put_cursor (suc uid) (pos (suc k)) c.hist_cur_uid c s)
  unfolding history_cursor_forward client_messages get_messages_by_client
  forward_lem k at fits =
      let here = settings_found fd uid c s known there in
      let next : c.hist_cur_pos +ℤ pos 1 ≡ pos (suc k) = rw at (next_place k) in
      let inside : ltb (2 ^ 32 - 1) (suc k % 2 ^ 32) ≡ false = ground arith in
      rw (here, history_cursor_forward) (rw (next, inside) (rw known refl))

  backward_lem :
      (k : ℕ)
      → c.hist_cur_pos ≡ pos (suc k)
      → history_cursor_backward (pos fd) s
        ≡ some (ok_cur_mov_back, put_cursor (suc uid) (pos k) c.hist_cur_uid c s)
  unfolding history_cursor_backward
  backward_lem k at =
      let here = settings_found fd uid c s known there in
      let before : c.hist_cur_pos -ℤ pos 1 ≡ pos k = rw at (place_before k) in
      let not_low : ltb (k + 0) 0 ≡ false = ground arith in
      rw (here, history_cursor_backward) (rw (before, not_low) (rw known refl))

-- The lookup of the client after its cursor was put somewhere.
moved_known :
    (fd uid at client_id : ℕ) (c : Settings) (s : Server)
    → get_client_uid_by_fd s (pos fd) ≡ suc uid
    → (get_client_uid_by_fd (put_cursor (suc uid) (pos at) client_id c s) (pos fd) ≡ suc uid)
      × ((put_cursor (suc uid) (pos at) client_id c s).fd_settings (suc uid)
          ≡ some (record c { hist_cur_pos = pos at; hist_cur_uid = client_id }))
unfolding put_settings
moved_known fd uid at client_id c s known =
    let moved : Settings = record c { hist_cur_pos = pos at; hist_cur_uid = client_id } in
    let settings = update s.fd_settings (suc uid) (some moved) in
    (client_on-frame s settings fd ∙ known, update_self s.fd_settings (suc uid) (some moved))

-- No client has a message in the history, and the last place of an empty list has wrapped around: a
-- connected client may put its cursor on every place `at` of the messages of every client, with
-- `at + 1` an `int`, and moves it from there forward and back again; each of the three commands
-- succeeds, the cursor ends where it was put, the other settings are as before, and there is no
-- message wherever it stands.
pub history_cursor-anywhere :
    (fd uid client_id at : ℕ) (c : Settings) (s : Server)
    → get_client_uid_by_fd s (pos fd) ≡ suc uid
    → s.fd_settings (suc uid) ≡ some c
    → suc at < 2 ^ 31
    → (t u v : Server) × (history_cursor_set_pos (pos fd) client_id (pos at) s
        ≡ some (ok_cur_set_pos, t))
      × (history_cursor_get (pos fd) t ≡ some (err_no_message, t))
      × (history_cursor_forward (pos fd) t ≡ some (ok_cur_mov_for, u))
      × (history_cursor_get (pos fd) u ≡ some (err_no_message, u))
      × (history_cursor_backward (pos fd) u ≡ some (ok_cur_mov_back, v))
      × (v.fd_settings (suc uid)
          ≡ some (record c { hist_cur_pos = pos at; hist_cur_uid = client_id }))
history_cursor-anywhere fd uid client_id at c s known there fits =
    let c1 : Settings = record c { hist_cur_pos = pos at; hist_cur_uid = client_id } in
    let c2 : Settings = record c1 { hist_cur_pos = pos (suc at) } in
    let t = put_cursor (suc uid) (pos at) client_id c s in
    let u = put_cursor (suc uid) (pos (suc at)) client_id c1 t in
    let v = put_cursor (suc uid) (pos at) client_id c2 u in
    let (known_t, there_t) = moved_known fd uid at client_id c s known in
    let (known_u, there_u) = moved_known fd uid (suc at) client_id c1 t known_t in
    let (known_v, there_v) = moved_known fd uid at client_id c2 u known_u in
    (
      t,
      u,
      v,
      set_pos_lem fd uid c s known there client_id at (omega (arith, fits)),
      get_lem fd uid c1 t known_t there_t,
      forward_lem fd uid c1 t known_t there_t at refl fits,
      get_lem fd uid c2 u known_u there_u,
      backward_lem fd uid c2 u known_u there_u at refl,
      there_v,
    )
