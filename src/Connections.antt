-- ===== src/Connections.antt =====
-- The clients' connections: `connection_new`, `connection_destroy` and `default_fd_set` of
-- src/server/openttsd.c. What `accept` returned is an argument; `close` and the set of descriptors
-- for `select` are left to the system.
pub mod Invariant
use opentts.Prelude.{
  ℕ, zero, suc, ◌+◌, ◌-◌, ◌*◌, ◌^◌, Bool, true, false, Option, none, some, ltb, leb, ◌==◌,
  if◌then◌else◌,
}
use opentts.Prelude.Int.{ℤ, pos, negsuc}
use opentts.Types.{Settings, Sock, Server}
use opentts.Clients.{update, get_client_uid_by_fd, get_client_settings_by_fd, put_settings}

-- `memory` is what `g_malloc` returned: the fields that the code does not fill in keep its values.
-- The unsigned -1 of `hist_cur_uid` is the largest number of 32 bits.
unfoldable pub default_fd_set : Settings → Settings → Settings
default_fd_set global memory = record memory {
  paused = 0;
  priority = global.priority;
  punctuation_mode = global.punctuation_mode;
  rate = global.rate;
  pitch = global.pitch;
  volume = global.volume;
  language = global.language;
  output_module = global.output_module;
  client_name = global.client_name;
  voice_type = global.voice_type;
  voice_name = none;
  spelling_mode = global.spelling_mode;
  cap_let_recogn = global.cap_let_recogn;
  pause_context = global.pause_context;
  ssml_mode = global.ssml_mode;
  notification = global.notification;
  active = true;
  hist_cur_uid = 2 ^ 32 - 1;
  hist_cur_pos = negsuc 0;
  index_mark = none;
  paused_while_speaking = false;
}

abbrev fresh_sock : Sock
fresh_sock = record { awaiting_data = false; inside_block = 0; o_bytes = 0; o_buf = none }

-- Room for the data of the descriptor: the array grows if the descriptor is not below its last place.
abbrev pub grown : ℕ → ℕ → ℕ
grown client_socket num_fds = if leb num_fds (client_socket + 1) then client_socket * 2 else num_fds

unfoldable pub connection_new : Settings → Settings → ℤ → Server → ℤ × Server
unfolding default_fd_set put_settings
connection_new global memory (negsuc n) s = (negsuc 0, s)
connection_new global memory (pos client_socket) s =
    let uid = suc s.max_uid in
    let new_fd_set = record (default_fd_set global memory) { fd = pos client_socket; uid = uid } in
    let s1 = put_settings uid new_fd_set s in
    (
      pos 0,
      record s1 {
        max_fd = if ltb s.max_fd client_socket then client_socket else s.max_fd;
        num_fds = grown client_socket s.num_fds;
        sockets = update s.sockets client_socket fresh_sock;
        max_uid = uid;
        fd_uid = update s.fd_uid client_socket (some uid);
      },
    )

-- The client's settings stay, tagged as inactive and without a descriptor.
unfoldable pub tag_inactive : ℕ → Server → Server
unfolding get_client_settings_by_fd put_settings
tag_inactive fd s = elim (get_client_settings_by_fd s (pos fd)) [
  | none ↦ s
  | some client ↦
      put_settings (get_client_uid_by_fd s (pos fd))
        (record client { fd = negsuc 0; active = false }) s
]

unfoldable pub connection_destroy : ℕ → Server → ℕ × Server
unfolding tag_inactive
connection_destroy fd s =
    let s1 = tag_inactive fd s in
    (
      0,
      record s1 {
        fd_uid = update s1.fd_uid fd none;
        max_fd = if fd == s1.max_fd then s1.max_fd - 1 else s1.max_fd;
      },
    )
