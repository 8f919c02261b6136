-- ===== src/Settings/Debug.antt =====
-- SET DEBUG: `set_debug_uid` of src/server/set.c, without the log files that it opens and closes and
-- the commands to the modules.
use opentts.Prelude.{ℕ, Bool, true, false, if◌then◌else◌, ◌==◌}
use opentts.Prelude.Int.{ℤ}
use opentts.Types.{Server}
use opentts.Clients.{get_client_uid_by_fd, each_client, one_if_positive}

-- Debugging is on or off for the whole server, whatever client is named.
unfoldable pub set_debug_uid : Bool → Server → ℕ × Server
set_debug_uid true s = if s.debug then (1, s) else (0, record s { debug = true })
set_debug_uid false s = if s.debug then (0, record s { debug = false }) else (1, s)

unfoldable pub set_debug_self : Bool → ℤ → Server → ℕ × Server
unfolding set_debug_uid get_client_uid_by_fd
set_debug_self debug fd s = if get_client_uid_by_fd s fd == 0 then (1, s) else set_debug_uid debug s

unfoldable pub set_debug_all : Bool → Server → ℕ × Server
unfolding set_debug_uid each_client
set_debug_all debug s =
    let (err, s1) = each_client (λ _. set_debug_uid debug) s.max_fd 1 s in (one_if_positive err, s1)
