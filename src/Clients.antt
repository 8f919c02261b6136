-- ===== src/Clients.antt =====
-- The tables of clients: the lookups of src/server/set.c, and connections of src/server/openttsd.c.
-- The hash tables `fd_settings` and `fd_uid` are maps from the key to an optional value.
use opentts.Prelude.{ℕ, zero, suc, ◌+◌, ltb, Option, none, some, if◌then◌else◌, ◌==◌}
use opentts.Prelude.Int.{ℤ, pos, negsuc}
use opentts.Types.{Settings, Server}

-- A map changed at one key.
abbrev pub update {ℓ} : {A : Type ℓ} → (ℕ → A) → ℕ → A → ℕ → A
update f k v j = if k == j then v else f j

-- 0 stands for "no such client".
unfoldable pub get_client_uid_by_fd : Server → ℤ → ℕ
get_client_uid_by_fd s (negsuc n) = 0
get_client_uid_by_fd s (pos zero) = 0
get_client_uid_by_fd s (pos (suc n)) = elim (s.fd_uid (suc n)) [ none ↦ 0 | some uid ↦ uid ]

unfoldable pub get_client_settings_by_uid : Server → ℤ → Option Settings
get_client_settings_by_uid s (negsuc n) = none
get_client_settings_by_uid s (pos uid) = s.fd_settings uid

unfoldable pub get_client_settings_by_fd : Server → ℤ → Option Settings
unfolding get_client_uid_by_fd
get_client_settings_by_fd s fd =
    let uid = get_client_uid_by_fd s fd in if uid == 0 then none else s.fd_settings uid

-- A write through the pointer that a lookup returned.
unfoldable pub put_settings : ℕ → Settings → Server → Server
put_settings uid new s = record s { fd_settings = update s.fd_settings uid (some new) }

-- `for (i = 1; i <= status.max_fd; i++)` over the clients: the sum of what `act` returns.
unfoldable pub each_client : (ℕ → Server → ℕ × Server) → ℕ → ℕ → Server → ℕ × Server
each_client act zero i s = (0, s)
each_client act (suc n) i s =
    let uid = get_client_uid_by_fd s (pos i) in
    let (e, s1) = if uid == 0 then (0, s) else act uid s in
    let (es, s2) = each_client act n (i + 1) s1 in (e + es, s2)

abbrev pub one_if_positive : ℕ → ℕ
one_if_positive n = if ltb 0 n then 1 else 0
