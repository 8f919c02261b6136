-- ===== src/Settings/Notifications.antt =====
-- SET NOTIFICATION: `set_notification_self` of src/server/set.c.
use Prim.Native.Nat.{bit_and, bit_or, digits, min, bit_and-bitwise}
use opentts.Prelude.{
  ℕ, zero, suc, ◌/◌, ◌≡◌, refl, ◌∙◌, Bool, true, false, List, [], ◌∷◌, Option, none, some, ◌==◌,
  if◌then◌else◌, arith,
}
use opentts.Prelude.Int.{ℤ, pos}
use opentts.Types.{Bytes, Settings, Server}
use opentts.Clients.{get_client_uid_by_fd, get_client_settings_by_uid, put_settings}
use opentts.Settings.{same_text}

-- SPD_BEGIN to SPD_RESUME. The flags that a name stands for, in the order of the code.
unfoldable pub flags_of : Bytes → Option (List ℕ)
flags_of type =
    if same_text type (b'b' ∷ b'e' ∷ b'g' ∷ b'i' ∷ b'n' ∷ [])
    then some (1 ∷ [])
    else if same_text type (b'e' ∷ b'n' ∷ b'd' ∷ [])
    then some (2 ∷ [])
    else if same_text type
        (b'i' ∷ b'n' ∷ b'd' ∷ b'e' ∷ b'x' ∷ b'_' ∷ b'm' ∷ b'a' ∷ b'r' ∷ b'k' ∷ b's' ∷ [])
    then some (4 ∷ [])
    else if same_text type (b'p' ∷ b'a' ∷ b'u' ∷ b's' ∷ b'e' ∷ [])
    then some (16 ∷ [])
    else if same_text type (b'r' ∷ b'e' ∷ b's' ∷ b'u' ∷ b'm' ∷ b'e' ∷ [])
    then some (32 ∷ [])
    else if same_text type (b'c' ∷ b'a' ∷ b'n' ∷ b'c' ∷ b'e' ∷ b'l' ∷ [])
    then some (8 ∷ [])
    else if same_text type (b'a' ∷ b'l' ∷ b'l' ∷ [])
    then some (2 ∷ 1 ∷ 4 ∷ 8 ∷ 16 ∷ 32 ∷ [])
    else none

-- SET_NOTIFICATION_STATE. The mask is `! flag`, the negation of C, which is 1 for 0, and 0 else.
unfoldable pub set_notification_state : Bool → ℕ → ℕ → ℕ
set_notification_state true flag n = bit_or n flag
set_notification_state false flag n = bit_and n (if flag == 0 then 1 else 0)

unfoldable pub set_states : Bool → List ℕ → ℕ → ℕ
unfolding set_notification_state
set_states val [] n = n
set_states val (flag ∷ flags) n = set_states val flags (set_notification_state val flag n)

unfoldable pub set_notification_self : ℤ → Bytes → Bool → Server → ℕ × Server
unfolding get_client_uid_by_fd get_client_settings_by_uid flags_of set_states
set_notification_self fd type val s =
    let uid = get_client_uid_by_fd s fd in
    if uid == 0 then (1, s) else elim (get_client_settings_by_uid s (pos uid)) [
      | none ↦ (1, s)
      | some client ↦ elim (flags_of type) [
        | none ↦ (1, s)
        | some flags ↦ (
          0,
          put_settings uid
              (record client { notification = set_states val flags client.notification }) s,
        )
      ]
    ]

bit_and-zero : (n : ℕ) → bit_and n 0 ≡ 0
bit_and-zero n = bit_and-bitwise n 0 ∙ digits-zero n n
  where
    digits-zero : (k a : ℕ) → digits (λ b. zero) min k a 0 ≡ 0
    digits-zero zero a = refl
    digits-zero (suc k) zero = refl
    digits-zero (suc k) (suc a) = let ih = digits-zero k (suc a / 2) in omega (arith, ih)

set_states-off : (flags : List ℕ) (n : ℕ) → n ≡ 0 → set_states false flags n ≡ 0
unfolding set_states set_notification_state
set_states-off [] n e = e
set_states-off (flag ∷ flags) n e =
    set_states-off flags _ (rw e (bit_and-bitwise 0 (if flag == 0 then 1 else 0)))

-- SET NOTIFICATION off for any name that the command knows, of a connected client: it succeeds, and
-- turns off all notifications of the client, those of the other names as well.
pub set_notification_self-off :
    (fd : ℤ) (type : Bytes) (flag uid : ℕ) (flags : List ℕ) (c : Settings) (s : Server)
    → get_client_uid_by_fd s fd ≡ suc uid
    → s.fd_settings (suc uid) ≡ some c
    → flags_of type ≡ some (suc flag ∷ flags)
    → set_notification_self fd type false s
      ≡ (0, put_settings (suc uid) (record c { notification = 0 }) s)
unfolding set_notification_self get_client_settings_by_uid set_states set_notification_state
set_notification_self-off fd type flag uid flags c s known there named =
    let first : set_states false (suc flag ∷ flags) c.notification ≡ 0 =
      let nonzero : (suc flag == 0) ≡ false = ground arith in
      rw nonzero (set_states-off flags _ (bit_and-zero c.notification)) in
    let busy : (get_client_uid_by_fd s fd == 0) ≡ false = ground (arith, known) in
    rw (busy, known, there, named, set_notification_self) (rw (first, known) refl)
