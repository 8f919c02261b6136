-- ===== src/Protocol/Ranges/Kept.antt =====
-- The tests in front of a setting in src/server/parse.c and the setters of src/server/set.c, with
-- respect to the bounds of rate, pitch and volume.
use opentts.Prelude.{
  ℕ, zero, suc, ◌+◌, ◌≡◌, refl, inl, inr, Bool, true, false, List, [], ◌∷◌, Option, none, some,
  ◌==◌, if◌then◌else◌, ltb, Bool-cases, Option-cases,
}
use mathlib.Core.Path.{subst}
use opentts.Prelude.Int.{ℤ, pos, negsuc, ltb_ℤ}
use opentts.Types.{Bytes, Priority, Settings, Server}
use opentts.Messages.{Answer}
use opentts.Clients.{
  put_settings, get_client_uid_by_fd, get_client_settings_by_uid, get_client_settings_by_fd,
  each_client,
}
use opentts.Settings.{out_of_range, Parameter, change, set_priority_uid, set_priority_self}
use opentts.Settings.Naming.{
  ClientSpecific, check_set, update_cl_settings, update_all, is_empty, dividers,
  set_client_name_self,
}
use opentts.Settings.Notifications.{flags_of, set_notification_self}
use opentts.Settings.Debug.{set_debug_uid, set_debug_self, set_debug_all}
use opentts.Settings.Range.{Bounded, InRange, set-InRange}
use opentts.Protocol.{isanum, atoi}
use opentts.Protocol.Set.{
  Who, self, all, client, Outcome, answer, check_param, outside_block, check_number, check_value,
  only_self, check_range, set_for, set_debug,
}

-- What the server is after a command that it replies to.
unfoldable pub Keeps : Outcome → Type 0
Keeps none = Unit
Keeps (some (a, t)) = InRange t

-- What a pattern of the configuration gives is between the bounds.
abbrev pub Sound : ClientSpecific → Type 0
Sound x =
    ((v : ℤ) → x.rate ≡ some v → out_of_range v ≡ false)
    × ((v : ℤ) → x.pitch ≡ some v → out_of_range v ≡ false)
    × ((v : ℤ) → x.volume ≡ some v → out_of_range v ≡ false)

abbrev pub AllSound : List ClientSpecific → Type 0
AllSound [] = Unit
AllSound (x ∷ xs) = Sound x × AllSound xs

given_in_range :
    (o : Option ℤ) (old : ℤ)
    → ((v : ℤ) → o ≡ some v → out_of_range v ≡ false)
    → out_of_range old ≡ false
    → out_of_range (check_set o old) ≡ false
given_in_range none old sound fine = fine
given_in_range (some v) old sound fine = sound v refl

update_all-Bounded :
    (fnmatch : Bytes → Option Bytes → Bool) (specific : List ClientSpecific) (c : Settings)
    → AllSound specific
    → Bounded c
    → Bounded (update_all fnmatch specific c)
unfolding update_all update_cl_settings
update_all-Bounded fnmatch [] c sound b = b
update_all-Bounded fnmatch (x ∷ xs) c (sound, more) b =
    elim (Bool-cases (fnmatch x.pattern c.client_name)) [
      | inl fits ↦
          rw (fits, update_all)
            (update_all-Bounded fnmatch xs _ more (
              given_in_range x.rate c.rate sound.0 b.0,
              given_in_range x.pitch c.pitch sound.1 b.1,
              given_in_range x.volume c.volume sound.2 b.2,
            ))
      | inr other ↦ rw (other, update_all) (update_all-Bounded fnmatch xs c more b)
    ]

-- The tests in front of a command keep what the command keeps.
pub answer-Keeps : (err ok : Answer) (r : ℕ × Server) → InRange r.1 → Keeps (answer err ok r)
unfolding Keeps
answer-Keeps err ok (zero, t) fine = fine
answer-Keeps err ok (suc n, t) fine = fine

pub if-Keeps : (b : Bool) (x y : Outcome) → Keeps x → Keeps y → Keeps (if b then x else y)
if-Keeps true x y kx ky = kx
if-Keeps false x y kx ky = ky

set_debug_uid-InRange : (on : Bool) (s : Server) → InRange s → InRange (set_debug_uid on s).1
unfolding set_debug_uid
set_debug_uid-InRange true s fine = elim (Bool-cases s.debug) [
  | inl e ↦ rw e fine
  | inr e ↦ rw e fine
]
set_debug_uid-InRange false s fine = elim (Bool-cases s.debug) [
  | inl e ↦ rw e fine
  | inr e ↦ rw e fine
]

each_debug-InRange :
    (on : Bool) (n i : ℕ) (s : Server)
    → InRange s
    → InRange (each_client (λ _. set_debug_uid on) n i s).1
unfolding each_client
each_debug-InRange on zero i s fine = fine
each_debug-InRange on (suc n) i s fine = elim (Bool-cases (get_client_uid_by_fd s (pos i) == 0)) [
  | inl nobody ↦ rw nobody (each_debug-InRange on n (i + 1) s fine)
  | inr somebody ↦ rw somebody (each_debug-InRange on n (i + 1) _ (set_debug_uid-InRange on s fine))
]

-- The same for SET CLIENT_NAME, whose setter may not return.
abbrev Stays : Option (ℕ × Server) → Type 0
Stays none = Unit
Stays (some r) = InRange r.1

pub named-Keeps :
    (o : Option (ℕ × Server)) (err ok : Answer)
    → Stays o
    → Keeps (elim o [ none ↦ none | some r ↦ answer err ok r ])
unfolding Keeps
named-Keeps none err ok stays = tt
named-Keeps (some r) err ok stays = answer-Keeps err ok r stays

module _ (s : Server) (fine : InRange s) where
  pub same-Keeps : (a : Answer) → Keeps (some (a, s))
  unfolding Keeps
  same-Keeps a = fine

  pub check_param-Keeps :
      (w : Option Bytes) (rest : Bytes → Outcome)
      → ((x : Bytes) → Keeps (rest x))
      → Keeps (check_param w rest s)
  check_param-Keeps none rest k = same-Keeps _
  check_param-Keeps (some x) rest k = k x

  pub check_value-Keeps {ℓ} :
      {A : Type ℓ} (v : Option A) (err : Answer) (rest : A → Outcome)
      → ((x : A) → Keeps (rest x))
      → Keeps (check_value v err rest s)
  check_value-Keeps none err rest k = same-Keeps err
  check_value-Keeps (some x) err rest k = k x

  pub check_number-Keeps :
      (w : Option Bytes) (rest : ℤ → Outcome)
      → ((v : ℤ) → Keeps (rest v))
      → Keeps (check_number w rest s)
  check_number-Keeps w rest k =
      check_param-Keeps w _ (λ x. if-Keeps (isanum x) _ _ (k (atoi x)) (same-Keeps _))

  pub outside_block-Keeps : (fd : ℕ) (o : Outcome) → Keeps o → Keeps (outside_block fd o s)
  outside_block-Keeps fd o k = if-Keeps (ltb 0 (s.sockets fd).inside_block) _ _ (same-Keeps _) k

  pub only_self-Keeps :
      (who : Who) (err : Answer) (o : Outcome) → Keeps o → Keeps (only_self who err o s)
  only_self-Keeps self err o k = k
  only_self-Keeps all err o k = same-Keeps err
  only_self-Keeps (client uid) err o k = same-Keeps err

  pub check_range-Keeps :
      (v : ℤ) (low high : Answer) (o : Outcome) → Keeps o → Keeps (check_range v low high o s)
  check_range-Keeps v low high o k =
      if-Keeps (ltb_ℤ v (negsuc 99)) _ _ (same-Keeps low)
        (if-Keeps (ltb_ℤ (pos 100) v) _ _ (same-Keeps high) k)

  -- The setters other than those of rate, pitch and volume.
  put_settings-InRange : (u : ℕ) (c : Settings) → Bounded c → InRange (put_settings u c s)
  unfolding put_settings
  put_settings-InRange u c b uid d e = elim (Bool-cases (u == uid)) [
    | inl same ↦
        let there : some c ≡ some d = rw same at e in
        let which : c ≡ d = cc in subst Bounded which b
    | inr other ↦ fine uid d (rw other at e)
  ]

  pub set_priority_self-InRange :
      (fd : ℤ) (prio : Priority) → InRange (set_priority_self fd prio s).1
  unfolding set_priority_self set_priority_uid change get_client_settings_by_uid put_settings
  set_priority_self-InRange fd prio = elim (Bool-cases (get_client_uid_by_fd s fd == 0)) [
    | inl nobody ↦ rw nobody fine
    | inr somebody ↦ elim (Option-cases (s.fd_settings (get_client_uid_by_fd s fd))) [
      | inl gone ↦ rw (somebody, gone, set_priority_uid, change, get_client_settings_by_uid) fine
      | inr (c, there) ↦
          rw (somebody, there, set_priority_uid, change, get_client_settings_by_uid)
            (put_settings-InRange (get_client_uid_by_fd s fd) (record c { priority = prio })
              (fine _ c there))
    ]
  ]

  pub set_notification_self-InRange :
      (fd : ℤ) (scope : Bytes) (on : Bool) → InRange (set_notification_self fd scope on s).1
  unfolding set_notification_self get_client_settings_by_uid
  set_notification_self-InRange fd scope on = elim (Bool-cases (get_client_uid_by_fd s fd == 0)) [
    | inl nobody ↦ rw nobody fine
    | inr somebody ↦ elim (Option-cases (s.fd_settings (get_client_uid_by_fd s fd))) [
      | inl gone ↦ rw (somebody, gone) fine
      | inr (c, there) ↦ elim (Option-cases (flags_of scope)) [
        | inl unknown ↦ rw (somebody, there, unknown) fine
        | inr (flags, known) ↦
            rw (somebody, there, known)
              (put_settings-InRange (get_client_uid_by_fd s fd) _ (fine _ c there))
      ]
    ]
  ]

  pub set_debug-InRange : (who : Who) (on : Bool) (fd : ℕ) → InRange (set_debug who on fd s).1
  unfolding set_debug set_debug_self set_debug_all
  set_debug-InRange self on fd = elim (Bool-cases (get_client_uid_by_fd s (pos fd) == 0)) [
    | inl nobody ↦ rw nobody fine
    | inr somebody ↦ rw somebody (set_debug_uid-InRange on s fine)
  ]
  set_debug-InRange (client uid) on fd = set_debug_uid-InRange on s fine
  set_debug-InRange all on fd = each_debug-InRange on s.max_fd 1 s fine

  pub set_for-InRange :
      (default_module : Bytes → Option Bytes) (who : Who) (p : Parameter) (fd : ℕ)
      → InRange (set_for default_module who p fd s).1
  unfolding set_for
  set_for-InRange default_module self p fd =
      (set-InRange default_module p (pos 0) (pos fd) s fine).0
  set_for-InRange default_module (client uid) p fd =
      (set-InRange default_module p uid (pos fd) s fine).1
  set_for-InRange default_module all p fd = (set-InRange default_module p (pos 0) (pos fd) s fine).2

  pub set_client_name_self-Stays :
      (fnmatch : Bytes → Option Bytes → Bool) (specific : List ClientSpecific) (fd : ℤ)
      (name : Bytes)
      → AllSound specific
      → Stays (set_client_name_self fnmatch specific fd name s)
  unfolding set_client_name_self get_client_settings_by_fd
  set_client_name_self-Stays fnmatch specific fd name sound =
      elim (Bool-cases (get_client_uid_by_fd s fd == 0)) [
        | inl nobody ↦ rw (nobody, Stays) fine
        | inr somebody ↦ elim (Option-cases (s.fd_settings (get_client_uid_by_fd s fd))) [
          | inl gone ↦ rw (somebody, gone, Stays) fine
          | inr (c, there) ↦ elim (Bool-cases (is_empty name)) [
            | inl empty ↦ rw (somebody, there, empty, Stays) tt
            | inr words ↦ elim (Bool-cases (dividers name == 2)) [
              | inl two ↦
                  rw (somebody, there, words, two, Stays)
                    (put_settings-InRange (get_client_uid_by_fd s fd) _
                      (update_all-Bounded fnmatch specific _ sound (fine _ c there)))
              | inr others ↦ rw (somebody, there, words, others, Stays) fine
            ]
          ]
        ]
      ]
