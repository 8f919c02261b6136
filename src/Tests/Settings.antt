-- ===== src/Tests/Settings.antt =====
-- Runs of the setters.
use mathlib.Core.Path.{subst}
use opentts.Prelude.{
  zero, suc, map, codes, ◌≡◌, refl, Bool, true, false, [], ◌∷◌, Option, none, some, arith, ◌==◌,
  inl, inr, Bool-cases,
}
use opentts.Prelude.Int.{pos, negsuc}
use opentts.Types.{Bytes, Settings}
use opentts.Clients.{get_client_uid_by_fd, put_settings}
use opentts.Settings.Everyone.{Registered, Everyone, set_all-Everyone}
use opentts.Settings.Naming.{
  ClientSpecific, set_client_name_self, Named, set_client_name_self-Named,
}
use opentts.Settings.Notifications.{flags_of, set_notification_self, set_notification_self-off}
use opentts.Settings.Range.{InRange, Bounded}
use opentts.Session.Words.{small}
use opentts.Messages.{ok_rate_set}
use opentts.Clients.{each_client}
use opentts.Protocol.{get_param, isanum, atoi}
use opentts.Protocol.Set.{all, who_of, set_for, set_range, set_named, parse_set}
use opentts.Protocol.Ranges.{parse_set-InRange}
use opentts.Settings.{rate, out_of_range, change, set_rate_uid, set_uid, set_all}
use opentts.Tests.Samples.{demo, first_client, second_client}

-- The configuration has no default modules.
abbrev no_modules : Bytes → Option Bytes
no_modules _ = none

demo-Registered : Registered demo
unfolding get_client_uid_by_fd
demo-Registered zero uid e = absurd (omega (arith, e))
demo-Registered (suc fd) uid e = elim (Bool-cases (suc fd == 5)) [
  | inl five ↦
      let first : uid ≡ 0 =
        let h : 1 ≡ suc uid = rw (five, get_client_uid_by_fd) at e in omega (arith, h) in
      (first_client, rw first)
  | inr not_five ↦ elim (Bool-cases (suc fd == 6)) [
    | inl six ↦
        let second : uid ≡ 1 =
          let h : 2 ≡ suc uid = rw (not_five, six, get_client_uid_by_fd) at e in omega (arith, h) in
        (second_client, rw second)
    | inr none_there ↦ absurd (
        let h : 0 ≡ suc uid = rw (not_five, none_there, get_client_uid_by_fd) at e in
        omega (arith, h))
  ]
]

set_all-Everyone_example :
    ((set_all no_modules (rate (pos 50)) demo).0 ≡ 0)
    × Everyone no_modules (rate (pos 50)) demo (set_all no_modules (rate (pos 50)) demo).1
set_all-Everyone_example = set_all-Everyone no_modules (rate (pos 50)) demo refl demo-Registered

demo-InRange : InRange demo
demo-InRange uid c e = elim (Bool-cases (uid == 1)) [
  | inl one ↦
      let same : some first_client ≡ some c = rw one at e in
      let first : first_client ≡ c = cc in subst Bounded first (refl, refl, refl)
  | inr not_one ↦ elim (Bool-cases (uid == 2)) [
    | inl two ↦
        let same : some second_client ≡ some c = rw (not_one, two) at e in
        let second : second_client ≡ c = cc in subst Bounded second (refl, refl, refl)
    | inr none_there ↦ let gone : none ≡ some c = rw (not_one, none_there) at e in absurd (cc)
  ]
]

-- A pattern of the configuration.
abbrev slow : ClientSpecific
slow = record {
  pattern = b'*' ∷ [];
  rate = some (negsuc 49);
  pitch = none;
  volume = none;
  punctuation_mode = none;
  spelling_mode = none;
  voice_type = none;
  cap_let_recogn = none;
  pause_context = none;
  ssml_mode = none;
  language = none;
  output_module = none;
}

parse_set-InRange_example : InRange (set_for no_modules all (rate (pos 50)) 5 demo).1
unfolding parse_set set_named set_range get_param who_of isanum atoi set_for set_all set_uid
    set_rate_uid change each_client put_settings
parse_set-InRange_example =
    parse_set-InRange (map small) no_modules (λ _ _. true) (slow ∷ []) []
      (codes "SET ALL RATE 50\r\n") 5 demo
      (
        (
          λ v e. let same : negsuc 49 ≡ v = cc in subst (λ x. out_of_range x ≡ false) same refl,
          λ v e. absurd (cc),
          λ v e. absurd (cc),
        ),
        tt,
      )
      demo-InRange ok_rate_set _ refl

-- "end".
abbrev end_name : Bytes
end_name = b'e' ∷ b'n' ∷ b'd' ∷ []

set_notification_self-off_example :
    set_notification_self (pos 5) end_name false demo
    ≡ (0, put_settings 1 (record first_client { notification = 0 }) demo)
unfolding get_client_uid_by_fd flags_of
set_notification_self-off_example =
    set_notification_self-off (pos 5) end_name 1 0 [] first_client demo refl refl refl

-- "a:b:c".
abbrev full_name : Bytes
full_name = b'a' ∷ b':' ∷ b'b' ∷ b':' ∷ b'c' ∷ []

abbrev fits_all : Bytes → Option Bytes → Bool
fits_all pattern name = true

set_client_name_self-Named_example :
    (new : Settings) × (set_client_name_self fits_all (slow ∷ []) (pos 5) full_name demo
      ≡ some (0, put_settings 1 new demo))
    × Named fits_all (slow ∷ []) (record first_client { client_name = some full_name }) new
unfolding get_client_uid_by_fd
set_client_name_self-Named_example =
    set_client_name_self-Named fits_all (slow ∷ []) (pos 5) full_name 0 first_client demo refl refl
      refl refl
