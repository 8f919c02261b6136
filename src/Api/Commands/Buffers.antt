-- ===== src/Api/Commands/Buffers.antt =====
-- Whether a command of the client's library fits into the buffer that `sprintf` writes it to, with the
-- NUL behind it.
use opentts.Prelude.{
  ℕ, zero, suc, ◌+◌, ◌*◌, ◌/◌, ◌%◌, ◌≤◌, ◌<◌, ◌≡◌, ◌↔◌, ap, inl, inr, [], ◌∷◌, ◌++◌, none, some,
  length, length-append, ltb, arith, Bool-cases, Option-cases,
}
use opentts.Prelude.Int.{ℤ, pos, negsuc}
use opentts.Types.{
  Bytes, punct_all, punct_none, punct_some, cap_none, cap_spell, cap_icon, spell_on, spell_off,
  DataMode, data_text, data_ssml, no_voice, male1, male2, male3, female1, female2, female3,
  child_male, child_female,
}
use opentts.IndexMarks.{digits}
use opentts.Messages.{decimal, decimal_ℤ}
use opentts.Messages.Decimal.{digits_cons}
use opentts.Api.Commands.{
  Control, spd_stop, spd_cancel, spd_pause, spd_resume, who_buffer, Setting, voice_rate,
  voice_pitch, volume, language, output_module, synthesis_voice, punctuation, capital_letters,
  spelling, voice_type, in_bounds, number_in_bounds, setting_name, setting_value, setting_command,
  setting_buffer, set_command, data_mode_command, data_mode_buffer,
}

-- 10 to the power of `k`.
abbrev pub pow10 : ℕ → ℕ
pow10 zero = 1
pow10 (suc k) = 10 * pow10 k

pow10-pos : (k : ℕ) → 0 < pow10 k
pow10-pos zero = omega arith
pow10-pos (suc k) = omega (arith, pow10-pos k)

length-digits : (k fuel n : ℕ) → n < fuel → (length (digits fuel n) ≤ suc k) ↔ (n < pow10 (suc k))
unfolding digits
length-digits k zero n h = absurd (omega arith)
length-digits zero (suc fuel) n h = elim (Bool-cases (ltb n 10)) [
  | inl small ↦ rw small (ground arith)
  | inr large ↦
      let last = (b'0' + n % 10) ∷ [] in
      let (c, cs, e) = digits_cons fuel (n / 10) (ground arith) in
      let size = length-append (digits fuel (n / 10)) last in
      let front : length (digits fuel (n / 10)) ≡ suc (length cs) = ap length e in
      let big : 10 ≤ n = ground arith in
      rw large (
        (λ few. absurd (omega (arith, size, front, few))),
        (λ few. absurd (omega (arith, big, few))),
      )
]
length-digits (suc k) (suc fuel) n h = elim (Bool-cases (ltb n 10)) [
  | inl small ↦
      let low : n < 10 = ground arith in
      rw small ((λ _. omega (arith, low, pow10-pos k)), (λ _. omega arith))
  | inr large ↦
      let size = length-append (digits fuel (n / 10)) ((b'0' + n % 10) ∷ []) in
      let ih = length-digits k fuel (n / 10) (ground arith) in
      rw large (
        (λ few. let less = ih.0 (omega (arith, size, few)) in omega (arith, less)),
        (λ less. let few = ih.1 (omega (arith, less)) in omega (arith, size, few)),
      )
]

pub length-decimal : (k n : ℕ) → (length (decimal n) ≤ suc k) ↔ (n < pow10 (suc k))
unfolding decimal
length-decimal k n = length-digits k (suc n) n (omega arith)

-- How many digits of a number there is room for behind the name of the command.
abbrev pub control_digits : Control → ℕ
control_digits spd_stop = 9
control_digits spd_cancel = 7
control_digits spd_pause = 8
control_digits spd_resume = 7

-- A number within the bounds has at most three digits and a sign.
number_size : (v : ℤ) (value : Bytes) → number_in_bounds v ≡ some value → length value ≤ 4
unfolding decimal_ℤ
number_size (pos n) value e =
    let few = (length-decimal 2 n).1 in
    elim (Bool-cases (in_bounds (pos n))) [
      | inl inside ↦
          let given : some (decimal n) ≡ some value = rw inside at e in
          let same : decimal n ≡ value = cc given in
          let small : n < 1000 = ground (arith, inside) in
          let size : length (decimal n) ≡ length value = ap length same in
          omega (arith, few small, size)
      | inr outside ↦ let off : none ≡ some value = rw outside at e in absurd (cc off)
    ]
number_size (negsuc n) value e =
    let few = (length-decimal 2 (suc n)).1 in
    elim (Bool-cases (in_bounds (negsuc n))) [
      | inl inside ↦
          let given : some (b'-' ∷ decimal (suc n)) ≡ some value = rw inside at e in
          let same : b'-' ∷ decimal (suc n) ≡ value = cc given in
          let small : suc n < 1000 = ground (arith, inside) in
          let size : suc (length (decimal (suc n))) ≡ length value = ap length same in
          omega (arith, few small, size)
      | inr outside ↦ let off : none ≡ some value = rw outside at e in absurd (cc off)
    ]

same_size : (w value : Bytes) (n : ℕ) → some w ≡ some value → length w ≤ n → length value ≤ n
same_size w value n e h =
    let same : w ≡ value = cc e in
    let size : length w ≡ length value = ap length same in omega (arith, h, size)

-- The longest value of each parameter.
abbrev value_room : Setting → ℕ
value_room (punctuation mode) = 4
value_room (capital_letters mode) = 5
value_room (spelling mode) = 3
value_room (voice_type v) = 12
value_room _ = 4

value_size :
    (p : Setting) (value : Bytes) (size : ℕ)
    → setting_value p ≡ some value
    → setting_buffer p ≡ some size
    → length value ≤ value_room p
unfolding setting_value
value_size (voice_rate v) value size e b = number_size v value e
value_size (voice_pitch v) value size e b = number_size v value e
value_size (volume v) value size e b = number_size v value e
value_size (language str) value size e b = absurd (cc b)
value_size (output_module str) value size e b = absurd (cc b)
value_size (synthesis_voice str) value size e b = absurd (cc b)
value_size (punctuation punct_all) value size e b = same_size _ value 4 e (omega arith)
value_size (punctuation punct_none) value size e b = same_size _ value 4 e (omega arith)
value_size (punctuation punct_some) value size e b = same_size _ value 4 e (omega arith)
value_size (capital_letters cap_none) value size e b = same_size _ value 5 e (omega arith)
value_size (capital_letters cap_spell) value size e b = same_size _ value 5 e (omega arith)
value_size (capital_letters cap_icon) value size e b = same_size _ value 5 e (omega arith)
value_size (spelling spell_on) value size e b = same_size _ value 3 e (omega arith)
value_size (spelling spell_off) value size e b = same_size _ value 3 e (omega arith)
value_size (voice_type male1) value size e b = same_size _ value 12 e (omega arith)
value_size (voice_type male2) value size e b = same_size _ value 12 e (omega arith)
value_size (voice_type male3) value size e b = same_size _ value 12 e (omega arith)
value_size (voice_type female1) value size e b = same_size _ value 12 e (omega arith)
value_size (voice_type female2) value size e b = same_size _ value 12 e (omega arith)
value_size (voice_type female3) value size e b = same_size _ value 12 e (omega arith)
value_size (voice_type child_male) value size e b = same_size _ value 12 e (omega arith)
value_size (voice_type child_female) value size e b = same_size _ value 12 e (omega arith)
value_size (voice_type no_voice) value size e b = absurd (cc e)

-- All of a command but the target: "SET", three spaces, the name, the value and the NUL.
buffer_room :
    (p : Setting) (size : ℕ)
    → setting_buffer p ≡ some size
    → length (setting_name p) + value_room p + 14 ≤ size
buffer_room (voice_rate v) size b = ground (arith, b)
buffer_room (voice_pitch v) size b = ground (arith, b)
buffer_room (volume v) size b = ground (arith, b)
buffer_room (language str) size b = absurd (cc b)
buffer_room (output_module str) size b = absurd (cc b)
buffer_room (synthesis_voice str) size b = absurd (cc b)
buffer_room (punctuation mode) size b = ground (arith, b)
buffer_room (capital_letters mode) size b = ground (arith, b)
buffer_room (spelling mode) size b = ground (arith, b)
buffer_room (voice_type v) size b = ground (arith, b)

set_size :
    (who name value : Bytes)
    → length (set_command who name value) ≡ length who + length name + length value + 6
set_size who name value =
    omega
      (arith, length-append who (b' ' ∷ (name ++ b' ' ∷ value)), length-append name (b' ' ∷ value))

data_mode_size : (mode : DataMode) → length (data_mode_command mode) + 1 ≤ data_mode_buffer
unfolding data_mode_command
data_mode_size data_text = omega arith
data_mode_size data_ssml = omega arith

-- If the text for whom a parameter is set fits into its own buffer of 8 bytes, then each command of the
-- functions for settings that is written to a buffer of fixed size fits into that buffer. So does that of
-- `spd_set_data_mode`.
pub setting_command-fits :
    (p : Setting) (mode : DataMode) (who command : Bytes) (size : ℕ)
    → length who + 1 ≤ who_buffer
    → setting_command p who ≡ some command
    → setting_buffer p ≡ some size
    → (length command + 1 ≤ size) × (length (data_mode_command mode) + 1 ≤ data_mode_buffer)
unfolding setting_command
setting_command-fits p mode who command size short e b = elim (Option-cases (setting_value p)) [
  | inl off ↦ let no : none ≡ some command = rw (off, setting_command) at e in absurd (cc no)
  | inr (value, on) ↦
      let given : some (set_command who (setting_name p) value) ≡ some command =
        rw (on, setting_command) at e in
      let same : set_command who (setting_name p) value ≡ command = cc given in
      let length_is : length (set_command who (setting_name p) value) ≡ length command =
        ap length same in
      (
        omega (
          arith,
          length_is,
          set_size who (setting_name p) value,
          value_size p value size on b,
          buffer_room p size b,
          short,
        ),
        data_mode_size mode,
      )
]
