-- ===== src/Names/Inverse.antt =====
-- Reading and writing the names of settings are inverse to each other.
use opentts.Prelude.{
  ◌≡◌, ◌≢◌, refl, sym, ap, ◌∙◌, ◌↔◌, ◌⊎◌, inl, inr, true, List, [], ◌∷◌, Option, none, some,
  if◌then◌else◌, arith, Bool-cases,
}
use opentts.Types.{
  Bytes, VoiceType, no_voice, male1, male2, male3, female1, female2, female3, child_male,
  child_female, Punctuation, punct_none, punct_all, punct_some, Spelling, spell_on, spell_off,
  CapitalLetters, cap_none, cap_spell, cap_icon,
}
use opentts.Settings.{same_text}
use opentts.Names.{
  voice2str, str2voice, punct2str, str2punct, spell2str, str2spell, recogn2str, str2recogn,
}

same_text-eq : (a b : Bytes) → same_text a b ≡ true → a ≡ b
same_text-eq [] [] h = refl
same_text-eq [] (d ∷ ds) h = absurd (ground (arith, h))
same_text-eq (c ∷ cs) [] h = absurd (ground (arith, h))
same_text-eq (c ∷ cs) (d ∷ ds) h =
    let first : c ≡ d = ground (arith, h) in
    let rest = same_text-eq cs ds (ground (arith, h)) in rw first (ap (◌∷◌ d) rest)

-- A chain of `strcmp`: the value of the first name that fits.
module _ {ℓ} {A : Type ℓ} where
  abbrev chain : List (Bytes × A) → A → Bytes → A
  chain [] d b = d
  chain ((name, a) ∷ names) d b = if same_text b name then a else chain names d b

  -- Every name is the one that is written for its value.
  abbrev Named : (A → Option Bytes) → List (Bytes × A) → Type 0
  Named to [] = Unit
  Named to ((name, a) ∷ names) = (to a ≡ some name) × Named to names

  chain-Named :
      (to : A → Option Bytes) (names : List (Bytes × A)) (d : A) (b : Bytes)
      → Named to names
      → (chain names d b ≡ d) ⊎ (to (chain names d b) ≡ some b)
  chain-Named to [] d b h = inl refl
  chain-Named to ((name, a) ∷ names) d b h = elim (Bool-cases (same_text b name)) [
    | inl on ↦ let same = same_text-eq b name on in rw on (inr (rw same (h.0)))
    | inr off ↦ rw off (chain-Named to names d b (h.1))
  ]

abbrev lifted {ℓ} : {A : Type ℓ} → (A → Option Bytes) → Option A → Option Bytes
lifted to none = none
lifted to (some a) = to a

-- What `chain-Named` says of a value that is not the default.
read_back {ℓ} :
    {A : Type ℓ} (to : A → Option Bytes) (o : Option A) (b : Bytes) (a : A)
    → (o ≡ none) ⊎ (lifted to o ≡ some b)
    → o ≡ some a
    → to a ≡ some b
read_back to o b a (inl e) h = absurd (ground (arith, e, h))
read_back to o b a (inr e) h = rw h at e

str2voice_name : (a : VoiceType) (b : Bytes) → voice2str a ≡ some b → str2voice b ≡ a
unfolding str2voice
str2voice_name male1 b h =
    let same : b'm' ∷ b'a' ∷ b'l' ∷ b'e' ∷ b'1' ∷ [] ≡ b = cc h in rw (sym same) refl
str2voice_name male2 b h =
    let same : b'm' ∷ b'a' ∷ b'l' ∷ b'e' ∷ b'2' ∷ [] ≡ b = cc h in rw (sym same) refl
str2voice_name male3 b h =
    let same : b'm' ∷ b'a' ∷ b'l' ∷ b'e' ∷ b'3' ∷ [] ≡ b = cc h in rw (sym same) refl
str2voice_name female1 b h =
    let same : b'f' ∷ b'e' ∷ b'm' ∷ b'a' ∷ b'l' ∷ b'e' ∷ b'1' ∷ [] ≡ b = cc h in rw (sym same) refl
str2voice_name female2 b h =
    let same : b'f' ∷ b'e' ∷ b'm' ∷ b'a' ∷ b'l' ∷ b'e' ∷ b'2' ∷ [] ≡ b = cc h in rw (sym same) refl
str2voice_name female3 b h =
    let same : b'f' ∷ b'e' ∷ b'm' ∷ b'a' ∷ b'l' ∷ b'e' ∷ b'3' ∷ [] ≡ b = cc h in rw (sym same) refl
str2voice_name child_male b h =
    let same : b'c' ∷ b'h' ∷ b'i' ∷ b'l' ∷ b'd' ∷ b'_' ∷ b'm' ∷ b'a' ∷ b'l' ∷ b'e' ∷ [] ≡ b =
      cc h in
    rw (sym same) refl
str2voice_name child_female b h =
    let same : b'c' ∷ b'h' ∷ b'i' ∷ b'l' ∷ b'd' ∷ b'_' ∷ b'f' ∷ b'e' ∷ b'm' ∷ b'a' ∷ b'l' ∷ b'e'
          ∷ []
        ≡ b =
      cc h in
    rw (sym same) refl
str2voice_name no_voice b h = absurd (ground (arith, h))

str2punct_name : (a : Punctuation) (b : Bytes) → punct2str a ≡ some b → str2punct b ≡ some a
unfolding str2punct
str2punct_name punct_none b h =
    let same : b'n' ∷ b'o' ∷ b'n' ∷ b'e' ∷ [] ≡ b = cc h in rw (sym same) refl
str2punct_name punct_all b h = let same : b'a' ∷ b'l' ∷ b'l' ∷ [] ≡ b = cc h in rw (sym same) refl
str2punct_name punct_some b h =
    let same : b's' ∷ b'o' ∷ b'm' ∷ b'e' ∷ [] ≡ b = cc h in rw (sym same) refl

str2punct_read : (b : Bytes) (a : Punctuation) → str2punct b ≡ some a → punct2str a ≡ some b
unfolding str2punct
str2punct_read b a h =
    read_back punct2str (str2punct b) b a
      (chain-Named (lifted punct2str)
        ((b'n' ∷ b'o' ∷ b'n' ∷ b'e' ∷ [], some punct_none)
          ∷ (b'a' ∷ b'l' ∷ b'l' ∷ [], some punct_all)
          ∷ (b's' ∷ b'o' ∷ b'm' ∷ b'e' ∷ [], some punct_some)
          ∷ [])
        none b (refl, (refl, (refl, tt))))
      h

str2spell_name : (a : Spelling) (b : Bytes) → spell2str a ≡ some b → str2spell b ≡ some a
unfolding str2spell
str2spell_name spell_on b h = let same : b'o' ∷ b'n' ∷ [] ≡ b = cc h in rw (sym same) refl
str2spell_name spell_off b h = let same : b'o' ∷ b'f' ∷ b'f' ∷ [] ≡ b = cc h in rw (sym same) refl

str2spell_read : (b : Bytes) (a : Spelling) → str2spell b ≡ some a → spell2str a ≡ some b
unfolding str2spell
str2spell_read b a h =
    read_back spell2str (str2spell b) b a
      (chain-Named (lifted spell2str)
        ((b'o' ∷ b'n' ∷ [], some spell_on) ∷ (b'o' ∷ b'f' ∷ b'f' ∷ [], some spell_off) ∷ []) none b
        (refl, (refl, tt)))
      h

str2recogn_name : (a : CapitalLetters) (b : Bytes) → recogn2str a ≡ some b → str2recogn b ≡ some a
unfolding str2recogn
str2recogn_name cap_none b h =
    let same : b'n' ∷ b'o' ∷ b'n' ∷ b'e' ∷ [] ≡ b = cc h in rw (sym same) refl
str2recogn_name cap_spell b h =
    let same : b's' ∷ b'p' ∷ b'e' ∷ b'l' ∷ b'l' ∷ [] ≡ b = cc h in rw (sym same) refl
str2recogn_name cap_icon b h =
    let same : b'i' ∷ b'c' ∷ b'o' ∷ b'n' ∷ [] ≡ b = cc h in rw (sym same) refl

str2recogn_read : (b : Bytes) (a : CapitalLetters) → str2recogn b ≡ some a → recogn2str a ≡ some b
unfolding str2recogn
str2recogn_read b a h =
    read_back recogn2str (str2recogn b) b a
      (chain-Named (lifted recogn2str)
        ((b'n' ∷ b'o' ∷ b'n' ∷ b'e' ∷ [], some cap_none)
          ∷ (b's' ∷ b'p' ∷ b'e' ∷ b'l' ∷ b'l' ∷ [], some cap_spell)
          ∷ (b'i' ∷ b'c' ∷ b'o' ∷ b'n' ∷ [], some cap_icon)
          ∷ [])
        none b (refl, (refl, (refl, tt))))
      h

str2voice_read : (b : Bytes) → (str2voice b ≡ no_voice) ⊎ (voice2str (str2voice b) ≡ some b)
unfolding str2voice
str2voice_read b =
    chain-Named voice2str
      ((b'm' ∷ b'a' ∷ b'l' ∷ b'e' ∷ b'1' ∷ [], male1)
        ∷ (b'm' ∷ b'a' ∷ b'l' ∷ b'e' ∷ b'2' ∷ [], male2)
        ∷ (b'm' ∷ b'a' ∷ b'l' ∷ b'e' ∷ b'3' ∷ [], male3)
        ∷ (b'f' ∷ b'e' ∷ b'm' ∷ b'a' ∷ b'l' ∷ b'e' ∷ b'1' ∷ [], female1)
        ∷ (b'f' ∷ b'e' ∷ b'm' ∷ b'a' ∷ b'l' ∷ b'e' ∷ b'2' ∷ [], female2)
        ∷ (b'f' ∷ b'e' ∷ b'm' ∷ b'a' ∷ b'l' ∷ b'e' ∷ b'3' ∷ [], female3)
        ∷ (b'c' ∷ b'h' ∷ b'i' ∷ b'l' ∷ b'd' ∷ b'_' ∷ b'm' ∷ b'a' ∷ b'l' ∷ b'e' ∷ [], child_male)
        ∷ (
          b'c' ∷ b'h' ∷ b'i' ∷ b'l' ∷ b'd' ∷ b'_' ∷ b'f' ∷ b'e' ∷ b'm' ∷ b'a' ∷ b'l' ∷ b'e' ∷ [],
          child_female,
        )
        ∷ [])
      no_voice b (refl, (refl, (refl, (refl, (refl, (refl, (refl, (refl, tt))))))))

-- A text is read as a voice type other than `SPD_NO_VOICE` exactly if it is what is written for that voice
-- type.
pub str2voice-voice2str :
    (b : Bytes) (voice : VoiceType)
    → voice ≢ no_voice
    → (str2voice b ≡ voice) ↔ (voice2str voice ≡ some b)
str2voice-voice2str b voice known = (read, str2voice_name voice b)
  where
    read : str2voice b ≡ voice → voice2str voice ≡ some b
    read h = elim (str2voice_read b) [
      | inl gone ↦ absurd (known (sym h ∙ gone))
      | inr e ↦ rw h at e
    ]

-- A text is read as a punctuation mode, as a spelling mode or as a mode for capital letters exactly if it
-- is what is written for that mode; all other texts are read as errors.
str2punct-punct2str :
    (b : Bytes) (punct : Punctuation) (spell : Spelling) (recogn : CapitalLetters)
    → ((str2punct b ≡ some punct) ↔ (punct2str punct ≡ some b))
      × ((str2spell b ≡ some spell) ↔ (spell2str spell ≡ some b))
      × ((str2recogn b ≡ some recogn) ↔ (recogn2str recogn ≡ some b))
str2punct-punct2str b punct spell recogn = (
  (str2punct_read b punct, str2punct_name punct b),
  (str2spell_read b spell, str2spell_name spell b),
  (str2recogn_read b recogn, str2recogn_name recogn b),
)
