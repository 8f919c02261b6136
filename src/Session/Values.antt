-- ===== src/Session/Values.antt =====
-- The values that the client's functions for settings write are words of a line.
use mathlib.Core.Path.{subst}
use opentts.Prelude.{
  ℕ, ◌≡◌, refl, sym, ◌∙◌, inl, inr, true, ◌&&◌, ◌∷◌, none, some, arith, Bool-cases,
}
use opentts.Prelude.Int.{ℤ}
use opentts.Types.{
  Bytes, no_voice, male1, male2, male3, female1, female2, female3, child_male, child_female,
  punct_all, punct_none, punct_some, cap_none, cap_spell, cap_icon, spell_on, spell_off,
}
use opentts.Messages.{decimal_ℤ}
use opentts.Protocol.Words.{plain}
use opentts.Api.Commands.{
  Setting, voice_rate, voice_pitch, volume, language, output_module, synthesis_voice, punctuation,
  capital_letters, spelling, voice_type, in_bounds, number_in_bounds, setting_name, setting_value,
}
use opentts.Session.Exchange.{quiet}
use opentts.Session.Words.{QuietWord, decimal_ℤ-QuietWord}

-- A text that is set is one word.
abbrev pub Writable : Setting → Type 0
Writable (language str) = QuietWord str
Writable (output_module str) = QuietWord str
Writable (synthesis_voice str) = QuietWord str
Writable _ = Unit

same-QuietWord : (w value : Bytes) → QuietWord w → some w ≡ some value → QuietWord value
same-QuietWord w value q e = let same : w ≡ value = cc in subst QuietWord same q

number-QuietWord : (v : ℤ) (value : Bytes) → number_in_bounds v ≡ some value → QuietWord value
number-QuietWord v value e = elim (Bool-cases (in_bounds v)) [
  | inl inside ↦
      let given : number_in_bounds v ≡ some (decimal_ℤ v) = rw inside refl in
      same-QuietWord (decimal_ℤ v) value (decimal_ℤ-QuietWord v).0 (sym given ∙ e)
  | inr outside ↦ let off : number_in_bounds v ≡ none = rw outside refl in absurd (cc (off, e))
]

-- A word that is written out.
pub known-QuietWord :
    (c : ℕ) (cs value : Bytes)
    → plain (c ∷ cs) && quiet (c ∷ cs) ≡ true
    → some (c ∷ cs) ≡ some value
    → QuietWord value
known-QuietWord c cs value h e =
    same-QuietWord (c ∷ cs) value ((ground (arith, h), c, cs, refl), ground (arith, h)) e

pub value-QuietWord :
    (p : Setting) (value : Bytes) → Writable p → setting_value p ≡ some value → QuietWord value
unfolding setting_value
value-QuietWord (voice_rate v) value w e = number-QuietWord v value e
value-QuietWord (voice_pitch v) value w e = number-QuietWord v value e
value-QuietWord (volume v) value w e = number-QuietWord v value e
value-QuietWord (language str) value w e = same-QuietWord str value w e
value-QuietWord (output_module str) value w e = same-QuietWord str value w e
value-QuietWord (synthesis_voice str) value w e = same-QuietWord str value w e
value-QuietWord (voice_type no_voice) value w e = absurd (cc e)
value-QuietWord (voice_type male1) value w e = known-QuietWord _ _ value refl e
value-QuietWord (voice_type male2) value w e = known-QuietWord _ _ value refl e
value-QuietWord (voice_type male3) value w e = known-QuietWord _ _ value refl e
value-QuietWord (voice_type female1) value w e = known-QuietWord _ _ value refl e
value-QuietWord (voice_type female2) value w e = known-QuietWord _ _ value refl e
value-QuietWord (voice_type female3) value w e = known-QuietWord _ _ value refl e
value-QuietWord (voice_type child_male) value w e = known-QuietWord _ _ value refl e
value-QuietWord (voice_type child_female) value w e = known-QuietWord _ _ value refl e
value-QuietWord (punctuation punct_all) value w e = known-QuietWord _ _ value refl e
value-QuietWord (punctuation punct_none) value w e = known-QuietWord _ _ value refl e
value-QuietWord (punctuation punct_some) value w e = known-QuietWord _ _ value refl e
value-QuietWord (capital_letters cap_none) value w e = known-QuietWord _ _ value refl e
value-QuietWord (capital_letters cap_spell) value w e = known-QuietWord _ _ value refl e
value-QuietWord (capital_letters cap_icon) value w e = known-QuietWord _ _ value refl e
value-QuietWord (spelling spell_on) value w e = known-QuietWord _ _ value refl e
value-QuietWord (spelling spell_off) value w e = known-QuietWord _ _ value refl e

-- The name of a parameter is one word.
pub name-QuietWord : (p : Setting) → QuietWord (setting_name p)
name-QuietWord (voice_rate v) = ((refl, _, _, refl), refl)
name-QuietWord p = ((refl, _, _, refl), refl)
