-- ===== src/Output/Modules/Working.antt =====
-- The module that `get_output_module` chooses.
use opentts.Prelude.{
  ℕ, ◌≡◌, refl, ◌⊎◌, inl, inr, Bool, true, false, not, ◌&&◌, [], ◌∷◌, Option, none, some,
  Bool-cases, arith,
}
use opentts.Types.{Bytes}
use opentts.Settings.{same_text}
use opentts.Output.Modules.{
  Modules, dummy_name, lookup_module, if_working, get_output_module_by_name, first_other, or_else,
  default_module, get_output_module,
}

module _ (working : ℕ → Bool) where
  -- A module that works, or none.
  abbrev Working : Option ℕ → Type 0
  Working none = Unit
  Working (some m) = working m ≡ true

  if_working-Working : (o : Option ℕ) → Working (if_working working o)
  if_working-Working none = tt
  if_working-Working (some m) = elim (Bool-cases (working m)) [
    | inl on ↦ rw on on
    | inr off ↦ rw off tt
  ]

  by_name-Working :
      (name : Bytes) (ms : Modules) → Working (get_output_module_by_name working name ms)
  unfolding get_output_module_by_name
  by_name-Working name ms = if_working-Working (lookup_module name ms)

  default_module-Working :
      (default : Option Bytes) (ms : Modules) → Working (default_module working default ms)
  default_module-Working none ms = tt
  default_module-Working (some name) ms = by_name-Working name ms

  first_other-Working : (ms : Modules) → Working (first_other working ms)
  unfolding first_other
  first_other-Working [] = tt
  first_other-Working ((n, m) ∷ ms) =
      elim (Bool-cases (not (same_text n dummy_name) && working m)) [
        | inl on ↦ rw (on, first_other) (ground (arith, on))
        | inr off ↦ rw (off, first_other) (first_other-Working ms)
      ]

  or_else-Working : (a b : Option ℕ) → Working a → Working b → Working (or_else a b)
  or_else-Working none b p q = q
  or_else-Working (some m) b p q = p

  -- No module other than "dummy" works.
  abbrev pub OthersDown : Modules → Type 0
  OthersDown [] = Unit
  OthersDown ((n, m) ∷ ms) = ((not (same_text n dummy_name) && working m) ≡ false) × OthersDown ms

  first_other-none : (ms : Modules) → first_other working ms ≡ none → OthersDown ms
  unfolding first_other
  first_other-none [] h = tt
  first_other-none ((n, m) ∷ ms) h = elim (Bool-cases (not (same_text n dummy_name) && working m)) [
    | inl on ↦
        let clash : some m ≡ none = rw (on, first_other) at h in absurd (ground (arith, clash))
    | inr off ↦
        let rest : first_other working ms ≡ none = rw (off, first_other) at h in
        (off, first_other-none ms rest)
  ]

  or_else-none : (a b : Option ℕ) → or_else a b ≡ none → (a ≡ none) × (b ≡ none)
  or_else-none none b h = (refl, h)
  or_else-none (some m) b h = absurd (ground (arith, h))

  -- What the choice for a message comes to.
  abbrev pub Choice : Modules → Option ℕ → Type 0
  Choice ms (some m) = working m ≡ true
  Choice ms none = OthersDown ms × (get_output_module_by_name working dummy_name ms ≡ none)

  Choice-or_else :
      (ms : Modules) (o : Option ℕ)
      → Working o
      → (o ≡ none → OthersDown ms × (get_output_module_by_name working dummy_name ms ≡ none))
      → Choice ms o
  Choice-or_else ms none p q = q refl
  Choice-or_else ms (some m) p q = p

  preferred : (a b : Option ℕ) → (a ≡ none) ⊎ (or_else a b ≡ a)
  preferred none b = inl refl
  preferred (some m) b = inr refl

  -- For a message that names a module, `get_output_module` chooses a module that works, the one that the
  -- message names if that works; it finds none only if no other module than "dummy" works, and
  -- "dummy" does not either.
  pub get_output_module-Choice :
      (name : Bytes) (default : Option Bytes) (ms : Modules)
      → Choice ms (get_output_module working (some name) default ms)
        × ((get_output_module_by_name working name ms ≡ none)
            ⊎ (get_output_module working (some name) default ms
                ≡ get_output_module_by_name working name ms))
  unfolding get_output_module
  get_output_module-Choice name default ms =
      let asked = get_output_module_by_name working name ms in
      let usual = default_module working default ms in
      let other = first_other working ms in
      let dummy = get_output_module_by_name working dummy_name ms in
      let works =
        or_else-Working asked (or_else usual (or_else other dummy)) (by_name-Working name ms) (
          or_else-Working usual (or_else other dummy) (default_module-Working default ms) (
            or_else-Working other dummy (first_other-Working ms)
              (by_name-Working dummy_name ms))) in
      (
        Choice-or_else ms (or_else asked (or_else usual (or_else other dummy))) works λ h.
            let (a, b) = or_else-none asked (or_else usual (or_else other dummy)) h in
            let (c, d) = or_else-none usual (or_else other dummy) b in
            let (e, f) = or_else-none other dummy d in (first_other-none ms e, f),
        preferred asked (or_else usual (or_else other dummy)),
      )
