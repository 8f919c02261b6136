-- ===== src/Output/Modules.antt =====
-- `get_output_module` of src/server/output.c: which module says a message. The table of the modules is
-- a list of names and numbers, in the order of `g_hash_table_get_values`, with one entry for a name.
pub mod Working
use opentts.Prelude.{
  ℕ, ◌≡◌, ◌≢◌, refl, ◌⊎◌, inl, inr, Bool, true, false, not, ◌&&◌, List, [], ◌∷◌, Option, none, some,
  if◌then◌else◌, Bool-cases, Option-cases, arith,
}
use opentts.Types.{Bytes, Server}
use opentts.Settings.{same_text}

abbrev pub Modules : Type 0
Modules = List (Bytes × ℕ)

abbrev pub dummy_name : Bytes
dummy_name = b'd' ∷ b'u' ∷ b'm' ∷ b'm' ∷ b'y' ∷ []

-- `g_hash_table_lookup`.
unfoldable pub lookup_module : Bytes → Modules → Option ℕ
lookup_module name [] = none
lookup_module name ((n, m) ∷ ms) = elim (same_text n name) [
  | true ↦ some m
  | false ↦ lookup_module name ms
]

abbrev pub or_else : Option ℕ → Option ℕ → Option ℕ
or_else none b = b
or_else (some m) b = some m

module _ (working : ℕ → Bool) where
  abbrev pub if_working : Option ℕ → Option ℕ
  if_working none = none
  if_working (some m) = if working m then some m else none

  unfoldable pub get_output_module_by_name : Bytes → Modules → Option ℕ
  unfolding lookup_module
  get_output_module_by_name name ms = if_working (lookup_module name ms)

  -- The loop over the modules other than "dummy".
  unfoldable pub first_other : Modules → Option ℕ
  first_other [] = none
  first_other ((n, m) ∷ ms) = elim (not (same_text n dummy_name) && working m) [
    | true ↦ some m
    | false ↦ first_other ms
  ]

  abbrev pub default_module : Option Bytes → Modules → Option ℕ
  default_module none ms = none
  default_module (some name) ms = get_output_module_by_name name ms

  -- The module that the message asks for, and the default of the configuration.
  unfoldable pub get_output_module : Option Bytes → Option Bytes → Modules → Option ℕ
  unfolding get_output_module_by_name first_other
  get_output_module none default ms = none
  get_output_module (some name) default ms = or_else (get_output_module_by_name name ms) (
      or_else (default_module default ms)
        (or_else (first_other ms) (get_output_module_by_name dummy_name ms)))
