-- ===== src/Tests/Modules.antt =====
-- The choice of a module, and texts for modules.
use opentts.Prelude.{ℕ, ◌≡◌, ◌⊎◌, Bool, [], ◌∷◌, none, some, ◌==◌, not}
use opentts.Types.{Bytes}
use opentts.Output.Dots.{escape_dot}
use opentts.Output.Dots.Rows.{escape_dot_rows}
use opentts.Output.Modules.{Modules, dummy_name, get_output_module, get_output_module_by_name}
use opentts.Output.Modules.Working.{Choice, get_output_module-Choice}

-- Two modules and the dummy; the first, "a", has failed.
abbrev three : Modules
three = (b'a' ∷ [], 0) ∷ (dummy_name, 1) ∷ (b'b' ∷ [], 2) ∷ []

abbrev works : ℕ → Bool
works m = not (m == 0)

get_output_module-Choice_example :
    Choice works three (get_output_module works (some (b'a' ∷ [])) none three)
    × ((get_output_module_by_name works (b'a' ∷ []) three ≡ none)
        ⊎ (get_output_module works (some (b'a' ∷ [])) none three
            ≡ get_output_module_by_name works (b'a' ∷ []) three))
get_output_module-Choice_example = get_output_module-Choice works (b'a' ∷ []) none three

escape_dot_rows_example :
    (x : Bytes) × (escape_dot (some (b'.' ∷ b'\n' ∷ b'.' ∷ b'\n' ∷ []))
      ≡ some (b'.' ∷ b'.' ∷ b'\n' ∷ b'.' ∷ b'\n' ∷ x))
escape_dot_rows_example = escape_dot_rows []
