-- ===== src/Output/Dots.antt =====
-- `escape_dot` of src/server/output.c, for the texts that go to a module, whose lines end in "\n".
pub mod Rows
use opentts.Prelude.{true, false, ◌&&◌, [], ◌∷◌, Option, none, some, ◌==◌}
use opentts.Types.{Bytes}

-- The loop, and what is done with the text that is left. In the loop the "\n" behind a dot is passed.
unfoldable pub escape_lines : Bytes → Bytes
escape_lines [] = []
escape_lines (c ∷ []) = c ∷ []
escape_lines (c ∷ d ∷ []) = elim (c == b'\n' && d == b'.') [
  | true ↦ c ∷ d ∷ b'.' ∷ []
  | false ↦ c ∷ d ∷ []
]
escape_lines (c ∷ d ∷ e ∷ rest) = elim (c == b'\n' && d == b'.' && e == b'\n') [
  | true ↦ b'\n' ∷ b'.' ∷ b'.' ∷ b'\n' ∷ escape_lines rest
  | false ↦ c ∷ escape_lines (d ∷ e ∷ rest)
]

unfoldable pub escape_module_text : Bytes → Bytes
unfolding escape_lines
escape_module_text [] = []
escape_module_text (c ∷ []) = elim (c == b'.') [ true ↦ b'.' ∷ b'.' ∷ [] | false ↦ c ∷ [] ]
escape_module_text (c ∷ d ∷ rest) = elim (c == b'.' && d == b'\n') [
  | true ↦ b'.' ∷ b'.' ∷ b'\n' ∷ escape_lines rest
  | false ↦ escape_lines (c ∷ d ∷ rest)
]

unfoldable pub escape_dot : Option Bytes → Option Bytes
unfolding escape_module_text
escape_dot none = none
escape_dot (some otext) = some (escape_module_text otext)
