-- ===== src/Output/Dots/Rows.antt =====
-- Lines in a row that are a dot alone.
use opentts.Prelude.{◌≡◌, refl, ap, inl, inr, ◌&&◌, [], ◌∷◌, some, ◌==◌, Bool-cases}
use opentts.Types.{Bytes}
use opentts.Output.Dots.{escape_lines, escape_module_text, escape_dot}

-- A line end stays in its place.
escape_lines_end : (rest : Bytes) → (x : Bytes) × (escape_lines (b'\n' ∷ rest) ≡ b'\n' ∷ x)
unfolding escape_lines
escape_lines_end [] = ([], refl)
escape_lines_end (d ∷ []) = elim (Bool-cases (d == b'.')) [
  | inl dot ↦ (d ∷ b'.' ∷ [], rw (dot, escape_lines) refl)
  | inr plain ↦ (d ∷ [], rw (plain, escape_lines) refl)
]
escape_lines_end (d ∷ e ∷ rest) = elim (Bool-cases (d == b'.' && e == b'\n')) [
  | inl on ↦ (b'.' ∷ b'.' ∷ b'\n' ∷ escape_lines rest, rw (on, escape_lines) refl)
  | inr off ↦ (escape_lines (d ∷ e ∷ rest), rw (off, escape_lines) refl)
]

escape_lines_dot :
    (rest : Bytes) → (x : Bytes) × (escape_lines (b'.' ∷ b'\n' ∷ rest) ≡ b'.' ∷ b'\n' ∷ x)
unfolding escape_lines
escape_lines_dot [] = ([], refl)
escape_lines_dot (c ∷ rest) = let (x, e) = escape_lines_end (c ∷ rest) in (x, ap (◌∷◌ b'.') e)

-- A text that starts with two lines that are a dot alone: what `escape_dot` makes of it has ".." as its
-- first line, but its second line is a dot alone still, with which the text ends for the module.
pub escape_dot_rows :
    (rest : Bytes)
    → (x : Bytes) × (escape_dot (some (b'.' ∷ b'\n' ∷ b'.' ∷ b'\n' ∷ rest))
        ≡ some (b'.' ∷ b'.' ∷ b'\n' ∷ b'.' ∷ b'\n' ∷ x))
unfolding escape_dot escape_module_text
escape_dot_rows rest =
    let (x, e) = escape_lines_dot rest in (x, ap (λ y. some (b'.' ∷ b'.' ∷ b'\n' ∷ y)) e)
