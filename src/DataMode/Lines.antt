-- ===== src/DataMode/Lines.antt =====
-- The lines that `serve` reads of an escaped text: none of them ends the text.
use opentts.Prelude.{
  ℕ, ◌≡◌, refl, inl, inr, Bool, true, false, not, ◌&&◌, [], ◌∷◌, ◌++◌, ◌==◌, arith, Bool-cases,
  if◌then◌else◌,
}
use opentts.Types.{Bytes}
use opentts.Api.{is_dotline, escape_from, escape_text}
use opentts.DataMode.Dots.{end_of_line}

-- A C string: no NUL inside.
abbrev pub clean : Bytes → Bool
clean [] = true
clean (c ∷ cs) = not (c == 0) && clean cs

-- The byte in front of the next one, 0 at the start of a line.
abbrev pub next : ℕ → ℕ → ℕ
next prev c = if c == b'\n' && prev == b'\r' then 0 else c

abbrev pub is_stop : Bytes → Bool
is_stop (c ∷ d ∷ e ∷ rest) = c == b'.' && d == b'\r' && e == b'\n'
is_stop (c ∷ d ∷ []) = false
is_stop (c ∷ []) = false
is_stop [] = false

-- No line is "." alone.
abbrev pub no_stop : ℕ → Bytes → Bool
no_stop prev [] = true
no_stop prev (c ∷ cs) = not (prev == 0 && is_stop (c ∷ cs)) && no_stop (next prev c) cs

-- Behind the byte `prev` no "." stands at the start of a line.
abbrev no_dot : ℕ → Bytes → Bool
no_dot prev (c ∷ d ∷ rest) =
    not (prev == 0 && c == b'.') && not (prev == b'\r' && c == b'\n' && d == b'.')
no_dot prev (c ∷ []) = not (prev == 0 && c == b'.')
no_dot prev [] = true

no_dot_inside : (t : Bytes) → no_dot b'.' t ≡ true
no_dot_inside [] = refl
no_dot_inside (c ∷ []) = refl
no_dot_inside (c ∷ d ∷ rest) = refl

is_stop_dot : (c : ℕ) (x : Bytes) → (c == b'.') ≡ false → is_stop (c ∷ x) ≡ false
is_stop_dot c [] h = refl
is_stop_dot c (d ∷ []) h = refl
is_stop_dot c (d ∷ e ∷ x) h = ground (arith, h)

no_stop_copy :
    (prev c : ℕ) (x : Bytes)
    → (prev == 0 && c == b'.') ≡ false
    → no_stop (next prev c) x ≡ true
    → no_stop prev (c ∷ x) ≡ true
no_stop_copy prev c x h g = elim (Bool-cases (c == b'.')) [
  | inl dot ↦ let off : (prev == 0) ≡ false = ground (arith, h, dot) in rw (off, no_stop) g
  | inr plain ↦
      let off : (prev == 0 && is_stop (c ∷ x)) ≡ false = ground (arith, is_stop_dot c x plain) in
      rw (off, no_stop) g
]

is_stop_dots : (x : Bytes) → is_stop (b'.' ∷ b'.' ∷ x) ≡ false
is_stop_dots [] = refl
is_stop_dots (c ∷ x) = refl

-- What `escape_from` makes of a dot at the start of a line.
no_stop_dots :
    (prev : ℕ) (x : Bytes)
    → no_stop b'.' x ≡ true
    → no_stop prev (b'\r' ∷ b'\n' ∷ b'.' ∷ b'.' ∷ x) ≡ true
no_stop_dots prev x h =
    no_stop_copy prev b'\r' (b'\n' ∷ b'.' ∷ b'.' ∷ x) (ground arith)
      (ground (arith, h, is_stop_dots x))

escape_from-no_stop :
    (prev : ℕ) (t : Bytes)
    → clean t ≡ true
    → no_dot prev t ≡ true
    → no_stop prev (escape_from t ++ end_of_line) ≡ true
unfolding escape_from
escape_from-no_stop prev [] h g = ground arith
escape_from-no_stop prev (c ∷ []) h g =
    no_stop_copy prev c end_of_line (ground (arith, g)) (ground arith)
escape_from-no_stop prev (c ∷ d ∷ []) h g =
    no_stop_copy prev c (d ∷ end_of_line) (ground (arith, g))
      (no_stop_copy (next prev c) d end_of_line (ground (arith, g, h)) (ground arith))
escape_from-no_stop prev (c ∷ d ∷ e ∷ rest) h g = elim (Bool-cases (is_dotline c d e)) [
  | inl on ↦
      rw (on, escape_from)
        (no_stop_dots prev (escape_from rest ++ end_of_line)
          (escape_from-no_stop b'.' rest (ground (arith, h)) (no_dot_inside rest)))
  | inr off ↦
      rw (off, escape_from)
        (no_stop_copy prev c (escape_from (d ∷ e ∷ rest) ++ end_of_line) (ground (arith, g)) (
          escape_from-no_stop (next prev c) (d ∷ e ∷ rest) (ground (arith, h))
            (ground (arith, g, h, off))))
]

no_dot_plain : (c : ℕ) (cs : Bytes) → (c == b'.') ≡ false → no_dot 0 (c ∷ cs) ≡ true
no_dot_plain c [] h = ground (arith, h)
no_dot_plain c (d ∷ cs) h = ground (arith, h)

pub escape_text-no_stop :
    (t : Bytes) → clean t ≡ true → no_stop 0 (escape_text t ++ end_of_line) ≡ true
unfolding escape_text
escape_text-no_stop [] h = refl
escape_text-no_stop (c ∷ cs) h = elim (Bool-cases (c == b'.')) [
  | inl dot ↦
      let inside = escape_from-no_stop b'.' cs (ground (arith, h)) (no_dot_inside cs) in
      rw (dot, escape_text) (ground (arith, inside, is_stop_dots (escape_from cs ++ end_of_line)))
  | inr plain ↦ rw (plain, escape_text) (escape_from-no_stop 0 (c ∷ cs) h (no_dot_plain c cs plain))
]

escape_from-clean : (t : Bytes) → clean t ≡ true → clean (escape_from t) ≡ true
unfolding escape_from
escape_from-clean [] h = refl
escape_from-clean (c ∷ []) h = h
escape_from-clean (c ∷ d ∷ []) h = h
escape_from-clean (c ∷ d ∷ e ∷ rest) h =
    let skipped = escape_from-clean rest (ground (arith, h)) in
    let copied = escape_from-clean (d ∷ e ∷ rest) (ground (arith, h)) in
    elim (Bool-cases (is_dotline c d e)) [
      | inl on ↦ rw (on, escape_from) skipped
      | inr off ↦ rw (off, escape_from) (ground (arith, h, copied))
    ]

pub escape_text-clean : (t : Bytes) → clean t ≡ true → clean (escape_text t) ≡ true
unfolding escape_text
escape_text-clean [] h = refl
escape_text-clean (c ∷ cs) h = elim (Bool-cases (c == b'.')) [
  | inl dot ↦ rw (dot, escape_text) (escape_from-clean cs (ground (arith, h)))
  | inr plain ↦ rw (plain, escape_text) (escape_from-clean (c ∷ cs) h)
]
