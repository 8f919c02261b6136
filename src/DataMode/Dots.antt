-- ===== src/DataMode/Dots.antt =====
-- The server's `deescape_dot` against the client's `escape_dot`.
use opentts.Prelude.{
  ℕ, suc, ◌-◌, ◌≡◌, refl, ap, ◌∙◌, sym, inl, inr, Bool, true, false, ◌&&◌, [], ◌∷◌, ◌++◌, some,
  ◌==◌, length, arith, Bool-cases, leb,
}
use opentts.Types.{Bytes}
use opentts.Api.{is_dotline, escape_from, escape_text, escape_dot}
use opentts.DataMode.{is_escaped_dotline, deescape_from, deescape_start, deescape_dot}

abbrev pub end_of_line : Bytes
end_of_line = b'\r' ∷ b'\n' ∷ []

abbrev starts_escaped : Bytes → Bool
starts_escaped (c ∷ d ∷ e ∷ f ∷ rest) = is_escaped_dotline c d e f
starts_escaped (c ∷ d ∷ e ∷ []) = false
starts_escaped (c ∷ d ∷ []) = false
starts_escaped (c ∷ []) = false
starts_escaped [] = false

deescape_from_step :
    (n c : ℕ) (b : Bytes)
    → starts_escaped (c ∷ b) ≡ false
    → deescape_from (suc n) (c ∷ b) ≡ c ∷ deescape_from n b
unfolding deescape_from
deescape_from_step n c [] h = refl
deescape_from_step n c (d ∷ []) h = refl
deescape_from_step n c (d ∷ e ∷ []) h = refl
deescape_from_step n c (d ∷ e ∷ f ∷ rest) h = rw (h, deescape_from) refl

dotline_bytes : (c d e : ℕ) → is_dotline c d e ≡ true → (c ≡ b'\r') × (d ≡ b'\n') × (e ≡ b'.')
dotline_bytes c d e h = (ground (arith, h), ground (arith, h), ground (arith, h))

pub escape_from_head : (c : ℕ) (cs : Bytes) → (x : Bytes) × (escape_from (c ∷ cs) ≡ c ∷ x)
unfolding escape_from
escape_from_head c [] = ([], refl)
escape_from_head c (d ∷ []) = (d ∷ [], refl)
escape_from_head c (d ∷ e ∷ rest) = elim (Bool-cases (is_dotline c d e)) [
  | inl on ↦ (
    b'\n' ∷ b'.' ∷ b'.' ∷ escape_from rest,
    rw (on, escape_from)
        (ap (λ x. x ∷ b'\n' ∷ b'.' ∷ b'.' ∷ escape_from rest) (sym ((dotline_bytes c d e on).0))),
  )
  | inr off ↦ (escape_from (d ∷ e ∷ rest), rw (off, escape_from) refl)
]

-- The same number of bytes is taken from a text, with the end of a line behind it.
pub deescape_from_one :
    (c : ℕ) (x : Bytes)
    → starts_escaped (c ∷ x ++ end_of_line) ≡ false
    → deescape_from (length (c ∷ x)) (c ∷ x ++ end_of_line)
      ≡ c ∷ deescape_from (length x) (x ++ end_of_line)
deescape_from_one c x h = deescape_from_step (length x) c (x ++ end_of_line) h

other_pair :
    (c d : ℕ) (b : Bytes) → (c == b'\r' && d == b'\n') ≡ false → starts_escaped (c ∷ d ∷ b) ≡ false
other_pair c d [] h = refl
other_pair c d (e ∷ []) h = refl
other_pair c d (e ∷ f ∷ rest) h = ground (arith, h)

other_third : (c d e : ℕ) (b : Bytes) → (e == b'.') ≡ false → starts_escaped (c ∷ d ∷ e ∷ b) ≡ false
other_third c d e [] h = refl
other_third c d e (f ∷ rest) h = ground (arith, h)

pub escape_from_copy :
    (c : ℕ) (cs : Bytes) → (c == b'\r') ≡ false → escape_from (c ∷ cs) ≡ c ∷ escape_from cs
unfolding escape_from
escape_from_copy c [] h = refl
escape_from_copy c (d ∷ []) h = refl
escape_from_copy c (d ∷ e ∷ rest) h =
    let off : is_dotline c d e ≡ false = ground (arith, h) in rw (off, escape_from) refl

-- What stands behind a byte that `escape_from` copies does not make an escaped line of it.
copied_apart :
    (c d e : ℕ) (rest : Bytes)
    → is_dotline c d e ≡ false
    → starts_escaped (c ∷ escape_from (d ∷ e ∷ rest) ++ end_of_line) ≡ false
copied_apart c d e rest h = elim (Bool-cases (c == b'\r' && d == b'\n')) [
  | inl on ↦
      let plain : (d == b'\r') ≡ false = ground (arith, on) in
      let third : (e == b'.') ≡ false = ground (arith, on, h) in
      let (y, head) = escape_from_head e rest in
      rw (escape_from_copy d (e ∷ rest) plain)
        (rw head (other_third c d e (y ++ end_of_line) third))
  | inr off ↦
      let (x, head) = escape_from_head d (e ∷ rest) in
      rw head (other_pair c d (x ++ end_of_line) off)
]

deescape_from_escaped :
    (x : Bytes)
    → deescape_from
        (suc (suc (suc (suc (length x)))))
        (b'\r' ∷ b'\n' ∷ b'.' ∷ b'.' ∷ x ++ end_of_line)
      ≡ b'\r' ∷ b'\n' ∷ b'.' ∷ deescape_from (length x) (x ++ end_of_line)
unfolding deescape_from
deescape_from_escaped x =
    let left : suc (suc (suc (length x))) - 3 ≡ length x = omega arith in
    ap (λ n. b'\r' ∷ b'\n' ∷ b'.' ∷ deescape_from n (x ++ end_of_line)) left

pub deescape_from-escape_from :
    (t : Bytes) → deescape_from (length (escape_from t)) (escape_from t ++ end_of_line) ≡ t
unfolding deescape_from escape_from
deescape_from-escape_from [] = refl
deescape_from-escape_from (c ∷ []) = refl
deescape_from-escape_from (c ∷ d ∷ []) = deescape_from_one c (d ∷ []) (ground arith)
deescape_from-escape_from (c ∷ d ∷ e ∷ rest) =
    let skipped = deescape_from-escape_from rest in
    let copied = deescape_from-escape_from (d ∷ e ∷ rest) in
    elim (Bool-cases (is_dotline c d e)) [
      | inl on ↦
          let (first, second, third) = dotline_bytes c d e on in
          rw (on, escape_from)
            (deescape_from_escaped (escape_from rest)
              ∙ ap (λ x. b'\r' ∷ b'\n' ∷ b'.' ∷ x) skipped
              ∙ rw (first, second, third) refl)
      | inr off ↦
          rw (off, escape_from)
            (deescape_from_one c (escape_from (d ∷ e ∷ rest)) (copied_apart c d e rest off)
              ∙ ap (◌∷◌ c) copied)
    ]

deescape_start_plain :
    (n c : ℕ) (b : Bytes) → (c == b'.') ≡ false → deescape_start n (c ∷ b) ≡ deescape_from n (c ∷ b)
unfolding deescape_start
deescape_start_plain n c [] h = refl
deescape_start_plain n c (d ∷ rest) h =
    let off : (leb 2 n && c == b'.' && d == b'.') ≡ false = ground (arith, h) in
    rw (off, deescape_start) refl

deescape_start_dots :
    (x : Bytes)
    → deescape_start (suc (suc (length x))) (b'.' ∷ b'.' ∷ x ++ end_of_line)
      ≡ b'.' ∷ deescape_from (length x) (x ++ end_of_line)
unfolding deescape_start
deescape_start_dots x =
    let on : leb 2 (suc (suc (length x))) ≡ true = ground arith in
    let left : suc (suc (length x)) - 2 ≡ length x = omega arith in
    rw (on, deescape_start) (ap (λ n. b'.' ∷ deescape_from n (x ++ end_of_line)) left)

pub deescape_start-escape_text :
    (t : Bytes) → deescape_start (length (escape_text t)) (escape_text t ++ end_of_line) ≡ t
unfolding escape_text deescape_start deescape_from
deescape_start-escape_text [] = refl
deescape_start-escape_text (c ∷ cs) = elim (Bool-cases (c == b'.')) [
  | inl dot ↦
      let first : c ≡ b'.' = ground (arith, dot) in
      rw (dot, escape_text)
        (deescape_start_dots (escape_from cs)
          ∙ ap (◌∷◌ b'.') (deescape_from-escape_from cs)
          ∙ rw first refl)
  | inr plain ↦
      let (x, head) = escape_from_head c cs in
      let whole = deescape_from-escape_from (c ∷ cs) in
      let n = length (escape_from (c ∷ cs)) in
      let start : deescape_start n (escape_from (c ∷ cs) ++ end_of_line)
          ≡ deescape_from n (escape_from (c ∷ cs) ++ end_of_line) =
        rw head (deescape_start_plain (length (c ∷ x)) c (x ++ end_of_line) plain) in
      rw (plain, escape_text) (start ∙ whole)
]

-- A text that the client escapes and the server finds in its buffer, with the end of a line behind
-- it that it does not count, is the text again when the server has undone the escapes.
pub deescape_dot-escape_dot :
    (t escaped : Bytes)
    → escape_dot (some t) ≡ some escaped
    → deescape_dot (some (escaped ++ end_of_line)) (length escaped) ≡ some t
unfolding escape_dot deescape_dot
deescape_dot-escape_dot t escaped h =
    let same : escape_text t ≡ escaped = cc h in
    rw (sym same) (ap some (deescape_start-escape_text t))
