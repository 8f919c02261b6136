-- ===== src/IndexMarks/Stripped.antt =====
-- `strip_index_marks` against `insert_index_marks`.
use mathlib.Core.List.{append_assoc}
use opentts.Prelude.{
  ℕ, zero, suc, ◌+◌, ◌/◌, ◌%◌, ◌≤◌, ◌≡◌, refl, ap, ◌∙◌, inl, inr, Bool, true, false, ◌&&◌, [], ◌∷◌,
  ◌++◌, ◌==◌, ltb, arith, tests, Bool-cases,
}
use opentts.Types.{Bytes, data_text}
use opentts.IndexMarks.{
  mark_tail, speak_start, speak_end, digits, index_mark, ends_sentence, goes_on, insert_from,
  insert_index_marks, strip_from, cut_speak_end, strip_index_marks,
}

-- A text with "<", ">" and "&" as entities.
unfoldable pub entities : Bytes → Bytes
entities [] = []
entities (c ∷ rest) = elim (c == b'<') [
  | true ↦ b'&' ∷ b'l' ∷ b't' ∷ b';' ∷ entities rest
  | false ↦ elim (c == b'>') [
    | true ↦ b'&' ∷ b'g' ∷ b't' ∷ b';' ∷ entities rest
    | false ↦ elim (c == b'&') [
      | true ↦ b'&' ∷ b'a' ∷ b'm' ∷ b'p' ∷ b';' ∷ entities rest
      | false ↦ c ∷ entities rest
    ]
  ]
]

-- Up to the end of a mark nothing is copied.
strip_from-digit :
    (d : ℕ) (x : Bytes) → d ≤ 9 → strip_from true ((b'0' + d) ∷ x) ≡ strip_from true x
unfolding strip_from
strip_from-digit d x h =
    let off : (b'0' + d == b'>') ≡ false = ground (arith, h) in rw (off, strip_from) refl

strip_from-digits :
    (fuel n : ℕ) (x : Bytes) → strip_from true (digits fuel n ++ x) ≡ strip_from true x
unfolding digits
strip_from-digits zero n x = refl
strip_from-digits (suc fuel) n x =
    let last = (b'0' + n % 10) ∷ [] in
    let front = strip_from-digits fuel (n / 10) (last ++ x) in
    elim (Bool-cases (ltb n 10)) [
      | inl on ↦ rw (on, digits) (strip_from-digit n x (omega (tests, on)))
      | inr off ↦
          rw (off, digits)
            (rw (append_assoc (digits fuel (n / 10)) last x)
              (front ∙ strip_from-digit (n % 10) x (omega arith)))
    ]

strip_from-index_mark :
    (n : ℕ) (x : Bytes) → strip_from false (index_mark n ++ x) ≡ strip_from false x
unfolding index_mark strip_from
strip_from-index_mark n x =
    ap (strip_from true) (append_assoc (digits (suc n) n) mark_tail x)
    ∙ strip_from-digits (suc n) n (mark_tail ++ x)

strip_from-copy :
    (c : ℕ) (x : Bytes) → (c == b'<') ≡ false → strip_from false (c ∷ x) ≡ c ∷ strip_from false x
unfolding strip_from
strip_from-copy c x h = rw (h, strip_from) refl

module _ (isspace : Bytes → Bool) where
  -- A mark behind the end of a sentence, or none.
  strip_from-place :
      (n c : ℕ) (rest x : Bytes)
      → (c == b'<') ≡ false
      → strip_from false (insert_from isspace data_text false n rest ++ x)
        ≡ entities rest ++ strip_from false x
      → strip_from false (insert_from isspace data_text false (suc n) rest ++ x)
        ≡ entities rest ++ strip_from false x
      → strip_from false (
          (elim (ends_sentence c && true && goes_on isspace rest) [
            | true ↦ c ∷ index_mark n ++ insert_from isspace data_text false (suc n) rest
            | false ↦ c ∷ insert_from isspace data_text false n rest
          ])
          ++ x)
        ≡ c ∷ entities rest ++ strip_from false x
  strip_from-place n c rest x a same marked =
      let inserted = insert_from isspace data_text false (suc n) rest in
      elim (Bool-cases (ends_sentence c && true && goes_on isspace rest)) [
        | inl on ↦ rw on (
            strip_from-copy c (index_mark n ++ inserted ++ x) a
            ∙ ap (◌∷◌ c) (
                ap (strip_from false) (append_assoc (index_mark n) inserted x)
                ∙ strip_from-index_mark n (inserted ++ x)
                ∙ marked))
        | inr off ↦ rw off (strip_from-copy c _ a ∙ ap (◌∷◌ c) same)
      ]

  strip_from-insert_from :
      (n : ℕ) (t x : Bytes)
      → strip_from false (insert_from isspace data_text false n t ++ x)
        ≡ entities t ++ strip_from false x
  unfolding insert_from strip_from entities
  strip_from-insert_from n [] x = refl
  strip_from-insert_from n (c ∷ rest) x =
      let same = strip_from-insert_from n rest x in
      let marked = strip_from-insert_from (suc n) rest x in
      elim (Bool-cases (c == b'<')) [
        | inl on ↦ rw (on, insert_from, entities) (ap (λ y. b'&' ∷ b'l' ∷ b't' ∷ b';' ∷ y) same)
        | inr a ↦ elim (Bool-cases (c == b'>')) [
          | inl on ↦
              rw (a, insert_from, entities) (rw on (ap (λ y. b'&' ∷ b'g' ∷ b't' ∷ b';' ∷ y) same))
          | inr b ↦ elim (Bool-cases (c == b'&')) [
            | inl on ↦
                rw (a, insert_from, entities)
                  (rw b (rw on (ap (λ y. b'&' ∷ b'a' ∷ b'm' ∷ b'p' ∷ b';' ∷ y) same)))
            | inr d ↦
                rw (a, insert_from, entities)
                  (rw b (rw d (strip_from-place n c rest x a same marked)))
          ]
        ]
      ]

cut_speak_end-copy :
    (c : ℕ) (x : Bytes) → (c == b'<') ≡ false → cut_speak_end (c ∷ x) ≡ c ∷ cut_speak_end x
unfolding cut_speak_end
cut_speak_end-copy c x h = rw (h, cut_speak_end) refl

cut_speak_end-entities : (t : Bytes) → cut_speak_end (entities t ++ speak_end) ≡ entities t
unfolding cut_speak_end entities
cut_speak_end-entities [] = refl
cut_speak_end-entities (c ∷ rest) =
    let same = cut_speak_end-entities rest in
    elim (Bool-cases (c == b'<')) [
      | inl on ↦ rw (on, entities) (ap (λ y. b'&' ∷ b'l' ∷ b't' ∷ b';' ∷ y) same)
      | inr a ↦ elim (Bool-cases (c == b'>')) [
        | inl on ↦ rw (a, entities) (rw on (ap (λ y. b'&' ∷ b'g' ∷ b't' ∷ b';' ∷ y) same))
        | inr b ↦ elim (Bool-cases (c == b'&')) [
          | inl on ↦
              rw (a, entities) (rw b (rw on (ap (λ y. b'&' ∷ b'a' ∷ b'm' ∷ b'p' ∷ b';' ∷ y) same)))
          | inr d ↦
              rw (a, entities)
                (rw b
                  (rw d (cut_speak_end-copy c (entities rest ++ speak_end) a ∙ ap (◌∷◌ c) same)))
        ]
      ]
    ]

-- What `insert_index_marks` makes of a text that is not SSML is, with the marks taken out again, the
-- text behind "<speak>", with "&lt;", "&gt;" and "&amp;" for "<", ">" and "&": all the marks are gone,
-- nothing else is lost, and the entities stay.
pub strip_index_marks-insert_index_marks :
    (isspace : Bytes → Bool) (t : Bytes)
    → strip_index_marks (insert_index_marks isspace data_text t) data_text
      ≡ speak_start ++ entities t
unfolding strip_index_marks insert_index_marks strip_from cut_speak_end
strip_index_marks-insert_index_marks isspace t =
    let marked = insert_from isspace data_text false 0 t in
    let stripped = strip_from-insert_from isspace 0 t speak_end in
    ap (λ y. speak_start ++ cut_speak_end y) stripped
    ∙ ap (λ y. speak_start ++ y) (cut_speak_end-entities t)
