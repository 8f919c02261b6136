-- ===== src/Speaking/Queues/Ends.antt =====
-- The end of a queue: `g_list_last`, and the loops that take links off the end.
use mathlib.Core.List.{append_assoc, append-nil}
use opentts.Prelude.{
  ℕ, zero, suc, ◌≤◌, ◌≡◌, refl, sym, ap, ◌∙◌, ◌⊎◌, inl, inr, Bool, true, false, List, [], ◌∷◌, ◌++◌,
  none, some, length, length-append, arith, Bool-cases,
}
use opentts.Types.{Message, Server}
use opentts.Speaking.Queues.{split_last, mem_free_message, strip_rounds}

-- Either there is no last link, or the queue is its front with that link behind.
abbrev pub Unlinked : List ℕ → Type 0
Unlinked q =
    ((split_last q ≡ none) × (q ≡ []))
    ⊎ ((front : List ℕ) × (last : ℕ) × (split_last q ≡ some (front, last))
        × (q ≡ front ++ last ∷ []))

pub split_last-Unlinked : (q : List ℕ) → Unlinked q
split_last-Unlinked [] = inl (refl, refl)
split_last-Unlinked (p ∷ q) = elim (split_last-Unlinked q) [
  | inl (e, empty) ↦ inr ([], p, rw e, rw empty)
  | inr (front, last, e, parts) ↦ inr (p ∷ front, last, rw e, ap (◌∷◌ p) parts)
]

pub split_last-concat :
    (front : List ℕ) (last : ℕ) → split_last (front ++ last ∷ []) ≡ some (front, last)
split_last-concat [] last = refl
split_last-concat (p ∷ front) last = rw (split_last-concat front last)

module _ (test : Message → Bool) (h : ℕ → Message) where
  abbrev pub Accepted : List ℕ → Type 0
  Accepted [] = Unit {0}
  Accepted (p ∷ q) = (test (h p) ≡ true) × Accepted q

  Accepted-concat : (q : List ℕ) (p : ℕ) → Accepted q → test (h p) ≡ true → Accepted (q ++ p ∷ [])
  Accepted-concat [] p a b = (b, tt)
  Accepted-concat (x ∷ q) p a b = (a.0, Accepted-concat q p a.1 b)

  -- The last message of the list, if there is one, is refused by the test.
  abbrev pub EndsRefused : List ℕ → Type 0
  EndsRefused q =
      (q ≡ [])
      ⊎ ((front : List ℕ) × (last : ℕ) × (q ≡ front ++ last ∷ []) × (test (h last) ≡ false))

-- What the loop leaves: all messages behind `front` were accepted and are freed, from the end on,
-- and the next one would be refused.
abbrev pub Stripped : (Message → Bool) → List ℕ → Server → List ℕ × Server → Type 0
Stripped test q s r =
    (front : List ℕ) × (tail : List ℕ) × (r ≡ (front, record s { freed = tail ++ s.freed }))
    × (q ≡ front ++ tail)
    × Accepted test s.messages tail
    × EndsRefused test s.messages front

pub strip_rounds-Stripped :
    (rounds : ℕ) (test : Message → Bool) (q : List ℕ) (s : Server)
    → length q ≤ rounds
    → Stripped test q s (strip_rounds rounds test q s)
unfolding strip_rounds mem_free_message
strip_rounds-Stripped zero test [] s h = ([], [], refl, refl, tt, inl refl)
strip_rounds-Stripped zero test (p ∷ q) s h = elim h [ ]
strip_rounds-Stripped (suc rounds) test q s h = elim (split_last-Unlinked q) [
  | inl (e, empty) ↦ ([], [], rw (e, strip_rounds) (ap (λ x. (x, s)) empty), empty, tt, inl refl)
  | inr (front, last, e, parts) ↦ elim (Bool-cases (test (s.messages last))) [
    | inr refused ↦ (
      q,
      [],
      rw (e, refused, strip_rounds) refl,
      sym (append-nil q),
      tt,
      inr (front, last, parts, refused),
    )
    | inl accepted ↦
        let (f, t, r, q', a, b) =
          strip_rounds-Stripped rounds test front (mem_free_message last s)
            (omega (arith, ap length parts, length-append front (last ∷ []))) in
        (
          f,
          t ++ last ∷ [],
          rw (e, accepted, strip_rounds)
              (r
                ∙ ap (λ z. (f, record s { freed = z })) (sym (append_assoc t (last ∷ []) s.freed))),
          parts ∙ ap (λ x. x ++ last ∷ []) q' ∙ append_assoc f t (last ∷ []),
          Accepted-concat test s.messages t last a accepted,
          b,
        )
  ]
]
