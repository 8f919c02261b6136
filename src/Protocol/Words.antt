-- ===== src/Protocol/Words.antt =====
-- `get_param` reads the words of a line.
use opentts.Prelude.{
  ℕ, zero, suc, ◌-◌, ◌≡◌, refl, ◌∙◌, ap, Bool, true, false, not, ◌&&◌, List, [], ◌∷◌, ◌++◌, Option,
  none, some, length, length-append, take, ◌==◌, arith,
}
use opentts.Types.{Bytes}
use opentts.Protocol.{word, nth_word, at_end, c_string, finished, param_of, get_param}

-- A word of a line: not empty, with no space and no NUL.
abbrev pub plain : Bytes → Bool
plain [] = true
plain (c ∷ cs) = not (c == b' ') && not (c == 0) && plain cs

abbrev pub Word : Bytes → Type 0
Word w = (plain w ≡ true) × (c : ℕ) × (cs : Bytes) × (w ≡ c ∷ cs)

abbrev pub Words : List Bytes → Type 0
Words [] = Unit
Words (w ∷ ws) = Word w × Words ws

abbrev end_of_line : Bytes
end_of_line = b'\r' ∷ b'\n' ∷ []

-- How a client writes a line.
abbrev pub line : Bytes → List Bytes → Bytes
line w [] = w ++ end_of_line
line w (v ∷ ws) = w ++ b' ' ∷ line v ws

-- The word with the number `n`.
abbrev pub pick : ℕ → Bytes → List Bytes → Option Bytes
pick zero w ws = some w
pick (suc n) w [] = none
pick (suc n) w (v ∷ ws) = pick n v ws

word-space : (w rest : Bytes) → plain w ≡ true → word (w ++ b' ' ∷ rest) ≡ (w, some rest)
word-space [] rest h = refl
word-space (c ∷ cs) rest h =
    let other : (c == b' ') ≡ false = ground (arith, h) in
    let ih = word-space cs rest (ground (arith, h)) in rw (other, word) (rw ih refl)

word-last : (w : Bytes) → plain w ≡ true → word (w ++ end_of_line) ≡ (w ++ end_of_line, none)
word-last [] h = refl
word-last (c ∷ cs) h =
    let other : (c == b' ') ≡ false = ground (arith, h) in
    let ih = word-last cs (ground (arith, h)) in rw (other, word) (rw ih refl)

c_string-plain : (w : Bytes) → plain w ≡ true → c_string w ≡ w
c_string-plain [] h = refl
c_string-plain (c ∷ cs) h =
    let other : (c == 0) ≡ false = ground (arith, h) in
    let ih = c_string-plain cs (ground (arith, h)) in rw (other, c_string) (rw ih refl)

take-front : (w v : Bytes) → take (length w) (w ++ v) ≡ w
take-front [] v = refl
take-front (c ∷ cs) v = ap (◌∷◌ c) (take-front cs v)

take-line : (w : Bytes) → take (length (w ++ end_of_line) - 2) (w ++ end_of_line) ≡ w
take-line w =
    let e : length (w ++ end_of_line) - 2 ≡ length w = omega (arith, length-append w end_of_line) in
    rw e (take-front w end_of_line)

line-cons : (w : Bytes) (ws : List Bytes) → Word w → at_end (some (line w ws)) ≡ false
line-cons w [] (h, c, cs, e) = rw e refl
line-cons w (v ∷ ws) (h, c, cs, e) = rw e refl

module _ (strdown : Bytes → Bytes) where
  -- What `get_param` makes of the word that it found.
  abbrev found_param : Bytes × Option Bytes → Option Bytes
  found_param (w, rest) = param_of strdown false w rest

  param_of-cons :
      (x : Bytes) (c : ℕ) (cs : Bytes) (rest : Option Bytes)
      → x ≡ c ∷ cs
      → param_of strdown false x rest ≡ some (finished x rest)
  param_of-cons x c cs rest e = rw e refl

  found-last : (w : Bytes) → Word w → found_param (w ++ end_of_line, none) ≡ some w
  found-last w (h, c, cs, e) =
      let longer : w ++ end_of_line ≡ c ∷ (cs ++ end_of_line) = rw e refl in
      param_of-cons (w ++ end_of_line) c (cs ++ end_of_line) none longer
      ∙ rw (take-line w) (ap some (c_string-plain w h))

  found-inner :
      (w rest : Bytes) → Word w → at_end (some rest) ≡ false → found_param (w, some rest) ≡ some w
  found-inner w rest (h, c, cs, e) inner =
      param_of-cons w c cs (some rest) e ∙ rw inner (ap some (c_string-plain w h))

  nth_word-pick :
      (n : ℕ) (w : Bytes) (ws : List Bytes)
      → Word w
      → Words ws
      → found_param (nth_word n (line w ws)) ≡ pick n w ws
  unfolding nth_word
  nth_word-pick zero w [] this rest = rw (word-last w this.0, nth_word) (found-last w this)
  nth_word-pick zero w (v ∷ ws) this rest =
      rw (word-space w (line v ws) this.0, nth_word)
        (found-inner w (line v ws) this (line-cons v ws rest.0))
  nth_word-pick (suc n) w [] this rest = rw (word-last w this.0, nth_word) refl
  nth_word-pick (suc n) w (v ∷ ws) this rest =
      rw (word-space w (line v ws) this.0, nth_word) (nth_word-pick n v ws rest.0 rest.1)

  -- From a line of words, none of them empty and none with a space or a NUL in it, with a space
  -- between any two and the two bytes of an end of line behind the last, `get_param` reads the word
  -- with the number that it is asked for, and NULL if there are fewer words.
  pub get_param-pick :
      (n : ℕ) (w : Bytes) (ws : List Bytes)
      → Word w
      → Words ws
      → get_param strdown (line w ws) n false ≡ pick n w ws
  unfolding get_param
  get_param-pick n w ws this rest = nth_word-pick n w ws this rest
