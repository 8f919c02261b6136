-- ===== src/DataMode/Reading.antt =====
-- An escaped text and the end of its last line are lines as `serve` reads them.
use opentts.Prelude.{
  ℕ, ◌≡◌, refl, ap, ◌∙◌, sym, inl, inr, Bool, true, false, ◌&&◌, List, [], ◌∷◌, ◌++◌, none, some,
  ◌==◌, length, arith, Bool-cases, leb, if◌then◌else◌,
}
use opentts.Types.{Bytes}
use opentts.DataMode.{read_line, ends_data, real_bytes, find_end, same_start, end_of_data}
use opentts.DataMode.Dots.{end_of_line}
use opentts.DataMode.Lines.{clean, next, is_stop, no_stop}

abbrev pub joined : List Bytes → Bytes
joined [] = []
joined (l ∷ ls) = l ++ joined ls

-- A line that `serve` reads as one, with no end of the text inside, that is not ".\r\n".
pub record Line (l : Bytes) : Type 0 where
  pub reads : (w : Bytes) → read_line 0 (l ++ w) ≡ some (l, w)
  pub inside : find_end l ≡ none
  pub other : is_stop l ≡ false

abbrev pub AllLines : List Bytes → Type 0
AllLines [] = Unit
AllLines (l ∷ ls) = Line l × AllLines ls

-- The rest of a text, behind the byte `prev`, as lines.
pub record Cut (prev : ℕ) (u : Bytes) : Type 0 where
  pub first : Bytes
  pub others : List Bytes
  pub reads : (w : Bytes) → read_line prev (first ++ w) ≡ some (first, w)
  pub inside : find_end first ≡ none
  pub whole : first ++ joined others ≡ u ++ end_of_line
  pub lines : AllLines others

-- A line goes on behind its first byte.
reads_more :
    (prev c : ℕ) (l : Bytes)
    → (c == 0) ≡ false
    → (c == b'\n' && prev == b'\r') ≡ false
    → ((w : Bytes) → read_line c (l ++ w) ≡ some (l, w))
    → (w : Bytes) → read_line prev (c ∷ l ++ w) ≡ some (c ∷ l, w)
unfolding read_line
reads_more prev c l h off reads w =
    let same : (if c == 0 then b'?' else c) ≡ c = rw h refl in
    rw (off, read_line) (rw same (rw (reads w) (ap (λ x. some (x ∷ l, w)) same)))

reads_last :
    (prev c : ℕ) (w : Bytes)
    → (c == b'\n' && prev == b'\r') ≡ true
    → read_line prev (c ∷ w) ≡ some (c ∷ [], w)
unfolding read_line
reads_last prev c w on = rw (on, read_line) refl

find_end_step :
    (c : ℕ) (l : Bytes)
    → same_start 5 (c ∷ l) end_of_data ≡ false
    → find_end l ≡ none
    → find_end (c ∷ l) ≡ none
find_end_step c l off h = rw (off, find_end) (rw h refl)

-- What is read as a line has no end of a line in front of its last byte.
no_crlf :
    (c d e : ℕ) (l : Bytes)
    → read_line c ((d ∷ e ∷ l) ++ []) ≡ some (d ∷ e ∷ l, [])
    → (c == b'\r' && d == b'\n') ≡ false
no_crlf c d e l reads = elim (Bool-cases (c == b'\r' && d == b'\n')) [
  | inl on ↦
      let clash = sym (reads_last c d (e ∷ l ++ []) (ground (arith, on))) ∙ reads in
      absurd (ground (arith, clash))
  | inr off ↦ off
]

inside_more :
    (c : ℕ) (l : Bytes)
    → ((w : Bytes) → read_line c (l ++ w) ≡ some (l, w))
    → find_end l ≡ none
    → find_end (c ∷ l) ≡ none
inside_more c [] reads h = find_end_step c [] (ground arith) h
inside_more c (d ∷ []) reads h = find_end_step c (d ∷ []) (ground arith) h
inside_more c (d ∷ e ∷ l) reads h =
    let off = no_crlf c d e l (reads []) in find_end_step c (d ∷ e ∷ l) (ground (arith, off)) h

pub is_stop_front : (l r : Bytes) → is_stop (l ++ r) ≡ false → is_stop l ≡ false
is_stop_front [] r h = refl
is_stop_front (c ∷ []) r h = refl
is_stop_front (c ∷ d ∷ []) r h = refl
is_stop_front (c ∷ d ∷ e ∷ l) r h = h

pub no_stop_front : (x : Bytes) → no_stop 0 x ≡ true → is_stop x ≡ false
no_stop_front [] h = refl
no_stop_front (c ∷ cs) h = ground (arith, h)

-- The first line ends here, and the next one starts.
Cut-last :
    (prev c : ℕ) (cs : Bytes)
    → (c == b'\n' && prev == b'\r') ≡ true
    → (r : Cut 0 cs) → no_stop 0 (cs ++ end_of_line) ≡ true
    → Cut prev (c ∷ cs)
Cut-last prev c cs on r clear = record {
  first = c ∷ [];
  others = r.first ∷ r.others;
  reads = λ w. reads_last prev c w on;
  inside = find_end_step c [] (ground arith) refl;
  whole = ap (◌∷◌ c) r.whole;
  lines = (
    record {
      reads = r.reads;
      inside = r.inside;
      other =
          is_stop_front r.first (joined r.others)
            (rw r.whole (no_stop_front (cs ++ end_of_line) clear));
    },
    r.lines,
  );
}

Cut-more :
    (prev c : ℕ) (cs : Bytes)
    → (c == 0) ≡ false
    → (c == b'\n' && prev == b'\r') ≡ false
    → (r : Cut c cs) → Cut prev (c ∷ cs)
Cut-more prev c cs h off r = record {
  first = c ∷ r.first;
  others = r.others;
  reads = reads_more prev c r.first h off r.reads;
  inside = inside_more c r.first r.reads r.inside;
  whole = ap (◌∷◌ c) r.whole;
  lines = r.lines;
}

pub cut :
    (prev : ℕ) (u : Bytes) → clean u ≡ true → no_stop prev (u ++ end_of_line) ≡ true → Cut prev u
unfolding read_line
cut prev [] h g = record {
  first = end_of_line;
  others = [];
  reads = λ w. refl;
  inside = refl;
  whole = refl;
  lines = tt;
}
cut prev (c ∷ cs) h g =
    let step : no_stop (next prev c) (cs ++ end_of_line) ≡ true = ground (arith, g) in
    elim (Bool-cases (c == b'\n' && prev == b'\r')) [
      | inl on ↦
          let at_start : next prev c ≡ 0 = rw on refl in
          let clear : no_stop 0 (cs ++ end_of_line) ≡ true = rw at_start at step in
          Cut-last prev c cs on (cut 0 cs (ground (arith, h)) clear) clear
      | inr off ↦
          let behind : next prev c ≡ c = rw off refl in
          let clear : no_stop c (cs ++ end_of_line) ≡ true = rw behind at step in
          Cut-more prev c cs (ground (arith, h)) off (cut c cs (ground (arith, h)) clear)
    ]

no_end_here :
    (c : ℕ) (cs : Bytes) → find_end (c ∷ cs) ≡ none → same_start 5 (c ∷ cs) end_of_data ≡ false
no_end_here c cs h = elim (Bool-cases (same_start 5 (c ∷ cs) end_of_data)) [
  | inl on ↦ let found : some 0 ≡ none = rw (on, find_end) at h in absurd (ground (arith, found))
  | inr off ↦ off
]

pub Line-ends_data : (l : Bytes) → Line l → ends_data l (length l) ≡ false
Line-ends_data [] h = refl
Line-ends_data (c ∷ []) h = refl
Line-ends_data (c ∷ d ∷ []) h = refl
Line-ends_data (c ∷ d ∷ e ∷ []) h = let other = h.other in ground (arith, other)
Line-ends_data (c ∷ d ∷ e ∷ f ∷ []) h = refl
Line-ends_data (c ∷ d ∷ e ∷ f ∷ g ∷ l) h =
    let off = no_end_here c (d ∷ e ∷ f ∷ g ∷ l) h.inside in ground (arith, off)

if_same {ℓ} : {A : Type ℓ} (b : Bool) (x : A) → (if b then x else x) ≡ x
if_same true x = refl
if_same false x = refl

pub Line-real_bytes : (l : Bytes) → Line l → real_bytes l (length l) ≡ (length l, false)
unfolding real_bytes
Line-real_bytes l h = rw h.inside (if_same (leb 5 (length l)) (length l, false))
