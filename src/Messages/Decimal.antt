-- ===== src/Messages/Decimal.antt =====
-- "%d" and `atoi`: numbers printed in decimal, and read again.
use opentts.Prelude.{
  ℕ, zero, suc, ◌+◌, ◌-◌, ◌*◌, ◌/◌, ◌%◌, ◌<◌, ◌≡◌, refl, sym, ◌∙◌, ap, inl, inr, true, [], ◌∷◌,
  ◌++◌, ltb, arith, Bool-cases,
}
use opentts.Prelude.Int.{ℤ, pos, negsuc}
use opentts.Types.{Bytes}
use opentts.IndexMarks.{digits}
use opentts.Messages.{decimal, decimal_ℤ}
use opentts.Protocol.{isdigit, all_digits, digits_value, isanum, atoi}

all_digits-append :
    (xs : Bytes) (d : ℕ)
    → all_digits xs ≡ true
    → isdigit d ≡ true
    → all_digits (xs ++ d ∷ []) ≡ true
all_digits-append [] d h k = ground (arith, k)
all_digits-append (c ∷ cs) d h k = ground (arith, h, all_digits-append cs d (ground (arith, h)) k)

digits_value-append :
    (acc : ℕ) (xs : Bytes) (d : ℕ)
    → digits_value acc (xs ++ d ∷ []) ≡ digits_value acc xs * 10 + (d - b'0')
digits_value-append acc [] d = refl
digits_value-append acc (c ∷ cs) d = digits_value-append (acc * 10 + (c - b'0')) cs d

all_digits-digits : (fuel n : ℕ) → all_digits (digits fuel n) ≡ true
unfolding digits
all_digits-digits zero n = refl
all_digits-digits (suc fuel) n = elim (Bool-cases (ltb n 10)) [
  | inl small ↦ rw small (ground (arith, small))
  | inr large ↦ rw large (
      all_digits-append (digits fuel (n / 10)) (b'0' + n % 10) (all_digits-digits fuel (n / 10))
        (ground arith))
]

digits_value-digits : (fuel n : ℕ) → n < fuel → digits_value 0 (digits fuel n) ≡ n
unfolding digits
digits_value-digits zero n h = absurd (omega arith)
digits_value-digits (suc fuel) n h = elim (Bool-cases (ltb n 10)) [
  | inl small ↦ rw small (omega arith)
  | inr large ↦
      let ih = digits_value-digits fuel (n / 10) (ground arith) in
      rw large (digits_value-append 0 (digits fuel (n / 10)) (b'0' + n % 10) ∙ omega (arith, ih))
]

-- A number in decimal starts with a digit.
pub digits_cons : (fuel n : ℕ) → n < fuel → (c : ℕ) × (cs : Bytes) × (digits fuel n ≡ c ∷ cs)
unfolding digits
digits_cons zero n h = absurd (omega arith)
digits_cons (suc fuel) n h = elim (Bool-cases (ltb n 10)) [
  | inl small ↦ rw small (b'0' + n, [], refl)
  | inr large ↦
      let (c, cs, e) = digits_cons fuel (n / 10) (ground arith) in
      rw large (c, cs ++ (b'0' + n % 10) ∷ [], rw e refl)
]

-- The digits of a number, the first of them apart.
pub record Decimal (n : ℕ) : Type 0 where
  pub head : ℕ
  pub tail : Bytes
  pub printed : decimal n ≡ head ∷ tail
  pub digit : all_digits (head ∷ tail) ≡ true
  pub value : digits_value 0 (head ∷ tail) ≡ n

Decimal-of : (n c : ℕ) (cs : Bytes) → digits (suc n) n ≡ c ∷ cs → Decimal n
unfolding decimal
Decimal-of n c cs e = record {
  head = c;
  tail = cs;
  printed = e;
  digit = ap all_digits (sym e) ∙ all_digits-digits (suc n) n;
  value = ap (digits_value 0) (sym e) ∙ digits_value-digits (suc n) n (omega arith);
}

pub decimal_lem : (n : ℕ) → Decimal n
decimal_lem n = let (c, cs, e) = digits_cons (suc n) n (omega arith) in Decimal-of n c cs e

-- An integer that "%d" prints is a number for `isanum`, and `atoi` reads it again.
pub atoi-decimal : (v : ℤ) → (isanum (decimal_ℤ v) ≡ true) × (atoi (decimal_ℤ v) ≡ v)
unfolding isanum atoi decimal_ℤ
atoi-decimal (pos n) =
    let d = decimal_lem n in
    rw d.printed (ground (arith, d.digit), ground (arith, d.digit, d.value))
atoi-decimal (negsuc n) =
    let d = decimal_lem (suc n) in
    rw d.printed (ground (arith, d.digit), ground (arith, d.digit, d.value))
