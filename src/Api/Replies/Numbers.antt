-- ===== src/Api/Replies/Numbers.antt =====
-- The number of a message, as the client reads it in the reply.
use opentts.Prelude.{
  ℕ, ◌+◌, ◌≡◌, refl, ap, Bool, true, false, not, ◌&&◌, ◌||◌, [], ◌∷◌, ◌++◌, some, length, drop,
  codes, ltb, ◌==◌, arith,
}
use mathlib.Core.List.{append_assoc}
use opentts.Prelude.Int.{pos}
use opentts.Types.{Bytes}
use opentts.Messages.{reply_text, message_queued, decimal, crlf}
use opentts.Messages.Decimal.{decimal_lem}
use opentts.Protocol.{isdigit, all_digits, digits_value}
use opentts.Api.Replies.{
  split_line, leading_digits, strtol, skip_lines, after_code, get_param_str, get_param_int,
}

-- The parameter of a reply with one.
abbrev no_cr : Bytes → Bool
no_cr [] = true
no_cr (c ∷ cs) = not (c == b'\r') && no_cr cs

split_line-crlf :
    (x rest : Bytes) → no_cr x ≡ true → split_line (x ++ b'\r' ∷ b'\n' ∷ rest) ≡ some (x, rest)
unfolding split_line
split_line-crlf [] rest h = refl
split_line-crlf (c ∷ []) rest h =
    let inner : (c == b'\r') ≡ false = ground (arith, h) in rw (inner, split_line) refl
split_line-crlf (c ∷ d ∷ cs) rest h =
    let ih = split_line-crlf (d ∷ cs) rest (ground (arith, h)) in
    let inner : (c == b'\r' && d == b'\n') ≡ false = ground (arith, h) in
    rw (inner, split_line) (rw ih refl)

no_cr-digits : (xs : Bytes) → all_digits xs ≡ true → no_cr xs ≡ true
no_cr-digits [] h = refl
no_cr-digits (c ∷ cs) h = ground (arith, h, no_cr-digits cs (ground (arith, h)))

leading_digits-all : (xs : Bytes) → all_digits xs ≡ true → leading_digits xs ≡ xs
leading_digits-all [] h = refl
leading_digits-all (c ∷ cs) h =
    let digit : isdigit c ≡ true = ground (arith, h) in
    rw (digit, leading_digits) (ap (◌∷◌ c) (leading_digits-all cs (ground (arith, h))))

drop-length : (xs : Bytes) → drop (length xs) xs ≡ []
drop-length [] = refl
drop-length (c ∷ cs) = drop-length cs

strtol-digits :
    (c : ℕ) (cs : Bytes) (n : ℕ)
    → all_digits (c ∷ cs) ≡ true
    → digits_value 0 (c ∷ cs) ≡ n
    → strtol (c ∷ cs) ≡ (pos n, [])
unfolding strtol
strtol-digits c cs n h value =
    let no_sign : (c == b'-' || c == b'+') ≡ false = ground (arith, h) in
    rw (no_sign, strtol)
      (rw (leading_digits-all (c ∷ cs) h) (rw (drop-length (c ∷ cs)) (ap (λ v. (pos v, [])) value)))

strtol-decimal : (n : ℕ) → strtol (decimal n) ≡ (pos n, [])
unfolding strtol
strtol-decimal n =
    let d = decimal_lem n in rw d.printed (strtol-digits d.head d.tail n d.digit d.value)

after_code-line :
    (a b c : ℕ) (tail x rest : Bytes)
    → split_line tail ≡ some (x, rest)
    → after_code (b'-' ∷ tail) (a ∷ b ∷ c ∷ b'-' ∷ tail) ≡ (some x, pos 0)
unfolding after_code
after_code-line a b c tail x rest e =
    let long : (length tail + 4 == length (a ∷ b ∷ c ∷ b'-' ∷ tail)) ≡ true = ground arith in
    rw (long, after_code) (rw e refl)

get_param_str-225 :
    (tail x rest : Bytes)
    → split_line tail ≡ some (x, rest)
    → get_param_str (b'2' ∷ b'2' ∷ b'5' ∷ b'-' ∷ tail) 1 (pos 0) ≡ (some x, pos 0)
unfolding get_param_str skip_lines strtol
get_param_str-225 tail x rest e =
    let line : Bytes = b'2' ∷ b'2' ∷ b'5' ∷ b'-' ∷ tail in
    let long : ltb (length line) 4 ≡ false = ground arith in
    rw (long, get_param_str) (after_code-line b'2' b'2' b'5' tail x rest e)

abbrev queued_end : Bytes
queued_end = codes "225 OK MESSAGE QUEUED" ++ crlf

queued_text :
    (n : ℕ)
    → reply_text (message_queued (pos n))
      ≡ b'2' ∷ b'2' ∷ b'5' ∷ b'-' ∷ (decimal n ++ b'\r' ∷ b'\n' ∷ queued_end)
unfolding reply_text
queued_text n =
    ap (λ (t : Bytes). b'2' ∷ b'2' ∷ b'5' ∷ b'-' ∷ t) (append_assoc (decimal n) crlf queued_end)

-- The client reads the number of the message in the reply.
pub get_param_int-message_queued :
    (n : ℕ) → get_param_int (reply_text (message_queued (pos n))) 1 (pos 0) ≡ (pos n, pos 0)
unfolding get_param_int
get_param_int-message_queued n =
    let d = decimal_lem n in
    let plain : no_cr (decimal n) ≡ true = rw d.printed (no_cr-digits (d.head ∷ d.tail) d.digit) in
    let tail : Bytes = decimal n ++ b'\r' ∷ b'\n' ∷ queued_end in
    let read =
      get_param_str-225 tail (decimal n) queued_end
        (split_line-crlf (decimal n) queued_end plain) in
    rw (queued_text n) (rw (read, get_param_int) (rw (strtol-decimal n) refl))
