-- ===== src/Session/Words.antt =====
-- The lines of the client's commands, word by word, as the parser reads them. The library's
-- `g_ascii_strdown` turns the letters from A to Z into small ones.
use opentts.Prelude.{
  ℕ, suc, ◌+◌, ◌≡◌, refl, ◌∙◌, ap, true, false, ◌&&◌, List, [], ◌∷◌, ◌++◌, some, map, codes, ◌==◌,
  leb, arith, if◌then◌else◌,
}
use mathlib.Core.List.{append_assoc}
use opentts.Prelude.Int.{ℤ, pos, negsuc}
use opentts.Types.{Bytes}
use opentts.Messages.{decimal, decimal_ℤ}
use opentts.Messages.Decimal.{decimal_lem, atoi-decimal}
use opentts.Protocol.{get_param, all_digits, isanum, atoi}
use opentts.Protocol.Words.{plain, Word, Words, line, pick, get_param-pick}
use opentts.Protocol.Commands.{get_param-lowered}
use opentts.Protocol.Set.{Who, self, all, client, who_of}
use opentts.Api.{command_line}
use opentts.Api.Commands.{Target, for_self, for_all, for_uid, target_text, set_command}
use opentts.Session.Exchange.{quiet}

-- One letter in lower case.
abbrev pub small : ℕ → ℕ
small c = if leb b'A' c && leb c b'Z' then c + 32 else c

-- The documented behaviour of `g_ascii_strdown`.
abbrev pub LowersAscii : (Bytes → Bytes) → Type 0
LowersAscii strdown = (w : Bytes) → strdown w ≡ map small w

-- A word that `serve` reads as it is.
abbrev pub QuietWord : Bytes → Type 0
QuietWord w = Word w × (quiet w ≡ true)

small-digits : (xs : Bytes) → all_digits xs ≡ true → map small xs ≡ xs
small-digits [] h = refl
small-digits (c ∷ cs) h =
    let same : small c ≡ c = ground (arith, h) in
    let ih = small-digits cs (ground (arith, h)) in rw same (ap (◌∷◌ c) ih)

plain-digits : (xs : Bytes) → all_digits xs ≡ true → (plain xs && quiet xs) ≡ true
plain-digits [] h = refl
plain-digits (c ∷ cs) h = ground (arith, h, plain-digits cs (ground (arith, h)))

-- A number in decimal is a word, and has no capital letters.
pub decimal-QuietWord : (n : ℕ) → QuietWord (decimal n) × (map small (decimal n) ≡ decimal n)
decimal-QuietWord n =
    let d = decimal_lem n in
    let inside = plain-digits (d.head ∷ d.tail) d.digit in
    rw d.printed (
      ((ground (arith, inside), d.head, d.tail, refl), ground (arith, inside)),
      small-digits (d.head ∷ d.tail) d.digit,
    )

pub decimal_ℤ-QuietWord :
    (v : ℤ) → QuietWord (decimal_ℤ v) × (map small (decimal_ℤ v) ≡ decimal_ℤ v)
unfolding decimal_ℤ
decimal_ℤ-QuietWord (pos n) = decimal-QuietWord n
decimal_ℤ-QuietWord (negsuc n) =
    let ((w, q), same) = decimal-QuietWord (suc n) in
    (((ground (arith, w.0), b'-', decimal (suc n), refl), ground (arith, q)), ap (◌∷◌ b'-') same)

abbrev pub who_for : Target → Who
who_for for_self = self
who_for for_all = all
who_for (for_uid uid) = client uid

pub target_text-QuietWord : (who : Target) → QuietWord (target_text who)
target_text-QuietWord for_self = ((refl, _, _, refl), refl)
target_text-QuietWord for_all = ((refl, _, _, refl), refl)
target_text-QuietWord (for_uid uid) = (decimal_ℤ-QuietWord uid).0

-- A number is neither "self" nor "all".
who_of-number : (w : Bytes) → isanum w ≡ true → who_of w ≡ some (client (atoi w))
unfolding who_of isanum
who_of-number [] h = absurd (cc h)
who_of-number (c ∷ cs) h =
    let not_self : (c == b's') ≡ false = ground (arith, h) in
    let not_all : (c == b'a') ≡ false = ground (arith, h) in
    rw (not_self, who_of) (rw not_all (rw h refl))

pub who_of-target_text : (who : Target) → who_of (map small (target_text who)) ≡ some (who_for who)
unfolding who_of
who_of-target_text for_self = refl
who_of-target_text for_all = refl
who_of-target_text (for_uid uid) =
    let (num, same) = atoi-decimal uid in
    rw ((decimal_ℤ-QuietWord uid).1)
      (who_of-number (decimal_ℤ uid) num ∙ ap (λ v. some (client v)) same)

module _ (strdown : Bytes → Bytes) (lowers : LowersAscii strdown) where
  -- The words of a line, in small letters or as they are.
  pub param_down :
      (n : ℕ) (w picked : Bytes) (ws : List Bytes)
      → Word w
      → Words ws
      → pick n w ws ≡ some picked
      → get_param strdown (line w ws) n true ≡ some (map small picked)
  param_down n w picked ws a b e =
      get_param-lowered strdown (line w ws) n
      ∙ rw (get_param-pick strdown n w ws a b) (rw e (ap some (lowers picked)))

  pub param_as_is :
      (n : ℕ) (w picked : Bytes) (ws : List Bytes)
      → Word w
      → Words ws
      → pick n w ws ≡ some picked
      → get_param strdown (line w ws) n false ≡ some picked
  param_as_is n w picked ws a b e = get_param-pick strdown n w ws a b ∙ e

pub set_line :
    (who name value : Bytes)
    → command_line (set_command who name value) ≡ line (codes "SET") (who ∷ name ∷ value ∷ [])
set_line who name value =
    ap (λ x. codes "SET" ++ b' ' ∷ x)
      (append_assoc who (b' ' ∷ (name ++ b' ' ∷ value)) (b'\r' ∷ b'\n' ∷ [])
        ∙ ap (λ x. who ++ b' ' ∷ x) (append_assoc name (b' ' ∷ value) (b'\r' ∷ b'\n' ∷ [])))
