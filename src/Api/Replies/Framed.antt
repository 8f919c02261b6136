-- ===== src/Api/Replies/Framed.antt =====
-- The replies of the server as `get_reply` reads them.
use opentts.Prelude.{
  ℕ, zero, suc, ◌≤◌, ◌≡◌, refl, ◌∙◌, ap, inl, inr, Bool, true, false, not, ◌&&◌, List, [], ◌∷◌,
  ◌++◌, Option, none, some, length, length-append, codes, String, ◌==◌, arith, Bool-cases,
}
use mathlib.Core.List.{append_assoc}
use opentts.Prelude.Int.{ℤ, pos, negsuc}
use opentts.Types.{Bytes}
use opentts.Messages.Decimal.{decimal_lem}
use opentts.Messages.{
  Answer, reply_text, reply_line, more_line, more_lines, crlf, decimal, decimal_ℤ, ok_debugging,
  ok_get, ok_voice_list_sent, ok_modules_list_sent, ok_client_list_sent, ok_msgs_list_sent,
  ok_help_sent, ok_client_id_sent, ok_last_msg, ok_cur_pos_ret, message_queued,
}
use opentts.Protocol.{c_string, all_digits}
use opentts.Api.Replies.{otts_getline, is_last_line, reply_round, reply_rounds, get_reply}

-- One line, its end included: no NUL, no byte 255, and no other line end.
abbrev pub one_line : Bytes → Bool
one_line [] = false
one_line (c ∷ []) = c == b'\n'
one_line (c ∷ d ∷ cs) = not (c == b'\n') && not (c == 255) && not (c == 0) && one_line (d ∷ cs)

otts_getline-one_line : (l rest : Bytes) → one_line l ≡ true → otts_getline (l ++ rest) ≡ (l, rest)
unfolding otts_getline
otts_getline-one_line [] rest h = absurd (ground (arith, h))
otts_getline-one_line (c ∷ []) rest h = ground (arith, h)
otts_getline-one_line (c ∷ d ∷ cs) rest h =
    let ih = otts_getline-one_line (d ∷ cs) rest (ground (arith, h)) in
    let inner : (c == b'\n') ≡ false = ground (arith, h) in
    let open_still : (c == 255) ≡ false = ground (arith, h) in
    rw (open_still, otts_getline) (rw (inner, ih) refl)

c_string-one_line : (l : Bytes) → one_line l ≡ true → c_string l ≡ l
c_string-one_line [] h = refl
c_string-one_line (c ∷ []) h = ground (arith, h)
c_string-one_line (c ∷ d ∷ cs) h =
    let ih = c_string-one_line (d ∷ cs) (ground (arith, h)) in
    let inner : (c == 0) ≡ false = ground (arith, h) in rw (inner, c_string) (ap (◌∷◌ c) ih)

-- A text that is read as one reply, whatever follows it.
abbrev pub Framed : Bytes → Type 0
Framed b =
    (rest : Bytes) (fuel : ℕ)
    → length b ≤ fuel
    → reply_rounds (suc fuel) (b ++ rest) ≡ some (b, rest)

Framed-last : (l : Bytes) → one_line l ≡ true → is_last_line l ≡ true → Framed l
unfolding reply_rounds
Framed-last [] h last rest fuel enough = absurd (ground (arith, h))
Framed-last (c ∷ cs) h last rest fuel enough = rw (otts_getline-one_line (c ∷ cs) rest h) (
    rw (c_string-one_line (c ∷ cs) h, reply_round)
      (rw last (ap (λ l. some (l, rest)) (c_string-one_line (c ∷ cs) h))))

Framed-more :
    (l b : Bytes) → one_line l ≡ true → is_last_line l ≡ false → Framed b → Framed (l ++ b)
unfolding reply_rounds
Framed-more [] b h more framed rest fuel enough = absurd (ground (arith, h))
Framed-more (c ∷ cs) b h more framed rest zero enough = absurd (omega arith)
Framed-more (c ∷ cs) b h more framed rest (suc fuel) enough =
    let shorter : length b ≤ fuel = omega (arith, length-append cs b) in
    let read = otts_getline-one_line (c ∷ cs) (b ++ rest) h in
    rw (append_assoc (c ∷ cs) b rest) (
      rw read (
        rw (c_string-one_line (c ∷ cs) h, reply_round)
          (rw more (
            rw (framed rest fuel shorter)
              (ap (λ l. some (l ++ b, rest)) (c_string-one_line (c ∷ cs) h))))))

-- A text that may stand inside a line.
abbrev pub tidy : Bytes → Bool
tidy [] = true
tidy (c ∷ cs) = not (c == b'\n') && not (c == 255) && not (c == 0) && tidy cs

pub one_line-crlf : (x : Bytes) → tidy x ≡ true → one_line (x ++ crlf) ≡ true
one_line-crlf [] h = refl
one_line-crlf (c ∷ []) h = ground (arith, h)
one_line-crlf (c ∷ d ∷ cs) h = ground (arith, h, one_line-crlf (d ∷ cs) (ground (arith, h)))

abbrev pub AllTidy : List Bytes → Type 0
AllTidy [] = Unit
AllTidy (x ∷ xs) = (tidy x ≡ true) × AllTidy xs

Framed-lines :
    (number : String) (a b c : ℕ)
    → codes number ≡ a ∷ b ∷ c ∷ []
    → tidy (a ∷ b ∷ c ∷ []) ≡ true
    → (bodies : List Bytes) (end : Bytes) → AllTidy bodies
    → Framed end
    → Framed (more_lines number bodies end)
unfolding more_lines is_last_line
Framed-lines number a b c e t [] end all framed = framed
Framed-lines number a b c e t (body ∷ bodies) end all framed =
    Framed-more (more_line number body) (more_lines number bodies end) one more
      (Framed-lines number a b c e t bodies end all.1 framed)
  where
    shape : more_line number body ≡ (a ∷ b ∷ c ∷ b'-' ∷ body) ++ crlf
    shape = rw (e, more_line) refl

    one : one_line (more_line number body) ≡ true
    one = rw shape (one_line-crlf (a ∷ b ∷ c ∷ b'-' ∷ body) (ground (arith, t, all.0)))

    more : is_last_line (more_line number body) ≡ false
    more = rw (shape, is_last_line) refl

tidy-digits : (xs : Bytes) → all_digits xs ≡ true → tidy xs ≡ true
tidy-digits [] h = refl
tidy-digits (c ∷ cs) h = ground (arith, h, tidy-digits cs (ground (arith, h)))

tidy-decimal : (n : ℕ) → tidy (decimal n) ≡ true
tidy-decimal n = let d = decimal_lem n in rw d.printed (tidy-digits (d.head ∷ d.tail) d.digit)

tidy-decimal_ℤ : (v : ℤ) → tidy (decimal_ℤ v) ≡ true
unfolding decimal_ℤ
tidy-decimal_ℤ (pos n) = tidy-decimal n
tidy-decimal_ℤ (negsuc n) = tidy-decimal (suc n)

-- The parts of a reply that come from elsewhere can stand in a line. The reply of GET is not here.
abbrev pub Plain : Answer → Type 0
Plain (ok_get value) = ⊥
Plain (ok_debugging path) = tidy path ≡ true
Plain (ok_voice_list_sent names) = AllTidy names
Plain (ok_modules_list_sent names) = AllTidy names
Plain (ok_client_list_sent clients) = AllTidy clients
Plain (ok_msgs_list_sent messages) = AllTidy messages
Plain (ok_help_sent lines) = AllTidy lines
Plain _ = Unit

Framed-line : (b : Bytes) → one_line b && is_last_line b ≡ true → Framed b
Framed-line b h = Framed-last b (ground (arith, h)) (ground (arith, h))

Framed-reply_text : (a : Answer) → Plain a → Framed (reply_text a)
unfolding reply_text is_last_line reply_line
Framed-reply_text (ok_debugging path) plain =
    Framed-lines "262" b'2' b'6' b'2' refl refl (path ∷ []) _ (plain, tt)
      (Framed-line (reply_line "262 OK DEBUGGING SET") refl)
Framed-reply_text (ok_get value) plain = absurd plain
Framed-reply_text (ok_voice_list_sent names) plain =
    Framed-lines "249" b'2' b'4' b'9' refl refl names _ plain
      (Framed-line (reply_line "249 OK VOICE LIST SENT") refl)
Framed-reply_text (ok_modules_list_sent names) plain =
    Framed-lines "250" b'2' b'5' b'0' refl refl names _ plain
      (Framed-line (reply_line "250 OK VOICE LIST SENT") refl)
Framed-reply_text (ok_client_list_sent clients) plain =
    Framed-lines "240" b'2' b'4' b'0' refl refl clients _ plain
      (Framed-line (reply_line "240 OK CLIENTS LIST SENT") refl)
Framed-reply_text (ok_msgs_list_sent messages) plain =
    Framed-lines "241" b'2' b'4' b'1' refl refl messages _ plain
      (Framed-line (reply_line "241 OK MSGS LIST SENT") refl)
Framed-reply_text (ok_help_sent lines) plain =
    Framed-lines "248" b'2' b'4' b'8' refl refl lines _ plain
      (Framed-line (reply_line "248 OK HELP SENT") refl)
Framed-reply_text (ok_client_id_sent uid) plain =
    Framed-lines "245" b'2' b'4' b'5' refl refl (decimal uid ∷ []) _ (tidy-decimal uid, tt)
      (Framed-line (reply_line "245 OK CLIENT ID SENT") refl)
Framed-reply_text (ok_last_msg id) plain =
    Framed-lines "242" b'2' b'4' b'2' refl refl (decimal id ∷ []) _ (tidy-decimal id, tt)
      (Framed-line (reply_line "242 OK LAST MSG SAID") refl)
Framed-reply_text (ok_cur_pos_ret id) plain =
    Framed-lines "243" b'2' b'4' b'3' refl refl (decimal id ∷ []) _ (tidy-decimal id, tt)
      (Framed-line (reply_line "243 OK CURSOR POSITION RETURNED") refl)
Framed-reply_text (message_queued id) plain =
    Framed-lines "225" b'2' b'2' b'5' refl refl (decimal_ℤ id ∷ []) _ (tidy-decimal_ℤ id, tt)
      (Framed-line (reply_line "225 OK MESSAGE QUEUED") refl)
Framed-reply_text a plain = Framed-line (reply_text a) refl

-- What `get_reply` gives with a line in front.
abbrev pub joined : Bytes → Option (Bytes × Bytes) → Option (Bytes × Bytes)
joined l none = none
joined l (some (more, rest)) = some (l ++ more, rest)

-- Each reply of the server other than that of GET, whose parts can stand in a line, is one reply for
-- `get_reply`: whatever comes behind it in the stream, the client reads this reply, all of it, and
-- leaves the rest.
pub get_reply-reply_text :
    (a : Answer) (rest : Bytes)
    → Plain a
    → get_reply (reply_text a ++ rest) ≡ some (reply_text a, rest)
unfolding get_reply
get_reply-reply_text a rest plain =
    Framed-reply_text a plain rest (length (reply_text a ++ rest))
      (omega (arith, length-append (reply_text a) rest))

otts_getline-le : (b : Bytes) → length (otts_getline b).1 ≤ length b
unfolding otts_getline
otts_getline-le [] = omega arith
otts_getline-le (c ∷ cs) = ground (arith, otts_getline-le cs)

otts_getline_shorter : (c : ℕ) (cs : Bytes) → length (otts_getline (c ∷ cs)).1 ≤ length cs
unfolding otts_getline
otts_getline_shorter c cs = ground (arith, otts_getline-le cs)

reply_round_cong :
    (again other : Bytes → Option (Bytes × Bytes)) (p : Bytes × Bytes)
    → again p.1 ≡ other p.1
    → reply_round again p ≡ reply_round other p
unfolding reply_round
reply_round_cong again other ([], rest) same = refl
reply_round_cong again other (c ∷ cs, rest) same =
    elim (Bool-cases (is_last_line (c_string (c ∷ cs)))) [
      | inl last ↦ rw (last, reply_round) refl
      | inr more ↦ rw (more, reply_round) (rw same refl)
    ]

-- Fuel beyond the length of the stream makes no difference.
pub reply_rounds_enough :
    (f g : ℕ) (b : Bytes)
    → length b ≤ f
    → length b ≤ g
    → reply_rounds (suc f) b ≡ reply_rounds (suc g) b
unfolding reply_rounds reply_round otts_getline
reply_rounds_enough f g [] h k = refl
reply_rounds_enough zero g (c ∷ cs) h k = absurd (omega arith)
reply_rounds_enough (suc f) zero (c ∷ cs) h k = absurd (omega arith)
reply_rounds_enough (suc f) (suc g) (c ∷ cs) h k =
    let shorter = otts_getline_shorter c cs in
    reply_round_cong (reply_rounds (suc f)) (reply_rounds (suc g)) (otts_getline (c ∷ cs)) (
      reply_rounds_enough f g (otts_getline (c ∷ cs)).1 (omega (arith, shorter, h))
        (omega (arith, shorter, k)))

round_more :
    (l rest : Bytes) (fuel : ℕ)
    → one_line l ≡ true
    → is_last_line l ≡ false
    → reply_rounds (suc fuel) (l ++ rest) ≡ joined l (reply_rounds fuel rest)
unfolding reply_rounds
round_more [] rest fuel h more = absurd (ground (arith, h))
round_more (c ∷ cs) rest fuel h more =
    let same = c_string-one_line (c ∷ cs) h in
    rw (otts_getline-one_line (c ∷ cs) rest h)
      (rw (same, reply_round) (rw more (go (reply_rounds fuel rest) same)))
  where
    go :
        (r : Option (Bytes × Bytes))
        → c_string (c ∷ cs) ≡ c ∷ cs
        → elim r [ none ↦ none | some (more, rest') ↦ some (c_string (c ∷ cs) ++ more, rest') ]
          ≡ joined (c ∷ cs) r
    go none same = refl
    go (some (a, b)) same = ap (λ l. some (l ++ a, b)) same

-- The line that GET replies with is none that ends a reply: the client reads on, and what it takes for
-- the reply is that line and the next reply. If nothing more comes, there is no reply.
pub get_reply-ok_get :
    (value rest : Bytes)
    → tidy value ≡ true
    → get_reply (reply_text (ok_get value) ++ rest)
      ≡ joined (reply_text (ok_get value)) (get_reply rest)
unfolding get_reply reply_text more_line is_last_line
get_reply-ok_get value rest t =
    let line : Bytes = b'2' ∷ b'5' ∷ b'1' ∷ b'-' ∷ value in
    round_more (line ++ crlf) rest (length ((line ++ crlf) ++ rest))
      (one_line-crlf line (ground (arith, t))) refl
    ∙ ap (joined (line ++ crlf)) (
        reply_rounds_enough (length (b'5' ∷ b'1' ∷ b'-' ∷ (value ++ crlf) ++ rest)) (length rest)
          rest (omega (arith, length-append (value ++ crlf) rest)) (omega arith))
