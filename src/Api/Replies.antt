-- ===== src/Api/Replies.antt =====
-- How a client reads the replies of the server: src/api/c/libopentts.c. The stream is the bytes that
-- come from the socket until it is closed. A `char` is signed, so that the byte 255 is EOF as well.
pub mod Framed
pub mod Numbers
use opentts.Prelude.{
  ℕ, zero, suc, ◌+◌, ◌-◌, ◌*◌, Bool, true, false, not, ◌&&◌, ◌||◌, List, [], ◌∷◌, ◌++◌, Option,
  none, some, length, take, drop, leb, ltb, ◌==◌, if◌then◌else◌,
}
use opentts.Prelude.Int.{ℤ, pos, negsuc, ltb_ℤ}
use opentts.Types.{Bytes}
use opentts.Protocol.{c_string, isdigit, all_digits, digits_value, minus}

-- `otts_getline`: what it stores, and the rest of the stream. The memory for the line is there.
unfoldable pub otts_getline : Bytes → Bytes × Bytes
otts_getline [] = ([], [])
otts_getline (c ∷ cs) = elim (c == 255) [
  | true ↦ ([], cs)
  | false ↦ elim (c == b'\n') [
    | true ↦ (c ∷ [], cs)
    | false ↦ let (line, rest) = otts_getline cs in (c ∷ line, rest)
  ]
]

-- `strlen(line) < 4 || line[3] == ' '`, of a C string.
unfoldable pub is_last_line : Bytes → Bool
is_last_line (a ∷ b ∷ c ∷ d ∷ rest) = d == b' '
is_last_line (a ∷ b ∷ c ∷ []) = true
is_last_line (a ∷ b ∷ []) = true
is_last_line (a ∷ []) = true
is_last_line [] = true

-- A line was read, and the loop of `get_reply` goes on by `again` unless it is the last one.
unfoldable pub reply_round :
    (Bytes → Option (Bytes × Bytes)) → Bytes × Bytes → Option (Bytes × Bytes)
unfolding is_last_line
reply_round again ([], rest) = none
reply_round again (c ∷ cs, rest) = elim (is_last_line (c_string (c ∷ cs))) [
  | true ↦ some (c_string (c ∷ cs), rest)
  | false ↦ elim (again rest) [
    | none ↦ none
    | some (more, rest') ↦ some (c_string (c ∷ cs) ++ more, rest')
  ]
]

-- The loop on fuel: a round takes a byte of the stream, or it is the last one. `none`: the stream has
-- ended.
unfoldable pub reply_rounds : ℕ → Bytes → Option (Bytes × Bytes)
unfolding otts_getline reply_round
reply_rounds zero stream = none
reply_rounds (suc fuel) stream = reply_round (reply_rounds fuel) (otts_getline stream)

unfoldable pub get_reply : Bytes → Option (Bytes × Bytes)
unfolding reply_rounds
get_reply stream = reply_rounds (suc (length stream)) stream

-- A text of digits that is not empty; the loop of `isanum` refuses the NUL of an empty one.
abbrev pub isanum : Bytes → Bool
isanum [] = false
isanum (c ∷ cs) = all_digits (c ∷ cs)

-- The number of a reply, in its first three characters; `none` for -1.
unfoldable pub get_err_code : Bytes → Option ℕ
get_err_code reply =
    let err_code = take 3 reply in if isanum err_code then some (digits_value 0 err_code) else none

-- `ret_ok` of a reply that is there; `none`: SPD_FATAL.
unfoldable pub ret_ok : Bytes → Option Bool
unfolding get_err_code
ret_ok reply = elim (get_err_code reply) [
  | none ↦ none
  | some err ↦
      if leb 100 err && ltb err 300 then some true else if leb 300 err then some false else none
]

-- `strstr(text, "\r\n")`: what is in front of it, and what is behind.
unfoldable pub split_line : Bytes → Option (Bytes × Bytes)
split_line [] = none
split_line (c ∷ []) = none
split_line (c ∷ d ∷ rest) = elim (c == b'\r' && d == b'\n') [
  | true ↦ some ([], rest)
  | false ↦ elim (split_line (d ∷ rest)) [ none ↦ none | some (a, b) ↦ some (c ∷ a, b) ]
]

-- The digits at the start of a text.
abbrev pub leading_digits : Bytes → Bytes
leading_digits [] = []
leading_digits (c ∷ cs) = if isdigit c then c ∷ leading_digits cs else []

-- `strtol` in base 10, of a text with no space in front: the value, and what is behind the number.
unfoldable pub strtol : Bytes → ℤ × Bytes
strtol [] = (pos 0, [])
strtol (c ∷ cs) = if (c == b'-' || c == b'+') then signed c cs (leading_digits cs) else (
  pos (digits_value 0 (leading_digits (c ∷ cs))),
  drop (length (leading_digits (c ∷ cs))) (c ∷ cs),
)
  where
    signed : ℕ → Bytes → Bytes → ℤ × Bytes
    signed sign cs [] = (pos 0, sign ∷ cs)
    signed sign cs (d ∷ ds) = (
      if sign == b'-' then minus (digits_value 0 (d ∷ ds)) else pos (digits_value 0 (d ∷ ds)),
      drop (length (d ∷ ds)) cs,
    )

-- The line with the number `n`, from 0, and all that follows.
unfoldable pub skip_lines : ℕ → Bytes → Option Bytes
unfolding split_line
skip_lines zero text = some text
skip_lines (suc n) text = elim (split_line text) [
  | none ↦ none
  | some (line, rest) ↦ skip_lines n rest
]

-- The rest of a line behind its code, if the code is of three characters and a "-" follows.
unfoldable pub after_code : Bytes → Bytes → Option Bytes × ℤ
unfolding split_line
after_code [] line = (none, negsuc 2)
after_code (c ∷ tail) line =
    if c == b'-' && length tail + 4 == length line
    then elim (split_line tail) [
      | none ↦ (none, negsuc 3)
      | some (param, rest) ↦ (some param, pos 0)
    ]
    else (none, negsuc 2)

-- The parameter in the line with the number `num`, from 1, and what `*err` is then; `err` is what it
-- was.
unfoldable pub get_param_str : Bytes → ℕ → ℤ → Option Bytes × ℤ
unfolding skip_lines strtol after_code
get_param_str reply zero err = (none, negsuc 0)
get_param_str reply (suc num) err = elim (skip_lines num reply) [
  | none ↦ (none, negsuc 1)
  | some line ↦
      if ltb (length line) 4
      then (none, err)
      else let (code, tail) = strtol line in
        if not (ltb_ℤ code (pos 300)) && not (ltb_ℤ (pos 399) code)
        then (none, code)
        else after_code tail line
]

abbrev pub whole_number : ℤ × Bytes → ℤ → ℤ × ℤ
whole_number (value, []) err = (value, err)
whole_number (value, c ∷ cs) err = (pos 0, negsuc 2)

-- The value, and what `*err` is then.
unfoldable pub get_param_int : Bytes → ℕ → ℤ → ℤ × ℤ
unfolding get_param_str strtol
get_param_int reply num err = int_of (get_param_str reply num err)
  where
    int_of : Option Bytes × ℤ → ℤ × ℤ
    int_of (none, e) = (pos 0, e)
    int_of (some rep_str, e) = whole_number (strtol rep_str) e
