-- ===== src/Protocol.antt =====
-- The commands of clients: src/server/parse.c. A command is a line of words. The
-- library's `g_ascii_strdown` is a parameter, `strdown`.
pub mod Words
pub mod Groups
pub mod Commands
pub mod Set
pub mod Events
pub mod Lists
pub mod Past
pub mod Parse
pub mod Ranges
use opentts.Prelude.{
  ℕ, zero, suc, ◌+◌, ◌-◌, ◌*◌, Bool, true, false, not, ◌&&◌, ◌||◌, List, [], ◌∷◌, Option, none,
  some, length, take, leb, ltb, ◌==◌, if◌then◌else◌,
}
use opentts.Prelude.Int.{ℤ, pos, negsuc}
use opentts.Types.{Bytes, Sock, Event, Server}
use opentts.Clients.{update, get_client_uid_by_fd}
use opentts.Messages.{
  Answer, err_missing_parameter, err_internal, err_id_not_exist, err_parameter_invalid, ok_stopped,
  ok_canceled, ok_paused, ok_resumed, ok_inside_block, ok_outside_block, err_already_inside_block,
  err_already_outside_block,
}
use opentts.Settings.{same_text}
use opentts.Speaking.Pause.{speaking_semaphore_post, speaking_resume, speaking_resume_all}
use opentts.Speaking.Stop.{speaking_stop, speaking_stop_all, speaking_cancel, speaking_cancel_all}

-- One word, and what stands behind the space that ends it; `none` if the end of the buffer does.
abbrev pub word : Bytes → Bytes × Option Bytes
word [] = ([], none)
word (c ∷ cs) = elim (c == b' ') [
  | true ↦ ([], some cs)
  | false ↦ let (w, rest) = word cs in (c ∷ w, rest)
]

unfoldable pub nth_word : ℕ → Bytes → Bytes × Option Bytes
nth_word zero buf = word buf
nth_word (suc n) buf = elim ((word buf).1) [ none ↦ ([], none) | some rest ↦ nth_word n rest ]

-- `i >= bytes` behind the loop.
abbrev pub at_end : Option Bytes → Bool
at_end none = true
at_end (some []) = true
at_end (some (c ∷ cs)) = false

-- The bytes of a C string that starts here.
abbrev pub c_string : Bytes → Bytes
c_string [] = []
c_string (c ∷ cs) = elim (c == 0) [ true ↦ [] | false ↦ c ∷ c_string cs ]

-- The last word loses its two last bytes, which are the end of the line.
abbrev pub finished : Bytes → Option Bytes → Bytes
finished w rest = c_string (if at_end rest then take (length w - 2) w else w)

abbrev pub isdigit : ℕ → Bool
isdigit c = leb b'0' c && leb c b'9'

abbrev pub all_digits : Bytes → Bool
all_digits [] = true
all_digits (c ∷ cs) = isdigit c && all_digits cs

unfoldable pub isanum : Bytes → Bool
isanum [] = false
isanum (c ∷ cs) = (isdigit c || c == b'+' || c == b'-') && all_digits cs

-- `atoi` of a text that `isanum` accepts, with no bound on the numbers.
abbrev pub digits_value : ℕ → Bytes → ℕ
digits_value n [] = n
digits_value n (c ∷ cs) = digits_value (n * 10 + (c - b'0')) cs

abbrev pub minus : ℕ → ℤ
minus zero = pos 0
minus (suc n) = negsuc n

unfoldable pub atoi : Bytes → ℤ
atoi [] = pos 0
atoi (c ∷ cs) =
    if c == b'-'
    then minus (digits_value 0 cs)
    else if c == b'+'
    then pos (digits_value 0 cs)
    else pos (digits_value 0 (c ∷ cs))

abbrev pub all_name : Bytes
all_name = b'a' ∷ b'l' ∷ b'l' ∷ []

abbrev pub self_name : Bytes
self_name = b's' ∷ b'e' ∷ b'l' ∷ b'f' ∷ []

abbrev pub begin_name : Bytes
begin_name = b'b' ∷ b'e' ∷ b'g' ∷ b'i' ∷ b'n' ∷ []

abbrev pub end_name : Bytes
end_name = b'e' ∷ b'n' ∷ b'd' ∷ []

module _ (strdown : Bytes → Bytes) where
  -- What becomes of the word that was read: `none` for NULL.
  abbrev pub param_of : Bool → Bytes → Option Bytes → Option Bytes
  param_of lower_case [] rest = none
  param_of lower_case (c ∷ w) rest =
      let param = finished (c ∷ w) rest in some (if lower_case then strdown param else param)

  unfoldable pub get_param : Bytes → ℕ → Bool → Option Bytes
  unfolding nth_word
  get_param buf n lower_case = let (w, rest) = nth_word n buf in param_of lower_case w rest

  -- The common shape of `parse_stop` and its like: "all", "self", or a client's number.
  unfoldable pub for_whom :
      (Server → Server) → (ℕ → Server → Server) → Answer → Bytes → ℤ → Server → Answer × Server
  unfolding get_client_uid_by_fd isanum atoi
  for_whom all one ok who_s fd s =
      if same_text who_s all_name
      then (ok, all s)
      else if same_text who_s self_name
      then (let uid = get_client_uid_by_fd s fd in
          if uid == 0 then (err_internal, s) else (ok, one uid s))
      else if isanum who_s
      then one_of (atoi who_s)
      else (err_parameter_invalid, s)
    where
      one_of : ℤ → Answer × Server
      one_of (negsuc n) = (err_id_not_exist, s)
      one_of (pos zero) = (err_id_not_exist, s)
      one_of (pos (suc n)) = (ok, one (suc n) s)

  unfoldable pub command_for_whom :
      (Server → Server) → (ℕ → Server → Server) → Answer → Bytes → ℤ → Server → Answer × Server
  unfolding get_param for_whom
  command_for_whom all one ok buf fd s = elim (get_param buf 1 true) [
    | none ↦ (err_missing_parameter, s)
    | some who_s ↦ for_whom all one ok who_s fd s
  ]

  module _ (pipe_ok : List Event → Bool) where
    unfoldable pub parse_stop : Bytes → ℤ → Server → Answer × Server
    unfolding command_for_whom
    parse_stop = command_for_whom (speaking_stop_all pipe_ok) (speaking_stop pipe_ok) ok_stopped

    unfoldable pub parse_cancel : Bytes → ℤ → Server → Answer × Server
    unfolding command_for_whom
    parse_cancel =
        command_for_whom (speaking_cancel_all pipe_ok) (speaking_cancel pipe_ok) ok_canceled

  -- A pause is only asked for here; the speaking thread does it.
  unfoldable pub parse_pause : Bytes → ℕ → Server → Answer × Server
  unfolding command_for_whom speaking_semaphore_post
  parse_pause buf fd = command_for_whom pause_all pause_one ok_paused buf (pos fd)
    where
      pause_all : Server → Server
      pause_all s =
          speaking_semaphore_post (record s { pause_requested = 1; pause_requested_fd = fd })

      pause_one : ℕ → Server → Server
      pause_one uid s =
          speaking_semaphore_post
            (record s { pause_requested = 2; pause_requested_fd = fd; pause_requested_uid = uid })

  unfoldable pub parse_resume : Bytes → ℤ → Server → Answer × Server
  unfolding command_for_whom speaking_resume speaking_resume_all
  parse_resume =
      command_for_whom (λ s. (speaking_resume_all s).1) (λ uid s. (speaking_resume uid s).1)
        ok_resumed

  -- The blocks of a connection.
  abbrev pub put_inside_block : ℕ → ℕ → Server → Server
  put_inside_block fd gid s = record s {
    sockets = update s.sockets fd (record (s.sockets fd) { inside_block = gid });
  }

  unfoldable pub parse_block : Bytes → ℕ → Server → Answer × Server
  unfolding get_param
  parse_block buf fd s = elim (get_param buf 1 true) [
    | none ↦ (err_missing_parameter, s)
    | some cmd_main ↦
        if same_text cmd_main begin_name
        then if (s.sockets fd).inside_block == 0
          then (
            ok_inside_block,
            put_inside_block fd (suc s.max_gid) (record s { max_gid = suc s.max_gid }),
          )
          else (err_already_inside_block, s)
        else if same_text cmd_main end_name
        then if ltb 0 (s.sockets fd).inside_block
          then (ok_outside_block, put_inside_block fd 0 s)
          else (err_already_outside_block, s)
        else (err_parameter_invalid, s)
  ]
