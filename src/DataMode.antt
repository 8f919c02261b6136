-- ===== src/DataMode.antt =====
-- How the text of a message comes in: src/server/server.c reads lines, and src/server/parse.c
-- collects them while its client is in data mode. `none` as a result is the end of the process.
-- `g_utf8_validate` is a parameter, `valid`, of the text and the number of its bytes that count; so is
-- what `g_malloc` finds in the memory of a new message, `garbage`.
pub mod Dots
pub mod Lines
pub mod Reading
pub mod Received
pub mod Delivered
pub mod Refused
use opentts.Prelude.{
  ℕ, zero, suc, ◌+◌, ◌-◌, Bool, true, false, not, ◌&&◌, ◌||◌, List, [], ◌∷◌, ◌++◌, Option, none,
  some, length, take, ◌==◌, leb, ltb, if◌then◌else◌,
}
use opentts.Prelude.Int.{ℤ, pos, negsuc}
use opentts.Types.{Bytes, text_type, Message, Sock, Event, Server}
use opentts.Clients.{update}
use opentts.QueueMessage.{store_message, queue_message}

-- Are these "\r\n.."?
abbrev pub is_escaped_dotline : ℕ → ℕ → ℕ → ℕ → Bool
is_escaped_dotline c d e f = c == b'\r' && d == b'\n' && e == b'.' && f == b'.'

-- The loop of `deescape_dot`: the number of bytes before `orig_end`, and the buffer from here, that
-- may go on behind it.
unfoldable pub deescape_from : ℕ → Bytes → Bytes
deescape_from zero b = []
deescape_from (suc n) [] = []
deescape_from (suc n) (c ∷ []) = c ∷ deescape_from n []
deescape_from (suc n) (c ∷ d ∷ []) = c ∷ deescape_from n (d ∷ [])
deescape_from (suc n) (c ∷ d ∷ e ∷ []) = c ∷ deescape_from n (d ∷ e ∷ [])
deescape_from (suc n) (c ∷ d ∷ e ∷ f ∷ rest) = elim (is_escaped_dotline c d e f) [
  | true ↦ b'\r' ∷ b'\n' ∷ b'.' ∷ deescape_from (n - 3) rest
  | false ↦ c ∷ deescape_from n (d ∷ e ∷ f ∷ rest)
]

-- The first step of `deescape_dot`, on a text that has two bytes or more.
unfoldable pub deescape_start : ℕ → Bytes → Bytes
unfolding deescape_from
deescape_start n (c ∷ d ∷ rest) = elim (leb 2 n && c == b'.' && d == b'.') [
  | true ↦ b'.' ∷ deescape_from (n - 2) rest
  | false ↦ deescape_from n (c ∷ d ∷ rest)
]
deescape_start n (c ∷ []) = deescape_from n (c ∷ [])
deescape_start n [] = deescape_from n []

unfoldable pub deescape_dot : Option Bytes → ℕ → Option Bytes
unfolding deescape_start
deescape_dot none n = none
deescape_dot (some b) n = some (deescape_start n b)

-- `strncmp(b, text, n) == 0`, with the end of a list for the NUL.
abbrev pub same_start : ℕ → Bytes → Bytes → Bool
same_start zero b t = true
same_start (suc n) [] [] = true
same_start (suc n) [] (y ∷ ys) = false
same_start (suc n) (x ∷ xs) [] = false
same_start (suc n) (x ∷ xs) (y ∷ ys) = x == y && same_start n xs ys

abbrev pub end_of_data : Bytes
end_of_data = b'\r' ∷ b'\n' ∷ b'.' ∷ b'\r' ∷ b'\n' ∷ []

-- `strstr(b, "\r\n.\r\n") - b`; `none` for NULL.
abbrev pub find_end : Bytes → Option ℕ
find_end [] = none
find_end (c ∷ cs) = elim (same_start 5 (c ∷ cs) end_of_data) [
  | true ↦ some 0
  | false ↦ elim (find_end cs) [ none ↦ none | some n ↦ some (suc n) ]
]

-- The replies to a line of data. `no_reply` is "999 DATA", which `serve` does not send.
pub data DataReply : Type 0 where
  queued : ℤ → DataReply
  ok_msg_canceled err_invalid_encoding err_internal no_reply : DataReply

unfoldable pub put_sock : ℕ → Sock → Server → Server
put_sock fd k s = record s { sockets = update s.sockets fd k }

-- The command SPEAK.
unfoldable pub parse_speak : ℕ → Server → Server
unfolding put_sock
parse_speak fd s =
    put_sock fd (record (s.sockets fd) { awaiting_data = true; o_bytes = 0; o_buf = some [] }) s

unfoldable pub server_data_off : ℕ → Server → Option Server
unfolding put_sock
server_data_off fd s = elim (s.sockets fd).o_buf [
  | none ↦ none
  | some b ↦ some (put_sock fd (record (s.sockets fd) { o_bytes = 0; o_buf = none }) s)
]

-- The bytes of the text, without the end of its last line if the line that ends it is ".\r\n".
abbrev pub text_bytes : ℕ → ℕ → ℕ
text_bytes bytes n = if bytes == 3 && ltb 2 n then n - 2 else n

-- Does this line end the text?
abbrev pub ends_data : Bytes → ℕ → Bool
ends_data buf bytes =
    leb 5 bytes && same_start bytes buf end_of_data
    || bytes == 3 && same_start 3 buf (b'.' ∷ b'\r' ∷ b'\n' ∷ [])

-- How many bytes of a line are data, and is the end of the text behind them?
unfoldable pub real_bytes : Bytes → ℕ → ℕ × Bool
real_bytes buf bytes =
    if leb 5 bytes
    then elim (find_end buf) [ none ↦ (bytes, false) | some n ↦ (n, true) ]
    else (bytes, false)

unfoldable pub collect : ℕ → Bytes → ℕ → Server → Option Server
unfolding put_sock
collect fd buf n s = elim (s.sockets fd).o_buf [
  | none ↦ none
  | some b ↦ some (
      put_sock fd
        (record (s.sockets fd) {
          o_bytes = (s.sockets fd).o_bytes + n;
          o_buf = some (b ++ take n buf);
        })
        s)
]

-- The counter of the bytes is set to `n`, and the client is in command mode again.
unfoldable pub leave_data_mode : ℕ → ℕ → Server → Server
unfolding put_sock
leave_data_mode fd n s =
    put_sock fd (record (s.sockets fd) { awaiting_data = false; o_bytes = n }) s

module _ (pipe_ok : List Event → Bool) (valid : Bytes → ℕ → Bool) (garbage : Message) where
  -- The new message stands at a fresh address, which is given back if it is not queued.
  unfoldable pub queue_data : ℕ → Bytes → ℕ → Server → Option (DataReply × Server)
  queue_data fd b n s =
      let p = s.allocated in
      let m = record garbage { buf = deescape_dot (some b) n; bytes = pos n } in
      let reparted = (s.sockets fd).inside_block in
      elim (server_data_off fd (record (store_message p m s) { allocated = suc p })) [
        | none ↦ none
        | some s1 ↦ elim (queue_message pipe_ok (some p) (pos fd) text_type reparted s1) [
          | none ↦ none
          | some (pos zero, s2) ↦ some (err_internal, record s2 { freed = p ∷ s2.freed })
          | some (pos (suc id), s2) ↦ some (queued (pos (suc id)), s2)
          | some (negsuc id, s2) ↦ some (queued (negsuc id), s2)
        ]
      ]

  -- The text has ended: `b` is the buffer, of which `n` bytes count.
  unfoldable pub queue_valid : ℕ → Bytes → ℕ → Server → Option (DataReply × Server)
  queue_valid fd b n s =
      if valid b n
      then queue_data fd b n s
      else elim (server_data_off fd s) [ none ↦ none | some s1 ↦ some (err_invalid_encoding, s1) ]

  unfoldable pub finish_data : ℕ → ℕ → Server → Option (DataReply × Server)
  finish_data fd bytes s =
      let n = text_bytes bytes (s.sockets fd).o_bytes in
      let s1 = leave_data_mode fd n s in
      elim (s.sockets fd).o_buf [
        | none ↦ none
        | some b ↦
            if n == 0
            then elim (server_data_off fd s1) [ none ↦ none | some s2 ↦ some (ok_msg_canceled, s2) ]
            else queue_valid fd b n s1
      ]

  -- `n` bytes of a line are kept; if the end of the text is behind them, the code runs once more.
  unfoldable pub keep_data : Bytes → ℕ → ℕ → ℕ × Bool → Server → Option (DataReply × Server)
  keep_data buf bytes fd (n, end) s = elim (collect fd buf n s) [
    | none ↦ none
    | some s1 ↦ if end then finish_data fd bytes s1 else some (no_reply, s1)
  ]

  -- `parse` for a client in data mode.
  unfoldable pub parse_data : Bytes → ℕ → ℕ → Server → Option (DataReply × Server)
  parse_data buf bytes fd s =
      if ends_data buf bytes
      then finish_data fd bytes s
      else keep_data buf bytes fd (real_bytes buf bytes) s

-- `serve` reads a line. `prev` is the byte in front, 0 at the start of a line. `none` is that the
-- connection has no more to read.
unfoldable pub read_line : ℕ → Bytes → Option (Bytes × Bytes)
read_line prev [] = none
read_line prev (c ∷ cs) = elim (c == b'\n' && prev == b'\r') [
  | true ↦ some (c ∷ [], cs)
  | false ↦
      let stored : ℕ = if c == 0 then b'?' else c in
      elim (read_line stored cs) [ none ↦ none | some (line, rest) ↦ some (stored ∷ line, rest) ]
]

-- What became of a client that is served: -1 was returned, or a line was parsed.
pub data Served : Type 0 where
  hung_up : Server → Served
  replied : DataReply → Bytes → Server → Served

module _ (pipe_ok : List Event → Bool) (valid : Bytes → ℕ → Bool) (garbage : Message) where
  -- `serve`, for a client in data mode that has sent `input`.
  unfoldable pub serve : ℕ → Bytes → Server → Option Served
  serve fd input s = elim (read_line 0 input) [
    | none ↦ some (hung_up s)
    | some (line, rest) ↦ elim (parse_data pipe_ok valid garbage line (length line) fd s) [
      | none ↦ none
      | some (reply, s1) ↦ some (replied reply rest s1)
    ]
  ]

  -- The main loop serves a client, at most `fuel` times, until something is sent to it.
  unfoldable pub serve_until_reply : ℕ → ℕ → Bytes → Server → Option Served
  serve_until_reply zero fd input s = none
  serve_until_reply (suc fuel) fd input s = elim (serve fd input s) [
    | some (replied no_reply rest s1) ↦ serve_until_reply fuel fd rest s1
    | some (replied (queued id) rest s1) ↦ some (replied (queued id) rest s1)
    | some (replied ok_msg_canceled rest s1) ↦ some (replied ok_msg_canceled rest s1)
    | some (replied err_invalid_encoding rest s1) ↦ some (replied err_invalid_encoding rest s1)
    | some (replied err_internal rest s1) ↦ some (replied err_internal rest s1)
    | some (hung_up s1) ↦ some (hung_up s1)
    | none ↦ none
  ]
