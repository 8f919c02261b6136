-- ===== src/Api.antt =====
-- The client's side of the protocol: src/api/c/libopentts.c. A `char *` is `Option Bytes`, and a C
-- string is the list of the bytes in front of its NUL.
pub mod Replies
pub mod Commands
use opentts.Prelude.{ℕ, Bool, true, false, ◌&&◌, [], ◌∷◌, ◌++◌, Option, none, some, ◌==◌}
use opentts.Types.{Bytes}

-- Are these "\r\n."?
abbrev pub is_dotline : ℕ → ℕ → ℕ → Bool
is_dotline c d e = c == b'\r' && d == b'\n' && e == b'.'

-- The loop of `escape_dot`: the rest of the text.
unfoldable pub escape_from : Bytes → Bytes
escape_from [] = []
escape_from (c ∷ []) = c ∷ []
escape_from (c ∷ d ∷ []) = c ∷ d ∷ []
escape_from (c ∷ d ∷ e ∷ rest) = elim (is_dotline c d e) [
  | true ↦ b'\r' ∷ b'\n' ∷ b'.' ∷ b'.' ∷ escape_from rest
  | false ↦ c ∷ escape_from (d ∷ e ∷ rest)
]

unfoldable pub escape_text : Bytes → Bytes
unfolding escape_from
escape_text [] = []
escape_text (c ∷ cs) = elim (c == b'.') [
  | true ↦ b'.' ∷ b'.' ∷ escape_from cs
  | false ↦ escape_from (c ∷ cs)
]

unfoldable pub escape_dot : Option Bytes → Option Bytes
unfolding escape_text
escape_dot none = none
escape_dot (some t) = some (escape_text t)

-- What `spd_execute_command_with_reply` writes to the socket.
abbrev pub command_line : Bytes → Bytes
command_line command = command ++ b'\r' ∷ b'\n' ∷ []

-- What `spd_say_sending` writes, the text and the command that ends it.
unfoldable pub spd_say_sending : Bytes → Bytes
spd_say_sending text = text ++ command_line (b'\r' ∷ b'\n' ∷ b'.' ∷ [])
