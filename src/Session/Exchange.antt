-- ===== src/Session/Exchange.antt =====
-- One command and its reply.
use opentts.Prelude.{
  ℕ, suc, ◌+◌, ◌≡◌, refl, sym, ◌∙◌, ap, Bool, true, false, not, ◌&&◌, [], ◌∷◌, ◌++◌, some, length,
  length-append, ◌==◌, arith, if◌then◌else◌,
}
use mathlib.Core.List.{append-nil}
use opentts.Types.{Bytes, Server}
use opentts.Messages.{Answer, reply_text}
use opentts.DataMode.{read_line}
use opentts.Protocol.Parse.{Environment, parse, send, sent_text}
use opentts.Api.{command_line}
use opentts.Api.Replies.{get_reply, ret_ok, get_err_code}
use opentts.Api.Replies.Framed.{Plain, get_reply-reply_text}
use opentts.Session.{
  idle, code_of_ok, serve_rounds, send_with_reply, spd_execute_command_with_reply,
  spd_execute_command,
}

-- A text that `serve` reads as it is: no NUL and no "\n".
abbrev pub quiet : Bytes → Bool
quiet [] = true
quiet (c ∷ cs) = not (c == 0) && not (c == b'\n') && quiet cs

pub quiet-append : (x y : Bytes) → quiet x ≡ true → quiet y ≡ true → quiet (x ++ y) ≡ true
quiet-append [] y h k = k
quiet-append (c ∷ cs) y h k = ground (arith, h, quiet-append cs y (ground (arith, h)) k)

read_line-quiet :
    (prev : ℕ) (w : Bytes)
    → quiet w ≡ true
    → read_line prev (command_line w) ≡ some (command_line w, [])
unfolding read_line
read_line-quiet prev [] h = refl
read_line-quiet prev (c ∷ cs) h =
    let ih = read_line-quiet c cs (ground (arith, h)) in
    let inner : (c == b'\n') ≡ false = ground (arith, h) in
    let kept : (c == 0) ≡ false = ground (arith, h) in
    let stored : (if c == 0 then b'?' else c) ≡ c = rw kept refl in
    rw (inner, read_line) (rw kept (rw ih (ap (λ x. some (x ∷ command_line cs, [])) stored)))

module _ (env : Environment) (fd : ℕ) (command : Bytes) (a : Answer) (s s1 : Server)
    (clean : quiet command ≡ true)
    (parsed : parse env (command_line command) (length (command_line command)) fd s
      ≡ some (send a, s1))
    (plain : Plain a) where
  served :
      (n c : ℕ) (cs : Bytes)
      → reply_text a ≡ c ∷ cs
      → serve_rounds env fd
          (suc n)
          (record { pending = command_line command; stream = []; server = s })
        ≡ some (record { pending = []; stream = reply_text a; server = s1 })
  unfolding serve_rounds sent_text
  served n c cs e = rw (read_line-quiet 0 command clean, serve_rounds) (rw parsed (rw e refl))

  sent :
      (c : ℕ) (cs : Bytes)
      → reply_text a ≡ c ∷ cs
      → send_with_reply env fd (command_line command) (idle s) ≡ some (reply_text a, idle s1)
  unfolding send_with_reply
  sent c cs e =
      let n = length command + 1 in
      let fuel : length (command_line command) ≡ suc n =
        omega (arith, length-append command (b'\r' ∷ b'\n' ∷ [])) in
      let read : get_reply (reply_text a) ≡ some (reply_text a, []) =
        ap get_reply (sym (append-nil (reply_text a))) ∙ get_reply-reply_text a [] plain in
      rw (fuel, send_with_reply) (rw (served n c cs e) (rw read refl))

  sent_some :
      (r : Bytes)
      → reply_text a ≡ r
      → (ok : Bool) → ret_ok r ≡ some ok
      → send_with_reply env fd (command_line command) (idle s) ≡ some (reply_text a, idle s1)
  unfolding ret_ok get_err_code
  sent_some [] e ok h = absurd (cc h)
  sent_some (c ∷ cs) e ok h = sent c cs e

  -- A line that the server reads as it is, answered by a reply that can be read: the client returns
  -- what the reply says, and has read all of it.
  pub exchange :
      (ok : Bool)
      → ret_ok (reply_text a) ≡ some ok
      → spd_execute_command env fd command (idle s) ≡ some (code_of_ok ok, idle s1)
  unfolding spd_execute_command spd_execute_command_with_reply
  exchange ok h =
      rw (sent_some (reply_text a) refl ok h, spd_execute_command, spd_execute_command_with_reply)
        (rw h refl)
