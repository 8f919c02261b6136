-- ===== src/DataMode/Refused.antt =====
-- Texts that are not queued, and the empty text, that is.
use mathlib.Core.List.{append_assoc}
use opentts.Prelude.{
  ℕ, suc, ◌+◌, ◌≤◌, ◌<◌, ◌≡◌, ◌⊎◌, inl, inr, refl, sym, ◌∙◌, ap, ◌≢◌, Bool, true, false, List, [],
  ◌∷◌, ◌++◌, none, some, ◌==◌, length, length-append, arith,
}
use opentts.Prelude.Int.{pos}
use opentts.Types.{text_type, progress, Bytes, Sock, Server, Settings, Message, Event}
use opentts.Clients.{get_client_settings_by_fd}
use opentts.QueueMessage.Placed.{queue_message-Placed, update_self}
use opentts.DataMode.{
  deescape_dot, deescape_start, deescape_from, read_line, replied, serve_until_reply, parse_speak,
  put_sock, text_bytes, finish_data, leave_data_mode, server_data_off, queue_valid, ok_msg_canceled,
  err_invalid_encoding, err_internal, no_reply, DataReply, queued, serve, hung_up, parse_data,
}
use opentts.DataMode.Dots.{end_of_line}
use opentts.DataMode.Received.{
  holding, with_text, put_sock_again, put_sock_self, with_text-again, serve-stop, until_lines,
}
use opentts.DataMode.Reading.{Line, joined}
use opentts.DataMode.Lines.{clean}
use opentts.DataMode.Delivered.{text_lines, enough_rounds, escape_text-length, text_bytes-escaped}
use opentts.Api.{escape_text, escape_dot, spd_say_sending}

-- The client is in command mode and has no buffer.
abbrev pub closed : Sock → Sock
closed k = record k { awaiting_data = false; o_bytes = 0; o_buf = none }

server_data_off-sock :
    (fd n : ℕ) (k : Sock) (b : Bytes) (s : Server)
    → s.sockets fd ≡ record k { awaiting_data = false; o_bytes = n; o_buf = some b }
    → server_data_off fd s ≡ some (put_sock fd (closed k) s)
unfolding server_data_off
server_data_off-sock fd n k b s at = rw (at, server_data_off) (rw at refl)

server_data_off-closed :
    (fd n : ℕ) (k : Sock) (b : Bytes) (s : Server)
    → s.sockets fd ≡ holding k b
    → server_data_off fd (leave_data_mode fd n s) ≡ some (put_sock fd (closed k) s)
unfolding leave_data_mode
server_data_off-closed fd n k b s at =
    let left : Sock = record k { awaiting_data = false; o_bytes = n; o_buf = some b } in
    rw at (
      server_data_off-sock fd n k b (put_sock fd left s) (put_sock_self fd left s)
      ∙ ap some (put_sock_again fd left (closed k) s))

-- The answer if nothing was sent, or if what was sent is not valid.
abbrev pub refusal : Bytes → DataReply
refusal [] = ok_msg_canceled
refusal (c ∷ b) = err_invalid_encoding

module _ (pipe_ok : List Event → Bool) (valid : Bytes → ℕ → Bool) (garbage : Message) (fd : ℕ) where
  -- The end of the text, if nothing was sent or if what was sent is not valid.
  finish_data-closed :
      (k : Sock) (b : Bytes) (s : Server)
      → s.sockets fd ≡ holding k b
      → (b ≡ []) ⊎ (valid b (text_bytes 3 (length b)) ≡ false)
      → finish_data pipe_ok valid garbage fd 3 s ≡ some (refusal b, put_sock fd (closed k) s)
  unfolding finish_data queue_valid
  finish_data-closed k [] s at h =
      rw (at, finish_data) (rw at (rw (server_data_off-closed fd 0 k [] s at) refl))
  finish_data-closed k (c ∷ b) s at (inl e) = absurd (ground (arith, e))
  finish_data-closed k (c ∷ b) s at (inr bad) =
      let n = text_bytes 3 (length (c ∷ b)) in
      let off = server_data_off-closed fd n k (c ∷ b) s at in
      let some_sent : (n == 0) ≡ false = ground arith in
      rw (at, finish_data) (rw at (rw some_sent (rw (bad, queue_valid) (rw off refl))))

  -- The line that ends the text, in the same state.
  stop-closed :
      (k : Sock) (b more : Bytes) (s : Server) (fuel : ℕ)
      → (b ≡ []) ⊎ (valid b (text_bytes 3 (length b)) ≡ false)
      → serve_until_reply pipe_ok valid garbage
          (suc fuel)
          fd
          (b'.' ∷ end_of_line ++ more)
          (put_sock fd (holding k b) s)
        ≡ some (replied (refusal b) more (put_sock fd (closed k) s))
  unfolding serve read_line parse_data serve_until_reply
  stop-closed k b more s fuel h =
      let s1 = put_sock fd (holding k b) s in
      let finished : finish_data pipe_ok valid garbage fd 3 s1
          ≡ some (refusal b, put_sock fd (closed k) s) =
        finish_data-closed k b s1 (put_sock_self fd (holding k b) s) h
        ∙ ap (λ x. some (refusal b, x)) (put_sock_again fd (holding k b) (closed k) s) in
      let served : serve pipe_ok valid garbage fd (b'.' ∷ end_of_line ++ more) s1
          ≡ some (replied (refusal b) more (put_sock fd (closed k) s)) =
        rw (finished, serve, parse_data) refl in
      rw (served, serve_until_reply) (answered b more (put_sock fd (closed k) s))
    where
      answered :
          (b more : Bytes) (u : Server)
          → (elim (some (replied (refusal b) more u)) [
            | some (replied no_reply rest s1) ↦
                serve_until_reply pipe_ok valid garbage fuel fd rest s1
            | some (replied (queued id) rest s1) ↦ some (replied (queued id) rest s1)
            | some (replied ok_msg_canceled rest s1) ↦ some (replied ok_msg_canceled rest s1)
            | some (replied err_invalid_encoding rest s1) ↦
                some (replied err_invalid_encoding rest s1)
            | some (replied err_internal rest s1) ↦ some (replied err_internal rest s1)
            | some (hung_up s1) ↦ some (hung_up s1)
            | none ↦ none
          ])
            ≡ some (replied (refusal b) more u)
      answered [] more u = refl
      answered (c ∷ b) more u = refl

  -- A client has said SPEAK. If it sends the line ".\r\n" at once, the answer is that the message is
  -- cancelled. If it sends a text that has a byte and no NUL, as its library does, and
  -- `g_utf8_validate` refuses the escaped text, less the end of its last line, the answer is that the
  -- encoding is wrong, after no more rounds of `serve` than bytes sent. Either way the rest of the input
  -- is left, the client is in command mode without a buffer, and nothing else has changed.
  pub serve_until_reply-refused :
      (t escaped more : Bytes) (fuel : ℕ) (s : Server)
      → clean t ≡ true
      → t ≢ []
      → escape_dot (some t) ≡ some escaped
      → valid (escaped ++ end_of_line) (length escaped) ≡ false
      → length (spd_say_sending escaped) ≤ fuel
      → (serve_until_reply pipe_ok valid garbage
            (suc fuel)
            fd
            (b'.' ∷ end_of_line ++ more)
            (parse_speak fd s)
          ≡ some (replied ok_msg_canceled more (put_sock fd (closed (s.sockets fd)) s)))
        × (serve_until_reply pipe_ok valid garbage fuel fd
              (spd_say_sending escaped ++ more)
              (parse_speak fd s)
            ≡ some (replied err_invalid_encoding more (put_sock fd (closed (s.sockets fd)) s)))
  unfolding parse_speak escape_dot spd_say_sending put_sock
  serve_until_reply-refused t escaped more fuel s plain nonempty escapes bad enough =
      let k = s.sockets fd in
      let b = escaped ++ end_of_line in
      let w = b'.' ∷ end_of_line ++ more in
      let same : escape_text t ≡ escaped = cc escapes in
      let (ls, lines, whole) = text_lines t plain in
      let joins : joined ls ≡ b = rw same at whole in
      let size : length (joined ls) ≡ length escaped + 2 =
        rw joins (length-append escaped end_of_line) in
      let wire_size = length-append escaped (b'\r' ∷ b'\n' ∷ b'.' ∷ end_of_line) in
      let (rest, few) = enough_rounds ls fuel lines (omega (arith, size, wire_size, enough)) in
      let positive : 0 < length escaped = rw same at (escape_text-length t nonempty) in
      let refused : valid b (text_bytes 3 (length b)) ≡ false =
        rw (text_bytes-escaped escaped positive) bad in
      let wire : spd_say_sending escaped ++ more ≡ joined ls ++ w = rw joins (
        append_assoc escaped (end_of_line ++ b'.' ∷ end_of_line) more
        ∙ sym (append_assoc escaped end_of_line w)) in
      let collected = until_lines pipe_ok valid garbage fd k s ls (suc rest) [] w lines in
      let stopped = stop-closed k b more s rest (inr refused) in
      (
        stop-closed k [] more s fuel (inl refl),
        rw few (rw wire (collected ∙ rw joins (stopped ∙ filled escaped positive))),
      )
    where
      filled :
          (e : Bytes)
          → 0 < length e
          → some (replied (refusal (e ++ end_of_line)) more (put_sock fd (closed (s.sockets fd)) s))
            ≡ some (replied err_invalid_encoding more (put_sock fd (closed (s.sockets fd)) s))
      filled [] h = absurd (omega (arith, h))
      filled (c ∷ cs) h = refl

end_of_line-Line : Line end_of_line
unfolding read_line
end_of_line-Line = record { reads = λ w. refl; inside = refl; other = refl }

module _ (pipe_ok : List Event → Bool) (valid : Bytes → ℕ → Bool) (garbage : Message) (n fuel : ℕ)
    (more : Bytes) (client : Settings) (s : Server) where
  abbrev fd : ℕ
  fd = suc n

  -- A connected client, whose priority is not `progress`, has said SPEAK and sends the empty text, and
  -- `g_utf8_validate` accepts an empty line. The text is not cancelled: the line that `spd_say_sending`
  -- puts behind a text is all that was collected, its two bytes are not taken off again, and the message
  -- that is queued with the next number has them as its text.
  pub serve_until_reply-empty :
      valid end_of_line 2 ≡ true
      → get_client_settings_by_fd s (pos fd) ≡ some client
      → client.priority ≢ progress
      → (u : Server) × (serve_until_reply pipe_ok valid garbage
            (suc (suc fuel))
            fd
            (spd_say_sending [] ++ more)
            (parse_speak fd s)
          ≡ some (replied (queued (pos (suc s.last_message_id))) more u))
        × ((u.messages s.allocated).buf ≡ some end_of_line)
  unfolding parse_speak spd_say_sending get_client_settings_by_fd put_sock deescape_dot
      deescape_start deescape_from
  serve_until_reply-empty fine connected waits =
      let k = s.sockets fd in
      let s0 = with_text fd k end_of_line 2 garbage s in
      let stored : s0.messages s.allocated
          ≡ record garbage { buf = some end_of_line; bytes = pos 2 } =
        update_self s.messages s.allocated _ in
      let (u, accepted, placed) =
        queue_message-Placed pipe_ok s.allocated n text_type k.inside_block s0 client
          (rw stored refl) connected waits in
      let s1 = put_sock fd (holding k end_of_line) s in
      let w = b'.' ∷ end_of_line ++ more in
      let collected =
        until_lines pipe_ok valid garbage fd k s (end_of_line ∷ []) (suc fuel) [] w
          (end_of_line-Line, tt) in
      let again = with_text-again fd k (holding k end_of_line) end_of_line 2 garbage s in
      let stopped =
        serve-stop pipe_ok valid garbage fd more end_of_line end_of_line 2 k s1 u s.last_message_id
          (put_sock_self fd (holding k end_of_line) s) refl (omega arith) fine refl
          (rw again accepted) fuel in
      (
        u,
        collected ∙ stopped,
        rw placed.stored (
            ap (λ (m : Message). m.buf) (update_self s0.messages s.allocated _)
            ∙ ap (λ (m : Message). m.buf) stored),
      )
