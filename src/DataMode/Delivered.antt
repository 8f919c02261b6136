-- ===== src/DataMode/Delivered.antt =====
-- A text that a client sends comes whole into the queues.
use mathlib.Core.List.{append_assoc}
use opentts.Prelude.{
  ℕ, suc, ◌+◌, ◌-◌, ◌≤◌, ◌<◌, ◌≡◌, refl, ap, ◌∙◌, sym, ◌≢◌, inl, inr, Bool, true, List, [], ◌∷◌,
  ◌++◌, some, ◌==◌, length, length-append, arith, Bool-cases,
}
use opentts.Prelude.Int.{pos}
use opentts.Types.{text_type, progress, Bytes, Sock, Server, Settings, Message, Event}
use opentts.Clients.{get_client_settings_by_fd}
use opentts.Api.{escape_text, escape_dot, spd_say_sending}
use opentts.QueueMessage.{has_text, queue_message}
use opentts.QueueMessage.Placed.{Placed, queue_message-Placed, update_self}
use opentts.DataMode.{
  put_sock, parse_speak, text_bytes, queued, replied, serve_until_reply, read_line,
}
use opentts.DataMode.Dots.{escape_from_head, end_of_line, deescape_dot-escape_dot}
use opentts.DataMode.Lines.{clean, escape_text-clean, escape_text-no_stop}
use opentts.DataMode.Reading.{Line, AllLines, joined, cut, no_stop_front, is_stop_front}
use opentts.DataMode.Received.{
  holding, rounds, with_text, until_lines, serve-stop, put_sock_self, with_text-again,
}

-- The lines of an escaped text.
pub text_lines :
    (t : Bytes)
    → clean t ≡ true
    → (ls : List Bytes) × AllLines ls × (joined ls ≡ escape_text t ++ end_of_line)
text_lines t h =
    let r = cut 0 (escape_text t) (escape_text-clean t h) (escape_text-no_stop t h) in
    let clear = no_stop_front (escape_text t ++ end_of_line) (escape_text-no_stop t h) in
    let other = is_stop_front r.first (joined r.others) (rw r.whole clear) in
    (
      r.first ∷ r.others,
      (record { reads = r.reads; inside = r.inside; other = other }, r.lines),
      r.whole,
    )

Line-length : (l : Bytes) → Line l → 0 < length l
unfolding read_line
Line-length [] h = let reads = h.reads [] in absurd (ground (arith, reads))
Line-length (c ∷ l) h = omega arith

-- As many rounds as bytes are enough.
pub enough_rounds :
    (ls : List Bytes) (fuel : ℕ)
    → AllLines ls
    → length (joined ls) < fuel
    → (rest : ℕ) × (fuel ≡ rounds ls (suc rest))
enough_rounds [] fuel h g = (fuel - 1, omega (arith, g))
enough_rounds (l ∷ ls) fuel h g =
    let nonempty = Line-length l (h.0) in
    let size = length-append l (joined ls) in
    let (rest, e) = enough_rounds ls (fuel - 1) (h.1) (omega (arith, g, nonempty, size)) in
    (rest, omega (arith, e, g))

pub escape_text-length : (t : Bytes) → t ≢ [] → 0 < length (escape_text t)
unfolding escape_text
escape_text-length [] h = absurd (h refl)
escape_text-length (c ∷ cs) h = elim (Bool-cases (c == b'.')) [
  | inl dot ↦ rw (dot, escape_text) (omega arith)
  | inr plain ↦
      let (x, head) = escape_from_head c cs in rw (plain, escape_text) (rw head (omega arith))
]

pub text_bytes-escaped :
    (e : Bytes) → 0 < length e → text_bytes 3 (length (e ++ end_of_line)) ≡ length e
text_bytes-escaped e h = let size = length-append e end_of_line in ground (arith, size, h)

clean-has_text : (t : Bytes) → clean t ≡ true → t ≢ [] → has_text (some t) ≡ true
clean-has_text [] h g = absurd (g refl)
clean-has_text (c ∷ cs) h g = ground (arith, h)

module _ (pipe_ok : List Event → Bool) (valid : Bytes → ℕ → Bool) (garbage : Message) (n fuel : ℕ)
    (t escaped more : Bytes) (client : Settings) (s : Server) where
  abbrev fd : ℕ
  fd = suc n

  text_runs :
      (ls : List Bytes) (k : Sock) (u : Server) (id rest : ℕ)
      → AllLines ls
      → joined ls ≡ escaped ++ end_of_line
      → 0 < length escaped
      → escape_dot (some t) ≡ some escaped
      → valid (escaped ++ end_of_line) (length escaped) ≡ true
      → queue_message pipe_ok
          (some s.allocated)
          (pos fd)
          text_type
          k.inside_block
          (with_text fd k t (length escaped) garbage s)
        ≡ some (pos (suc id), u)
      → serve_until_reply pipe_ok valid garbage
          (rounds ls (suc rest))
          fd
          (spd_say_sending escaped ++ more)
          (put_sock fd (holding k []) s)
        ≡ some (replied (queued (pos (suc id))) more u)
  unfolding spd_say_sending put_sock
  text_runs ls k u id rest lines joins positive escapes fine accepted =
      let b = escaped ++ end_of_line in
      let s1 = put_sock fd (holding k b) s in
      let w = b'.' ∷ end_of_line ++ more in
      let text = deescape_dot-escape_dot t escaped escapes in
      let wire : spd_say_sending escaped ++ more ≡ joined ls ++ w = rw joins (
        append_assoc escaped (end_of_line ++ b'.' ∷ end_of_line) more
        ∙ sym (append_assoc escaped end_of_line w)) in
      let collected = until_lines pipe_ok valid garbage fd k s ls (suc rest) [] w lines in
      let again = with_text-again fd k (holding k b) t (length escaped) garbage s in
      let stopped =
        serve-stop pipe_ok valid garbage fd more b t (length escaped) k s1 u id
          (put_sock_self fd (holding k b) s) (text_bytes-escaped escaped positive) positive fine
          text (rw again accepted) rest in
      rw wire (collected ∙ rw joins stopped)

  -- A connected client, whose priority is not `progress`, has said SPEAK and then sends a text, that
  -- has a byte and no NUL, as the library of the client does: `escape_dot`, and the line that ends it.
  -- `g_utf8_validate` accepts it. Rounds of `serve`, no more than bytes sent, then come to the answer
  -- that the text is queued with the next number and leave the rest of the input; the new message holds
  -- the same bytes as the text of the client had, and stands in its queue as `Placed` says.
  pub serve_until_reply-spd_say_sending :
      clean t ≡ true
      → t ≢ []
      → escape_dot (some t) ≡ some escaped
      → valid (escaped ++ end_of_line) (length escaped) ≡ true
      → get_client_settings_by_fd s (pos fd) ≡ some client
      → client.priority ≢ progress
      → length (spd_say_sending escaped) ≤ fuel
      → (u : Server) × (serve_until_reply pipe_ok valid garbage fuel fd
            (spd_say_sending escaped ++ more)
            (parse_speak fd s)
          ≡ some (replied (queued (pos (suc s.last_message_id))) more u))
        × ((u.messages s.allocated).buf ≡ some t)
        × Placed s.allocated client text_type
            (s.sockets fd).inside_block
            (with_text fd (s.sockets fd) t (length escaped) garbage s)
            u
  unfolding parse_speak escape_dot spd_say_sending get_client_settings_by_fd put_sock
  serve_until_reply-spd_say_sending plain nonempty escapes fine connected waits enough =
      let k = s.sockets fd in
      let s0 = with_text fd k t (length escaped) garbage s in
      let same : escape_text t ≡ escaped = cc escapes in
      let (ls, lines, whole) = text_lines t plain in
      let joins : joined ls ≡ escaped ++ end_of_line = rw same at whole in
      let size : length (joined ls) ≡ length escaped + 2 =
        rw joins (length-append escaped end_of_line) in
      let wire = length-append escaped (b'\r' ∷ b'\n' ∷ b'.' ∷ end_of_line) in
      let (rest, few) = enough_rounds ls fuel lines (omega (arith, size, wire, enough)) in
      let stored : (s0.messages s.allocated)
          ≡ record garbage { buf = some t; bytes = pos (length escaped) } =
        update_self s.messages s.allocated _ in
      let (u, accepted, placed) =
        queue_message-Placed pipe_ok s.allocated n text_type k.inside_block s0 client
          (rw stored (clean-has_text t plain nonempty)) connected waits in
      let positive = rw same at (escape_text-length t nonempty) in
      (
        u,
        rw few (text_runs ls k u s.last_message_id rest lines joins positive escapes fine accepted),
        rw placed.stored (
            ap (λ (m : Message). m.buf) (update_self s0.messages s.allocated _)
            ∙ ap (λ (m : Message). m.buf) stored),
        placed,
      )
