-- ===== src/DataMode/Received.antt =====
-- What the rounds of `serve` do with the lines of a text, and with the line that ends it.
use mathlib.Core.Path.{fun_ext}
use mathlib.Core.List.{append_assoc, append-nil}
use opentts.Prelude.{
  ℕ, suc, ◌<◌, ◌≡◌, refl, ap, ◌∙◌, Bool, true, false, List, [], ◌∷◌, ◌++◌, none, some, ◌==◌, length,
  take, length-append, arith, if◌then◌else◌,
}
use opentts.Prelude.Int.{pos}
use opentts.Types.{text_type, Bytes, Sock, Server, Message, Event}
use opentts.Clients.{update}
use opentts.QueueMessage.{store_message, queue_message}
use opentts.QueueMessage.Placed.{update_self}
use opentts.DataMode.{
  put_sock, collect, text_bytes, deescape_dot, server_data_off, queue_data, queue_valid,
  leave_data_mode, queued, parse_data, keep_data, serve, serve_until_reply, replied, no_reply,
  finish_data, read_line,
}
use opentts.DataMode.Dots.{end_of_line}
use opentts.DataMode.Reading.{Line, AllLines, joined, Line-ends_data, Line-real_bytes}

if_again {ℓ} :
    {A : Type ℓ} (test : Bool) (a b c : A)
    → (if test then b else (if test then a else c)) ≡ (if test then b else c)
if_again true a b c = refl
if_again false a b c = refl

update_again {ℓ} :
    {A : Type ℓ} (f : ℕ → A) (k : ℕ) (a b : A) → update (update f k a) k b ≡ update f k b
update_again f k a b = fun_ext (λ j. if_again (k == j) a b (f j))

pub put_sock_again :
    (fd : ℕ) (a b : Sock) (s : Server) → put_sock fd b (put_sock fd a s) ≡ put_sock fd b s
unfolding put_sock
put_sock_again fd a b s =
    ap (λ (f : ℕ → Sock). record s { sockets = f }) (update_again s.sockets fd a b)

pub put_sock_self : (fd : ℕ) (a : Sock) (s : Server) → (put_sock fd a s).sockets fd ≡ a
unfolding put_sock
put_sock_self fd a s = update_self s.sockets fd a

-- A client in data mode that has sent `b`.
abbrev pub holding : Sock → Bytes → Sock
holding k b = record k { awaiting_data = true; o_bytes = length b; o_buf = some b }

-- One round for each line, and `fuel` more.
abbrev pub rounds : List Bytes → ℕ → ℕ
rounds [] fuel = fuel
rounds (l ∷ ls) fuel = suc (rounds ls fuel)

take-length : (l : Bytes) → take (length l) l ≡ l
take-length [] = refl
take-length (c ∷ l) = ap (◌∷◌ c) (take-length l)

collect_sock :
    (fd : ℕ) (k : Sock) (b l : Bytes) (s : Server)
    → s.sockets fd ≡ holding k b
    → collect fd l (length l) s ≡ some (put_sock fd (holding k (b ++ l)) s)
unfolding collect
collect_sock fd k b l s e =
    rw (e, collect) (rw e (rw (take-length l) (rw (length-append b l) refl)))

collect-holding :
    (fd : ℕ) (k : Sock) (b l : Bytes) (s : Server)
    → collect fd l (length l) (put_sock fd (holding k b) s)
      ≡ some (put_sock fd (holding k (b ++ l)) s)
collect-holding fd k b l s =
    collect_sock fd k b l (put_sock fd (holding k b) s) (put_sock_self fd (holding k b) s)
    ∙ rw (put_sock_again fd (holding k b) (holding k (b ++ l)) s) refl

module _ (pipe_ok : List Event → Bool) (valid : Bytes → ℕ → Bool) (garbage : Message) (fd : ℕ)
    (k : Sock) (s : Server) where
  parse_data-Line :
      (b l : Bytes)
      → Line l
      → parse_data pipe_ok valid garbage l (length l) fd (put_sock fd (holding k b) s)
        ≡ some (no_reply, put_sock fd (holding k (b ++ l)) s)
  unfolding parse_data keep_data
  parse_data-Line b l h =
      rw (Line-ends_data l h, parse_data)
        (rw (Line-real_bytes l h) (rw (collect-holding fd k b l s, keep_data) refl))

  serve-Line :
      (b l w : Bytes)
      → Line l
      → serve pipe_ok valid garbage fd (l ++ w) (put_sock fd (holding k b) s)
        ≡ some (replied no_reply w (put_sock fd (holding k (b ++ l)) s))
  unfolding serve
  serve-Line b l w h = rw (h.reads w, serve) (rw (parse_data-Line b l h) refl)

  pub until_lines :
      (ls : List Bytes) (fuel : ℕ) (b w : Bytes)
      → AllLines ls
      → serve_until_reply pipe_ok valid garbage
          (rounds ls fuel)
          fd
          (joined ls ++ w)
          (put_sock fd (holding k b) s)
        ≡ serve_until_reply pipe_ok valid garbage fuel fd w
            (put_sock fd (holding k (b ++ joined ls)) s)
  unfolding serve_until_reply
  until_lines [] fuel b w h = rw (append-nil b) refl
  until_lines (l ∷ ls) fuel b w h =
      let step = serve-Line b l (joined ls ++ w) (h.0) in
      let rest = until_lines ls fuel (b ++ l) w (h.1) in
      rw (append_assoc l (joined ls) w)
        (rw (step, serve_until_reply) (rest ∙ rw (append_assoc b l (joined ls)) refl))

-- The state that `queue_message` finds: the message is in the store, and its client, whose socket was
-- `k`, is in command mode.
abbrev pub with_text : ℕ → Sock → Bytes → ℕ → Message → Server → Server
with_text fd k t n garbage s =
    let closed : Sock = record k { awaiting_data = false; o_bytes = 0; o_buf = none } in
    record (put_sock fd closed s) {
      messages = update s.messages s.allocated (record garbage { buf = some t; bytes = pos n });
      allocated = suc s.allocated;
    }

pub with_text-again :
    (fd : ℕ) (k a : Sock) (t : Bytes) (n : ℕ) (garbage : Message) (s : Server)
    → with_text fd k t n garbage (put_sock fd a s) ≡ with_text fd k t n garbage s
unfolding put_sock
with_text-again fd k a t n garbage s =
    let closed : Sock = record k { awaiting_data = false; o_bytes = 0; o_buf = none } in
    let stored = update s.messages s.allocated (record garbage { buf = some t; bytes = pos n }) in
    ap (λ (f : ℕ → Sock). record s { sockets = f; messages = stored; allocated = suc s.allocated })
      (update_again s.sockets fd a closed)

module _ (pipe_ok : List Event → Bool) (valid : Bytes → ℕ → Bool) (garbage : Message) (fd : ℕ) where
  queue_data_lem :
      (b t : Bytes) (n : ℕ) (k : Sock) (s u : Server) (id : ℕ)
      → s.sockets fd ≡ record k { awaiting_data = false; o_bytes = n; o_buf = some b }
      → deescape_dot (some b) n ≡ some t
      → queue_message pipe_ok
          (some s.allocated)
          (pos fd)
          text_type
          k.inside_block
          (with_text fd k t n garbage s)
        ≡ some (pos (suc id), u)
      → queue_data pipe_ok valid garbage fd b n s ≡ some (queued (pos (suc id)), u)
  unfolding queue_data server_data_off store_message put_sock
  queue_data_lem b t n k s u id at text placed =
      rw (at, queue_data) (rw at (rw text (rw placed refl)))

  pub finish_data_lem :
      (b t : Bytes) (n : ℕ) (k : Sock) (s u : Server) (id : ℕ)
      → s.sockets fd ≡ holding k b
      → text_bytes 3 (length b) ≡ n
      → 0 < n
      → valid b n ≡ true
      → deescape_dot (some b) n ≡ some t
      → queue_message pipe_ok
          (some s.allocated)
          (pos fd)
          text_type
          k.inside_block
          (with_text fd k t n garbage s)
        ≡ some (pos (suc id), u)
      → finish_data pipe_ok valid garbage fd 3 s ≡ some (queued (pos (suc id)), u)
  unfolding finish_data leave_data_mode queue_valid
  finish_data_lem b t n k s u id at size positive fine text placed =
      let k1 : Sock = record k { awaiting_data = false; o_bytes = n; o_buf = some b } in
      let sent =
        queue_data_lem b t n k (put_sock fd k1 s) u id (put_sock_self fd k1 s) text
          (rw (with_text-again fd k k1 t n garbage s) placed) in
      let filled : (n == 0) ≡ false = ground (arith, positive) in
      rw (at, finish_data) (rw at (rw size (rw filled (rw (fine, queue_valid) sent))))

  -- The line that ends the text.
  pub serve-stop :
      (w b t : Bytes) (n : ℕ) (k : Sock) (s u : Server) (id : ℕ)
      → s.sockets fd ≡ holding k b
      → text_bytes 3 (length b) ≡ n
      → 0 < n
      → valid b n ≡ true
      → deescape_dot (some b) n ≡ some t
      → queue_message pipe_ok
          (some s.allocated)
          (pos fd)
          text_type
          k.inside_block
          (with_text fd k t n garbage s)
        ≡ some (pos (suc id), u)
      → (fuel : ℕ)
      → serve_until_reply pipe_ok valid garbage (suc fuel) fd (b'.' ∷ end_of_line ++ w) s
        ≡ some (replied (queued (pos (suc id))) w u)
  unfolding serve read_line parse_data serve_until_reply
  serve-stop w b t n k s u id at size positive fine text placed fuel =
      let finished = finish_data_lem b t n k s u id at size positive fine text placed in
      let served : serve pipe_ok valid garbage fd (b'.' ∷ end_of_line ++ w) s
          ≡ some (replied (queued (pos (suc id))) w u) =
        rw (finished, serve, parse_data) refl in
      rw (served, serve_until_reply) refl
