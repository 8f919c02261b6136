-- ===== src/Session/Sending.antt =====
-- The text of a message on its way: the rounds in which the server serves a client in data mode.
use opentts.Prelude.{
  ℕ, zero, suc, ◌≡◌, refl, ap, inl, inr, Bool, true, false, List, [], ◌∷◌, Option, none, some,
  length, ◌==◌, arith, Option-cases,
}
use opentts.Prelude.Int.{ℤ}
use opentts.Types.{Bytes, Event, Message, Server}
use opentts.Messages.{reply_text, message_queued}
use opentts.DataMode.{
  DataReply, read_line, parse_data, finish_data, queue_valid, queue_data, keep_data, collect,
  put_sock, Served, replied, hung_up, queued, no_reply, serve, serve_until_reply,
}
use opentts.QueueMessage.Placed.{update_self}
use opentts.Protocol.Parse.{Environment, parse, sent_text, response_of}
use opentts.Session.{Link, serve_rounds}

-- A line that was read has a byte.
read_line-cons : (prev : ℕ) (input rest : Bytes) → read_line prev input ≡ some ([], rest) → ⊥
unfolding read_line
read_line-cons prev [] rest h = cc h
read_line-cons prev (c ∷ cs) rest h = ground (arith, h)

read_line-long :
    (prev : ℕ) (input line rest : Bytes)
    → read_line prev input ≡ some (line, rest)
    → (length line == 0) ≡ false
read_line-long prev input [] rest h = absurd (read_line-cons prev input rest h)
read_line-long prev input (c ∷ cs) rest h = ground arith

-- Is something said about the data?
abbrev replies : Option (DataReply × Server) → Bool
replies none = true
replies (some (no_reply, s)) = false
replies (some (r, s)) = true

module _ (pipe_ok : List Event → Bool) (valid : Bytes → ℕ → Bool) (garbage : Message) (fd : ℕ) where
  finish_data-replies :
      (bytes : ℕ) (s : Server) → replies (finish_data pipe_ok valid garbage fd bytes s) ≡ true
  unfolding finish_data queue_valid queue_data
  finish_data-replies bytes s = ground arith

  -- A client whose line is kept stays in data mode.
  parse_data-waits :
      (buf : Bytes) (bytes : ℕ) (s s1 : Server)
      → parse_data pipe_ok valid garbage buf bytes fd s ≡ some (no_reply, s1)
      → (s.sockets fd).awaiting_data ≡ true
      → (s1.sockets fd).awaiting_data ≡ true
  unfolding parse_data keep_data collect put_sock
  parse_data-waits buf bytes s s1 h waits = grind (arith, finish_data-replies, update_self)

-- The session behind an answer that a message is queued.
abbrev link_of : Option Served → Option Link
link_of (some (replied (queued id) more u)) =
    some (record { pending = more; stream = reply_text (message_queued id); server = u })
link_of _ = none

module _ (env : Environment) (fd : ℕ) where
  abbrev until : ℕ → Bytes → Server → Option Served
  until = λ fuel input s. serve_until_reply env.pipe_ok env.valid env.garbage fuel fd input s

  abbrev round : ℕ → Bytes → Server → Option Link
  round fuel input s =
      serve_rounds env fd fuel (record { pending = input; stream = []; server = s })

  -- One line of a client in data mode.
  module _ (fuel : ℕ) (input line rest : Bytes) (s s1 : Server) (r : DataReply)
      (waits : (s.sockets fd).awaiting_data ≡ true) (read : read_line 0 input ≡ some (line, rest))
      (parsed : parse_data env.pipe_ok env.valid env.garbage line (length line) fd s
        ≡ some (r, s1)) where
    serve_lem : serve env.pipe_ok env.valid env.garbage fd input s ≡ some (replied r rest s1)
    unfolding serve
    serve_lem = rw (read, serve) (rw parsed refl)

    parse_lem : parse env line (length line) fd s ≡ some (response_of r, s1)
    unfolding parse
    parse_lem = rw (read_line-long 0 input line rest read, parse) (rw waits (rw parsed refl))

  serve_hung :
      (input : Bytes) (s : Server)
      → read_line 0 input ≡ none
      → serve env.pipe_ok env.valid env.garbage fd input s ≡ some (hung_up s)
  unfolding serve
  serve_hung input s read = rw (read, serve) refl

  serve_ended :
      (input line rest : Bytes) (s : Server)
      → read_line 0 input ≡ some (line, rest)
      → parse_data env.pipe_ok env.valid env.garbage line (length line) fd s ≡ none
      → serve env.pipe_ok env.valid env.garbage fd input s ≡ none
  unfolding serve
  serve_ended input line rest s read ended = rw (read, serve) (rw ended refl)

  line_queued :
      (fuel : ℕ) (input line rest more : Bytes) (s s1 u : Server) (r : DataReply) (id : ℤ)
      → (s.sockets fd).awaiting_data ≡ true
      → read_line 0 input ≡ some (line, rest)
      → parse_data env.pipe_ok env.valid env.garbage line (length line) fd s ≡ some (r, s1)
      → ((s1.sockets fd).awaiting_data ≡ true
          → until fuel rest s1 ≡ some (replied (queued id) more u)
          → round fuel rest s1
            ≡ some (record { pending = more; stream = reply_text (message_queued id); server = u }))
      → until (suc fuel) input s ≡ some (replied (queued id) more u)
      → round (suc fuel) input s
        ≡ some (record { pending = more; stream = reply_text (message_queued id); server = u })
  unfolding serve_until_reply serve_rounds sent_text reply_text
  line_queued fuel input line rest more s s1 u (queued id') id waits read parsed again h =
      let served = serve_lem fuel input line rest s s1 (queued id') waits read parsed in
      let parse_is = parse_lem fuel input line rest s s1 (queued id') waits read parsed in
      let h' : some (replied (queued id') rest s1) ≡ some (replied (queued id) more u) =
        rw (served, serve_until_reply) at h in
      rw (read, serve_rounds) (rw parse_is (ap link_of h'))
  line_queued fuel input line rest more s s1 u no_reply id waits read parsed again h =
      let served = serve_lem fuel input line rest s s1 no_reply waits read parsed in
      let parse_is = parse_lem fuel input line rest s s1 no_reply waits read parsed in
      let h' : until fuel rest s1 ≡ some (replied (queued id) more u) =
        rw (served, serve_until_reply) at h in
      let stays =
        parse_data-waits env.pipe_ok env.valid env.garbage fd line (length line) s s1 parsed
          waits in
      rw (read, serve_rounds) (rw parse_is (again stays h'))
  line_queued fuel input line rest more s s1 u r id waits read parsed again h =
      let served = serve_lem fuel input line rest s s1 r waits read parsed in
      let h' : some (replied r rest s1) ≡ some (replied (queued id) more u) =
        rw (served, serve_until_reply) at h in
      absurd (cc h')

  -- While the client is in data mode, the rounds of the session are those of `serve_until_reply`.
  pub serve_rounds-queued :
      (fuel : ℕ) (input more : Bytes) (s u : Server) (id : ℤ)
      → (s.sockets fd).awaiting_data ≡ true
      → until fuel input s ≡ some (replied (queued id) more u)
      → round fuel input s
        ≡ some (record { pending = more; stream = reply_text (message_queued id); server = u })
  unfolding serve_until_reply
  serve_rounds-queued zero input more s u id waits h = absurd (cc h)
  serve_rounds-queued (suc fuel) input more s u id waits h =
      elim (Option-cases (read_line 0 input)) [
        | inl hung ↦
            let h' : some (hung_up s) ≡ some (replied (queued id) more u) =
              rw (serve_hung input s hung, serve_until_reply) at h in
            absurd (cc h')
        | inr ((line, rest), read) ↦
            elim (Option-cases
              (parse_data env.pipe_ok env.valid env.garbage line (length line) fd s)) [
                | inl ended ↦
                    let h' : none ≡ some (replied (queued id) more u) =
                      rw (serve_ended input line rest s read ended, serve_until_reply) at h in
                    absurd (cc h')
                | inr ((r, s1), parsed) ↦
                    line_queued fuel input line rest more s s1 u r id waits read parsed
                      (λ stays h'. serve_rounds-queued fuel rest more s1 u id stays h') h
              ]
      ]
