-- ===== src/Session/Say.antt =====
-- A text on its way from `spd_say` of src/api/c/libopentts.c to the queues of the server.
use opentts.Prelude.{
  ℕ, suc, ◌≡◌, ◌≢◌, refl, sym, ◌∙◌, ap, inl, inr, true, false, [], ◌∷◌, ◌++◌, some, length, map,
  codes, ltb, ◌==◌, arith, Option-cases,
}
use mathlib.Core.List.{append-nil}
use opentts.Prelude.Int.{pos, negsuc}
use opentts.Types.{
  Bytes, Priority, important, message, text, notification, progress, text_type, Settings, Sock,
  Server,
}
use opentts.Clients.{
  update, get_client_uid_by_fd, get_client_settings_by_uid, get_client_settings_by_fd, put_settings,
}
use opentts.Messages.{
  reply_text, ok_priority_set, err_couldnt_set_priority, err_not_allowed_inside_block,
  ok_receive_data, message_queued,
}
use opentts.Settings.{set_priority_self, set_priority_uid, change}
use opentts.DataMode.{parse_speak, put_sock, serve_until_reply, replied, queued}
use opentts.DataMode.Dots.{end_of_line}
use opentts.DataMode.Lines.{clean}
use opentts.DataMode.Delivered.{serve_until_reply-spd_say_sending}
use opentts.DataMode.Received.{with_text}
use opentts.QueueMessage.Placed.{Placed, update_self}
use opentts.Protocol.Set.{Who, set_named, set_priority, priority_of}
use opentts.Protocol.Parse.{Environment, parse, parse_command}
use opentts.Api.{command_line, escape_text, escape_dot, spd_say_sending}
use opentts.Api.Replies.{ret_ok, get_err_code, get_reply, get_param_int}
use opentts.Api.Replies.Framed.{get_reply-reply_text}
use opentts.Api.Replies.Numbers.{get_param_int-message_queued}
use opentts.Api.Commands.{
  for_self, set_command, priority_text, priority_command, EventCall, event_command,
}
use opentts.Session.{
  idle, serve_rounds, send_with_reply, spd_execute_command_with_reply, spd_execute_command,
  spd_set_priority, spd_event, say_sending, spd_say,
}
use opentts.Session.Exchange.{quiet, exchange}
use opentts.Session.Words.{small, LowersAscii, QuietWord}
use opentts.Session.Lines.{
  ReadsSet, set_line-ReadsSet, parse-ReadsSet, set_command-quiet, answered, returned, told-returned,
}
use opentts.Session.Values.{known-QuietWord}
use opentts.Session.Sending.{serve_rounds-queued}

priority-QuietWord : (p : Priority) → QuietWord (priority_text p)
priority-QuietWord important = known-QuietWord _ _ _ refl refl
priority-QuietWord message = known-QuietWord _ _ _ refl refl
priority-QuietWord text = known-QuietWord _ _ _ refl refl
priority-QuietWord notification = known-QuietWord _ _ _ refl refl
priority-QuietWord progress = known-QuietWord _ _ _ refl refl

priority_of-text : (p : Priority) → priority_of (map small (priority_text p)) ≡ some p
unfolding priority_of
priority_of-text important = refl
priority_of-text message = refl
priority_of-text text = refl
priority_of-text notification = refl
priority_of-text progress = refl

abbrev priority_name : Bytes
priority_name = codes "PRIORITY"

module _ (env : Environment) (fd : ℕ) (s : Server) (lowers : LowersAscii env.strdown)
    (ready : (s.sockets fd).awaiting_data ≡ false) where
  abbrev priority_line : Priority → Bytes
  priority_line p = set_command (codes "SELF") priority_name (priority_text p)

  reads_priority :
      (p : Priority)
      → ReadsSet env.strdown Who.self priority_name
          (priority_text p)
          (command_line (priority_line p))
  reads_priority p =
      set_line-ReadsSet env.strdown for_self priority_name (priority_text p) lowers
        (known-QuietWord _ _ priority_name refl refl).0 (priority-QuietWord p).0

  priority_line-quiet : (p : Priority) → quiet (priority_line p) ≡ true
  priority_line-quiet p =
      set_command-quiet for_self priority_name (priority_text p)
        (known-QuietWord _ _ priority_name refl refl) (priority-QuietWord p)

  -- Inside of a block the priority cannot be changed.
  set_priority_in_block :
      (p : Priority) (n : ℕ)
      → (s.sockets fd).inside_block ≡ suc n
      → spd_set_priority env fd p (idle s) ≡ some (negsuc 0, idle s)
  unfolding spd_set_priority priority_command set_named set_priority reply_text ret_ok get_err_code
  set_priority_in_block p n inside =
      let inner : ltb 0 (s.sockets fd).inside_block ≡ true = ground (arith, inside) in
      exchange env fd (priority_line p) err_not_allowed_inside_block s s (priority_line-quiet p)
        (parse-ReadsSet env fd s ready Who.self priority_name (priority_text p)
            (command_line (priority_line p)) (reads_priority p)
          ∙ rw (inner, set_named, set_priority) refl)
        tt false refl

  pub set_priority_outside :
      (p : Priority)
      → (s.sockets fd).inside_block ≡ 0
      → spd_set_priority env fd p (idle s) ≡ returned (set_priority_self (pos fd) p s)
  unfolding spd_set_priority priority_command set_named set_priority reply_text ret_ok get_err_code
  set_priority_outside p outside =
      let set =
        answered err_couldnt_set_priority ok_priority_set
          (rw (outside, set_named, set_priority)
            (rw (reads_priority p).lowered (rw (priority_of-text p) refl)))
          (tt, tt) (refl, refl) in
      told-returned env fd (priority_line p) s (priority_line-quiet p) _ _ set (
        parse-ReadsSet env fd s ready Who.self priority_name (priority_text p)
          (command_line (priority_line p)) (reads_priority p))

  -- Inside of a block the server takes texts, keys, characters and sounds from its client, but not the
  -- priority that the functions of the client's library set before each: `spd_say`, `spd_key`,
  -- `spd_char` and `spd_sound_icon` return -1, whatever they are to say, and leave the server as it is.
  pub spd_say-in_block :
      (p : Priority) (n : ℕ) (t : Bytes) (call : EventCall)
      → (s.sockets fd).inside_block ≡ suc n
      → (spd_say env fd p t (idle s) ≡ some (negsuc 0, idle s))
        × (spd_event env fd call p t (idle s) ≡ some (negsuc 0, idle s))
  unfolding spd_say spd_event escape_dot
  spd_say-in_block p n t call inside =
      let refused = set_priority_in_block p n inside in
      (
        rw (refused, spd_say) refl,
        elim (Option-cases (event_command call t)) [
          | inl off ↦ rw (off, spd_event) refl
          | inr (command, on) ↦ rw (on, spd_event) (rw refused refl)
        ],
      )

-- The command SPEAK.
speak_lem :
    (env : Environment) (fd : ℕ) (s : Server)
    → LowersAscii env.strdown
    → (s.sockets fd).awaiting_data ≡ false
    → spd_execute_command env fd (codes "speak") (idle s) ≡ some (pos 0, idle (parse_speak fd s))
unfolding parse parse_command reply_text ret_ok get_err_code
speak_lem env fd s lowers ready =
    exchange env fd (codes "speak") ok_receive_data s (parse_speak fd s) refl
      (rw (ready, parse) (rw (lowers (codes "speak")) refl)) tt true refl

-- The text and the line that ends it, for a client in data mode.
module _ (env : Environment) (fd : ℕ) (escaped : Bytes) (s u : Server) (id : ℕ)
    (waits : (s.sockets fd).awaiting_data ≡ true)
    (run : serve_until_reply env.pipe_ok env.valid env.garbage
        (length (spd_say_sending escaped))
        fd
        (spd_say_sending escaped ++ [])
        s
      ≡ some (replied (queued (pos id)) [] u)) where
  abbrev wire : Bytes
  wire = escaped ++ command_line (b'\r' ∷ b'\n' ∷ b'.' ∷ [])

  rounds_lem :
      serve_rounds env fd (length wire) (record { pending = wire; stream = []; server = s })
      ≡ some (record { pending = []; stream = reply_text (message_queued (pos id)); server = u })
  unfolding spd_say_sending
  rounds_lem =
      let run' : serve_until_reply env.pipe_ok env.valid env.garbage (length wire) fd wire s
          ≡ some (replied (queued (pos id)) [] u) =
        ap (λ w. serve_until_reply env.pipe_ok env.valid env.garbage (length wire) fd w s)
          (sym (append-nil wire))
        ∙ run in
      serve_rounds-queued env fd (length wire) wire [] s u (pos id) waits run'

  sent_lem :
      send_with_reply env fd
        (command_line (b'\r' ∷ b'\n' ∷ b'.' ∷ []))
        (record { pending = escaped; stream = []; server = s })
      ≡ some (reply_text (message_queued (pos id)), idle u)
  unfolding send_with_reply
  sent_lem =
      let reply = reply_text (message_queued (pos id)) in
      let read : get_reply reply ≡ some (reply, []) =
        ap get_reply (sym (append-nil reply))
        ∙ get_reply-reply_text (message_queued (pos id)) [] tt in
      rw (rounds_lem, send_with_reply) (rw read refl)

  ret_ok_lem : ret_ok (reply_text (message_queued (pos id))) ≡ some true
  unfolding reply_text ret_ok get_err_code
  ret_ok_lem = refl

-- A reply that is good, and has a number.
said :
    (env : Environment) (fd : ℕ) (escaped r : Bytes) (s u : Server) (id : ℕ)
    → send_with_reply env fd
        (command_line (b'\r' ∷ b'\n' ∷ b'.' ∷ []))
        (record { pending = escaped; stream = []; server = s })
      ≡ some (r, idle u)
    → ret_ok r ≡ some true
    → get_param_int r 1 (pos 0) ≡ (pos id, pos 0)
    → say_sending env fd escaped (idle s) ≡ some (pos id, idle u)
unfolding say_sending spd_execute_command_with_reply
said env fd escaped r s u id sent good number =
    rw (sent, say_sending, spd_execute_command_with_reply) (rw good (rw number refl))

say_sending_lem :
    (env : Environment) (fd : ℕ) (escaped : Bytes) (s u : Server) (id : ℕ)
    → (s.sockets fd).awaiting_data ≡ true
    → serve_until_reply env.pipe_ok env.valid env.garbage
        (length (spd_say_sending escaped))
        fd
        (spd_say_sending escaped ++ [])
        s
      ≡ some (replied (queued (pos id)) [] u)
    → say_sending env fd escaped (idle s) ≡ some (pos id, idle u)
say_sending_lem env fd escaped s u id waits run =
    said env fd escaped (reply_text (message_queued (pos id))) s u id
      (sent_lem env fd escaped s u id waits run) (ret_ok_lem env fd escaped s u id waits run)
      (get_param_int-message_queued id)

-- The setter for the priority of a connected client, and what it leaves.
module _ (n : ℕ) (p : Priority) (uid : ℕ) (client : Settings) (s : Server)
    (known : get_client_uid_by_fd s (pos (suc n)) ≡ suc uid) where
  pub set_priority_self_lem :
      s.fd_settings (suc uid) ≡ some client
      → set_priority_self (pos (suc n)) p s
        ≡ (0, put_settings (suc uid) (record client { priority = p }) s)
  unfolding set_priority_self set_priority_uid change get_client_settings_by_uid
  set_priority_self_lem there =
      let busy : (get_client_uid_by_fd s (pos (suc n)) == 0) ≡ false = ground (arith, known) in
      rw (busy, set_priority_self) (rw known (rw (there, change) refl))

  pub settings_of :
      get_client_settings_by_fd
        (put_settings (suc uid) (record client { priority = p }) s)
        (pos (suc n))
      ≡ some (record client { priority = p })
  unfolding get_client_settings_by_fd get_client_uid_by_fd put_settings
  settings_of =
      let busy : (get_client_uid_by_fd s (pos (suc n)) == 0) ≡ false = ground (arith, known) in
      rw busy (rw known (update_self s.fd_settings (suc uid) _))

-- `spd_say` in its three steps.
steps :
    (env : Environment) (fd : ℕ) (p : Priority) (t : Bytes) (s s' u : Server) (id : ℕ)
    → spd_set_priority env fd p (idle s) ≡ some (pos 0, idle s')
    → spd_execute_command env fd (codes "speak") (idle s') ≡ some (pos 0, idle (parse_speak fd s'))
    → say_sending env fd (escape_text t) (idle (parse_speak fd s')) ≡ some (pos id, idle u)
    → spd_say env fd p t (idle s) ≡ some (pos id, idle u)
unfolding spd_say escape_dot
steps env fd p t s s' u id prior speak sends = rw (prior, spd_say) (rw speak sends)

-- A connected client in command mode and outside of blocks says a text that has a byte and no NUL, with
-- a priority other than `progress`, and `g_utf8_validate` accepts what it sends. `spd_say` then returns
-- the next number of a message. The client has that priority from then on, and no other setting of any
-- client has changed; the new message holds the same bytes as the text, and stands in its queue as
-- `Placed` says. Nothing is left in the connection.
pub spd_say-Placed :
    (env : Environment) (n : ℕ) (p : Priority) (t : Bytes) (uid : ℕ) (client : Settings)
    (s : Server)
    → LowersAscii env.strdown
    → (s.sockets (suc n)).awaiting_data ≡ false
    → (s.sockets (suc n)).inside_block ≡ 0
    → get_client_uid_by_fd s (pos (suc n)) ≡ suc uid
    → s.fd_settings (suc uid) ≡ some client
    → p ≢ progress
    → clean t ≡ true
    → t ≢ []
    → env.valid (escape_text t ++ end_of_line) (length (escape_text t)) ≡ true
    → (u : Server) × (spd_say env (suc n) p t (idle s) ≡ some (pos (suc s.last_message_id), idle u))
      × ((u.messages s.allocated).buf ≡ some t)
      × (u.fd_settings ≡ update s.fd_settings (suc uid) (some (record client { priority = p })))
      × Placed s.allocated
          (record client { priority = p })
          text_type
          (s.sockets (suc n)).inside_block
          (with_text
            (suc n)
            (s.sockets (suc n))
            t
            (length (escape_text t))
            env.garbage
            (put_settings (suc uid) (record client { priority = p }) s))
          u
unfolding put_settings parse_speak put_sock escape_dot
spd_say-Placed env n p t uid client s lowers ready outside known there urgent plain nonempty fine =
    let fd = suc n in
    let client' = record client { priority = p } in
    let s' = put_settings (suc uid) client' s in
    let escaped = escape_text t in
    let fuel = length (spd_say_sending escaped) in
    let (u, run, buf, placed) =
      serve_until_reply-spd_say_sending env.pipe_ok env.valid env.garbage n fuel t escaped []
        client' s' plain nonempty refl fine (settings_of n p uid client s known) urgent
        (omega arith) in
    let waits : ((parse_speak fd s').sockets fd).awaiting_data ≡ true =
      ap (λ (k : Sock). k.awaiting_data) (update_self s.sockets fd _) in
    let prior : spd_set_priority env fd p (idle s) ≡ some (pos 0, idle s') =
      set_priority_outside env fd s lowers ready p outside
      ∙ ap returned (set_priority_self_lem n p uid client s known there) in
    (
      u,
      steps env fd p t s s' u (suc s.last_message_id) prior (speak_lem env fd s' lowers ready)
          (say_sending_lem env fd escaped (parse_speak fd s') u (suc s.last_message_id) waits run),
      buf,
      placed.clients,
      placed,
    )
