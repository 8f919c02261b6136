-- ===== src/Session/Flow.antt =====
-- What STOP, CANCEL, PAUSE and RESUME of the client's library do to the server: `spd_stop` and its like
-- of src/api/c/libopentts.c, through src/server/parse.c, to src/server/speaking.c.
use opentts.Prelude.{
  ℕ, zero, suc, ◌≡◌, refl, ◌∙◌, ap, inl, inr, Bool, true, false, List, [], ◌∷◌, Option, some,
  length, map, ◌==◌, arith, Bool-cases, if◌then◌else◌,
}
use mathlib.Core.List.{append_assoc}
use opentts.Prelude.Int.{ℤ, pos, negsuc}
use opentts.Types.{Bytes, Event, Server}
use opentts.Clients.{get_client_uid_by_fd}
use opentts.Messages.{
  Answer, reply_text, ok_stopped, ok_canceled, ok_paused, ok_resumed, decimal_ℤ, err_internal,
  err_id_not_exist,
}
use opentts.Messages.Decimal.{atoi-decimal}
use opentts.Speaking.Pause.{speaking_semaphore_post, speaking_resume, speaking_resume_all}
use opentts.Speaking.Stop.{speaking_stop, speaking_stop_all, speaking_cancel, speaking_cancel_all}
use opentts.Protocol.{
  get_param, isanum, atoi, for_whom, command_for_whom, parse_stop, parse_cancel, parse_pause,
  parse_resume,
}
use opentts.Protocol.Words.{Words, line}
use opentts.Protocol.Parse.{Environment, send, sends, parse, parse_command}
use opentts.Api.{command_line}
use opentts.Api.Replies.{ret_ok, get_err_code}
use opentts.Api.Replies.Framed.{Plain}
use opentts.Api.Commands.{
  Target, for_self, for_all, for_uid, target_text, Control, spd_stop, spd_cancel, spd_pause,
  spd_resume, control_name, control_text, control_buffer, control_command, written,
}
use opentts.Session.{Link, idle, spd_control, spd_execute_command}
use opentts.Session.Exchange.{quiet, quiet-append, exchange}
use opentts.Session.Words.{
  small, LowersAscii, QuietWord, decimal_ℤ-QuietWord, target_text-QuietWord, param_down,
}

-- What was written to a buffer is the text.
written-same : (size : ℕ) (w v : Bytes) → written size w ≡ some v → w ≡ v
written-same size w v e = ground (arith, e)

-- The operations of the server, for all clients and for one.
abbrev pub all_of : (List Event → Bool) → Control → ℕ → Server → Server
all_of pipe_ok spd_stop fd s = speaking_stop_all pipe_ok s
all_of pipe_ok spd_cancel fd s = speaking_cancel_all pipe_ok s
all_of pipe_ok spd_pause fd s =
    speaking_semaphore_post (record s { pause_requested = 1; pause_requested_fd = fd })
all_of pipe_ok spd_resume fd s = (speaking_resume_all s).1

abbrev pub one_of : (List Event → Bool) → Control → ℕ → ℕ → Server → Server
one_of pipe_ok spd_stop fd uid s = speaking_stop pipe_ok uid s
one_of pipe_ok spd_cancel fd uid s = speaking_cancel pipe_ok uid s
one_of pipe_ok spd_pause fd uid s =
    speaking_semaphore_post
      (record s { pause_requested = 2; pause_requested_fd = fd; pause_requested_uid = uid })
one_of pipe_ok spd_resume fd uid s = (speaking_resume uid s).1

abbrev ok_of : Control → Answer
ok_of spd_stop = ok_stopped
ok_of spd_cancel = ok_canceled
ok_of spd_pause = ok_paused
ok_of spd_resume = ok_resumed

-- What a call returns, and what it does: a client that is not there, or a number that no client can
-- have, is refused.
abbrev pub carried : (List Event → Bool) → Control → Target → ℕ → Server → ℤ × Server
carried pipe_ok c for_all fd s = (pos 0, all_of pipe_ok c fd s)
carried pipe_ok c for_self fd s =
    let uid = get_client_uid_by_fd s (pos fd) in
    if uid == 0 then (negsuc 0, s) else (pos 0, one_of pipe_ok c fd uid s)
carried pipe_ok c (for_uid (pos zero)) fd s = (negsuc 0, s)
carried pipe_ok c (for_uid (pos (suc n))) fd s = (pos 0, one_of pipe_ok c fd (suc n) s)
carried pipe_ok c (for_uid (negsuc n)) fd s = (negsuc 0, s)

abbrev pub done : ℤ × Server → Option (ℤ × Link)
done (ret, s) = some (ret, idle s)

name-QuietWord : (c : Control) → QuietWord (control_name c)
name-QuietWord spd_stop = ((refl, _, _, refl), refl)
name-QuietWord c = ((refl, _, _, refl), refl)

control-quiet : (c : Control) (who : Target) → quiet (control_text c who) ≡ true
unfolding control_text
control-quiet c who =
    quiet-append (control_name c) (b' ' ∷ target_text who) (name-QuietWord c).1
      (target_text-QuietWord who).1

control_line :
    (c : Control) (who : Target)
    → command_line (control_text c who) ≡ line (control_name c) (target_text who ∷ [])
unfolding control_text
control_line c who = append_assoc (control_name c) (b' ' ∷ target_text who) (b'\r' ∷ b'\n' ∷ [])

-- What the parser reads of the line.
record Reads (strdown : Bytes → Bytes) (c : Control) (who : Target) (buf : Bytes) : Type 0 where
  long : (length buf == 0) ≡ false
  command : get_param strdown buf 0 true ≡ some (map small (control_name c))
  target : get_param strdown buf 1 true ≡ some (map small (target_text who))

line-long : (c : Control) (t : Bytes) → (length (line (control_name c) (t ∷ [])) == 0) ≡ false
line-long spd_stop t = ground arith
line-long c t = ground arith

line-Reads :
    (strdown : Bytes → Bytes) (c : Control) (who : Target)
    → LowersAscii strdown
    → Reads strdown c who (command_line (control_text c who))
line-Reads strdown c who lowers =
    let name = (name-QuietWord c).0 in
    let words : Words (target_text who ∷ []) = ((target_text-QuietWord who).0, tt) in
    let ws = target_text who ∷ [] in
    let reads : Reads strdown c who (line (control_name c) ws) = record {
      long = line-long c (target_text who);
      command = param_down strdown lowers 0 (control_name c) (control_name c) ws name words refl;
      target = param_down strdown lowers 1 (control_name c) (target_text who) ws name words refl;
    } in
    rw (control_line c who) reads

-- A number: no client has one below 1.
abbrev by_number : (ℕ → Server → Server) → Answer → ℤ → Server → Answer × Server
by_number one ok (negsuc n) s = (err_id_not_exist, s)
by_number one ok (pos zero) s = (err_id_not_exist, s)
by_number one ok (pos (suc n)) s = (ok, one (suc n) s)

no_number : isanum [] ≡ true → ⊥
unfolding isanum
no_number h = cc h

no_name :
    (c : ℕ) (cs : Bytes) → isanum (c ∷ cs) ≡ true → ((c == b's') ≡ false) × ((c == b'a') ≡ false)
unfolding isanum
no_name c cs number = (ground (arith, number), ground (arith, number))

for_whom-number :
    (strdown : Bytes → Bytes) (all : Server → Server) (one : ℕ → Server → Server) (ok : Answer)
    (w : Bytes) (v : ℤ) (fd : ℤ) (s : Server)
    → isanum w ≡ true
    → atoi w ≡ v
    → for_whom strdown all one ok w fd s ≡ by_number one ok v s
unfolding for_whom
for_whom-number strdown all one ok [] v fd s number same = absurd (no_number number)
for_whom-number strdown all one ok (c ∷ cs) (negsuc n) fd s number same =
    let (not_self, not_all) = no_name c cs number in
    rw (not_self, for_whom) (rw not_all (rw number (rw same refl)))
for_whom-number strdown all one ok (c ∷ cs) (pos zero) fd s number same =
    let (not_self, not_all) = no_name c cs number in
    rw (not_self, for_whom) (rw not_all (rw number (rw same refl)))
for_whom-number strdown all one ok (c ∷ cs) (pos (suc n)) fd s number same =
    let (not_self, not_all) = no_name c cs number in
    rw (not_self, for_whom) (rw not_all (rw number (rw same refl)))

module _ (env : Environment) (fd : ℕ) (s : Server) (ready : (s.sockets fd).awaiting_data ≡ false)
    (open_block : (s.sockets fd).inside_block ≡ 0) where
  for_whom_read :
      (all : Server → Server) (one : ℕ → Server → Server) (ok : Answer) {c : Control} {who : Target}
      (buf : Bytes)
      → Reads env.strdown c who buf
      → command_for_whom env.strdown all one ok buf (pos fd) s
        ≡ for_whom env.strdown all one ok (map small (target_text who)) (pos fd) s
  unfolding command_for_whom
  for_whom_read all one ok buf r = rw (r.target, command_for_whom) refl

  parse-Reads :
      (c : Control) (who : Target) (buf : Bytes)
      → Reads env.strdown c who buf
      → parse env buf (length buf) fd s
        ≡ sends (
            some (
              for_whom env.strdown
                (all_of env.pipe_ok c fd)
                (one_of env.pipe_ok c fd)
                (ok_of c)
                (map small (target_text who))
                (pos fd)
                s))
  unfolding parse parse_command parse_stop parse_cancel parse_pause parse_resume command_for_whom
  parse-Reads spd_stop who buf r =
      rw (r.long, parse)
        (rw ready (
          rw r.command (
            rw open_block (
              ap (λ o. sends (some o))
                (for_whom_read (all_of env.pipe_ok spd_stop fd) (one_of env.pipe_ok spd_stop fd)
                  (ok_of spd_stop) buf r)))))
  parse-Reads spd_cancel who buf r =
      rw (r.long, parse)
        (rw ready (
          rw r.command (
            rw open_block (
              ap (λ o. sends (some o))
                (for_whom_read (all_of env.pipe_ok spd_cancel fd) (one_of env.pipe_ok spd_cancel fd)
                  (ok_of spd_cancel) buf r)))))
  parse-Reads spd_pause who buf r =
      rw (r.long, parse)
        (rw ready (
          rw r.command (
            rw open_block (
              ap (λ o. sends (some o))
                (for_whom_read (all_of env.pipe_ok spd_pause fd) (one_of env.pipe_ok spd_pause fd)
                  (ok_of spd_pause) buf r)))))
  parse-Reads spd_resume who buf r =
      rw (r.long, parse)
        (rw ready (
          rw r.command (
            rw open_block (
              ap (λ o. sends (some o))
                (for_whom_read (all_of env.pipe_ok spd_resume fd) (one_of env.pipe_ok spd_resume fd)
                  (ok_of spd_resume) buf r)))))

  -- Words that name nobody have their own replies.
  abbrev Told : Target → Control → Type 0
  Told who c =
      (command : Bytes)
      → quiet command ≡ true
      → parse env (command_line command) (length (command_line command)) fd s
        ≡ sends (
            some (
              for_whom env.strdown (all_of env.pipe_ok c fd) (one_of env.pipe_ok c fd) (ok_of c)
                (map small (target_text who)) (pos fd) s))
      → spd_execute_command env fd command (idle s) ≡ done (carried env.pipe_ok c who fd s)

  refused :
      (c : Control) (a : Answer) (command : Bytes)
      → quiet command ≡ true
      → parse env (command_line command) (length (command_line command)) fd s ≡ some (send a, s)
      → Plain a
      → ret_ok (reply_text a) ≡ some false
      → spd_execute_command env fd command (idle s) ≡ done (negsuc 0, s)
  refused c a command clean parsed plain no_good =
      exchange env fd command a s s clean parsed plain false no_good

  accepted :
      (c : Control) (s1 : Server) (command : Bytes)
      → quiet command ≡ true
      → parse env (command_line command) (length (command_line command)) fd s
        ≡ some (send (ok_of c), s1)
      → spd_execute_command env fd command (idle s) ≡ done (pos 0, s1)
  unfolding reply_text ret_ok get_err_code
  accepted spd_stop s1 command clean parsed =
      exchange env fd command ok_stopped s s1 clean parsed tt true refl
  accepted spd_cancel s1 command clean parsed =
      exchange env fd command ok_canceled s s1 clean parsed tt true refl
  accepted spd_pause s1 command clean parsed =
      exchange env fd command ok_paused s s1 clean parsed tt true refl
  accepted spd_resume s1 command clean parsed =
      exchange env fd command ok_resumed s s1 clean parsed tt true refl

  Told-carried : (who : Target) (c : Control) → Told who c
  unfolding for_whom reply_text ret_ok get_err_code
  Told-carried for_all c command clean parsed = accepted c _ command clean parsed
  Told-carried for_self c command clean parsed =
      elim (Bool-cases (get_client_uid_by_fd s (pos fd) == 0)) [
        | inl gone ↦
            rw gone
              (refused c err_internal command clean (parsed ∙ rw (gone, for_whom) refl) tt refl)
        | inr there ↦ rw there (accepted c _ command clean (parsed ∙ rw (there, for_whom) refl))
      ]
  Told-carried (for_uid v) c command clean parsed =
      by_uid v (parsed ∙ ap (λ o. sends (some o)) read)
    where
      one : ℕ → Server → Server
      one = one_of env.pipe_ok c fd

      read :
          for_whom env.strdown
            (all_of env.pipe_ok c fd)
            one
            (ok_of c)
            (map small (decimal_ℤ v))
            (pos fd)
            s
          ≡ by_number one (ok_of c) v s
      read =
          let (number, same) = atoi-decimal v in
          rw ((decimal_ℤ-QuietWord v).1) (
            for_whom-number env.strdown (all_of env.pipe_ok c fd) one (ok_of c) (decimal_ℤ v) v
              (pos fd) s number same)

      by_uid :
          (v : ℤ)
          → parse env (command_line command) (length (command_line command)) fd s
            ≡ sends (some (by_number one (ok_of c) v s))
          → spd_execute_command env fd command (idle s)
            ≡ done (carried env.pipe_ok c (for_uid v) fd s)
      by_uid (negsuc n) h = refused c err_id_not_exist command clean h tt refl
      by_uid (pos zero) h = refused c err_id_not_exist command clean h tt refl
      by_uid (pos (suc n)) h = accepted c (one (suc n) s) command clean h

-- A connected client in command mode and outside of blocks calls STOP, CANCEL, PAUSE or RESUME, for
-- itself, for all, or for a client by its number, and the command fits into its buffer. The call ends;
-- the server does what its operation for all or for that client does, and nothing else, and 0 is
-- returned. If the client itself is not known, or the number is below 1, the server stays as it is and
-- -1 is returned.
pub spd_control-carried :
    (env : Environment) (fd : ℕ) (c : Control) (who : Target) (command : Bytes) (s : Server)
    → LowersAscii env.strdown
    → (s.sockets fd).awaiting_data ≡ false
    → (s.sockets fd).inside_block ≡ 0
    → control_command c who ≡ some command
    → spd_control env fd c who (idle s) ≡ done (carried env.pipe_ok c who fd s)
unfolding spd_control
spd_control-carried env fd c who command s lowers ready open_block room =
    let sent = control_text c who in
    let same = written-same control_buffer sent command (unfold control_command in room) in
    rw (room, spd_control)
      (rw (← same) (
        Told-carried env fd s ready open_block who c sent (control-quiet c who) (
          parse-Reads env fd s ready open_block c who (command_line sent)
            (line-Reads env.strdown c who lowers))))
