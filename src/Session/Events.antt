-- ===== src/Session/Events.antt =====
-- A key, a character or a sound on its way from the client's library, src/api/c/libopentts.c, to the
-- queues of the server.
use opentts.Prelude.{
  ℕ, suc, ◌≡◌, ◌≢◌, refl, ◌∙◌, ap, true, false, [], ◌∷◌, ◌++◌, some, length, map, codes, ◌==◌,
  arith,
}
use mathlib.Core.List.{append_assoc}
use opentts.Prelude.Int.{ℤ, pos}
use opentts.Types.{
  Bytes, Priority, progress, Message, MessageType, char_type, key_type, sound_icon_type, Settings,
  Server,
}
use opentts.Clients.{update, get_client_uid_by_fd, get_client_settings_by_fd, put_settings}
use opentts.Messages.{reply_text, ok_message_queued}
use opentts.QueueMessage.{queue_message, has_text, store_message}
use opentts.QueueMessage.Placed.{Placed, queue_message-Placed, update_self}
use opentts.Protocol.{get_param}
use opentts.Protocol.Words.{Word, line}
use opentts.Protocol.Events.{
  new_event, queue_event, check_event, parse_general_event, parse_snd_icon, parse_char, parse_key,
}
use opentts.Protocol.Parse.{Environment, sends, parse, parse_command}
use opentts.Api.{command_line}
use opentts.Api.Replies.{ret_ok, get_err_code}
use opentts.Api.Commands.{EventCall, spd_key, spd_char, spd_sound_icon, event_command}
use opentts.Session.{idle, spd_set_priority, spd_execute_command, spd_event}
use opentts.Session.Exchange.{quiet-append, exchange}
use opentts.Session.Words.{small, LowersAscii, QuietWord, param_down, param_as_is}
use opentts.Session.Lines.{returned}
use opentts.Session.Values.{known-QuietWord}
use opentts.Session.Say.{set_priority_outside, set_priority_self_lem, settings_of}

abbrev pub type_of : EventCall → MessageType
type_of spd_key = key_type
type_of spd_char = char_type
type_of spd_sound_icon = sound_icon_type

abbrev event_name : EventCall → Bytes
event_name spd_key = codes "KEY"
event_name spd_char = codes "CHAR"
event_name spd_sound_icon = codes "SOUND_ICON"

event_name-QuietWord : (call : EventCall) → QuietWord (event_name call)
event_name-QuietWord spd_key = known-QuietWord _ _ _ refl refl
event_name-QuietWord spd_char = known-QuietWord _ _ _ refl refl
event_name-QuietWord spd_sound_icon = known-QuietWord _ _ _ refl refl

-- What the client writes, if it writes something.
event_line : EventCall → Bytes → Bytes
event_line call name = event_name call ++ b' ' ∷ name

event_command-line :
    (call : EventCall) (name command : Bytes)
    → event_command call name ≡ some command
    → command ≡ event_line call name
unfolding event_command event_line
event_command-line spd_key name command e = cc e
event_command-line spd_char name command e = ground (arith, e)
event_command-line spd_sound_icon name command e = cc e

module _ (env : Environment) (fd : ℕ) (s : Server) (buf name : Bytes) (word : Word name)
    (ready : (s.sockets fd).awaiting_data ≡ false) (long : (length buf == 0) ≡ false)
    (param : get_param env.strdown buf 1 false ≡ some name)
    (fine : env.valid buf (length buf) ≡ true) where
  check_event_lem :
      (type : MessageType) (c : ℕ) (cs : Bytes)
      → name ≡ c ∷ cs
      → check_event env.strdown env.pipe_ok env.valid env.garbage buf name fd type s
        ≡ queue_event env.strdown env.pipe_ok env.valid env.garbage name fd type s
  unfolding check_event
  check_event_lem type c cs e = rw e (rw fine refl)

  general_event_lem :
      (type : MessageType)
      → parse_general_event env.strdown env.pipe_ok env.valid env.garbage buf fd type s
        ≡ queue_event env.strdown env.pipe_ok env.valid env.garbage name fd type s
  unfolding parse_general_event
  general_event_lem type =
      let (_, c, cs, e) = word in rw (param, parse_general_event) (check_event_lem type c cs e)

  parse-event :
      (call : EventCall)
      → get_param env.strdown buf 0 true ≡ some (map small (event_name call))
      → parse env buf (length buf) fd s
        ≡ sends (queue_event env.strdown env.pipe_ok env.valid env.garbage name fd (type_of call) s)
  unfolding parse parse_command parse_snd_icon parse_char parse_key
  parse-event spd_key command =
      rw (long, parse) (rw ready (rw command (ap sends (general_event_lem key_type))))
  parse-event spd_char command =
      rw (long, parse) (rw ready (rw command (ap sends (general_event_lem char_type))))
  parse-event spd_sound_icon command =
      rw (long, parse) (rw ready (rw command (ap sends (general_event_lem sound_icon_type))))

line-long :
    (call : EventCall) (name : Bytes) → (length (command_line (event_line call name)) == 0) ≡ false
unfolding event_line
line-long spd_key name = ground arith
line-long spd_char name = ground arith
line-long spd_sound_icon name = ground arith

Word-has_text : (name : Bytes) → Word name → has_text (some name) ≡ true
Word-has_text [] (h, c, cs, e) = absurd (cc e)
Word-has_text (d ∷ ds) (h, c, cs, e) = ground (arith, h)

queue_event_lem :
    (env : Environment) (fd : ℕ) (name : Bytes) (type : MessageType) (s u : Server) (id : ℤ)
    → queue_message env.pipe_ok
        (some s.allocated)
        (pos fd)
        type
        (s.sockets fd).inside_block
        (new_event env.garbage name s)
      ≡ some (id, u)
    → queue_event env.strdown env.pipe_ok env.valid env.garbage name fd type s
      ≡ some (ok_message_queued, u)
unfolding queue_event
queue_event_lem env fd name type s u id accepted = rw (accepted, queue_event) refl

-- The command of a key, a character or a sound, given to the server.
event_lem :
    (env : Environment) (n : ℕ) (call : EventCall) (name : Bytes) (client : Settings) (s : Server)
    → LowersAscii env.strdown
    → (s.sockets (suc n)).awaiting_data ≡ false
    → get_client_settings_by_fd s (pos (suc n)) ≡ some client
    → client.priority ≢ progress
    → QuietWord name
    → env.valid (command_line (event_line call name)) (length (command_line (event_line call name)))
      ≡ true
    → (u : Server) × (spd_execute_command env (suc n) (event_line call name) (idle s)
        ≡ some (pos 0, idle u))
      × Placed s.allocated client
          (type_of call)
          (s.sockets (suc n)).inside_block
          (new_event env.garbage name s)
          u
unfolding event_line queue_event new_event store_message reply_text ret_ok get_err_code
    get_client_settings_by_fd
event_lem env n call name client s lowers ready connected waits (word, quiet_name) fine =
    let fd = suc n in
    let command = event_line call name in
    let (own, own_quiet) = event_name-QuietWord call in
    let ws = name ∷ [] in
    let shape : command_line command ≡ line (event_name call) ws =
      append_assoc (event_name call) (b' ' ∷ name) (b'\r' ∷ b'\n' ∷ []) in
    let first : get_param env.strdown (command_line command) 0 true
        ≡ some (map small (event_name call)) =
      rw shape (
        param_down env.strdown lowers 0 (event_name call) (event_name call) ws own (word, tt)
          refl) in
    let second : get_param env.strdown (command_line command) 1 false ≡ some name =
      rw shape (param_as_is env.strdown lowers 1 (event_name call) name ws own (word, tt) refl) in
    let parsed =
      parse-event env fd s (command_line command) name word ready (line-long call name) second fine
        call first in
    let s0 = new_event env.garbage name s in
    let stored : (s0.messages s.allocated).buf ≡ some name =
      ap (λ (m : Message). m.buf) (update_self s.messages s.allocated _) in
    let filled : has_text (s0.messages s.allocated).buf ≡ true =
      rw stored (Word-has_text name word) in
    let (u, accepted, placed) =
      queue_message-Placed env.pipe_ok s.allocated n (type_of call) (s.sockets fd).inside_block s0
        client filled connected waits in
    (
      u,
      exchange env fd command ok_message_queued s u
          (quiet-append (event_name call) (b' ' ∷ name) own_quiet quiet_name)
          (parsed ∙ ap sends (queue_event_lem env fd name (type_of call) s u _ accepted)) tt true
          refl,
      placed,
    )

-- The steps of `spd_key` and its like.
event_steps :
    (env : Environment) (fd : ℕ) (call : EventCall) (p : Priority) (name : Bytes) (s s' u : Server)
    → event_command call name ≡ some (event_line call name)
    → spd_set_priority env fd p (idle s) ≡ some (pos 0, idle s')
    → spd_execute_command env fd (event_line call name) (idle s') ≡ some (pos 0, idle u)
    → spd_event env fd call p name (idle s) ≡ some (pos 0, idle u)
unfolding spd_event
event_steps env fd call p name s s' u written prior sends = rw (written, spd_event) (rw prior sends)

-- A connected client in command mode and outside of blocks calls `spd_key`, `spd_char` or
-- `spd_sound_icon` with a name of one word, of at most six bytes for `spd_char`, and a priority other
-- than `progress`; `g_utf8_validate` accepts the line. The call returns 0. The client has that priority
-- from then on, and no other setting of any client has changed; a message of the type of the call with
-- that name stands in its queue as `Placed` says.
pub spd_event-Placed :
    (env : Environment) (n : ℕ) (call : EventCall) (p : Priority) (name command : Bytes) (uid : ℕ)
    (client : Settings) (s : Server)
    → LowersAscii env.strdown
    → (s.sockets (suc n)).awaiting_data ≡ false
    → (s.sockets (suc n)).inside_block ≡ 0
    → get_client_uid_by_fd s (pos (suc n)) ≡ suc uid
    → s.fd_settings (suc uid) ≡ some client
    → p ≢ progress
    → QuietWord name
    → event_command call name ≡ some command
    → env.valid (command_line command) (length (command_line command)) ≡ true
    → (u : Server) × (spd_event env (suc n) call p name (idle s) ≡ some (pos 0, idle u))
      × (u.fd_settings ≡ update s.fd_settings (suc uid) (some (record client { priority = p })))
      × Placed s.allocated
          (record client { priority = p })
          (type_of call)
          (s.sockets (suc n)).inside_block
          (new_event env.garbage name (put_settings (suc uid) (record client { priority = p }) s))
          u
unfolding put_settings
spd_event-Placed env n call p name command uid client s lowers ready outside known there urgent word
      written fine =
    let client' = record client { priority = p } in
    let s' = put_settings (suc uid) client' s in
    let same = event_command-line call name command written in
    let prior : spd_set_priority env (suc n) p (idle s) ≡ some (pos 0, idle s') =
      set_priority_outside env (suc n) s lowers ready p outside
      ∙ ap returned (set_priority_self_lem n p uid client s known there) in
    let accepts : env.valid (command_line (event_line call name))
          (length (command_line (event_line call name)))
        ≡ true =
      rw (← same) fine in
    let (u, run, placed) =
      event_lem env n call name client' s' lowers ready (settings_of n p uid client s known) urgent
        word accepts in
    (
      u,
      event_steps env (suc n) call p name s s' u (written ∙ ap some same) prior run,
      unfold new_event store_message in placed.clients,
      placed,
    )
