-- ===== src/Session.antt =====
-- A client and the server on one connection: src/api/c/libopentts.c, `serve` of src/server/server.c and
-- `parse`. The library of the client is not in the mode SPD_MODE_THREADED: it waits for each
-- reply.
pub mod Exchange
pub mod Words
pub mod Lines
pub mod Values
pub mod Set
pub mod Flow
pub mod Sending
pub mod Say
pub mod Events
use opentts.Prelude.{
  ℕ, zero, suc, Bool, true, false, List, [], ◌∷◌, ◌++◌, Option, none, some, length, codes, ltb,
  if◌then◌else◌,
}
use opentts.Prelude.Int.{ℤ, pos, negsuc, ltb_ℤ}
use opentts.Types.{Bytes, Priority, DataMode, Server}
use opentts.DataMode.{read_line}
use opentts.Protocol.Parse.{Environment, Response, sent_text, parse}
use opentts.Api.{command_line, escape_dot, spd_say_sending}
use opentts.Api.Replies.{get_reply, ret_ok, get_param_int}
use opentts.Api.Commands.{
  Setting, Target, Addressee, Control, EventCall, control_command, setting_command, who_text,
  data_mode_command, priority_command, event_command,
}

-- What the client has sent and the server has not read, what the server has sent and the client has
-- not read, and the server.
pub record Link : Type 0 where
  pub pending : Bytes
  pub stream : Bytes
  pub server : Server

abbrev pub idle : Server → Link
idle s = record { pending = []; stream = []; server = s }

-- What the client returns for the value of `ret_ok`.
abbrev pub code_of_ok : Bool → ℤ
code_of_ok true = pos 0
code_of_ok false = negsuc 0

module _ (env : Environment) (fd : ℕ) where
  -- The server serves the connection until it has sent something. `none`: the process has ended, or
  -- nothing more is sent. Each round takes a line of what is pending.
  unfoldable pub serve_rounds : ℕ → Link → Option Link
  unfolding read_line parse sent_text
  serve_rounds zero link = none
  serve_rounds (suc fuel) link = elim (read_line 0 link.pending) [
    | none ↦ none
    | some (line, rest) ↦ elim (parse env line (length line) fd link.server) [
      | none ↦ none
      | some (response, s1) ↦ elim (sent_text response) [
        | [] ↦ serve_rounds fuel (record link { pending = rest; server = s1 })
        | c ∷ cs ↦ some (record { pending = rest; stream = link.stream ++ c ∷ cs; server = s1 })
      ]
    ]
  ]

  -- The client writes `text` and waits for a reply. `none`: it waits for ever, or a process ends.
  unfoldable pub send_with_reply : Bytes → Link → Option (Bytes × Link)
  unfolding serve_rounds get_reply
  send_with_reply text link =
      elim (serve_rounds (length (link.pending ++ text))
        (record link { pending = link.pending ++ text })) [
          | none ↦ none
          | some link1 ↦ elim (get_reply link1.stream) [
            | none ↦ none
            | some (reply, rest) ↦ some (reply, record link1 { stream = rest })
          ]
        ]

  -- `spd_execute_command_with_reply`.
  unfoldable pub spd_execute_command_with_reply : Bytes → Link → Option (ℤ × Bytes × Link)
  unfolding send_with_reply ret_ok
  spd_execute_command_with_reply command link = elim (send_with_reply (command_line command) link) [
    | none ↦ none
    | some (reply, link1) ↦ elim (ret_ok reply) [
      | none ↦ none
      | some r ↦ some (code_of_ok r, reply, link1)
    ]
  ]

  -- `spd_execute_command`, which has the lock around it.
  unfoldable pub spd_execute_command : Bytes → Link → Option (ℤ × Link)
  unfolding spd_execute_command_with_reply
  spd_execute_command command link = elim (spd_execute_command_with_reply command link) [
    | none ↦ none
    | some (ret, reply, link1) ↦ some (ret, link1)
  ]

  -- `spd_stop` and its like. `none` is here also that the command overruns its buffer.
  unfoldable pub spd_control : Control → Target → Link → Option (ℤ × Link)
  unfolding spd_execute_command control_command
  spd_control c who link = elim (control_command c who) [
    | none ↦ none
    | some command ↦ spd_execute_command command link
  ]

  -- `spd_w_set_...`.
  unfoldable pub spd_w_set : Setting → Bytes → Link → Option (ℤ × Link)
  unfolding spd_execute_command setting_command
  spd_w_set p who link = elim (setting_command p who) [
    | none ↦ some (negsuc 0, link)
    | some command ↦ spd_execute_command command link
  ]

  -- `spd_set_...`, `spd_set_..._all` and `spd_set_..._uid`. `none` is here also that the number overruns
  -- its buffer.
  unfoldable pub spd_set : Setting → Addressee → Link → Option (ℤ × Link)
  unfolding spd_w_set who_text
  spd_set p addressee link = elim (who_text addressee) [
    | none ↦ none
    | some who ↦ spd_w_set p who link
  ]

  unfoldable pub spd_set_data_mode : DataMode → Link → Option (ℤ × Link)
  unfolding spd_execute_command data_mode_command
  spd_set_data_mode mode link = spd_execute_command (data_mode_command mode) link

  unfoldable pub spd_set_priority : Priority → Link → Option (ℤ × Link)
  unfolding spd_execute_command priority_command
  spd_set_priority priority link = spd_execute_command (priority_command priority) link

  -- `spd_key` and its like.
  unfoldable pub spd_event : EventCall → Priority → Bytes → Link → Option (ℤ × Link)
  unfolding spd_execute_command spd_set_priority event_command
  spd_event call priority name link = elim (event_command call name) [
    | none ↦ some (negsuc 0, link)
    | some command ↦ elim (spd_set_priority priority link) [
      | none ↦ none
      | some (negsuc n, link1) ↦ some (negsuc 0, link1)
      | some (pos zero, link1) ↦ spd_execute_command command link1
      | some (pos (suc n), link1) ↦ some (negsuc 0, link1)
    ]
  ]

  -- The text is there for the server to read, and the line that ends it is sent for a reply.
  unfoldable pub say_sending : Bytes → Link → Option (ℤ × Link)
  unfolding spd_execute_command_with_reply get_param_int
  say_sending text link =
      elim (spd_execute_command_with_reply (b'\r' ∷ b'\n' ∷ b'.' ∷ [])
        (record link { pending = link.pending ++ text })) [
          | none ↦ none
          | some (negsuc n, reply, link1) ↦ some (negsuc 0, link1)
          | some (pos (suc n), reply, link1) ↦ some (negsuc 0, link1)
          | some (pos zero, reply, link1) ↦
              let (msg_id, err) = get_param_int reply 1 (pos 0) in
              some (if ltb_ℤ err (pos 0) then negsuc 0 else msg_id, link1)
        ]

  -- `spd_say` of a text that is not NULL.
  unfoldable pub spd_say : Priority → Bytes → Link → Option (ℤ × Link)
  unfolding spd_set_priority spd_execute_command say_sending escape_dot
  spd_say priority text link = elim (escape_dot (some text)) [
    | none ↦ some (negsuc 0, link)
    | some escaped_text ↦ elim (spd_set_priority priority link) [
      | none ↦ none
      | some (negsuc n, link1) ↦ some (negsuc 0, link1)
      | some (pos (suc n), link1) ↦ some (negsuc 0, link1)
      | some (pos zero, link1) ↦ elim (spd_execute_command (codes "speak") link1) [
        | none ↦ none
        | some (negsuc n, link2) ↦ some (negsuc 0, link2)
        | some (pos (suc n), link2) ↦ some (negsuc 0, link2)
        | some (pos zero, link2) ↦ say_sending escaped_text link2
      ]
    ]
  ]
