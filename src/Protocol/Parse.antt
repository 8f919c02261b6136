-- ===== src/Protocol/Parse.antt =====
-- `parse` of src/server/parse.c: a line that comes in is a command, or data of a text.
use opentts.Prelude.{ℕ, Bool, true, ◌||◌, List, [], Option, none, some, codes, ◌==◌, if◌then◌else◌}
use opentts.Prelude.Int.{ℤ, pos}
use opentts.Types.{Bytes, Message, Event, Server}
use opentts.Messages.{
  Answer, reply_text, ok_bye, ok_receive_data, ok_msg_canceled, message_queued, err_internal,
  err_invalid_command, err_invalid_encoding, err_not_allowed_inside_block,
}
use opentts.Settings.{same_text}
use opentts.Settings.Naming.{ClientSpecific}
use opentts.Connections.{connection_destroy}
use opentts.DataMode.{DataReply, parse_data, parse_speak}
use opentts.Protocol.{get_param, parse_stop, parse_cancel, parse_pause, parse_resume, parse_block}
use opentts.Protocol.Set.{Outcome, parse_set}
use opentts.Protocol.Events.{parse_snd_icon, parse_char, parse_key}
use opentts.Protocol.Lists.{Voice, parse_list, parse_get, parse_help}
use opentts.Protocol.Past.{parse_history}

-- What the parser uses of libraries, of the configuration, of the history and of the modules.
pub record Environment : Type 0 where
  pub strdown : Bytes → Bytes
  pub valid : Bytes → ℕ → Bool
  pub fnmatch : Bytes → Option Bytes → Bool
  pub default_module : Bytes → Option Bytes
  pub specific : List ClientSpecific
  pub debug_destination : Bytes
  pub id_address : ℤ
  pub module_names : List Bytes
  pub output_list_voices : Bytes → Option (List Voice)
  pub pipe_ok : List Event → Bool
  pub garbage : Message

-- What `parse` returns: a reply, "999 CLIENT GONE" or "999 DATA".
pub data Response : Type 0 where
  send : Answer → Response
  client_gone data_kept : Response

-- What the client gets: `serve` sends no reply that starts with a 9, and OK_BYE was written before.
unfoldable pub sent_text : Response → Bytes
unfolding reply_text
sent_text (send a) = reply_text a
sent_text client_gone = reply_text ok_bye
sent_text data_kept = []

abbrev pub sends : Outcome → Option (Response × Server)
sends none = none
sends (some (a, s)) = some (send a, s)

abbrev pub response_of : DataReply → Response
response_of (DataReply.queued id) = send (message_queued id)
response_of DataReply.ok_msg_canceled = send ok_msg_canceled
response_of DataReply.err_invalid_encoding = send err_invalid_encoding
response_of DataReply.err_internal = send err_internal
response_of DataReply.no_reply = data_kept

abbrev pub data_response : Option (DataReply × Server) → Option (Response × Server)
data_response none = none
data_response (some (r, s)) = some (response_of r, s)

-- CHECK_SSIP_COMMAND of a command with BLOCK_NO.
abbrev pub block_no : ℕ → Outcome → Server → Outcome
block_no fd rest s =
    if (s.sockets fd).inside_block == 0 then rest else some (err_not_allowed_inside_block, s)

module _ (env : Environment) where
  unfoldable pub parse_command : Bytes → Bytes → ℕ → Server → Option (Response × Server)
  unfolding parse_set parse_history parse_stop parse_cancel parse_pause parse_resume parse_snd_icon
      parse_char parse_key parse_list parse_get parse_help parse_block connection_destroy
      parse_speak
  parse_command command buf fd s =
      if same_text command (codes "set")
      then sends (
          parse_set env.strdown env.default_module env.fnmatch env.specific env.debug_destination
            buf fd s)
      else if same_text command (codes "history")
      then sends (block_no fd (parse_history env.strdown env.id_address buf fd s) s)
      else if same_text command (codes "stop")
      then sends (block_no fd (some (parse_stop env.strdown env.pipe_ok buf (pos fd) s)) s)
      else if same_text command (codes "cancel")
      then sends (block_no fd (some (parse_cancel env.strdown env.pipe_ok buf (pos fd) s)) s)
      else if same_text command (codes "pause")
      then sends (block_no fd (some (parse_pause env.strdown buf fd s)) s)
      else if same_text command (codes "resume")
      then sends (block_no fd (some (parse_resume env.strdown buf (pos fd) s)) s)
      else if same_text command (codes "sound_icon")
      then sends (parse_snd_icon env.strdown env.pipe_ok env.valid env.garbage buf fd s)
      else if same_text command (codes "char")
      then sends (parse_char env.strdown env.pipe_ok env.valid env.garbage buf fd s)
      else if same_text command (codes "key")
      then sends (parse_key env.strdown env.pipe_ok env.valid env.garbage buf fd s)
      else if same_text command (codes "list")
      then sends
          (block_no fd (parse_list env.strdown env.module_names env.output_list_voices buf fd s) s)
      else if same_text command (codes "get")
      then sends (block_no fd (parse_get env.strdown buf fd s) s)
      else if same_text command (codes "help")
      then sends (block_no fd (some (parse_help s)) s)
      else if same_text command (codes "block")
      then sends (some (parse_block env.strdown buf fd s))
      else if same_text command (codes "bye") || same_text command (codes "quit")
      then some (client_gone, (connection_destroy fd s).1)
      else if same_text command (codes "speak")
      then some (send ok_receive_data, parse_speak fd s)
      else some (send err_invalid_command, s)

  unfoldable pub parse : Bytes → ℕ → ℕ → Server → Option (Response × Server)
  unfolding get_param parse_command parse_data
  parse buf bytes fd s =
      if bytes == 0
      then some (send err_internal, s)
      else if (s.sockets fd).awaiting_data
      then data_response (parse_data env.pipe_ok env.valid env.garbage buf bytes fd s)
      else elim (get_param env.strdown buf 0 true) [
        | none ↦ some (send err_internal, s)
        | some command ↦ parse_command command buf fd s
      ]
