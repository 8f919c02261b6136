-- ===== src/Tests/Session.antt =====
-- Calls of the client's library, through to the state of the server.
use opentts.Prelude.{
  ◌+◌, ◌≤◌, ◌≡◌, refl, true, false, [], ◌++◌, Option, none, some, length, map, codes, arith,
}
use opentts.Prelude.Int.{ℤ, pos, negsuc}
use opentts.Types.{Server, data_text, data_ssml, important, text, text_type, key_type}
use opentts.Clients.{update, get_client_uid_by_fd, put_settings}
use opentts.Messages.{decimal_ℤ, reply_text, ok_paused, ok_get}
use opentts.Settings.{Parameter, set_rate_uid}
use opentts.QueueMessage.{queue_message}
use opentts.DataMode.{
  keep_data, collect, real_bytes, finish_data, queue_valid, queue_data, server_data_off,
  leave_data_mode, deescape_dot,
}
use opentts.DataMode.Received.{with_text}
use opentts.QueueMessage.Placed.{Placed}
use opentts.Protocol.Parse.{Environment}
use opentts.Protocol.Set.{self, set_for}
use opentts.Protocol.Events.{new_event}
use opentts.Api.{escape_text}
use opentts.Api.Replies.{get_reply}
use opentts.Api.Replies.Framed.{joined, get_reply-reply_text, get_reply-ok_get}
use opentts.Api.Commands.{
  for_uid, to_self, to_uid, target_of, who_text, data_mode_command, data_mode_buffer, spd_cancel,
  spd_key, spd_char, voice_rate, setting_value, event_command, control_command, setting_command,
}
use opentts.Api.Commands.Buffers.{setting_command-fits}
use opentts.Session.{Link, idle, spd_set, spd_set_data_mode, spd_control, spd_say, spd_event}
use opentts.Session.Words.{small, who_for}
use opentts.Session.Lines.{returned}
use opentts.Session.Set.{param_for, spd_set-set_for, spd_set_data_mode-set_for}
use opentts.Session.Flow.{carried, done, spd_control-carried}
use opentts.Session.Say.{spd_say-in_block, spd_say-Placed}
use opentts.Session.Events.{spd_event-Placed}
use opentts.Tests.Samples.{demo, idle_sock, first_client, open_pipe, store}

abbrev env : Environment
env = record {
  strdown = map small;
  valid = λ b n. true;
  fnmatch = λ p n. false;
  default_module = λ l. none;
  specific = [];
  debug_destination = codes "/tmp";
  id_address = pos 0;
  module_names = [];
  output_list_voices = λ m. none;
  pipe_ok = open_pipe;
  garbage = store 1;
}

-- What the calls return on the sample, by evaluation.
abbrev ret_of : Option (ℤ × Link) → Option ℤ
ret_of none = none
ret_of (some (r, l)) = some r

rate_returns : ret_of (spd_set env 5 (voice_rate (negsuc 19)) to_self (idle demo)) ≡ some (pos 0)
unfolding spd_set set_rate_uid
rate_returns = refl

hello_returns : ret_of (spd_say env 5 text (codes ".hello") (idle demo)) ≡ some (pos 10)
unfolding spd_say keep_data collect real_bytes finish_data queue_valid queue_data server_data_off
    leave_data_mode queue_message deescape_dot
hello_returns = refl

spd_set-set_for_example :
    spd_set env 5 (voice_rate (negsuc 19)) (to_uid 2) (idle demo)
    ≡ returned (
        set_for env.default_module
          (who_for (target_of (to_uid 2)))
          (param_for (voice_rate (negsuc 19)))
          5
          demo)
unfolding setting_value who_text decimal_ℤ
spd_set-set_for_example =
    spd_set-set_for env 5 (voice_rate (negsuc 19)) (to_uid 2) (codes "2") (codes "-20") demo
      (λ w. refl) refl refl tt refl refl

-- A number whose sign is set is taken for a negative one, and eight digits are too many.
last_uid : who_text (to_uid 4294967295) ≡ some (codes "-1")
unfolding who_text decimal_ℤ
last_uid = refl

long_uid : spd_set env 5 (voice_rate (pos 0)) (to_uid 12345678) (idle demo) ≡ none
unfolding spd_set who_text decimal_ℤ
long_uid = refl

spd_set_data_mode-set_for_example :
    spd_set_data_mode env 5 data_ssml (idle demo)
    ≡ returned (set_for env.default_module self (Parameter.ssml_mode data_ssml) 5 demo)
spd_set_data_mode-set_for_example = spd_set_data_mode-set_for env 5 data_ssml demo (λ w. refl) refl

spd_control-carried_example :
    spd_control env 5 spd_cancel (for_uid (pos 2)) (idle demo)
    ≡ done (carried env.pipe_ok spd_cancel (for_uid (pos 2)) 5 demo)
unfolding control_command decimal_ℤ
spd_control-carried_example =
    spd_control-carried env 5 spd_cancel (for_uid (pos 2)) (codes "CANCEL 2") demo (λ w. refl) refl
      refl refl

get_reply-reply_text_example :
    get_reply (reply_text ok_paused ++ codes "7") ≡ some (reply_text ok_paused, codes "7")
get_reply-reply_text_example = get_reply-reply_text ok_paused (codes "7") tt

get_reply-ok_get_example :
    get_reply (reply_text (ok_get (codes "MALE1")) ++ [])
    ≡ joined (reply_text (ok_get (codes "MALE1"))) (get_reply [])
get_reply-ok_get_example = get_reply-ok_get (codes "MALE1") [] refl

-- Client 1 is inside of block 8.
abbrev in_block : Server
in_block = record demo { sockets = λ fd. record idle_sock { inside_block = 8 } }

spd_say-in_block_example :
    (spd_say env 5 text (codes "hi") (idle in_block) ≡ some (negsuc 0, idle in_block))
    × (spd_event env 5 spd_char text (codes "hi") (idle in_block) ≡ some (negsuc 0, idle in_block))
spd_say-in_block_example =
    spd_say-in_block env 5 in_block (λ w. refl) refl text 7 (codes "hi") spd_char refl

spd_say-Placed_example :
    (u : Server) × (spd_say env 5 important (codes ".hi") (idle demo) ≡ some (pos 10, idle u))
    × ((u.messages 10).buf ≡ some (codes ".hi"))
    × (u.fd_settings
        ≡ update demo.fd_settings 1 (some (record first_client { priority = important })))
    × Placed 10
        (record first_client { priority = important })
        text_type
        0
        (with_text 5
          (demo.sockets 5)
          (codes ".hi")
          (length (escape_text (codes ".hi")))
          (store 1)
          (put_settings 1 (record first_client { priority = important }) demo))
        u
unfolding get_client_uid_by_fd
spd_say-Placed_example =
    spd_say-Placed env 4 important (codes ".hi") 0 first_client demo (λ w. refl) refl refl refl refl
      (λ e. ground (arith, e)) refl (λ e. ground (arith, e)) refl

spd_event-Placed_example :
    (u : Server) × (spd_event env 5 spd_key important (codes "a") (idle demo)
      ≡ some (pos 0, idle u))
    × (u.fd_settings
        ≡ update demo.fd_settings 1 (some (record first_client { priority = important })))
    × Placed 10
        (record first_client { priority = important })
        key_type
        0
        (new_event
          (store 1)
          (codes "a")
          (put_settings 1 (record first_client { priority = important }) demo))
        u
unfolding get_client_uid_by_fd event_command
spd_event-Placed_example =
    spd_event-Placed env 4 spd_key important (codes "a") (codes "KEY a") 0 first_client demo
      (λ w. refl) refl refl refl refl (λ e. ground (arith, e)) ((refl, b'a', [], refl), refl) refl
      refl

setting_command-fits_example :
    (length (codes "SET SELF RATE 20") + 1 ≤ 64)
    × (length (data_mode_command data_text) + 1 ≤ data_mode_buffer)
unfolding setting_command decimal_ℤ
setting_command-fits_example =
    setting_command-fits (voice_rate (pos 20)) data_text (codes "SELF") (codes "SET SELF RATE 20")
      64 (omega arith) refl refl
