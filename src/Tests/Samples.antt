-- ===== src/Tests/Samples.antt =====
-- A server with two clients: client 1 is connected on descriptor 5 and speaks, client 2 is
-- connected on descriptor 6 and paused.
use opentts.Prelude.{ℕ, Bool, true, false, List, [], ◌∷◌, none, some, ◌==◌, if◌then◌else◌}
use opentts.Prelude.Int.{ℤ, pos}
use opentts.Types.{
  Priority, text, progress, text_type, data_text, punct_none, cap_none, spell_off, male1, Settings,
  Message, Sock, Event, Server,
}

abbrev pub settings_of : ℕ → ℤ → ℕ → Priority → ℕ → Settings
settings_of uid fd paused prio reparted = record {
  uid = uid;
  fd = fd;
  active = true;
  paused = paused;
  paused_while_speaking = false;
  type = text_type;
  ssml_mode = data_text;
  priority = prio;
  rate = pos 0;
  pitch = pos 0;
  volume = pos 0;
  punctuation_mode = punct_none;
  spelling_mode = spell_off;
  cap_let_recogn = cap_none;
  voice_type = male1;
  voice_name = none;
  language = none;
  client_name = none;
  output_module = none;
  notification = 8;
  reparted = reparted;
  pause_context = pos 0;
  index_mark = none;
  hist_cur_uid = 0;
  hist_cur_pos = pos 0;
}

abbrev pub first_client : Settings
first_client = settings_of 1 (pos 5) 0 text 0

abbrev pub second_client : Settings
second_client = settings_of 2 (pos 6) 1 progress 0

abbrev pub message_of : ℕ → ℕ → ℤ → ℕ → Message
message_of id uid fd reparted = record {
  id = id;
  buf = some (b'h' ∷ b'i' ∷ []);
  bytes = pos 2;
  settings = settings_of uid fd 0 text reparted;
}

-- Messages 1 and 2 are of block 7 of client 1, message 3 of client 2, the rest of client 1.
abbrev pub store : ℕ → Message
store p =
    if p == 1
    then message_of 1 1 (pos 5) 7
    else if p == 2
    then message_of 2 1 (pos 5) 7
    else if p == 3
    then message_of 3 2 (pos 6) 0
    else message_of p 1 (pos 5) 0

abbrev pub idle_sock : Sock
idle_sock = record { awaiting_data = false; inside_block = 0; o_bytes = 0; o_buf = none }

abbrev pub demo : Server
demo = record {
  max_uid = 2;
  max_gid = 7;
  max_fd = 6;
  num_fds = 20;
  fd_settings =
      λ uid. if uid == 1 then some first_client else if uid == 2 then some second_client else none;
  fd_uid = λ fd. if fd == 5 then some 1 else if fd == 6 then some 2 else none;
  sockets = λ _. idle_sock;
  queues = record { p1 = []; p2 = 3 ∷ []; p3 = 5 ∷ 1 ∷ 2 ∷ []; p4 = 4 ∷ 6 ∷ []; p5 = [] };
  paused_list = [];
  last_p5_block = [];
  messages = store;
  allocated = 10;
  freed = [];
  last_message_id = 9;
  current_message = some 0;
  current_priority = text;
  speaking = true;
  speaking_module = some 0;
  working = λ _. true;
  speaking_uid = 1;
  speaking_gid = 7;
  pause_requested = 0;
  pause_requested_fd = 0;
  pause_requested_uid = 0;
  resume_requested = false;
  posts = 0;
  events = [];
  debug = false;
}

-- A pipe that always takes what is written.
abbrev pub open_pipe : List Event → Bool
open_pipe _ = true
