-- ===== src/Types.antt =====
-- The data of the server: include/opentts/opentts_types.h, include/def.h, src/server/fdset.h and
-- src/server/openttsd.h. A `char *` is `Option Bytes`, `none` for NULL; texts are lists of bytes.
use opentts.Prelude.{ℕ, Option, List, Bool}
use opentts.Prelude.Int.{ℤ}

abbrev pub Bytes : Type 0
Bytes = List ℕ

-- SPDPriority. The value -1, SPD_PRIORITY_ERR, is refused by the parser and never stored.
pub data Priority : Type 0 where
  important message text notification progress : Priority

-- SPDMessageType; 99, SPD_MSGTYPE_SPELL, is given to no message.
pub data MessageType : Type 0 where
  text_type sound_icon_type char_type key_type : MessageType

pub data DataMode : Type 0 where
  data_text data_ssml : DataMode

pub data Punctuation : Type 0 where
  punct_all punct_none punct_some : Punctuation

pub data CapitalLetters : Type 0 where
  cap_none cap_spell cap_icon : CapitalLetters

pub data Spelling : Type 0 where
  spell_off spell_on : Spelling

pub data VoiceType : Type 0 where
  no_voice male1 male2 male3 female1 female2 female3 child_male child_female : VoiceType

-- TFDSetElement with its OTTS_MsgSettings. Not here: the audio options, the log level,
-- `min_delay_progress`, `hist_sorted` and `voice.variant`, which the modelled code never reads.
pub record Settings : Type 0 where
  pub uid : ℕ
  pub fd : ℤ
  pub active : Bool
  pub paused : ℕ
  pub paused_while_speaking : Bool
  pub type : MessageType
  pub ssml_mode : DataMode
  pub priority : Priority
  pub rate : ℤ
  pub pitch : ℤ
  pub volume : ℤ
  pub punctuation_mode : Punctuation
  pub spelling_mode : Spelling
  pub cap_let_recogn : CapitalLetters
  pub voice_type : VoiceType
  pub voice_name : Option Bytes
  pub language : Option Bytes
  pub client_name : Option Bytes
  pub output_module : Option Bytes
  pub notification : ℕ
  pub reparted : ℕ
  pub pause_context : ℤ
  pub index_mark : Option Bytes
  pub hist_cur_uid : ℕ
  pub hist_cur_pos : ℤ

-- openttsd_message, less the time of arrival, which nothing reads.
pub record Message : Type 0 where
  pub id : ℕ
  pub buf : Option Bytes
  pub bytes : ℤ
  pub settings : Settings

-- queue_t. A queue holds the addresses of its messages, the next to be said first.
pub record Queues : Type 0 where
  pub p1 : List ℕ
  pub p2 : List ℕ
  pub p3 : List ℕ
  pub p4 : List ℕ
  pub p5 : List ℕ

-- sock_t.
pub record Sock : Type 0 where
  pub awaiting_data : Bool
  pub inside_block : ℕ
  pub o_bytes : ℕ
  pub o_buf : Option Bytes

-- What the server tells a client about a message (REPORT_STATE).
pub data Report : Type 0 where
  begin end pause resume cancel : Report
  mark : Bytes → Report

-- What the server sends to an output module while a message is said.
pub data Command : Type 0 where
  stop_command pause_command : Command

-- The outside world sees commands to a module, and events to the client of a message.
pub data Event : Type 0 where
  command : ℕ → Command → Event
  report : Report → ℤ → ℕ → ℕ → Event

-- The globals of openttsd.h and speaking.h and the statics of speaking.c. `messages` is the store
-- that the addresses point into; `freed` lists the addresses given to `mem_free_message`, the last
-- first, and `allocated` bounds the addresses in use. `posts` counts `speaking_semaphore_post`.
-- `events` is what went out, the last first. `debug` is `options.debug`.
pub record Server : Type 0 where
  pub max_uid : ℕ
  pub max_gid : ℕ
  pub max_fd : ℕ
  pub num_fds : ℕ
  pub fd_settings : ℕ → Option Settings
  pub fd_uid : ℕ → Option ℕ
  pub sockets : ℕ → Sock
  pub queues : Queues
  pub paused_list : List ℕ
  pub last_p5_block : List ℕ
  pub messages : ℕ → Message
  pub allocated : ℕ
  pub freed : List ℕ
  pub last_message_id : ℕ
  pub current_message : Option ℕ
  pub current_priority : Priority
  pub speaking : Bool
  pub speaking_module : Option ℕ
  pub working : ℕ → Bool
  pub speaking_uid : ℕ
  pub speaking_gid : ℕ
  pub pause_requested : ℕ
  pub pause_requested_fd : ℕ
  pub pause_requested_uid : ℕ
  pub resume_requested : Bool
  pub posts : ℕ
  pub events : List Event
  pub debug : Bool
