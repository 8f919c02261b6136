-- ===== src/Api/Commands.antt =====
-- The commands that the functions of src/api/c/libopentts.c send: their text, without the end of the
-- line. `none`: the function returns -1 and sends nothing.
pub mod Buffers
use opentts.Prelude.{
  ℕ, ◌+◌, ◌-◌, ◌^◌, Bool, not, ◌&&◌, ◌∷◌, ◌++◌, Option, none, some, length, ltb, leb, codes,
  if◌then◌else◌,
}
use opentts.Prelude.Int.{ℤ, pos, negsuc, ltb_ℤ}
use opentts.Types.{
  Bytes, Priority, important, message, text, notification, progress, Punctuation, punct_all,
  punct_none, punct_some, CapitalLetters, cap_none, cap_spell, cap_icon, Spelling, spell_on,
  spell_off, DataMode, data_text, data_ssml, VoiceType, no_voice, male1, male2, male3, female1,
  female2, female3, child_male, child_female,
}
use opentts.Messages.{decimal_ℤ}

-- `sprintf` to a buffer of `size` bytes, with the NUL behind the text. `none`: it writes behind the
-- buffer, and nothing is known of what follows.
abbrev pub written : ℕ → Bytes → Option Bytes
written size w = if leb (length w + 1) size then some w else none

-- For whom a command is: the client, all, or a client by its number.
pub data Target : Type 0 where
  for_self for_all : Target
  for_uid : ℤ → Target

abbrev pub target_text : Target → Bytes
target_text for_self = codes "SELF"
target_text for_all = codes "ALL"
target_text (for_uid uid) = decimal_ℤ uid

-- `spd_stop`, `spd_cancel`, `spd_pause` and `spd_resume`, with their variants `_all` and `_uid`.
pub data Control : Type 0 where
  spd_stop spd_cancel spd_pause spd_resume : Control

abbrev pub control_name : Control → Bytes
control_name spd_stop = codes "STOP"
control_name spd_cancel = codes "CANCEL"
control_name spd_pause = codes "PAUSE"
control_name spd_resume = codes "RESUME"

-- The text of the command: a literal for the client and for all, and what `sprintf` prints for a number.
unfoldable pub control_text : Control → Target → Bytes
control_text c who = control_name c ++ b' ' ∷ target_text who

abbrev pub control_buffer : ℕ
control_buffer = 16

-- The command as it is sent. The literals are shorter than the buffer.
unfoldable pub control_command : Control → Target → Option Bytes
unfolding control_text
control_command c who = written control_buffer (control_text c who)

-- The parameters of the functions `spd_w_set_...`, with the value.
pub data Setting : Type 0 where
  voice_rate voice_pitch volume : ℤ → Setting
  language output_module synthesis_voice : Bytes → Setting
  punctuation : Punctuation → Setting
  capital_letters : CapitalLetters → Setting
  spelling : Spelling → Setting
  voice_type : VoiceType → Setting

-- OTTS_VOICE_RATE_MIN to OTTS_VOICE_RATE_MAX; pitch and volume have the same bounds.
abbrev pub in_bounds : ℤ → Bool
in_bounds v = not (ltb_ℤ v (negsuc 99)) && not (ltb_ℤ (pos 100) v)

-- SPD_SET_COMMAND_INT.
abbrev pub number_in_bounds : ℤ → Option Bytes
number_in_bounds v = if in_bounds v then some (decimal_ℤ v) else none

abbrev pub punctuation_text : Punctuation → Bytes
punctuation_text punct_all = codes "all"
punctuation_text punct_none = codes "none"
punctuation_text punct_some = codes "some"

abbrev pub letters_text : CapitalLetters → Bytes
letters_text cap_none = codes "none"
letters_text cap_spell = codes "spell"
letters_text cap_icon = codes "icon"

abbrev pub voice_text : VoiceType → Option Bytes
voice_text male1 = some (codes "MALE1")
voice_text male2 = some (codes "MALE2")
voice_text male3 = some (codes "MALE3")
voice_text female1 = some (codes "FEMALE1")
voice_text female2 = some (codes "FEMALE2")
voice_text female3 = some (codes "FEMALE3")
voice_text child_male = some (codes "CHILD_MALE")
voice_text child_female = some (codes "CHILD_FEMALE")
voice_text no_voice = none

abbrev pub setting_name : Setting → Bytes
setting_name (voice_rate v) = codes "RATE"
setting_name (voice_pitch v) = codes "PITCH"
setting_name (volume v) = codes "VOLUME"
setting_name (language str) = codes "language"
setting_name (output_module str) = codes "output_module"
setting_name (synthesis_voice str) = codes "synthesis_voice"
setting_name (punctuation mode) = codes "PUNCTUATION"
setting_name (capital_letters mode) = codes "CAP_LET_RECOGN"
setting_name (spelling mode) = codes "SPELLING"
setting_name (voice_type v) = codes "VOICE"

unfoldable pub setting_value : Setting → Option Bytes
setting_value (voice_rate v) = number_in_bounds v
setting_value (voice_pitch v) = number_in_bounds v
setting_value (volume v) = number_in_bounds v
setting_value (language str) = some str
setting_value (output_module str) = some str
setting_value (synthesis_voice str) = some str
setting_value (punctuation mode) = some (punctuation_text mode)
setting_value (capital_letters mode) = some (letters_text mode)
setting_value (spelling spell_on) = some (codes "on")
setting_value (spelling spell_off) = some (codes "off")
setting_value (voice_type v) = voice_text v

-- "SET who name value".
abbrev pub set_command : Bytes → Bytes → Bytes → Bytes
set_command who name value = codes "SET" ++ b' ' ∷ (who ++ b' ' ∷ (name ++ b' ' ∷ value))

-- The functions `spd_w_set_...`, for whom the text `who` says.
unfoldable pub setting_command : Setting → Bytes → Option Bytes
unfolding setting_value
setting_command p who = elim (setting_value p) [
  | none ↦ none
  | some value ↦ some (set_command who (setting_name p) value)
]

-- The variants of the functions for settings: for the client, `..._all`, and `..._uid` with an
-- `unsigned int`.
pub data Addressee : Type 0 where
  to_self to_all : Addressee
  to_uid : ℕ → Addressee

-- An `unsigned int` below 2^32 that `%d` takes for an `int`.
abbrev pub as_int : ℕ → ℤ
as_int n = if ltb n (2 ^ 31) then pos n else negsuc (2 ^ 32 - 1 - n)

-- For whom the server takes the text.
abbrev pub target_of : Addressee → Target
target_of to_self = for_self
target_of to_all = for_all
target_of (to_uid uid) = for_uid (as_int uid)

-- The buffer `who` of the functions `..._uid`.
abbrev pub who_buffer : ℕ
who_buffer = 8

-- The text `who`, if there is room for it.
unfoldable pub who_text : Addressee → Option Bytes
who_text to_self = some (codes "SELF")
who_text to_all = some (codes "ALL")
who_text (to_uid uid) = written who_buffer (decimal_ℤ (as_int uid))

-- `spd_set_data_mode`, which there is for the client alone.
unfoldable pub data_mode_command : DataMode → Bytes
data_mode_command data_text = set_command (codes "SELF") (codes "SSML_MODE") (codes "off")
data_mode_command data_ssml = set_command (codes "SELF") (codes "SSML_MODE") (codes "on")

abbrev pub data_mode_buffer : ℕ
data_mode_buffer = 32

-- The sizes of the buffers that `sprintf` writes commands to; the other commands have memory of their
-- own.
abbrev pub setting_buffer : Setting → Option ℕ
setting_buffer (voice_rate v) = some 64
setting_buffer (voice_pitch v) = some 64
setting_buffer (volume v) = some 64
setting_buffer (language str) = none
setting_buffer (output_module str) = none
setting_buffer (synthesis_voice str) = none
setting_buffer (punctuation mode) = some 32
setting_buffer (capital_letters mode) = some 64
setting_buffer (spelling mode) = some 32
setting_buffer (voice_type v) = some 64

abbrev pub priority_text : Priority → Bytes
priority_text important = codes "IMPORTANT"
priority_text message = codes "MESSAGE"
priority_text text = codes "TEXT"
priority_text notification = codes "NOTIFICATION"
priority_text progress = codes "PROGRESS"

-- `spd_set_priority`.
unfoldable pub priority_command : Priority → Bytes
priority_command priority = set_command (codes "SELF") (codes "PRIORITY") (priority_text priority)

-- `spd_key`, `spd_char` and `spd_sound_icon`, each behind `spd_set_priority`.
pub data EventCall : Type 0 where
  spd_key spd_char spd_sound_icon : EventCall

unfoldable pub event_command : EventCall → Bytes → Option Bytes
event_command spd_key name = some (codes "KEY" ++ b' ' ∷ name)
event_command spd_char character =
    if ltb 6 (length character) then none else some (codes "CHAR" ++ b' ' ∷ character)
event_command spd_sound_icon name = some (codes "SOUND_ICON" ++ b' ' ∷ name)
