-- ===== src/Settings.antt =====
-- The settings of clients: the setters of src/server/set.c. A setter returns 0 if it did its work, and
-- 1 otherwise. `default_module` is the table `language_default_modules`, which the configuration
-- fills.
pub mod Assigned
pub mod Everyone
pub mod Range
pub mod Notifications
pub mod Naming
pub mod Debug
use opentts.Prelude.{
  ℕ, Bool, true, false, ◌&&◌, ◌||◌, [], ◌∷◌, Option, none, some, ◌==◌, if◌then◌else◌,
}
use opentts.Prelude.Int.{ℤ, pos, negsuc, ltb_ℤ}
use opentts.Types.{
  Bytes, Priority, Punctuation, CapitalLetters, Spelling, DataMode, VoiceType, no_voice, male1,
  male2, male3, female1, female2, female3, child_male, child_female, Settings, Server,
}
use opentts.Clients.{
  get_client_uid_by_fd, get_client_settings_by_uid, put_settings, each_client, one_if_positive,
}

-- `!strcmp(a, b)`.
abbrev pub same_text : Bytes → Bytes → Bool
same_text [] [] = true
same_text [] (d ∷ ds) = false
same_text (c ∷ cs) [] = false
same_text (c ∷ cs) (d ∷ ds) = c == d && same_text cs ds

-- Beyond OTTS_VOICE_RATE_MIN to OTTS_VOICE_RATE_MAX; pitch and volume have the same bounds.
abbrev pub out_of_range : ℤ → Bool
out_of_range v = ltb_ℤ (pos 100) v || ltb_ℤ v (negsuc 99)

-- A write through the pointer that `get_client_settings_by_uid` returned for `uid`.
abbrev pub store_settings : ℤ → Settings → Server → Server
store_settings (pos uid) new s = put_settings uid new s
store_settings (negsuc n) new s = s

-- What the setters have in common: look the client up, and change it.
unfoldable pub change : ℤ → (Settings → Settings) → Server → ℕ × Server
unfolding get_client_settings_by_uid
change uid f s = elim (get_client_settings_by_uid s uid) [
  | none ↦ (1, s)
  | some client ↦ (0, store_settings uid (f client) s)
]

unfoldable pub set_priority_uid : ℤ → Priority → Server → ℕ × Server
unfolding change
set_priority_uid uid prio s = change uid (λ client. record client { priority = prio }) s

unfoldable pub set_rate_uid : ℤ → ℤ → Server → ℕ × Server
unfolding change
set_rate_uid uid rate s =
    if out_of_range rate then (1, s) else change uid (λ client. record client { rate = rate }) s

unfoldable pub set_pitch_uid : ℤ → ℤ → Server → ℕ × Server
unfolding change
set_pitch_uid uid pitch s =
    if out_of_range pitch then (1, s) else change uid (λ client. record client { pitch = pitch }) s

unfoldable pub set_volume_uid : ℤ → ℤ → Server → ℕ × Server
unfolding change
set_volume_uid uid volume s =
    if out_of_range volume
    then (1, s)
    else change uid (λ client. record client { volume = volume }) s

-- The names of voices that `set_voice_uid` knows.
unfoldable pub voice_of_name : Bytes → Option VoiceType
voice_of_name voice =
    if same_text voice (b'm' ∷ b'a' ∷ b'l' ∷ b'e' ∷ b'1' ∷ [])
    then some male1
    else if same_text voice (b'm' ∷ b'a' ∷ b'l' ∷ b'e' ∷ b'2' ∷ [])
    then some male2
    else if same_text voice (b'm' ∷ b'a' ∷ b'l' ∷ b'e' ∷ b'3' ∷ [])
    then some male3
    else if same_text voice (b'f' ∷ b'e' ∷ b'm' ∷ b'a' ∷ b'l' ∷ b'e' ∷ b'1' ∷ [])
    then some female1
    else if same_text voice (b'f' ∷ b'e' ∷ b'm' ∷ b'a' ∷ b'l' ∷ b'e' ∷ b'2' ∷ [])
    then some female2
    else if same_text voice (b'f' ∷ b'e' ∷ b'm' ∷ b'a' ∷ b'l' ∷ b'e' ∷ b'3' ∷ [])
    then some female3
    else if same_text voice
        (b'c' ∷ b'h' ∷ b'i' ∷ b'l' ∷ b'd' ∷ b'_' ∷ b'm' ∷ b'a' ∷ b'l' ∷ b'e' ∷ [])
    then some child_male
    else if same_text voice
        (b'c' ∷ b'h' ∷ b'i' ∷ b'l' ∷ b'd' ∷ b'_' ∷ b'f' ∷ b'e' ∷ b'm' ∷ b'a' ∷ b'l' ∷ b'e' ∷ [])
    then some child_female
    else none

unfoldable pub set_voice_uid : ℤ → Bytes → Server → ℕ × Server
unfolding change
set_voice_uid uid voice s = elim (voice_of_name voice) [
  | none ↦ (1, s)
  | some v ↦ change uid (λ client. record client { voice_type = v; voice_name = none }) s
]

unfoldable pub set_punctuation_mode_uid : ℤ → Punctuation → Server → ℕ × Server
unfolding change
set_punctuation_mode_uid uid mode s =
    change uid (λ client. record client { punctuation_mode = mode }) s

unfoldable pub set_capital_letter_recognition_uid : ℤ → CapitalLetters → Server → ℕ × Server
unfolding change
set_capital_letter_recognition_uid uid recogn s =
    change uid (λ client. record client { cap_let_recogn = recogn }) s

unfoldable pub set_spelling_uid : ℤ → Spelling → Server → ℕ × Server
unfolding change
set_spelling_uid uid mode s = change uid (λ client. record client { spelling_mode = mode }) s

unfoldable pub set_output_module_uid : ℤ → Bytes → Server → ℕ × Server
unfolding change
set_output_module_uid uid name s =
    change uid (λ client. record client { output_module = some name; voice_name = none }) s

unfoldable pub set_synthesis_voice_uid : ℤ → Bytes → Server → ℕ × Server
unfolding change
set_synthesis_voice_uid uid voice s =
    change uid (λ client. record client { voice_name = some voice; voice_type = no_voice }) s

unfoldable pub set_pause_context_uid : ℤ → ℤ → Server → ℕ × Server
unfolding change
set_pause_context_uid uid context s =
    change uid (λ client. record client { pause_context = context }) s

unfoldable pub set_ssml_mode_uid : ℤ → DataMode → Server → ℕ × Server
unfolding change
set_ssml_mode_uid uid mode s = change uid (λ client. record client { ssml_mode = mode }) s

-- The parameters for which SET_SELF_ALL makes setters, with the value to be set. Not here: debug.
pub data Parameter : Type 0 where
  rate pitch volume pause_context : ℤ → Parameter
  voice language synthesis_voice output_module : Bytes → Parameter
  punctuation_mode : Punctuation → Parameter
  capital_letter_recognition : CapitalLetters → Parameter
  spelling : Spelling → Parameter
  ssml_mode : DataMode → Parameter

module _ (default_module : Bytes → Option Bytes) where
  -- The language may bring its output module with it.
  unfoldable pub set_language_uid : ℤ → Bytes → Server → ℕ × Server
  unfolding get_client_settings_by_uid
  set_language_uid uid name s = elim (get_client_settings_by_uid s uid) [
    | none ↦ (1, s)
    | some client ↦
        let s1 = store_settings uid (record client { language = some name }) s in
        elim (default_module name) [
          | none ↦ (0, s1)
          | some m ↦ (0, (set_output_module_uid uid m s1).1)
        ]
  ]

  unfoldable pub set_uid : Parameter → ℤ → Server → ℕ × Server
  set_uid (rate v) uid s = set_rate_uid uid v s
  set_uid (pitch v) uid s = set_pitch_uid uid v s
  set_uid (volume v) uid s = set_volume_uid uid v s
  set_uid (pause_context v) uid s = set_pause_context_uid uid v s
  set_uid (voice v) uid s = set_voice_uid uid v s
  set_uid (language v) uid s = set_language_uid uid v s
  set_uid (synthesis_voice v) uid s = set_synthesis_voice_uid uid v s
  set_uid (output_module v) uid s = set_output_module_uid uid v s
  set_uid (punctuation_mode v) uid s = set_punctuation_mode_uid uid v s
  set_uid (capital_letter_recognition v) uid s = set_capital_letter_recognition_uid uid v s
  set_uid (spelling v) uid s = set_spelling_uid uid v s
  set_uid (ssml_mode v) uid s = set_ssml_mode_uid uid v s

  unfoldable pub set_self : Parameter → ℤ → Server → ℕ × Server
  unfolding get_client_uid_by_fd set_uid
  set_self p fd s =
      let uid = get_client_uid_by_fd s fd in if uid == 0 then (1, s) else set_uid p (pos uid) s

  unfoldable pub set_all : Parameter → Server → ℕ × Server
  unfolding each_client set_uid
  set_all p s =
      let (err, s1) = each_client (λ uid. set_uid p (pos uid)) s.max_fd 1 s in
      (one_if_positive err, s1)

unfoldable pub set_priority_self : ℤ → Priority → Server → ℕ × Server
unfolding get_client_uid_by_fd set_priority_uid
set_priority_self fd prio s =
    let uid = get_client_uid_by_fd s fd in
    if uid == 0 then (1, s) else set_priority_uid (pos uid) prio s
