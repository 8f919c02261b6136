-- ===== src/Protocol/Lists.antt =====
-- The commands LIST, GET and HELP of src/server/parse.c. `module_names` are the keys of the table of
-- modules as the library gives them, and `output_list_voices` is what a module answers when it is asked
-- for its voices.
use opentts.Prelude.{ℕ, true, List, [], ◌∷◌, ◌++◌, Option, none, some, map, codes, if◌then◌else◌}
use opentts.Prelude.Int.{pos}
use opentts.Types.{
  Bytes, VoiceType, no_voice, male1, male2, male3, female1, female2, female3, child_male,
  child_female, Settings, Server,
}
use opentts.Messages.{
  Answer, or_null, err_internal, err_parameter_invalid, err_no_output_module,
  err_cant_report_voices, ok_voice_list_sent, ok_modules_list_sent, ok_help_sent, ok_get,
}
use opentts.Clients.{get_client_uid_by_fd, get_client_settings_by_uid, get_client_settings_by_fd}
use opentts.Settings.{same_text}
use opentts.Protocol.{get_param}
use opentts.Protocol.Set.{Outcome, check_param}

-- SPDVoice: name, language and variant.
pub record Voice : Type 0 where
  pub name : Bytes
  pub language : Bytes
  pub variant : Bytes

abbrev pub voice_line : Voice → Bytes
voice_line v = v.name ++ b' ' ∷ (v.language ++ b' ' ∷ v.variant)

abbrev pub shown_voice : VoiceType → Bytes
shown_voice male1 = codes "MALE1"
shown_voice male2 = codes "MALE2"
shown_voice male3 = codes "MALE3"
shown_voice female1 = codes "FEMALE1"
shown_voice female2 = codes "FEMALE2"
shown_voice female3 = codes "FEMALE3"
shown_voice child_male = codes "CHILD_MALE"
shown_voice child_female = codes "CHILD_FEMALE"
shown_voice no_voice = codes "NO_VOICE"

abbrev pub symbolic_voices : List Bytes
symbolic_voices =
    codes "MALE1"
    ∷ codes "MALE2"
    ∷ codes "MALE3"
    ∷ codes "FEMALE1"
    ∷ codes "FEMALE2"
    ∷ codes "FEMALE3"
    ∷ codes "CHILD_MALE"
    ∷ codes "CHILD_FEMALE"
    ∷ []

abbrev pub help_lines : List Bytes
help_lines =
    codes "  SPEAK           -- say text "
    ∷ codes "  KEY             -- say a combination of keys "
    ∷ codes "  CHAR            -- say a character "
    ∷ codes "  SOUND_ICON      -- execute a sound icon "
    ∷ codes "  SET             -- set a parameter "
    ∷ codes "  GET             -- get a current parameter "
    ∷ codes "  LIST            -- list available arguments "
    ∷ codes "  HISTORY         -- commands related to history "
    ∷ codes "  QUIT            -- close the connection "
    ∷ []

unfoldable pub parse_help : Server → Answer × Server
parse_help s = (ok_help_sent help_lines, s)

module _ (strdown : Bytes → Bytes) (module_names : List Bytes)
    (output_list_voices : Bytes → Option (List Voice)) where
  -- The voices of the module that the client has chosen.
  unfoldable pub list_synthesis_voices : ℕ → Server → Answer
  unfolding get_client_uid_by_fd get_client_settings_by_uid
  list_synthesis_voices fd s =
      elim (get_client_settings_by_uid s (pos (get_client_uid_by_fd s (pos fd)))) [
        | none ↦ err_internal
        | some settings ↦ elim settings.output_module [
          | none ↦ err_no_output_module
          | some name ↦ elim (output_list_voices name) [
            | none ↦ err_cant_report_voices
            | some voices ↦ ok_voice_list_sent (map voice_line voices)
          ]
        ]
      ]

  unfoldable pub parse_list : Bytes → ℕ → Server → Outcome
  unfolding get_param list_synthesis_voices
  parse_list buf fd s =
      check_param (get_param strdown buf 1 true)
        (λ list_type.
          if same_text list_type (codes "voices")
          then some (ok_voice_list_sent symbolic_voices, s)
          else if same_text list_type (codes "output_modules")
          then some (ok_modules_list_sent module_names, s)
          else if same_text list_type (codes "synthesis_voices")
          then some (list_synthesis_voices fd s, s)
          else some (err_parameter_invalid, s))
        s

module _ (strdown : Bytes → Bytes) where
  unfoldable pub get_value : Settings → Bytes → Answer
  get_value settings get_type =
      if same_text get_type (codes "voice")
      then ok_get (shown_voice settings.voice_type)
      else if same_text get_type (codes "output_module")
      then ok_get (or_null settings.output_module)
      else err_parameter_invalid

  unfoldable pub parse_get : Bytes → ℕ → Server → Outcome
  unfolding get_param get_client_settings_by_fd get_value
  parse_get buf fd s = elim (get_client_settings_by_fd s (pos fd)) [
    | none ↦ some (err_internal, s)
    | some settings ↦
        check_param (get_param strdown buf 1 true)
          (λ get_type. some (get_value settings get_type, s)) s
  ]
