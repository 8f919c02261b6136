-- ===== src/Protocol/Set.antt =====
-- The command SET: `parse_set` of src/server/parse.c. The parameters are what the setters of
-- src/server/set.c take from the configuration and from `fnmatch`, and `options.debug_destination`.
use opentts.Prelude.{
  ℕ, Bool, true, false, List, Option, none, some, ltb, if◌then◌else◌, zero, suc, codes,
}
use opentts.Prelude.Int.{ℤ, pos, negsuc, ltb_ℤ}
use opentts.Types.{
  Bytes, Priority, important, message, text, notification, progress, Punctuation, punct_all,
  punct_none, punct_some, CapitalLetters, cap_none, cap_spell, cap_icon, spell_on, spell_off,
  data_text, data_ssml, Server,
}
use opentts.Messages.{
  Answer, ok_language_set, ok_priority_set, ok_rate_set, ok_pitch_set, ok_punct_mode_set,
  ok_cap_let_recogn_set, ok_spelling_set, ok_client_name_set, ok_voice_set, ok_output_module_set,
  ok_pause_context_set, ok_volume_set, ok_ssml_mode_set, ok_notification_set, ok_debugging,
  err_unknown_priority, err_rate_too_high, err_rate_too_low, err_pitch_too_high, err_pitch_too_low,
  err_volume_too_high, err_volume_too_low, err_couldnt_set_priority, err_couldnt_set_language,
  err_couldnt_set_rate, err_couldnt_set_pitch, err_couldnt_set_punct_mode,
  err_couldnt_set_cap_let_recog, err_couldnt_set_spelling, err_couldnt_set_voice,
  err_couldnt_set_client_name, err_couldnt_set_output_module, err_couldnt_set_pause_context,
  err_couldnt_set_volume, err_couldnt_set_ssml_mode, err_couldnt_set_notification,
  err_couldnt_set_debugging, err_not_allowed_inside_block, err_missing_parameter, err_not_a_number,
  err_parameter_not_on_off, err_parameter_invalid,
}
use opentts.Settings.{
  same_text, Parameter, rate, pitch, volume, pause_context, voice, language, synthesis_voice,
  output_module, punctuation_mode, capital_letter_recognition, spelling, ssml_mode, set_uid,
  set_self, set_all, set_priority_self,
}
use opentts.Settings.Naming.{ClientSpecific, set_client_name_self}
use opentts.Settings.Notifications.{set_notification_self}
use opentts.Settings.Debug.{set_debug_uid, set_debug_self, set_debug_all}
use opentts.Protocol.{get_param, isanum, atoi}

-- For whom a parameter is set: `who`, and `uid` where it counts.
pub data Who : Type 0 where
  self all : Who
  client : ℤ → Who

unfoldable pub who_of : Bytes → Option Who
unfolding isanum atoi
who_of who_s =
    if same_text who_s (codes "self")
    then some self
    else if same_text who_s (codes "all")
    then some all
    else if isanum who_s
    then some (client (atoi who_s))
    else none

-- A reply and the new state; `none` is the end of the process.
abbrev pub Outcome : Type 0
Outcome = Option (Answer × Server)

-- The reply that goes with what a setter returned.
abbrev pub answer : Answer → Answer → ℕ × Server → Outcome
answer err ok (zero, s) = some (ok, s)
answer err ok (suc n, s) = some (err, s)

-- CHECK_PARAM and NOT_ALLOWED_INSIDE_BLOCK, in front of the rest of the code.
abbrev pub check_param : Option Bytes → (Bytes → Outcome) → Server → Outcome
check_param none rest s = some (err_missing_parameter, s)
check_param (some w) rest s = rest w

abbrev pub outside_block : ℕ → Outcome → Server → Outcome
outside_block fd rest s =
    if ltb 0 (s.sockets fd).inside_block then some (err_not_allowed_inside_block, s) else rest

-- GET_PARAM_INT.
abbrev pub check_number : Option Bytes → (ℤ → Outcome) → Server → Outcome
check_number w rest s =
    check_param w
      (λ helper. if isanum helper then rest (atoi helper) else some (err_not_a_number, s)) s

-- The words that name a value.
unfoldable pub priority_of : Bytes → Option Priority
priority_of w =
    if same_text w (codes "important")
    then some important
    else if same_text w (codes "message")
    then some message
    else if same_text w (codes "text")
    then some text
    else if same_text w (codes "notification")
    then some notification
    else if same_text w (codes "progress")
    then some progress
    else none

unfoldable pub punctuation_of : Bytes → Option Punctuation
punctuation_of w =
    if same_text w (codes "all")
    then some punct_all
    else if same_text w (codes "some")
    then some punct_some
    else if same_text w (codes "none")
    then some punct_none
    else none

unfoldable pub recognition_of : Bytes → Option CapitalLetters
recognition_of w =
    if same_text w (codes "none")
    then some cap_none
    else if same_text w (codes "spell")
    then some cap_spell
    else if same_text w (codes "icon")
    then some cap_icon
    else none

unfoldable pub on_off : Bytes → Option Bool
on_off w =
    if same_text w (codes "on")
    then some true
    else if same_text w (codes "off")
    then some false
    else none

-- A value that is not known has its own reply.
abbrev pub check_value {ℓ} : {A : Type ℓ} → Option A → Answer → (A → Outcome) → Server → Outcome
check_value none err rest s = some (err, s)
check_value (some v) err rest s = rest v

-- Only for the client itself.
abbrev pub only_self : Who → Answer → Outcome → Server → Outcome
only_self self err rest s = rest
only_self all err rest s = some (err, s)
only_self (client uid) err rest s = some (err, s)

-- The bounds of rate, pitch and volume.
abbrev pub check_range : ℤ → Answer → Answer → Outcome → Server → Outcome
check_range v low high rest s =
    if ltb_ℤ v (negsuc 99)
    then some (low, s)
    else if ltb_ℤ (pos 100) v
    then some (high, s)
    else rest

module _ (default_module : Bytes → Option Bytes) where
  -- SSIP_SET_COMMAND.
  unfoldable pub set_for : Who → Parameter → ℕ → Server → ℕ × Server
  unfolding set_uid set_self set_all
  set_for self p fd s = set_self default_module p (pos fd) s
  set_for (client uid) p fd s = set_uid default_module p uid s
  set_for all p fd s = set_all default_module p s

unfoldable pub set_debug : Who → Bool → ℕ → Server → ℕ × Server
unfolding set_debug_self set_debug_uid set_debug_all
set_debug self debug fd s = set_debug_self debug (pos fd) s
set_debug (client uid) debug fd s = set_debug_uid debug s
set_debug all debug fd s = set_debug_all debug s

module _ (strdown : Bytes → Bytes) (default_module : Bytes → Option Bytes)
    (fnmatch : Bytes → Option Bytes → Bool) (specific : List ClientSpecific)
    (debug_destination : Bytes) where
  -- `get_param` of the words behind the name of the parameter, in lower case or not.
  abbrev pub word_down : Bytes → ℕ → Option Bytes
  word_down buf n = get_param strdown buf n true

  unfoldable pub set_range :
      (ℤ → Parameter) → Answer → Answer → Answer → Answer → Who → Bytes → ℕ → Server → Outcome
  unfolding get_param isanum atoi set_for
  set_range param low high err ok who buf fd s =
      check_number (get_param strdown buf 3 false)
        (λ v. check_range v low high (answer err ok (set_for default_module who (param v) fd s)) s)
        s

  unfoldable pub set_text :
      (Bytes → Parameter) → Answer → Answer → Who → Bytes → ℕ → Server → Outcome
  unfolding get_param set_for
  set_text param err ok who buf fd s =
      check_param (word_down buf 3) (λ w. answer err ok (set_for default_module who (param w) fd s))
        s

  unfoldable pub set_priority : Who → Bytes → ℕ → Server → Outcome
  unfolding get_param priority_of set_priority_self
  set_priority who buf fd s =
      outside_block fd
        (only_self who err_couldnt_set_priority
          (check_param (word_down buf 3)
            (λ w.
              check_value (priority_of w) err_unknown_priority
                (λ prio.
                  answer err_couldnt_set_priority ok_priority_set
                    (set_priority_self (pos fd) prio s))
                s)
            s)
          s)
        s

  unfoldable pub set_client_name : Who → Bytes → ℕ → Server → Outcome
  unfolding get_param set_client_name_self
  set_client_name who buf fd s =
      outside_block fd
        (only_self who err_parameter_invalid
          (check_param (word_down buf 3)
            (λ w. elim (set_client_name_self fnmatch specific (pos fd) w s) [
              | none ↦ none
              | some result ↦ answer err_couldnt_set_client_name ok_client_name_set result
            ])
            s)
          s)
        s

  unfoldable pub set_punctuation : Who → Bytes → ℕ → Server → Outcome
  unfolding get_param punctuation_of set_for
  set_punctuation who buf fd s =
      outside_block fd
        (check_param (word_down buf 3)
          (λ w.
            check_value (punctuation_of w) err_parameter_invalid
              (λ mode.
                answer err_couldnt_set_punct_mode ok_punct_mode_set
                  (set_for default_module who (punctuation_mode mode) fd s))
              s)
          s)
        s

  unfoldable pub set_recognition : Who → Bytes → ℕ → Server → Outcome
  unfolding get_param recognition_of set_for
  set_recognition who buf fd s =
      outside_block fd
        (check_param (word_down buf 3)
          (λ w.
            check_value (recognition_of w) err_parameter_invalid
              (λ mode.
                answer err_couldnt_set_cap_let_recog ok_cap_let_recogn_set
                  (set_for default_module who (capital_letter_recognition mode) fd s))
              s)
          s)
        s

  unfoldable pub set_pause_context : Who → Bytes → ℕ → Server → Outcome
  unfolding get_param isanum atoi set_for
  set_pause_context who buf fd s =
      check_number (get_param strdown buf 3 false)
        (λ v.
          answer err_couldnt_set_pause_context ok_pause_context_set
            (set_for default_module who (pause_context v) fd s))
        s

  -- SSIP_ON_OFF_PARAM.
  abbrev pub set_on_off : Bytes → (Bool → ℕ × Server) → Answer → Answer → Server → Outcome
  set_on_off buf set err ok s =
      check_param (word_down buf 3)
        (λ w.
          check_value (on_off w) err_parameter_not_on_off (λ value. answer err ok (set value)) s)
        s

  unfoldable pub set_notification : Who → Bytes → ℕ → Server → Outcome
  unfolding get_param on_off set_notification_self
  set_notification who buf fd s =
      only_self who err_parameter_invalid
        (check_param (word_down buf 3)
          (λ scope.
            check_param (word_down buf 4)
              (λ w.
                check_value (on_off w) err_parameter_invalid
                  (λ value.
                    answer err_couldnt_set_notification ok_notification_set
                      (set_notification_self (pos fd) scope value s))
                  s)
              s)
          s)
        s

  -- What follows the name of the parameter.
  unfoldable pub set_named : Bytes → Who → Bytes → ℕ → Server → Outcome
  unfolding set_priority set_text set_client_name set_range set_punctuation set_recognition
      set_pause_context set_notification set_for set_debug get_param on_off
  set_named set_sub who buf fd s =
      if same_text set_sub (codes "priority")
      then set_priority who buf fd s
      else if same_text set_sub (codes "language")
      then set_text language err_couldnt_set_language ok_language_set who buf fd s
      else if same_text set_sub (codes "synthesis_voice")
      then set_text synthesis_voice err_couldnt_set_voice ok_voice_set who buf fd s
      else if same_text set_sub (codes "client_name")
      then set_client_name who buf fd s
      else if same_text set_sub (codes "rate")
      then set_range rate err_rate_too_low err_rate_too_high err_couldnt_set_rate ok_rate_set who
          buf fd s
      else if same_text set_sub (codes "pitch")
      then set_range pitch err_pitch_too_low err_pitch_too_high err_couldnt_set_pitch ok_pitch_set
          who buf fd s
      else if same_text set_sub (codes "volume")
      then set_range volume err_volume_too_low err_volume_too_high err_couldnt_set_volume
          ok_volume_set who buf fd s
      else if same_text set_sub (codes "voice")
      then set_text voice err_couldnt_set_voice ok_voice_set who buf fd s
      else if same_text set_sub (codes "punctuation")
      then set_punctuation who buf fd s
      else if same_text set_sub (codes "output_module")
      then outside_block fd
          (set_text output_module err_couldnt_set_output_module ok_output_module_set who buf fd s) s
      else if same_text set_sub (codes "cap_let_recogn")
      then set_recognition who buf fd s
      else if same_text set_sub (codes "pause_context")
      then set_pause_context who buf fd s
      else if same_text set_sub (codes "spelling")
      then outside_block fd
          (set_on_off buf
            (λ on. set_for default_module who (spelling (if on then spell_on else spell_off)) fd s)
            err_couldnt_set_spelling ok_spelling_set s)
          s
      else if same_text set_sub (codes "ssml_mode")
      then set_on_off buf
          (λ on. set_for default_module who (ssml_mode (if on then data_ssml else data_text)) fd s)
          err_couldnt_set_ssml_mode ok_ssml_mode_set s
      else if same_text set_sub (codes "debug")
      then set_on_off buf (λ on. set_debug who on fd s) err_couldnt_set_debugging
          (ok_debugging debug_destination) s
      else if same_text set_sub (codes "notification")
      then set_notification who buf fd s
      else some (err_parameter_invalid, s)

  unfoldable pub parse_set : Bytes → ℕ → Server → Outcome
  unfolding get_param who_of set_named
  parse_set buf fd s =
      check_param (word_down buf 1)
        (λ who_s.
          check_value (who_of who_s) err_parameter_invalid
            (λ who. check_param (word_down buf 2) (λ set_sub. set_named set_sub who buf fd s) s) s)
        s
