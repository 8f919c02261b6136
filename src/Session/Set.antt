-- ===== src/Session/Set.antt =====
-- What the client's functions for settings do to the server: `spd_set_...` of
-- src/api/c/libopentts.c, through `parse_set` of src/server/parse.c, to the setters of
-- src/server/set.c.
use opentts.Prelude.{
  ℕ, ◌≡◌, refl, sym, ◌∙◌, ap, inl, inr, Bool, true, false, [], Option, none, some, map, codes,
  arith, Bool-cases,
}
use opentts.Prelude.Int.{ℤ, pos, negsuc, ltb_ℤ}
use opentts.Types.{
  Bytes, DataMode, Server, no_voice, male1, male2, male3, female1, female2, female3, child_male,
  child_female, punct_all, punct_none, punct_some, cap_none, cap_spell, cap_icon, spell_on,
  spell_off, data_text, data_ssml,
}
use opentts.Names.{voice2str}
use opentts.Messages.{
  Answer, reply_text, decimal_ℤ, ok_language_set, ok_rate_set, ok_pitch_set, ok_punct_mode_set,
  ok_cap_let_recogn_set, ok_spelling_set, ok_voice_set, ok_output_module_set, ok_volume_set,
  ok_ssml_mode_set, err_rate_too_low, err_rate_too_high, err_pitch_too_low, err_pitch_too_high,
  err_volume_too_low, err_volume_too_high, err_couldnt_set_language, err_couldnt_set_rate,
  err_couldnt_set_pitch, err_couldnt_set_punct_mode, err_couldnt_set_cap_let_recog,
  err_couldnt_set_spelling, err_couldnt_set_voice, err_couldnt_set_output_module,
  err_couldnt_set_volume, err_couldnt_set_ssml_mode,
}
use opentts.Messages.Decimal.{atoi-decimal}
use opentts.Settings.{Parameter}
use opentts.Protocol.{get_param}
use opentts.Protocol.Set.{
  Outcome, Who, self, answer, set_for, set_named, set_text, set_range, set_punctuation,
  set_recognition, punctuation_of, recognition_of, on_off,
}
use opentts.Protocol.Parse.{Environment}
use opentts.Api.{command_line}
use opentts.Api.Replies.{ret_ok, get_err_code}
use opentts.Api.Commands.{
  for_self, target_text, Addressee, data_mode_command, to_self, to_all, to_uid, target_of, who_text,
  Setting, voice_rate, voice_pitch, volume, language, output_module, synthesis_voice, punctuation,
  capital_letters, spelling, voice_type, in_bounds, number_in_bounds, setting_name, setting_value,
  setting_command, set_command,
}
use opentts.Session.{idle, spd_w_set, spd_set, spd_set_data_mode}
use opentts.Session.Words.{small, LowersAscii, QuietWord, who_for}
use opentts.Session.Lines.{
  set_line-ReadsSet, Answered, answered, returned, parse-ReadsSet, set_command-quiet, told-returned,
}
use opentts.Session.Values.{Writable, known-QuietWord, value-QuietWord, name-QuietWord}

-- The parameter of the server that a function of the client is for.
abbrev pub param_for : Setting → Parameter
param_for (voice_rate v) = Parameter.rate v
param_for (voice_pitch v) = Parameter.pitch v
param_for (volume v) = Parameter.volume v
param_for (language str) = Parameter.language (map small str)
param_for (output_module str) = Parameter.output_module (map small str)
param_for (synthesis_voice str) = Parameter.synthesis_voice (map small str)
param_for (punctuation mode) = Parameter.punctuation_mode mode
param_for (capital_letters mode) = Parameter.capital_letter_recognition mode
param_for (spelling mode) = Parameter.spelling mode
param_for (voice_type v) = Parameter.voice (elim (voice2str v) [ none ↦ [] | some name ↦ name ])

abbrev lower_some : Option Bytes → Option Bytes
lower_some none = none
lower_some (some w) = some (map small w)

abbrev is_some : Option Bytes → Bool
is_some none = false
is_some (some w) = true

voice_done :
    {o : Outcome} {r : ℕ × Server} → o ≡ answer err_couldnt_set_voice ok_voice_set r → Answered o r
unfolding reply_text ret_ok get_err_code
voice_done e = answered err_couldnt_set_voice ok_voice_set e (tt, tt) (refl, refl)

module _ (env : Environment) (fd : ℕ) (s : Server)
    (ready : (s.sockets fd).awaiting_data ≡ false) where
  -- The part of `parse_set` for one parameter.
  module _ (open_block : (s.sockets fd).inside_block ≡ 0) (who : Who) (buf : Bytes) where
    abbrev named : Bytes → Outcome
    named name =
        set_named env.strdown env.default_module env.fnmatch env.specific env.debug_destination
          (map small name) who buf fd s

    abbrev SetBy : Setting → Type 0
    SetBy p =
        get_param env.strdown buf 3 true ≡ lower_some (setting_value p)
        → get_param env.strdown buf 3 false ≡ setting_value p
        → is_some (setting_value p) ≡ true
        → Answered (named (setting_name p)) (set_for env.default_module who (param_for p) fd s)

    -- A number within the bounds.
    range_done :
        (param : ℤ → Parameter) (low high err ok : Answer) (v : ℤ)
        → get_param env.strdown buf 3 false ≡ some (decimal_ℤ v)
        → in_bounds v ≡ true
        → set_range env.strdown env.default_module env.fnmatch env.specific env.debug_destination
            param low high err ok who buf fd s
          ≡ answer err ok (set_for env.default_module who (param v) fd s)
    unfolding set_range
    range_done param low high err ok v raw inside =
        let not_low : ltb_ℤ v (negsuc 99) ≡ false = ground (arith, inside) in
        let not_high : ltb_ℤ (pos 100) v ≡ false = ground (arith, inside) in
        let (number, same) = atoi-decimal v in
        rw (raw, set_range) (rw number (rw same (rw not_low (rw not_high refl))))

    number_given :
        (v : ℤ)
        → is_some (number_in_bounds v) ≡ true
        → (in_bounds v ≡ true) × (number_in_bounds v ≡ some (decimal_ℤ v))
    number_given v given = elim (Bool-cases (in_bounds v)) [
      | inl inside ↦ (inside, rw inside refl)
      | inr outside ↦
          let off : is_some (number_in_bounds v) ≡ false = rw outside refl in
          absurd (cc (off, given))
    ]

    -- Each function of the client reaches the setter of the server.
    settings-SetBy : (p : Setting) → SetBy p
    unfolding set_named set_text set_punctuation set_recognition setting_value reply_text ret_ok
        get_err_code punctuation_of recognition_of on_off
    settings-SetBy (voice_rate v) low raw given =
        let (inside, e) = number_given v given in
        answered err_couldnt_set_rate ok_rate_set
          (range_done Parameter.rate err_rate_too_low err_rate_too_high err_couldnt_set_rate
            ok_rate_set v (raw ∙ e) inside)
          (tt, tt) (refl, refl)
    settings-SetBy (voice_pitch v) low raw given =
        let (inside, e) = number_given v given in
        answered err_couldnt_set_pitch ok_pitch_set
          (range_done Parameter.pitch err_pitch_too_low err_pitch_too_high err_couldnt_set_pitch
            ok_pitch_set v (raw ∙ e) inside)
          (tt, tt) (refl, refl)
    settings-SetBy (volume v) low raw given =
        let (inside, e) = number_given v given in
        answered err_couldnt_set_volume ok_volume_set
          (range_done Parameter.volume err_volume_too_low err_volume_too_high err_couldnt_set_volume
            ok_volume_set v (raw ∙ e) inside)
          (tt, tt) (refl, refl)
    settings-SetBy (language str) low raw given =
        answered err_couldnt_set_language ok_language_set (rw (low, set_named, set_text) refl)
          (tt, tt) (refl, refl)
    settings-SetBy (synthesis_voice str) low raw given =
        answered err_couldnt_set_voice ok_voice_set (rw (low, set_named, set_text) refl) (tt, tt)
          (refl, refl)
    settings-SetBy (output_module str) low raw given =
        answered err_couldnt_set_output_module ok_output_module_set
          (rw (open_block, set_named) (rw (low, set_text) refl)) (tt, tt) (refl, refl)
    settings-SetBy (punctuation punct_all) low raw given =
        answered err_couldnt_set_punct_mode ok_punct_mode_set
          (rw (open_block, set_named, set_punctuation) (rw low refl)) (tt, tt) (refl, refl)
    settings-SetBy (punctuation punct_none) low raw given =
        answered err_couldnt_set_punct_mode ok_punct_mode_set
          (rw (open_block, set_named, set_punctuation) (rw low refl)) (tt, tt) (refl, refl)
    settings-SetBy (punctuation punct_some) low raw given =
        answered err_couldnt_set_punct_mode ok_punct_mode_set
          (rw (open_block, set_named, set_punctuation) (rw low refl)) (tt, tt) (refl, refl)
    settings-SetBy (capital_letters cap_none) low raw given =
        answered err_couldnt_set_cap_let_recog ok_cap_let_recogn_set
          (rw (open_block, set_named, set_recognition) (rw low refl)) (tt, tt) (refl, refl)
    settings-SetBy (capital_letters cap_spell) low raw given =
        answered err_couldnt_set_cap_let_recog ok_cap_let_recogn_set
          (rw (open_block, set_named, set_recognition) (rw low refl)) (tt, tt) (refl, refl)
    settings-SetBy (capital_letters cap_icon) low raw given =
        answered err_couldnt_set_cap_let_recog ok_cap_let_recogn_set
          (rw (open_block, set_named, set_recognition) (rw low refl)) (tt, tt) (refl, refl)
    settings-SetBy (spelling spell_on) low raw given =
        answered err_couldnt_set_spelling ok_spelling_set (rw (open_block, set_named) (rw low refl))
          (tt, tt) (refl, refl)
    settings-SetBy (spelling spell_off) low raw given =
        answered err_couldnt_set_spelling ok_spelling_set (rw (open_block, set_named) (rw low refl))
          (tt, tt) (refl, refl)
    settings-SetBy (voice_type no_voice) low raw given = absurd (cc given)
    settings-SetBy (voice_type male1) low raw given =
        voice_done (rw (low, set_named, set_text) refl)
    settings-SetBy (voice_type male2) low raw given =
        voice_done (rw (low, set_named, set_text) refl)
    settings-SetBy (voice_type male3) low raw given =
        voice_done (rw (low, set_named, set_text) refl)
    settings-SetBy (voice_type female1) low raw given =
        voice_done (rw (low, set_named, set_text) refl)
    settings-SetBy (voice_type female2) low raw given =
        voice_done (rw (low, set_named, set_text) refl)
    settings-SetBy (voice_type female3) low raw given =
        voice_done (rw (low, set_named, set_text) refl)
    settings-SetBy (voice_type child_male) low raw given =
        voice_done (rw (low, set_named, set_text) refl)
    settings-SetBy (voice_type child_female) low raw given =
        voice_done (rw (low, set_named, set_text) refl)

-- The text that was written to the buffer is that of the target.
who_text-target :
    (addressee : Addressee) (who : Bytes)
    → who_text addressee ≡ some who
    → target_text (target_of addressee) ≡ who
unfolding who_text
who_text-target to_self who e = cc e
who_text-target to_all who e = cc e
who_text-target (to_uid uid) who e = ground (arith, e)

-- A connected client in command mode and outside of blocks calls one of the functions that set a
-- parameter, for itself, for all, or for a client by a number that fits into its buffer, with a value
-- that the function takes. A text is one word. The call ends; it does to the server what the setter does
-- that `set_for` picks for the number as `%d` prints it, and nothing else, and returns 0 if the setter
-- returned 0, and -1 otherwise.
pub spd_set-set_for :
    (env : Environment) (fd : ℕ) (p : Setting) (addressee : Addressee) (who value : Bytes)
    (s : Server)
    → LowersAscii env.strdown
    → (s.sockets fd).awaiting_data ≡ false
    → (s.sockets fd).inside_block ≡ 0
    → Writable p
    → who_text addressee ≡ some who
    → setting_value p ≡ some value
    → spd_set env fd p addressee (idle s)
      ≡ returned (set_for env.default_module (who_for (target_of addressee)) (param_for p) fd s)
unfolding spd_set spd_w_set setting_command
spd_set-set_for env fd p addressee who value s lowers ready open_block w room e =
    let target = target_of addressee in
    let n = name-QuietWord p in
    let v = value-QuietWord p value w e in
    let command = set_command (target_text target) (setting_name p) value in
    let buf = command_line command in
    let reads = set_line-ReadsSet env.strdown target (setting_name p) value lowers n.0 v.0 in
    let set =
      settings-SetBy env fd s ready open_block (who_for target) buf p
        (reads.lowered ∙ sym (ap lower_some e)) (reads.raw ∙ sym e) (ap is_some e) in
    let run =
      told-returned env fd command s (set_command-quiet target (setting_name p) value n v) _ _ set
        (parse-ReadsSet env fd s ready (who_for target) (setting_name p) value buf reads) in
    rw (room, spd_set)
      (rw (e, spd_w_set, setting_command) (rw (who_text-target addressee who room) at run))

abbrev ssml_name : Bytes
ssml_name = codes "SSML_MODE"

abbrev mode_text : DataMode → Bytes
mode_text data_text = codes "off"
mode_text data_ssml = codes "on"

mode_text-QuietWord : (mode : DataMode) → QuietWord (mode_text mode)
mode_text-QuietWord data_text = known-QuietWord _ _ _ refl refl
mode_text-QuietWord data_ssml = known-QuietWord _ _ _ refl refl

-- The part of `parse_set` for the SSML mode.
ssml_done :
    (env : Environment) (fd : ℕ) (mode : DataMode) (buf : Bytes) (s : Server)
    → get_param env.strdown buf 3 true ≡ some (map small (mode_text mode))
    → Answered
        (set_named env.strdown env.default_module env.fnmatch env.specific env.debug_destination
          (map small ssml_name)
          self
          buf
          fd
          s)
        (set_for env.default_module self (Parameter.ssml_mode mode) fd s)
unfolding set_named on_off reply_text ret_ok get_err_code
ssml_done env fd data_text buf s low =
    answered err_couldnt_set_ssml_mode ok_ssml_mode_set (rw (low, set_named) refl) (tt, tt)
      (refl, refl)
ssml_done env fd data_ssml buf s low =
    answered err_couldnt_set_ssml_mode ok_ssml_mode_set (rw (low, set_named) refl) (tt, tt)
      (refl, refl)

data_mode_command-text :
    (mode : DataMode)
    → data_mode_command mode ≡ set_command (target_text for_self) ssml_name (mode_text mode)
unfolding data_mode_command
data_mode_command-text data_text = refl
data_mode_command-text data_ssml = refl

-- A client in command mode sets its data mode. The call ends; it does to the server what the
-- setter of the client's own SSML mode does, and nothing else, and returns 0 if the setter returned 0,
-- and -1 otherwise.
pub spd_set_data_mode-set_for :
    (env : Environment) (fd : ℕ) (mode : DataMode) (s : Server)
    → LowersAscii env.strdown
    → (s.sockets fd).awaiting_data ≡ false
    → spd_set_data_mode env fd mode (idle s)
      ≡ returned (set_for env.default_module self (Parameter.ssml_mode mode) fd s)
unfolding spd_set_data_mode
spd_set_data_mode-set_for env fd mode s lowers ready =
    let n = known-QuietWord _ _ ssml_name refl refl in
    let v = mode_text-QuietWord mode in
    let command = set_command (target_text for_self) ssml_name (mode_text mode) in
    let buf = command_line command in
    let reads = set_line-ReadsSet env.strdown for_self ssml_name (mode_text mode) lowers n.0 v.0 in
    rw (data_mode_command-text mode) (
      told-returned env fd command s (set_command-quiet for_self ssml_name (mode_text mode) n v) _ _
        (ssml_done env fd mode buf s reads.lowered)
        (parse-ReadsSet env fd s ready self ssml_name (mode_text mode) buf reads))
