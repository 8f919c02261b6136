-- ===== src/Settings/Naming.antt =====
-- SET CLIENT_NAME: `set_client_name_self` and `update_cl_settings` of src/server/set.c. Whether a name
-- matches a pattern is asked of the library: `fnmatch`.
use mathlib.Core.Path.{subst}
use opentts.Prelude.{
  ℕ, suc, ◌+◌, ◌≡◌, refl, Bool, true, false, List, [], ◌∷◌, Option, none, some, ◌==◌, if◌then◌else◌,
  arith,
}
use opentts.Prelude.Int.{ℤ}
use opentts.Types.{
  Bytes, Punctuation, Spelling, VoiceType, CapitalLetters, DataMode, Settings, Server,
}
use opentts.Clients.{get_client_uid_by_fd, get_client_settings_by_fd, put_settings}

-- TFDSetClientSpecific. `none` is the value that stands for "not given": one below the minimum, -1,
-- or NULL.
pub record ClientSpecific : Type 0 where
  pub pattern : Bytes
  pub rate : Option ℤ
  pub pitch : Option ℤ
  pub volume : Option ℤ
  pub punctuation_mode : Option Punctuation
  pub spelling_mode : Option Spelling
  pub voice_type : Option VoiceType
  pub cap_let_recogn : Option CapitalLetters
  pub pause_context : Option ℤ
  pub ssml_mode : Option DataMode
  pub language : Option Bytes
  pub output_module : Option Bytes

-- CHECK_SET_PAR and CHECK_SET_PAR_STR.
abbrev pub check_set {ℓ} : {A : Type ℓ} → Option A → A → A
check_set none old = old
check_set (some new) old = new

abbrev pub check_set_str : Option Bytes → Option Bytes → Option Bytes
check_set_str none old = old
check_set_str (some new) old = some new

-- The number of colons of a name.
abbrev pub dividers : Bytes → ℕ
dividers [] = 0
dividers (c ∷ cs) = (if c == b':' then 1 else 0) + dividers cs

abbrev pub is_empty : Bytes → Bool
is_empty [] = true
is_empty (c ∷ cs) = false

-- The settings of a client with the values that are given.
abbrev fitted : ClientSpecific → Settings → Settings
fitted cl_set set = record set {
  rate = check_set cl_set.rate set.rate;
  pitch = check_set cl_set.pitch set.pitch;
  volume = check_set cl_set.volume set.volume;
  punctuation_mode = check_set cl_set.punctuation_mode set.punctuation_mode;
  spelling_mode = check_set cl_set.spelling_mode set.spelling_mode;
  voice_type = check_set cl_set.voice_type set.voice_type;
  cap_let_recogn = check_set cl_set.cap_let_recogn set.cap_let_recogn;
  pause_context = check_set cl_set.pause_context set.pause_context;
  ssml_mode = check_set cl_set.ssml_mode set.ssml_mode;
  language = check_set_str cl_set.language set.language;
  output_module = check_set_str cl_set.output_module set.output_module;
}

module _ (fnmatch : Bytes → Option Bytes → Bool) where
  unfoldable pub update_cl_settings : ClientSpecific → Settings → Settings
  update_cl_settings cl_set set =
      if fnmatch cl_set.pattern set.client_name then fitted cl_set set else set

  -- `g_list_foreach(client_specific_settings, update_cl_settings, settings)`.
  unfoldable pub update_all : List ClientSpecific → Settings → Settings
  unfolding update_cl_settings
  update_all [] set = set
  update_all (cl_set ∷ specific) set = update_all specific (update_cl_settings cl_set set)

  -- `none`: with an empty name the loop over its characters starts at the index `strlen - 1`, which
  -- has wrapped around, and leaves the name.
  unfoldable pub set_client_name_self :
      List ClientSpecific → ℤ → Bytes → Server → Option (ℕ × Server)
  unfolding get_client_settings_by_fd update_all
  set_client_name_self specific fd name s = elim (get_client_settings_by_fd s fd) [
    | none ↦ some (1, s)
    | some client ↦
        if is_empty name
        then none
        else if dividers name == 2
        then some (
          0,
          put_settings (get_client_uid_by_fd s fd)
              (update_all specific (record client { client_name = some name })) s,
        )
        else some (1, s)
  ]

  -- What the last entry with a pattern for the name gives, or else `old`.
  abbrev last_given {ℓ} :
      {A : Type ℓ} → (ClientSpecific → Option A) → Option Bytes → List ClientSpecific → A → A
  last_given get name [] old = old
  last_given get name (x ∷ specific) old =
      last_given get name specific (if fnmatch x.pattern name then check_set (get x) old else old)

  -- The same for a text: an entry gives it, or leaves what was there.
  abbrev last_given_str :
      (ClientSpecific → Option Bytes)
      → Option Bytes
      → List ClientSpecific
      → Option Bytes
      → Option Bytes
  last_given_str get name [] old = old
  last_given_str get name (x ∷ specific) old =
      last_given_str get name specific
        (if fnmatch x.pattern name then check_set_str (get x) old else old)

  -- The settings of a client that has taken a name: for each parameter that the configuration knows
  -- for names, the last value given for a pattern that fits; all else as before.
  pub record Named (specific : List ClientSpecific) (old new : Settings) : Type 0 where
    pub rate : new.rate ≡ last_given (λ x. x.rate) old.client_name specific old.rate
    pub pitch : new.pitch ≡ last_given (λ x. x.pitch) old.client_name specific old.pitch
    pub volume : new.volume ≡ last_given (λ x. x.volume) old.client_name specific old.volume
    pub voice_type :
        new.voice_type ≡ last_given (λ x. x.voice_type) old.client_name specific old.voice_type
    pub pause_context :
        new.pause_context
        ≡ last_given (λ x. x.pause_context) old.client_name specific old.pause_context
    pub punctuation_mode :
        new.punctuation_mode
        ≡ last_given (λ x. x.punctuation_mode) old.client_name specific old.punctuation_mode
    pub spelling_mode :
        new.spelling_mode
        ≡ last_given (λ x. x.spelling_mode) old.client_name specific old.spelling_mode
    pub cap_let_recogn :
        new.cap_let_recogn
        ≡ last_given (λ x. x.cap_let_recogn) old.client_name specific old.cap_let_recogn
    pub ssml_mode :
        new.ssml_mode ≡ last_given (λ x. x.ssml_mode) old.client_name specific old.ssml_mode
    pub language :
        new.language ≡ last_given_str (λ x. x.language) old.client_name specific old.language
    pub output_module :
        new.output_module
        ≡ last_given_str (λ x. x.output_module) old.client_name specific old.output_module
    pub kept : new ≡ record old {
      rate = new.rate;
      pitch = new.pitch;
      volume = new.volume;
      punctuation_mode = new.punctuation_mode;
      spelling_mode = new.spelling_mode;
      voice_type = new.voice_type;
      cap_let_recogn = new.cap_let_recogn;
      pause_context = new.pause_context;
      ssml_mode = new.ssml_mode;
      language = new.language;
      output_module = new.output_module;
    }

  update_all-Named :
      (specific : List ClientSpecific) (set : Settings)
      → Named specific set (update_all specific set)
  unfolding update_all
  update_all-Named [] set = record {
    rate = refl;
    pitch = refl;
    volume = refl;
    voice_type = refl;
    pause_context = refl;
    punctuation_mode = refl;
    spelling_mode = refl;
    cap_let_recogn = refl;
    ssml_mode = refl;
    language = refl;
    output_module = refl;
    kept = refl;
  }
  update_all-Named (x ∷ specific) set =
      first_entry (fnmatch x.pattern set.client_name) refl
        (update_all-Named specific (update_cl_settings x set))
    where
      first_entry :
          (b : Bool)
          → fnmatch x.pattern set.client_name ≡ b
          → Named specific
              (update_cl_settings x set)
              (update_all specific (update_cl_settings x set))
          → Named (x ∷ specific) set (update_all specific (update_cl_settings x set))
      first_entry true e ih =
          let upd : update_cl_settings x set ≡ fitted x set = rw (e, update_cl_settings) in
          let later = subst (λ y. Named specific y (update_all specific y)) upd ih in
          rw upd (record {
            rate = rw e later.rate;
            pitch = rw e later.pitch;
            volume = rw e later.volume;
            voice_type = rw e later.voice_type;
            pause_context = rw e later.pause_context;
            punctuation_mode = rw e later.punctuation_mode;
            spelling_mode = rw e later.spelling_mode;
            cap_let_recogn = rw e later.cap_let_recogn;
            ssml_mode = rw e later.ssml_mode;
            language = rw e later.language;
            output_module = rw e later.output_module;
            kept = later.kept;
          })
      first_entry false e ih =
          let upd : update_cl_settings x set ≡ set = rw (e, update_cl_settings) in
          let later = subst (λ y. Named specific y (update_all specific y)) upd ih in
          rw upd (record {
            rate = rw e later.rate;
            pitch = rw e later.pitch;
            volume = rw e later.volume;
            voice_type = rw e later.voice_type;
            pause_context = rw e later.pause_context;
            punctuation_mode = rw e later.punctuation_mode;
            spelling_mode = rw e later.spelling_mode;
            cap_let_recogn = rw e later.cap_let_recogn;
            ssml_mode = rw e later.ssml_mode;
            language = rw e later.language;
            output_module = rw e later.output_module;
            kept = later.kept;
          })

  -- SET CLIENT_NAME of a connected client, with a name that has exactly two colons: it succeeds, the
  -- client gets the name, and for each parameter the last value that the configuration gives for a
  -- pattern that fits the name; its other settings and the other clients' are as before.
  pub set_client_name_self-Named :
      (specific : List ClientSpecific) (fd : ℤ) (name : Bytes) (uid : ℕ) (c : Settings) (s : Server)
      → get_client_uid_by_fd s fd ≡ suc uid
      → s.fd_settings (suc uid) ≡ some c
      → is_empty name ≡ false
      → dividers name ≡ 2
      → (new : Settings) × (set_client_name_self specific fd name s
          ≡ some (0, put_settings (suc uid) new s))
        × Named specific (record c { client_name = some name }) new
  unfolding set_client_name_self get_client_settings_by_fd
  set_client_name_self-Named specific fd name uid c s known there given colons =
      let named : Settings = record c { client_name = some name } in
      let busy : (get_client_uid_by_fd s fd == 0) ≡ false = ground (arith, known) in
      let two : (dividers name == 2) ≡ true = ground (arith, colons) in
      (
        update_all specific named,
        rw (busy, known, there, given, two, set_client_name_self) (rw known refl),
        update_all-Named specific named,
      )
