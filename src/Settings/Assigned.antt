-- ===== src/Settings/Assigned.antt =====
-- What a setter does to the settings of one client, and of the others.
use opentts.Prelude.{
  ℕ, ◌≡◌, refl, ◌∙◌, ap, inl, inr, Bool, true, false, not, Option, none, some, ◌==◌, if◌then◌else◌,
  arith, Bool-cases, Option-cases,
}
use opentts.Prelude.Int.{pos}
use opentts.Types.{Bytes, VoiceType, no_voice, Settings, Server}
use opentts.Clients.{put_settings, get_client_settings_by_uid}
use opentts.Settings.{
  out_of_range, change, voice_of_name, set_output_module_uid, set_rate_uid, set_pitch_uid,
  set_volume_uid, set_voice_uid, set_punctuation_mode_uid, set_capital_letter_recognition_uid,
  set_spelling_uid, set_synthesis_voice_uid, set_pause_context_uid, set_ssml_mode_uid, Parameter,
  rate, pitch, volume, pause_context, voice, language, synthesis_voice, output_module,
  punctuation_mode, capital_letter_recognition, spelling, ssml_mode, set_language_uid, set_uid,
}

-- Is it a value that the setters take?
abbrev pub valid : Parameter → Bool
valid (rate v) = not (out_of_range v)
valid (pitch v) = not (out_of_range v)
valid (volume v) = not (out_of_range v)
valid (voice v) = elim (voice_of_name v) [ none ↦ false | some _ ↦ true ]
valid _ = true

abbrev pub map_settings : (Settings → Settings) → Option Settings → Option Settings
map_settings f none = none
map_settings f (some c) = some (f c)

-- From `s` to `t` the settings of client `u` go through `f`, and nothing else changes.
pub record Changed (u : ℕ) (f : Settings → Settings) (s t : Server) : Type 0 where
  pub at :
      (j : ℕ)
      → t.fd_settings j ≡ (if u == j then map_settings f (s.fd_settings j) else s.fd_settings j)
  pub rest : t ≡ record s { fd_settings = t.fd_settings }

-- The code that the setters return: 0 for a client that is there.
abbrev pub code_of : Option Settings → ℕ
code_of none = 1
code_of (some c) = 0

-- The settings of one client are exchanged.
put_settings-Changed :
    (u : ℕ) (f : Settings → Settings) (c : Settings) (s : Server)
    → s.fd_settings u ≡ some c
    → Changed u f s (put_settings u (f c) s)
unfolding put_settings
put_settings-Changed u f c s e = record {
  at = λ j. elim (Bool-cases (u == j)) [
    | inl same ↦ rw same (found j (ground arith))
    | inr other ↦ rw other
  ];
  rest = refl;
}
  where
    found : (j : ℕ) → u ≡ j → some (f c) ≡ map_settings f (s.fd_settings j)
    found j same = rw (← same, e) refl

gone-Changed :
    (u : ℕ) (f : Settings → Settings) (s : Server) → s.fd_settings u ≡ none → Changed u f s s
gone-Changed u f s e = record {
  at = λ j. elim (Bool-cases (u == j)) [
    | inl same ↦ rw same (found j (ground arith))
    | inr other ↦ rw other
  ];
  rest = refl;
}
  where
    found : (j : ℕ) → u ≡ j → s.fd_settings j ≡ map_settings f (s.fd_settings j)
    found j same = rw (← same, e) refl

pub change-Changed :
    (u : ℕ) (f : Settings → Settings) (s : Server)
    → ((change (pos u) f s).0 ≡ code_of (s.fd_settings u)) × Changed u f s (change (pos u) f s).1
unfolding change get_client_settings_by_uid
change-Changed u f s = elim (Option-cases (s.fd_settings u)) [
  | inl gone ↦ rw (gone, change) (refl, gone-Changed u f s gone)
  | inr (c, e) ↦ rw (e, change) (refl, put_settings-Changed u f c s e)
]

Changed-trans :
    (u : ℕ) (f g : Settings → Settings) (s t r : Server)
    → Changed u f s t
    → Changed u g t r
    → Changed u (λ c. g (f c)) s r
Changed-trans u f g s t r a b = record {
  at = λ j. elim (Bool-cases (u == j)) [
    | inl same ↦ b.at j ∙ rw same (ap (map_settings g) (a.at j ∙ rw same) ∙ twice (s.fd_settings j))
    | inr other ↦ b.at j ∙ rw other (a.at j ∙ rw other)
  ];
  rest = b.rest ∙ ap onto a.rest;
}
  where
    onto : Server → Server
    onto x = record x { fd_settings = r.fd_settings }

    twice :
        (o : Option Settings) → map_settings g (map_settings f o) ≡ map_settings (λ c. g (f c)) o
    twice none = refl
    twice (some c) = refl

abbrev with_voice : Option VoiceType → Settings → Settings
with_voice none c = c
with_voice (some type) c = record c { voice_type = type; voice_name = none }

abbrev with_module : Option Bytes → Settings → Settings
with_module none c = c
with_module (some m) c = record c { output_module = some m; voice_name = none }

module _ (default_module : Bytes → Option Bytes) where
  -- What a parameter means for the settings of a client.
  abbrev pub assigned : Parameter → Settings → Settings
  assigned (rate v) c = record c { rate = v }
  assigned (pitch v) c = record c { pitch = v }
  assigned (volume v) c = record c { volume = v }
  assigned (pause_context v) c = record c { pause_context = v }
  assigned (voice v) c = with_voice (voice_of_name v) c
  assigned (language v) c = with_module (default_module v) (record c { language = some v })
  assigned (synthesis_voice v) c = record c { voice_name = some v; voice_type = no_voice }
  assigned (output_module v) c = record c { output_module = some v; voice_name = none }
  assigned (punctuation_mode v) c = record c { punctuation_mode = v }
  assigned (capital_letter_recognition v) c = record c { cap_let_recogn = v }
  assigned (spelling v) c = record c { spelling_mode = v }
  assigned (ssml_mode v) c = record c { ssml_mode = v }

  pub assigned-twice : (p : Parameter) (c : Settings) → assigned p (assigned p c) ≡ assigned p c
  assigned-twice (voice v) c = twice (voice_of_name v)
    where
      twice : (o : Option VoiceType) → with_voice o (with_voice o c) ≡ with_voice o c
      twice none = refl
      twice (some x) = refl
  assigned-twice (language v) c = twice (default_module v)
    where
      spoken : Settings → Settings
      spoken x = record x { language = some v }

      twice :
          (o : Option Bytes)
          → with_module o (spoken (with_module o (spoken c))) ≡ with_module o (spoken c)
      twice none = refl
      twice (some m) = refl
  assigned-twice (rate v) c = refl
  assigned-twice _ c = refl

  -- What a setter does for a client number: its code, and its work.
  abbrev Does : (Settings → Settings) → ℕ → Server → ℕ × Server → Type 0
  Does f u s r = (r.0 ≡ code_of (s.fd_settings u)) × Changed u f s r.1

  voice-Does :
      (o : Option VoiceType) (u : ℕ) (s : Server)
      → elim o [ none ↦ false | some _ ↦ true ] ≡ true
      → Does (with_voice o) u s (elim o [
        | none ↦ (1, s)
        | some type ↦ change (pos u) (λ c. record c { voice_type = type; voice_name = none }) s
      ])
  voice-Does none u s h = absurd (cc)
  voice-Does (some type) u s h = change-Changed u (with_voice (some type)) s

  speaks : Bytes → Settings → Settings
  speaks v c = record c { language = some v }

  -- The output module that the language brings.
  module-Does :
      (o : Option Bytes) (v : Bytes) (u : ℕ) (c : Settings) (s : Server)
      → s.fd_settings u ≡ some c
      → Does
          (λ x. with_module o (speaks v x))
          u
          s
          (let s1 = put_settings u (speaks v c) s in
            elim o [ none ↦ (0, s1) | some m ↦ (0, (set_output_module_uid (pos u) m s1).1) ])
  unfolding set_output_module_uid
  module-Does none v u c s e = (rw e refl, put_settings-Changed u (speaks v) c s e)
  module-Does (some m) v u c s e =
      let s1 = put_settings u (speaks v c) s in
      (
        rw e refl,
        Changed-trans u (speaks v) (with_module (some m)) s s1 _
            (put_settings-Changed u (speaks v) c s e)
            (change-Changed u (with_module (some m)) s1).1,
      )

  set_language_uid-Changed :
      (v : Bytes) (u : ℕ) (s : Server)
      → Does (assigned (language v)) u s (set_language_uid default_module (pos u) v s)
  unfolding set_language_uid get_client_settings_by_uid speaks
  set_language_uid-Changed v u s = elim (Option-cases (s.fd_settings u)) [
    | inl gone ↦ rw (gone, set_language_uid) (refl, gone-Changed u (assigned (language v)) s gone)
    | inr (c, e) ↦
        let done = module-Does (default_module v) v u c s e in
        rw (e, set_language_uid) (rw e at done)
  ]

  pub set_uid-Changed :
      (p : Parameter) (u : ℕ) (s : Server)
      → valid p ≡ true
      → Does (assigned p) u s (set_uid default_module p (pos u) s)
  unfolding set_uid set_rate_uid set_pitch_uid set_volume_uid set_voice_uid set_punctuation_mode_uid
      set_capital_letter_recognition_uid set_spelling_uid set_synthesis_voice_uid
      set_pause_context_uid set_ssml_mode_uid set_output_module_uid
  set_uid-Changed (rate v) u s h =
      let e : out_of_range v ≡ false = ground arith in
      rw (e, set_rate_uid) (change-Changed u (assigned (rate v)) s)
  set_uid-Changed (pitch v) u s h =
      let e : out_of_range v ≡ false = ground arith in
      rw (e, set_pitch_uid) (change-Changed u (assigned (pitch v)) s)
  set_uid-Changed (volume v) u s h =
      let e : out_of_range v ≡ false = ground arith in
      rw (e, set_volume_uid) (change-Changed u (assigned (volume v)) s)
  set_uid-Changed (voice v) u s h = voice-Does (voice_of_name v) u s h
  set_uid-Changed (language v) u s h = set_language_uid-Changed v u s
  set_uid-Changed (output_module v) u s h = change-Changed u (assigned (output_module v)) s
  set_uid-Changed p u s h = change-Changed u (assigned p) s
