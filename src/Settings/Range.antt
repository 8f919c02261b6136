-- ===== src/Settings/Range.antt =====
-- The bounds of rate, pitch and volume hold whatever clients ask for.
use mathlib.Core.Path.{subst}
use opentts.Prelude.{
  ℕ, zero, suc, ◌+◌, ◌≡◌, refl, sym, ◌∙◌, inl, inr, true, false, Option, none, some, ◌==◌, arith,
  Bool-cases, Option-cases,
}
use opentts.Prelude.Int.{ℤ, pos, negsuc}
use opentts.Types.{Bytes, VoiceType, Settings, Server}
use opentts.Clients.{get_client_settings_by_uid, get_client_uid_by_fd, each_client}
use opentts.Settings.{
  out_of_range, change, voice_of_name, set_rate_uid, set_pitch_uid, set_volume_uid, set_voice_uid,
  set_punctuation_mode_uid, set_capital_letter_recognition_uid, set_spelling_uid,
  set_output_module_uid, set_synthesis_voice_uid, set_pause_context_uid, set_ssml_mode_uid,
  Parameter, rate, pitch, volume, voice, language, set_language_uid, set_uid, set_self, set_all,
}
use opentts.Settings.Assigned.{valid, map_settings, Changed, assigned, set_uid-Changed}

abbrev pub Bounded : Settings → Type 0
Bounded c =
    (out_of_range c.rate ≡ false) × (out_of_range c.pitch ≡ false) × (out_of_range c.volume ≡ false)

abbrev pub InRange : Server → Type 0
InRange s = (uid : ℕ) (c : Settings) → s.fd_settings uid ≡ some c → Bounded c

Changed-InRange :
    (u : ℕ) (f : Settings → Settings) (s t : Server)
    → Changed u f s t
    → ((c : Settings) → Bounded c → Bounded (f c))
    → InRange s
    → InRange t
Changed-InRange u f s t changed keeps fine uid c e = elim (Bool-cases (u == uid)) [
  | inl same ↦ mapped (s.fd_settings uid) refl (sym (changed.at uid ∙ rw same) ∙ e)
  | inr other ↦ fine uid c (sym (changed.at uid ∙ rw other) ∙ e)
]
  where
    mapped : (o : Option Settings) → s.fd_settings uid ≡ o → map_settings f o ≡ some c → Bounded c
    mapped none from h = absurd (cc)
    mapped (some old) from h =
        let same : f old ≡ c = cc in subst Bounded same (keeps old (fine uid old from))

module _ (default_module : Bytes → Option Bytes) where
  assigned-Bounded :
      (p : Parameter) (c : Settings)
      → valid p ≡ true
      → Bounded c
      → Bounded (assigned default_module p c)
  assigned-Bounded (rate v) c h b = (ground arith, b.1, b.2)
  assigned-Bounded (pitch v) c h b = (b.0, ground arith, b.2)
  assigned-Bounded (volume v) c h b = (b.0, b.1, ground arith)
  assigned-Bounded (voice v) c h b = elim (Option-cases (voice_of_name v)) [
    | inl e ↦ rw e b
    | inr (x, e) ↦ rw e b
  ]
  assigned-Bounded (language v) c h b = elim (Option-cases (default_module v)) [
    | inl e ↦ rw e b
    | inr (x, e) ↦ rw e b
  ]
  assigned-Bounded _ c h b = b

  set_uid_refused :
      (p : Parameter) (uid : ℤ) (s : Server)
      → valid p ≡ false
      → set_uid default_module p uid s ≡ (1, s)
  unfolding set_uid set_rate_uid set_pitch_uid set_volume_uid set_voice_uid
  set_uid_refused (rate v) uid s h = let e : out_of_range v ≡ true = ground arith in rw e
  set_uid_refused (pitch v) uid s h = let e : out_of_range v ≡ true = ground arith in rw e
  set_uid_refused (volume v) uid s h = let e : out_of_range v ≡ true = ground arith in rw e
  set_uid_refused (voice v) uid s h = unheard (voice_of_name v) uid s h
    where
      unheard :
          (o : Option VoiceType) (uid : ℤ) (s : Server)
          → elim o [ none ↦ false | some _ ↦ true ] ≡ false
          → ◌≡◌ {A = ℕ × Server}
              (elim o [
                | none ↦ (1, s)
                | some x ↦ change uid (λ c. record c { voice_type = x; voice_name = none }) s
              ])
              (1, s)
      unheard none uid s h = refl
      unheard (some x) uid s h = absurd (cc)
  set_uid_refused _ uid s h = absurd (cc)

  set_uid_nobody :
      (p : Parameter) (n : ℕ) (s : Server) → (set_uid default_module p (negsuc n) s).1 ≡ s
  unfolding set_uid set_rate_uid set_pitch_uid set_volume_uid set_voice_uid set_punctuation_mode_uid
      set_capital_letter_recognition_uid set_spelling_uid set_synthesis_voice_uid
      set_pause_context_uid set_ssml_mode_uid set_output_module_uid set_language_uid change
      get_client_settings_by_uid
  set_uid_nobody p n s = ground arith

  set_uid-InRange :
      (p : Parameter) (uid : ℤ) (s : Server)
      → InRange s
      → InRange (set_uid default_module p uid s).1
  set_uid-InRange p (negsuc n) s fine = rw (set_uid_nobody p n s) fine
  set_uid-InRange p (pos u) s fine = elim (Bool-cases (valid p)) [
    | inl allowed ↦
        Changed-InRange u (assigned default_module p) s _
          (set_uid-Changed default_module p u s allowed).1 (λ c b. assigned-Bounded p c allowed b)
          fine
    | inr refused ↦ rw (set_uid_refused p (pos u) s refused) fine
  ]

  set_self-InRange :
      (p : Parameter) (fd : ℤ) (s : Server) → InRange s → InRange (set_self default_module p fd s).1
  unfolding set_self
  set_self-InRange p fd s fine = elim (Bool-cases (get_client_uid_by_fd s fd == 0)) [
    | inl nobody ↦ rw (nobody, set_self) fine
    | inr somebody ↦
        rw (somebody, set_self) (set_uid-InRange p (pos (get_client_uid_by_fd s fd)) s fine)
  ]

  each_client-InRange :
      (p : Parameter) (n i : ℕ) (s : Server)
      → InRange s
      → InRange (each_client (λ uid. set_uid default_module p (pos uid)) n i s).1
  unfolding each_client
  each_client-InRange p zero i s fine = fine
  each_client-InRange p (suc n) i s fine = elim (Bool-cases (get_client_uid_by_fd s (pos i) == 0)) [
    | inl nobody ↦ rw nobody (each_client-InRange p n (i + 1) s fine)
    | inr somebody ↦
        let uid = get_client_uid_by_fd s (pos i) in
        rw somebody (each_client-InRange p n (i + 1) _ (set_uid-InRange p (pos uid) s fine))
  ]

  -- If rate, pitch and volume of all clients are between -100 and 100, they are so after any setting
  -- of a parameter, with whatever value, for the client itself, for one client or for all.
  pub set-InRange :
      (p : Parameter) (uid fd : ℤ) (s : Server)
      → InRange s
      → InRange (set_self default_module p fd s).1
        × InRange (set_uid default_module p uid s).1
        × InRange (set_all default_module p s).1
  unfolding set_all
  set-InRange p uid fd s fine = (
    set_self-InRange p fd s fine,
    set_uid-InRange p uid s fine,
    each_client-InRange p s.max_fd 1 s fine,
  )
