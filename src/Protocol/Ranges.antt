-- ===== src/Protocol/Ranges.antt =====
-- SET and the bounds of rate, pitch and volume: `parse_set` of src/server/parse.c.
pub mod Kept
use opentts.Prelude.{
  ℕ, zero, suc, ◌+◌, ◌≡◌, refl, inl, inr, Bool, true, false, List, [], ◌∷◌, Option, none, some,
  ◌==◌, if◌then◌else◌, ltb, arith, String, Bool-cases, Option-cases, codes,
}
use mathlib.Core.Path.{subst}
use opentts.Prelude.Int.{ℤ, pos, negsuc, ltb_ℤ}
use opentts.Types.{Bytes, Priority, spell_on, spell_off, data_text, data_ssml, Settings, Server}
use opentts.Messages.{Answer, err_couldnt_set_pause_context, ok_pause_context_set}
use opentts.Clients.{
  update, put_settings, get_client_uid_by_fd, get_client_settings_by_uid, get_client_settings_by_fd,
  each_client,
}
use opentts.Settings.{
  same_text, out_of_range, Parameter, rate, pitch, volume, voice, language, synthesis_voice,
  output_module, punctuation_mode, capital_letter_recognition, pause_context, spelling, ssml_mode,
  change, set_priority_uid, set_priority_self, set_self, set_uid, set_all,
}
use opentts.Settings.Naming.{
  ClientSpecific, check_set, update_cl_settings, update_all, is_empty, dividers,
  set_client_name_self,
}
use opentts.Settings.Notifications.{flags_of, set_notification_self}
use opentts.Settings.Debug.{set_debug_uid, set_debug_self, set_debug_all}
use opentts.Settings.Range.{Bounded, InRange, set-InRange}
use opentts.Protocol.{get_param, isanum, atoi}
use opentts.Protocol.Set.{
  Who, self, all, client, who_of, priority_of, punctuation_of, recognition_of, on_off, Outcome,
  answer, check_param, outside_block, check_number, check_value, only_self, check_range, set_for,
  set_debug, set_range, set_text, set_priority, set_client_name, set_punctuation, set_recognition,
  set_pause_context, set_on_off, set_notification, set_named, parse_set,
}
use opentts.Protocol.Ranges.Kept.{
  AllSound, Keeps, answer-Keeps, if-Keeps, named-Keeps, same-Keeps, check_param-Keeps,
  check_value-Keeps, check_number-Keeps, outside_block-Keeps, only_self-Keeps, check_range-Keeps,
  set_priority_self-InRange, set_notification_self-InRange, set_debug-InRange, set_for-InRange,
  set_client_name_self-Stays,
}

module _ (s : Server) (fine : InRange s) where
  module _ (strdown : Bytes → Bytes) (default_module : Bytes → Option Bytes)
      (fnmatch : Bytes → Option Bytes → Bool) (specific : List ClientSpecific)
      (debug_destination : Bytes) (sound : AllSound specific) (who : Who) (buf : Bytes)
      (fd : ℕ) where
    -- The reply and the state that a setter gives.
    told-Keeps :
        (p : Parameter) (err ok : Answer)
        → Keeps (answer err ok (set_for default_module who p fd s))
    told-Keeps p err ok =
        answer-Keeps err ok (set_for default_module who p fd s)
          (set_for-InRange s fine default_module who p fd)

    set_range-Keeps :
        (param : ℤ → Parameter) (low high err ok : Answer)
        → Keeps (
            set_range strdown default_module fnmatch specific debug_destination param low high err
              ok who buf fd s)
    unfolding set_range
    set_range-Keeps param low high err ok =
        check_number-Keeps s fine (get_param strdown buf 3 false) _
          (λ v. check_range-Keeps s fine v low high _ (told-Keeps (param v) err ok))

    set_text-Keeps :
        (param : Bytes → Parameter) (err ok : Answer)
        → Keeps (
            set_text strdown default_module fnmatch specific debug_destination param err ok who buf
              fd s)
    unfolding set_text
    set_text-Keeps param err ok =
        check_param-Keeps s fine (get_param strdown buf 3 true) _ (λ w. told-Keeps (param w) err ok)

    set_priority-Keeps :
        Keeps (set_priority strdown default_module fnmatch specific debug_destination who buf fd s)
    unfolding set_priority
    set_priority-Keeps = outside_block-Keeps s fine fd _ (
        only_self-Keeps s fine who _ _ (
          check_param-Keeps s fine (get_param strdown buf 3 true) _ (λ w.
            check_value-Keeps s fine (priority_of w) _ _ (λ prio.
              answer-Keeps _ _ (set_priority_self (pos fd) prio s)
                (set_priority_self-InRange s fine (pos fd) prio)))))

    set_client_name-Keeps :
        Keeps
          (set_client_name strdown default_module fnmatch specific debug_destination who buf fd s)
    unfolding set_client_name
    set_client_name-Keeps = outside_block-Keeps s fine fd _ (
        only_self-Keeps s fine who _ _ (
          check_param-Keeps s fine (get_param strdown buf 3 true) _ (λ w.
            named-Keeps (set_client_name_self fnmatch specific (pos fd) w s) _ _
              (set_client_name_self-Stays s fine fnmatch specific (pos fd) w sound))))

    set_punctuation-Keeps :
        Keeps
          (set_punctuation strdown default_module fnmatch specific debug_destination who buf fd s)
    unfolding set_punctuation
    set_punctuation-Keeps = outside_block-Keeps s fine fd _ (
        check_param-Keeps s fine (get_param strdown buf 3 true) _ (λ w.
          check_value-Keeps s fine (punctuation_of w) _ _
            (λ mode. told-Keeps (punctuation_mode mode) _ _)))

    set_recognition-Keeps :
        Keeps
          (set_recognition strdown default_module fnmatch specific debug_destination who buf fd s)
    unfolding set_recognition
    set_recognition-Keeps = outside_block-Keeps s fine fd _ (
        check_param-Keeps s fine (get_param strdown buf 3 true) _ (λ w.
          check_value-Keeps s fine (recognition_of w) _ _
            (λ mode. told-Keeps (capital_letter_recognition mode) _ _)))

    set_pause_context-Keeps :
        Keeps
          (set_pause_context strdown default_module fnmatch specific debug_destination who buf fd s)
    unfolding set_pause_context
    set_pause_context-Keeps =
        check_number-Keeps s fine (get_param strdown buf 3 false) _
          (λ v. told-Keeps (pause_context v) err_couldnt_set_pause_context ok_pause_context_set)

    set_on_off-Keeps :
        (setter : Bool → ℕ × Server) (err ok : Answer)
        → ((on : Bool) → InRange (setter on).1)
        → Keeps (
            set_on_off strdown default_module fnmatch specific debug_destination buf setter err ok
              s)
    set_on_off-Keeps setter err ok kept =
        check_param-Keeps s fine (get_param strdown buf 3 true) _ (λ w.
          check_value-Keeps s fine (on_off w) _ _ (λ on. answer-Keeps err ok (setter on) (kept on)))

    set_notification-Keeps :
        Keeps
          (set_notification strdown default_module fnmatch specific debug_destination who buf fd s)
    unfolding set_notification
    set_notification-Keeps = only_self-Keeps s fine who _ _ (
        check_param-Keeps s fine (get_param strdown buf 3 true) _ (λ scope.
          check_param-Keeps s fine (get_param strdown buf 4 true) _ (λ w.
            check_value-Keeps s fine (on_off w) _ _ (λ on.
              answer-Keeps _ _ (set_notification_self (pos fd) scope on s)
                (set_notification_self-InRange s fine (pos fd) scope on)))))

    set_named-Keeps :
        (set_sub : Bytes)
        → Keeps (
            set_named strdown default_module fnmatch specific debug_destination set_sub who buf fd
              s)
    unfolding set_named
    set_named-Keeps set_sub = named "priority" _ _ set_priority-Keeps (
        named "language" _ _ (set_text-Keeps language _ _) (
          named "synthesis_voice" _ _ (set_text-Keeps synthesis_voice _ _) (
            named "client_name" _ _ set_client_name-Keeps (
              named "rate" _ _ (set_range-Keeps rate _ _ _ _) (
                named "pitch" _ _ (set_range-Keeps pitch _ _ _ _) (
                  named "volume" _ _ (set_range-Keeps volume _ _ _ _) (
                    named "voice" _ _ (set_text-Keeps voice _ _) (
                      named "punctuation" _ _ set_punctuation-Keeps (
                        named "output_module" _ _
                          (outside_block-Keeps s fine fd _ (set_text-Keeps output_module _ _))
                          (named "cap_let_recogn" _ _ set_recognition-Keeps (
                            named "pause_context" _ _ set_pause_context-Keeps (
                              named "spelling" _ _
                                (outside_block-Keeps s fine fd _ (
                                  set_on_off-Keeps
                                    (λ on.
                                      set_for default_module who
                                        (spelling (if on then spell_on else spell_off)) fd s)
                                    _ _ (λ on. set_for-InRange s fine default_module who _ fd)))
                                (named "ssml_mode" _ _
                                  (set_on_off-Keeps
                                    (λ on.
                                      set_for default_module who
                                        (ssml_mode (if on then data_ssml else data_text)) fd s)
                                    _ _ (λ on. set_for-InRange s fine default_module who _ fd))
                                  (named "debug" _ _
                                    (set_on_off-Keeps (λ on. set_debug who on fd s) _ _
                                      (λ on. set_debug-InRange s fine who on fd))
                                    (named "notification" _ _ set_notification-Keeps
                                      (same-Keeps s fine _))))))))))))))))
      where
        named :
            (w : String) (x y : Outcome)
            → Keeps x
            → Keeps y
            → Keeps (if same_text set_sub (codes w) then x else y)
        named w x y kx ky = if-Keeps (same_text set_sub (codes w)) x y kx ky

parse_set-Keeps :
    (strdown : Bytes → Bytes) (default_module : Bytes → Option Bytes)
    (fnmatch : Bytes → Option Bytes → Bool) (specific : List ClientSpecific)
    (debug_destination : Bytes) (buf : Bytes) (fd : ℕ) (s : Server)
    → AllSound specific
    → InRange s
    → Keeps (parse_set strdown default_module fnmatch specific debug_destination buf fd s)
unfolding parse_set
parse_set-Keeps strdown default_module fnmatch specific debug_destination buf fd s sound fine =
    check_param-Keeps s fine (get_param strdown buf 1 true) _ (λ who_s.
      check_value-Keeps s fine (who_of who_s) _ _ (λ who.
        check_param-Keeps s fine (get_param strdown buf 2 true) _ (λ set_sub.
          set_named-Keeps s fine strdown default_module fnmatch specific debug_destination sound who
            buf fd set_sub)))

Keeps-some : (o : Outcome) (a : Answer) (t : Server) → o ≡ some (a, t) → Keeps o → InRange t
unfolding Keeps
Keeps-some none a t e kept = absurd (cc)
Keeps-some (some (b, u)) a t e kept = let same : u ≡ t = cc in subst InRange same kept

-- If rate, pitch and volume of all clients are between -100 and 100, and so is what the configuration
-- gives for the names of clients, they are so after any line that starts with SET and gets a reply,
-- whatever stands in it, from whatever client.
pub parse_set-InRange :
    (strdown : Bytes → Bytes) (default_module : Bytes → Option Bytes)
    (fnmatch : Bytes → Option Bytes → Bool) (specific : List ClientSpecific)
    (debug_destination : Bytes) (buf : Bytes) (fd : ℕ) (s : Server)
    → AllSound specific
    → InRange s
    → (a : Answer) (t : Server)
    → parse_set strdown default_module fnmatch specific debug_destination buf fd s ≡ some (a, t)
    → InRange t
parse_set-InRange strdown default_module fnmatch specific debug_destination buf fd s sound fine a t
      e =
    Keeps-some _ a t e (
      parse_set-Keeps strdown default_module fnmatch specific debug_destination buf fd s sound fine)
