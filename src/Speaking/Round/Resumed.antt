-- ===== src/Speaking/Round/Resumed.antt =====
-- The paused list after a resume request.
use opentts.Prelude.{
  ℕ, zero, suc, ◌≤◌, ◌≡◌, refl, ◌∙◌, sym, ap, inl, inr, Bool, true, false, List, [], ◌∷◌, Option,
  none, some, length, arith, Bool-cases, Option-cases,
}
use opentts.Prelude.Int.{ℤ}
use opentts.Types.{Bytes, Event, Server}
use opentts.Clients.{get_client_settings_by_fd, get_client_uid_by_fd}
use opentts.Speaking.Select.{find_speakable, message_nto_speak}
use opentts.Speaking.Round.{reload_message, resume_rounds, handle_resume}
use opentts.Speaking.Round.Queued.{SameThread}
use opentts.Speaking.Round.Frame.{reload_message-SameThread}

-- A message that is found is taken out of the list.
find_speakable-length :
    (s : Server) (q : List ℕ) (p : ℕ) (rest : List ℕ)
    → find_speakable s q ≡ some (p, rest)
    → length q ≡ suc (length rest)
unfolding find_speakable
find_speakable-length s [] p rest h = absurd (ground (arith, h))
find_speakable-length s (a ∷ q) p rest h = elim (Bool-cases (message_nto_speak s a)) [
  | inl waits ↦ elim (Option-cases (find_speakable s q)) [
    | inl nothing ↦
        let clash : none ≡ some (p, rest) = rw (waits, nothing, find_speakable) at h in
        absurd (ground (arith, clash))
    | inr ((m, left), found) ↦
        let e : some (m, a ∷ left) ≡ some (p, rest) = rw (waits, found, find_speakable) at h in
        let shorter = find_speakable-length s q m left found in
        let same : a ∷ left ≡ rest = cc e in ap suc shorter ∙ ap (λ l. suc (length l)) same
  ]
  | inr heard ↦
      let e : some (a, q) ≡ some (p, rest) = rw (heard, find_speakable) at h in
      let same : q ≡ rest = cc e in ap (λ l. suc (length l)) same
]

find_speakable-empty : (s : Server) (q : List ℕ) → length q ≤ 0 → find_speakable s q ≡ none
unfolding find_speakable
find_speakable-empty s [] few = refl
find_speakable-empty s (p ∷ q) few = absurd (omega (arith, few))

-- The request is forgotten, and nobody else looks at it.
message_nto_speak-forgotten :
    (s : Server) (p : ℕ)
    → message_nto_speak (record s { resume_requested = false }) p ≡ message_nto_speak s p
unfolding message_nto_speak get_client_settings_by_fd get_client_uid_by_fd
message_nto_speak-forgotten s p = refl

find_speakable-forgotten :
    (s : Server) (q : List ℕ)
    → find_speakable (record s { resume_requested = false }) q ≡ find_speakable s q
unfolding find_speakable
find_speakable-forgotten s [] = refl
find_speakable-forgotten s (a ∷ q) =
    let s1 : Server = record s { resume_requested = false } in
    let rest = find_speakable-forgotten s q in
    elim (Bool-cases (message_nto_speak s a)) [
      | inl waits ↦
          let waits1 : message_nto_speak s1 a ≡ true = message_nto_speak-forgotten s a ∙ waits in
          rw (waits1, find_speakable) (rw rest refl)
      | inr heard ↦
          let heard1 : message_nto_speak s1 a ≡ false = message_nto_speak-forgotten s a ∙ heard in
          rw (heard1, find_speakable) refl
    ]

module _ (pipe_ok : List Event → Bool) (strtol : Bytes → Option ℤ) where
  resume_rounds-none :
      (n : ℕ) (s t : Server)
      → length s.paused_list ≤ n
      → resume_rounds pipe_ok strtol n s ≡ some t
      → find_speakable t t.paused_list ≡ none
  unfolding resume_rounds
  resume_rounds-none zero s t few h =
      let same : s ≡ t = cc h in rw (sym same) (find_speakable-empty s s.paused_list few)
  resume_rounds-none (suc n) s t few h = elim (Option-cases (find_speakable s s.paused_list)) [
    | inl nothing ↦
        let same : some s ≡ some t = rw (nothing, resume_rounds) at h in
        let last : s ≡ t = cc same in rw (sym last) nothing
    | inr ((p, rest), found) ↦
        let s1 : Server = record s { paused_list = rest } in
        let shorter = find_speakable-length s s.paused_list p rest found in
        let kept = reload_message-SameThread pipe_ok strtol p s1 in
        elim (Option-cases (reload_message pipe_ok strtol p s1)) [
          | inl ends ↦
              let clash : none ≡ some t = rw (found, ends, resume_rounds) at h in
              absurd (ground (arith, clash))
          | inr (s2, e) ↦
              let same : SameThread s1 s2 = rw e at kept in
              let later : resume_rounds pipe_ok strtol n s2 ≡ some t =
                rw (found, e, resume_rounds) at h in
              resume_rounds-none n s2 t (rw same.paused (omega (arith, shorter, few))) later
        ]
  ]

  -- A resume request that does not end the process takes every message out of the list of paused
  -- messages that may be said again: what stays are messages of clients that are paused. The rounds of
  -- its loop, as many as the list has messages, are enough for that.
  pub handle_resume-none :
      (s t : Server)
      → handle_resume pipe_ok strtol s ≡ some t
      → find_speakable t t.paused_list ≡ none
  unfolding handle_resume
  handle_resume-none s t h =
      let n = length s.paused_list in
      elim (Option-cases (resume_rounds pipe_ok strtol n s)) [
        | inl ends ↦
            let clash : none ≡ some t = rw (ends, handle_resume) at h in
            absurd (ground (arith, clash))
        | inr (s1, e) ↦
            let result : some (record s1 { resume_requested = false }) ≡ some t =
              rw (e, handle_resume) at h in
            let same : record s1 { resume_requested = false } ≡ t = cc result in
            rw (sym same) (
              find_speakable-forgotten s1 s1.paused_list
              ∙ resume_rounds-none n s s1 (omega arith) e)
      ]
