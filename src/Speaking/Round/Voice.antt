-- ===== src/Speaking/Round/Voice.antt =====
-- Who sets SPEAKING and the current message: only the speaking thread, and how.
use opentts.Prelude.{
  ℕ, zero, suc, ◌+◌, ◌≡◌, refl, ◌∙◌, inl, inr, Bool, true, false, List, Option, none, some, ◌==◌,
  if◌then◌else◌, arith, Bool-cases, Option-cases,
}
use opentts.Prelude.Int.{pos}
use opentts.Types.{Event, Server}
use opentts.Clients.{each_client, put_settings, get_client_uid_by_fd}
use opentts.Output.{output_pause, output_send_data}
use opentts.Speaking.Pause.{pause_current, speaking_pause}
use opentts.Speaking.Round.Queued.{SameThread, SameThreads}

-- SPEAKING and the current message are as before.
pub record SameVoice (s t : Server) : Type 0 where
  pub speaking : t.speaking ≡ s.speaking
  pub current : t.current_message ≡ s.current_message

abbrev pub SameVoices : Server → Option Server → Type 0
SameVoices s none = Unit
SameVoices s (some t) = SameVoice s t

pub SameVoice-refl : (s : Server) → SameVoice s s
SameVoice-refl s = record { speaking = refl; current = refl }

pub SameVoice-trans : {s t u : Server} → SameVoice s t → SameVoice t u → SameVoice s u
SameVoice-trans a b = record { speaking = b.speaking ∙ a.speaking; current = b.current ∙ a.current }

pub SameVoices-trans :
    {s t : Server} (o : Option Server) → SameVoice s t → SameVoices t o → SameVoices s o
SameVoices-trans none a b = tt
SameVoices-trans (some u) a b = SameVoice-trans a b

pub SameThread-SameVoice : {s t : Server} → SameThread s t → SameVoice s t
SameThread-SameVoice h = record { speaking = h.speaking; current = h.current }

pub SameThreads-SameVoices : (s : Server) (o : Option Server) → SameThreads s o → SameVoices s o
SameThreads-SameVoices s none h = tt
SameThreads-SameVoices s (some t) h = SameThread-SameVoice h

pub if-SameVoice :
    (test : Bool) {s t u : Server}
    → SameVoice s t
    → SameVoice s u
    → SameVoice s (if test then t else u)
if-SameVoice true a b = a
if-SameVoice false a b = b

module _ (pipe_ok : List Event → Bool) where
  pause_current-SameVoice : (s : Server) → SameVoice s (pause_current pipe_ok s)
  unfolding pause_current output_pause output_send_data
  pause_current-SameVoice s = record { speaking = ground arith; current = ground arith }

  pub speaking_pause-SameVoice :
      (uid : ℕ) (s : Server) → SameVoice s (speaking_pause pipe_ok uid s).1
  unfolding speaking_pause put_settings
  speaking_pause-SameVoice uid s = elim (Option-cases (s.fd_settings uid)) [
    | inl gone ↦ rw (gone, speaking_pause) (SameVoice-refl s)
    | inr (client, known) ↦
        let s1 = put_settings uid (record client { paused = 1 }) s in
        let put : SameVoice s s1 = record { speaking = refl; current = refl } in
        rw (known, speaking_pause)
          (SameVoice-trans put (pausing (s1.speaking_uid == uid) s1.speaking s1))
  ]
    where
      pausing :
          (own on : Bool) (x : Server)
          → (let r : ℕ × Server =
                if own then if on then (0, pause_current pipe_ok x) else (0, x) else (0, x) in
              SameVoice x r.1)
      pausing true true x = pause_current-SameVoice x
      pausing true false x = SameVoice-refl x
      pausing false on x = SameVoice-refl x

  pub rounds-SameVoice :
      (n i : ℕ) (s : Server) → SameVoice s (each_client (speaking_pause pipe_ok) n i s).1
  unfolding each_client
  rounds-SameVoice zero i s = SameVoice-refl s
  rounds-SameVoice (suc n) i s = elim (Bool-cases (get_client_uid_by_fd s (pos i) == 0)) [
    | inl gone ↦ rw (gone, each_client) (rounds-SameVoice n (i + 1) s)
    | inr here ↦
        let uid = get_client_uid_by_fd s (pos i) in
        rw (here, each_client)
          (SameVoice-trans (speaking_pause-SameVoice uid s)
            (rounds-SameVoice n (i + 1) (speaking_pause pipe_ok uid s).1))
  ]
