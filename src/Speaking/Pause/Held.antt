-- ===== src/Speaking/Pause/Held.antt =====
-- What PAUSE and RESUME do to the messages that wait.
use opentts.Prelude.{
  ℕ, suc, ◌+◌, ◌≡◌, refl, ◌∙◌, ap, Bool, true, false, not, List, some, ◌==◌, if◌then◌else◌, arith,
}
use opentts.Prelude.Int.{pos}
use opentts.Types.{Settings, Event, Server}
use opentts.Clients.{
  get_client_uid_by_fd, get_client_settings_by_uid, get_client_settings_by_fd, put_settings,
}
use opentts.Output.{output_pause, output_send_data}
use opentts.QueueMessage.Placed.{update_self}
use opentts.Speaking.Pause.{pause_current, speaking_pause, speaking_resume, speaking_semaphore_post}
use opentts.Speaking.Select.{message_nto_speak}

-- The lookup of a client, as far as it depends on the state.
record SameClients (s t : Server) : Type 0 where
  fd_settings : t.fd_settings ≡ s.fd_settings
  fd_uid : t.fd_uid ≡ s.fd_uid

module _ (pipe_ok : List Event → Bool) where
  pause_current-SameClients : (s : Server) → SameClients s (pause_current pipe_ok s)
  unfolding pause_current output_pause output_send_data
  pause_current-SameClients s = record { fd_settings = ground arith; fd_uid = ground arith }

  -- A client that is known, and the state after its PAUSE.
  speaking_pause_lem :
      (uid : ℕ) (client : Settings) (s : Server)
      → s.fd_settings uid ≡ some client
      → ((speaking_pause pipe_ok uid s).0 ≡ 0)
        × SameClients
            (put_settings uid (record client { paused = 1 }) s)
            (speaking_pause pipe_ok uid s).1
  unfolding speaking_pause get_client_settings_by_uid put_settings
  speaking_pause_lem uid client s known =
      let s1 = put_settings uid (record client { paused = 1 }) s in
      rw (known, speaking_pause) (pausing (s1.speaking_uid == uid) s1.speaking s1)
    where
      pausing :
          (own on : Bool) (x : Server)
          → (let r : ℕ × Server =
                if own then if on then (0, pause_current pipe_ok x) else (0, x) else (0, x) in
              (r.0 ≡ 0) × SameClients x r.1)
      pausing true true x = (refl, pause_current-SameClients x)
      pausing true false x = (refl, record { fd_settings = refl; fd_uid = refl })
      pausing false on x = (refl, record { fd_settings = refl; fd_uid = refl })

-- A message's client is looked up by the descriptor of the message.
nto_speak_lem :
    (p fd uid : ℕ) (client : Settings) (s : Server)
    → (s.messages p).settings.fd ≡ pos (suc fd)
    → s.fd_uid (suc fd) ≡ some (suc uid)
    → s.fd_settings (suc uid) ≡ some client
    → message_nto_speak s p ≡ not (client.paused == 0)
unfolding message_nto_speak get_client_settings_by_fd get_client_uid_by_fd
nto_speak_lem p fd uid client s on attached known =
    let found : get_client_settings_by_fd s (pos (suc fd)) ≡ some client =
      let number : get_client_uid_by_fd s (pos (suc fd)) ≡ suc uid =
        rw (attached, get_client_uid_by_fd) refl in
      let busy : (get_client_uid_by_fd s (pos (suc fd)) == 0) ≡ false = ground (arith, number) in
      rw (busy, number, get_client_settings_by_fd) known in
    rw (on, found, message_nto_speak) refl

module _ (pipe_ok : List Event → Bool) (fd uid : ℕ) (client : Settings) (s : Server)
    (attached : s.fd_uid (suc fd) ≡ some (suc uid))
    (known : s.fd_settings (suc uid) ≡ some client) where
  -- After PAUSE of a client that is connected on a descriptor, no message with that descriptor may be
  -- said; after RESUME, all may. PAUSE and RESUME succeed, and RESUME leaves its request and wakes the
  -- speaking thread once.
  pub speaking_resume-speaking_pause :
      (t u : Server) × (speaking_pause pipe_ok (suc uid) s ≡ (0, t))
      × (speaking_resume (suc uid) t ≡ (0, u))
      × ((p : ℕ) → (t.messages p).settings.fd ≡ pos (suc fd) → message_nto_speak t p ≡ true)
      × ((p : ℕ) → (u.messages p).settings.fd ≡ pos (suc fd) → message_nto_speak u p ≡ false)
      × (u.resume_requested ≡ true)
      × (u.posts ≡ t.posts + 1)
  unfolding speaking_resume get_client_settings_by_uid put_settings speaking_semaphore_post
  speaking_resume-speaking_pause =
      let (code, same) = speaking_pause_lem pipe_ok (suc uid) client s known in
      let held : Settings = record client { paused = 1 } in
      let t = (speaking_pause pipe_ok (suc uid) s).1 in
      let free : Settings = record held { paused = 0 } in
      let u =
        speaking_semaphore_post
          (record (put_settings (suc uid) free t) { resume_requested = true }) in
      let attached_t : t.fd_uid (suc fd) ≡ some (suc uid) =
        ap (λ m. m (suc fd)) same.fd_uid ∙ attached in
      let known_t : t.fd_settings (suc uid) ≡ some held =
        ap (λ m. m (suc uid)) same.fd_settings ∙ update_self s.fd_settings (suc uid) (some held) in
      let paused : speaking_pause pipe_ok (suc uid) s ≡ (0, t) = ap (λ (n : ℕ). (n, t)) code in
      let resumed : speaking_resume (suc uid) t ≡ (0, u) = rw (known_t, speaking_resume) refl in
      let known_u : u.fd_settings (suc uid) ≡ some free =
        update_self t.fd_settings (suc uid) (some free) in
      (
        t,
        u,
        paused,
        resumed,
        λ p on. nto_speak_lem p fd uid held t on attached_t known_t,
        λ p on. nto_speak_lem p fd uid free u on attached_t known_u,
        refl,
        refl,
      )
