-- ===== src/Speaking/Pause.antt =====
-- PAUSE and RESUME: `speaking_pause`, `speaking_resume` and their like for all clients.
pub mod Held
use opentts.Prelude.{ℕ, ◌+◌, Bool, true, List, [], ◌∷◌, ◌++◌, none, some, ◌==◌, if◌then◌else◌}
use opentts.Prelude.Int.{pos, ltb_ℤ}
use opentts.Types.{Message, Event, Server}
use opentts.Clients.{update, get_client_settings_by_uid, put_settings, each_client, one_if_positive}
use opentts.Output.{output_pause}

unfoldable pub speaking_semaphore_post : Server → Server
speaking_semaphore_post s = record s { posts = s.posts + 1 }

-- What `speaking_pause` does to the message that is being said.
abbrev pub paused_message : Message → Message
paused_message m = record m {
  settings = record m.settings { paused = 2; paused_while_speaking = true };
}

module _ (pipe_ok : List Event → Bool) where
  unfoldable pub pause_current : Server → Server
  pause_current s = elim s.current_message [
    | none ↦ s
    | some p ↦
        let (ret, s1) = output_pause pipe_ok s in
        if ltb_ℤ ret (pos 0) then s1 else record s1 {
          messages = update s1.messages p (paused_message (s1.messages p));
          paused_list = s1.paused_list ++ p ∷ [];
        }
  ]

  unfoldable pub speaking_pause : ℕ → Server → ℕ × Server
  unfolding pause_current get_client_settings_by_uid put_settings
  speaking_pause uid s = elim (get_client_settings_by_uid s (pos uid)) [
    | none ↦ (1, s)
    | some client ↦
        let s1 = put_settings uid (record client { paused = 1 }) s in
        if s1.speaking_uid == uid
        then if s1.speaking then (0, pause_current s1) else (0, s1)
        else (0, s1)
  ]

  unfoldable pub speaking_pause_all : Server → ℕ × Server
  unfolding speaking_pause each_client
  speaking_pause_all s =
      let (err, s1) = each_client speaking_pause s.max_fd 1 s in (one_if_positive err, s1)

unfoldable pub speaking_resume : ℕ → Server → ℕ × Server
unfolding get_client_settings_by_uid put_settings speaking_semaphore_post
speaking_resume uid s = elim (get_client_settings_by_uid s (pos uid)) [
  | none ↦ (1, s)
  | some client ↦ (
    0,
    speaking_semaphore_post
        (record (put_settings uid (record client { paused = 0 }) s) { resume_requested = true }),
  )
]

unfoldable pub speaking_resume_all : Server → ℕ × Server
unfolding speaking_resume each_client
speaking_resume_all s =
    let (err, s1) = each_client speaking_resume s.max_fd 1 s in (one_if_positive err, s1)
