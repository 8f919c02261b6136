-- ===== src/Speaking/Round/Frame.antt =====
-- What the parts of a round leave alone: SPEAKING and the current message.
use opentts.Prelude.{
  ℕ, zero, suc, refl, inl, inr, Bool, List, [], ◌∷◌, Option, none, some, ◌==◌, length, drop,
  Option-cases,
}
use opentts.Prelude.Int.{ℤ, pos, negsuc, ◌+ℤ◌}
use opentts.Types.{
  Bytes, Priority, progress, message, text, notification, text_type, Settings, Event, Server,
}
use opentts.Clients.{get_client_settings_by_uid}
use opentts.QueueMessage.{store_message, queue_message}
use opentts.Protocol.{minus}
use opentts.IndexMarks.{strip_index_marks}
use opentts.Speaking.Priorities.{stop_priority, stop_priority_older_than}
use opentts.Speaking.Priorities.Frame.{
  stop_priority-OnlyQueues, stop_priority_older_than-OnlyQueues,
}
use opentts.Speaking.Queues.{speaking_get_queue, speaking_set_queue, mem_free_message}
use opentts.Speaking.Pause.{speaking_semaphore_post, speaking_pause_all}
use opentts.Speaking.Select.{priorities, find_speakable, get_message_from_queues, descend}
use opentts.Speaking.Round.{
  text_from, with_buf, transfer, queue_reloaded, reload_from, reload_message, resume_rounds,
  handle_resume, say_progress, handle_pause,
}
use opentts.Speaking.Round.Queued.{
  SameThreads, SameThread-refl, SameThreads-trans, state_of, queue_message-SameThread,
  OnlyQueues-SameThread,
}
use opentts.Speaking.Round.Voice.{
  SameThread-SameVoice, SameThreads-SameVoices, SameVoice, SameVoices, SameVoice-refl,
  SameVoice-trans, SameVoices-trans, rounds-SameVoice, speaking_pause-SameVoice, if-SameVoice,
}

module _ (pipe_ok : List Event → Bool) (strtol : Bytes → Option ℤ) where
  pub queue_reloaded-SameThread :
      (p : ℕ) (s : Server) → SameThreads s (queue_reloaded pipe_ok strtol p s)
  unfolding queue_reloaded mem_free_message
  queue_reloaded-SameThread p s =
      let uid = minus (s.messages p).settings.uid in
      reloaded (queue_message pipe_ok (some p) uid text_type 0 s)
        (queue_message-SameThread pipe_ok (some p) uid text_type 0 s)
    where
      reloaded :
          (o : Option (ℤ × Server))
          → SameThreads s (state_of pipe_ok o)
          → SameThreads s (elim o [
            | none ↦ none
            | some (pos zero, s1) ↦ some (mem_free_message p s1)
            | some (pos (suc id), s1) ↦ some s1
            | some (negsuc r, s1) ↦ some s1
          ])
      reloaded none h = tt
      reloaded (some (pos zero, s1)) h = record {
        speaking = h.speaking;
        current = h.current;
        paused = h.paused;
      }
      reloaded (some (pos (suc id), s1)) h = h
      reloaded (some (negsuc r, s1)) h = h

  reload_from-SameThread :
      (im : ℤ) (p : ℕ) (client : Settings) (s : Server)
      → SameThreads s (reload_from pipe_ok strtol im p client s)
  unfolding reload_from store_message
  reload_from-SameThread im p client s = elim (Option-cases (s.messages p).buf) [
    | inl empty ↦ rw (empty, reload_from) tt
    | inr (buf, filled) ↦ elim (Option-cases (text_from (im +ℤ client.pause_context) buf)) [
      | inl lost ↦ rw (filled, reload_from) (rw lost (SameThread-refl s))
      | inr (rest, found) ↦
          let stripped = strip_index_marks rest client.ssml_mode in
          let s1 = store_message p (with_buf stripped (s.messages p)) s in
          rw (filled, reload_from)
            (rw found (
              SameThreads-trans (queue_reloaded pipe_ok strtol p s1)
                (record { speaking = refl; current = refl; paused = refl })
                (queue_reloaded-SameThread p s1)))
    ]
  ]

  pub reload_message-SameThread :
      (p : ℕ) (s : Server) → SameThreads s (reload_message pipe_ok strtol p s)
  unfolding reload_message
  reload_message-SameThread p s = elim (Option-cases (s.messages p).settings.index_mark) [
    | inl unmarked ↦ rw (unmarked, reload_message) (queue_reloaded-SameThread p s)
    | inr (b, marked) ↦ elim (Option-cases (strtol (drop 6 b))) [
      | inl bad ↦ rw (marked, reload_message) (rw bad (SameThread-refl s))
      | inr (im, number) ↦
          elim (Option-cases (get_client_settings_by_uid s (pos (s.messages p).settings.uid))) [
            | inl gone ↦ rw (marked, reload_message) (rw number (rw gone tt))
            | inr (client, found) ↦
                rw (marked, reload_message)
                  (rw number (rw found (reload_from-SameThread im p client s)))
          ]
    ]
  ]

  resume_rounds-SameVoice : (n : ℕ) (s : Server) → SameVoices s (resume_rounds pipe_ok strtol n s)
  unfolding resume_rounds
  resume_rounds-SameVoice zero s = SameVoice-refl s
  resume_rounds-SameVoice (suc n) s = elim (Option-cases (find_speakable s s.paused_list)) [
    | inl nothing ↦ rw (nothing, resume_rounds) (SameVoice-refl s)
    | inr ((p, rest), found) ↦
        let s1 : Server = record s { paused_list = rest } in
        let reloaded =
          SameThreads-SameVoices s1 (reload_message pipe_ok strtol p s1)
            (reload_message-SameThread p s1) in
        let taken : SameVoice s s1 = record { speaking = refl; current = refl } in
        elim (Option-cases (reload_message pipe_ok strtol p s1)) [
          | inl ends ↦ rw (found, resume_rounds) (rw ends tt)
          | inr (s2, e) ↦
              let same : SameVoice s1 s2 = rw e at reloaded in
              rw (found, resume_rounds)
                (rw e (
                  SameVoices-trans (resume_rounds pipe_ok strtol n s2) (SameVoice-trans taken same)
                    (resume_rounds-SameVoice n s2)))
        ]
  ]

  pub handle_resume-SameVoice : (s : Server) → SameVoices s (handle_resume pipe_ok strtol s)
  unfolding handle_resume
  handle_resume-SameVoice s =
      let rounds = resume_rounds-SameVoice (length s.paused_list) s in
      elim (Option-cases (resume_rounds pipe_ok strtol (length s.paused_list) s)) [
        | inl ends ↦ rw (ends, handle_resume) tt
        | inr (s1, e) ↦
            let same : SameVoice s s1 = rw e at rounds in
            rw (e, handle_resume) (record { speaking = same.speaking; current = same.current })
      ]

module _ (pipe_ok : List Event → Bool) where
  pub handle_pause-SameVoice : (s : Server) → SameVoice s (handle_pause pipe_ok s)
  unfolding handle_pause speaking_pause_all
  handle_pause-SameVoice s =
      let all = rounds-SameVoice pipe_ok s.max_fd 1 s in
      let one = speaking_pause-SameVoice pipe_ok s.pause_requested_uid s in
      let paused =
        if-SameVoice (s.pause_requested == 1) all
          (if-SameVoice (s.pause_requested == 2) one (SameVoice-refl s)) in
      record { speaking = paused.speaking; current = paused.current }

  pub say_progress-SameVoice : (p : ℕ) (s : Server) → SameVoice s (say_progress pipe_ok p s)
  unfolding say_progress speaking_semaphore_post
  say_progress-SameVoice p s =
      let s1 : Server = record s {
        queues = record s.queues { p2 = transfer s.messages s.last_p5_block s.queues.p2 };
        last_p5_block = [];
        current_priority = message;
      } in
      let s2 = stop_priority_older_than pipe_ok text (s.messages p).id s1 in
      let s3 = stop_priority pipe_ok notification s2 in
      let h1 = SameThread-SameVoice (
        OnlyQueues-SameThread pipe_ok
          (stop_priority_older_than-OnlyQueues pipe_ok text (s.messages p).id s1)) in
      let h2 =
        SameThread-SameVoice
          (OnlyQueues-SameThread pipe_ok (stop_priority-OnlyQueues pipe_ok notification s2)) in
      let h3 =
        SameThread-SameVoice
          (OnlyQueues-SameThread pipe_ok (stop_priority-OnlyQueues pipe_ok progress s3)) in
      let h = SameVoice-trans h1 (SameVoice-trans h2 h3) in
      record { speaking = h.speaking; current = h.current }

descend-SameVoice : (prios : List Priority) (s : Server) → SameVoice s (descend prios s).1
unfolding descend speaking_set_queue
descend-SameVoice [] s = SameVoice-refl s
descend-SameVoice (prio ∷ prios) s =
    elim (Option-cases (find_speakable s (speaking_get_queue prio s))) [
      | inl nothing ↦ rw (nothing, descend) (descend-SameVoice prios s)
      | inr ((m, rest), found) ↦ rw (found, descend) (record { speaking = refl; current = refl })
    ]

pub get_message_from_queues-SameVoice : (s : Server) → SameVoice s (get_message_from_queues s).1
unfolding get_message_from_queues
get_message_from_queues-SameVoice s = descend-SameVoice priorities s
