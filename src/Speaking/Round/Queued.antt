-- ===== src/Speaking/Round/Queued.antt =====
-- What `queue_message` leaves alone: SPEAKING, the current message and the list of paused messages.
use opentts.Prelude.{
  ℕ, zero, suc, ◌≡◌, refl, ◌∙◌, ap, inl, inr, Bool, true, false, List, [], ◌∷◌, ◌++◌, Option, none,
  some, if◌then◌else◌, Bool-cases, Option-cases,
}
use opentts.Prelude.Int.{ℤ, pos, negsuc}
use opentts.Types.{Priority, progress, MessageType, Event, Server}
use opentts.Clients.{get_client_settings_by_uid, get_client_settings_by_fd}
use opentts.QueueMessage.{
  store_message, free_block, clear_other_block, keep_copy, copy_message, copy_sized,
  remember_progress, append_message, put_in_queue, queue_new, queue_again, queue_message,
  queue_text, fill_in, set_reparted, has_text,
}
use opentts.Speaking.Queues.{
  mem_free_message, speaking_get_queue, speaking_set_queue, same_priority,
}
use opentts.Speaking.Pause.{speaking_semaphore_post}
use opentts.Speaking.Priorities.{resolve_priorities}
use opentts.Speaking.Priorities.Frame.{resolve_priorities-OnlyQueues}
use opentts.Speaking.Priorities.Only.{OnlyQueues}

-- SPEAKING, the current message and the paused list are as before.
pub record SameThread (s t : Server) : Type 0 where
  pub speaking : t.speaking ≡ s.speaking
  pub current : t.current_message ≡ s.current_message
  pub paused : t.paused_list ≡ s.paused_list

abbrev pub SameThreads : Server → Option Server → Type 0
SameThreads s none = Unit
SameThreads s (some t) = SameThread s t

pub SameThread-refl : (s : Server) → SameThread s s
SameThread-refl s = record { speaking = refl; current = refl; paused = refl }

pub SameThread-trans : {s t u : Server} → SameThread s t → SameThread t u → SameThread s u
SameThread-trans a b = record {
  speaking = b.speaking ∙ a.speaking;
  current = b.current ∙ a.current;
  paused = b.paused ∙ a.paused;
}

pub SameThreads-trans :
    {s t : Server} (o : Option Server) → SameThread s t → SameThreads t o → SameThreads s o
SameThreads-trans none a b = tt
SameThreads-trans (some u) a b = SameThread-trans a b

pub OnlyQueues-SameThread :
    (pipe_ok : List Event → Bool) {s t : Server} → OnlyQueues pipe_ok s t → SameThread s t
OnlyQueues-SameThread pipe_ok h = record {
  speaking = ap (λ x. x.speaking) h.only;
  current = ap (λ x. x.current_message) h.only;
  paused = ap (λ x. x.paused_list) h.only;
}

pub free_block-SameThread : (q : List ℕ) (s : Server) → SameThread s (free_block q s)
unfolding free_block mem_free_message
free_block-SameThread [] s = record { speaking = refl; current = refl; paused = refl }
free_block-SameThread (p ∷ q) s =
    let rest = free_block-SameThread q (mem_free_message p s) in
    record { speaking = rest.speaking; current = rest.current; paused = rest.paused }

pub if-SameThread :
    (test : Bool) {s t u : Server}
    → SameThread s t
    → SameThread s u
    → SameThread s (if test then t else u)
if-SameThread true a b = a
if-SameThread false a b = b

pub if-SameThreads :
    (test : Bool) (s : Server) (a b : Option Server)
    → SameThreads s a
    → SameThreads s b
    → SameThreads s (if test then a else b)
if-SameThreads true s a b p q = p
if-SameThreads false s a b p q = q

clear_other_block-SameThread : (p : ℕ) (s : Server) → SameThread s (clear_other_block p s)
unfolding clear_other_block
clear_other_block-SameThread p s =
    if-SameThread _ (free_block-SameThread s.last_p5_block s) (SameThread-refl s)

keep_sized-SameThread :
    (size : ℤ) (p : ℕ) (s : Server)
    → SameThreads s (elim (copy_sized size p s) [
      | none ↦ none
      | some (copy, s1) ↦ some (record s1 { last_p5_block = s1.last_p5_block ++ copy ∷ [] })
    ])
unfolding copy_sized store_message
keep_sized-SameThread (pos n) p s = record { speaking = refl; current = refl; paused = refl }
keep_sized-SameThread (negsuc n) p s = tt

remember_progress-SameThread : (p : ℕ) (s : Server) → SameThreads s (remember_progress p s)
unfolding remember_progress keep_copy copy_message
remember_progress-SameThread p s =
    let s1 = clear_other_block p s in
    SameThreads-trans (remember_progress p s) (clear_other_block-SameThread p s)
      (keep_sized-SameThread (s1.messages p).bytes p s1)

module _ (pipe_ok : List Event → Bool) where
  post-SameThread :
      (prio : Priority) (s : Server)
      → SameThread s (speaking_semaphore_post (resolve_priorities pipe_ok prio s))
  unfolding speaking_semaphore_post
  post-SameThread prio s =
      let voice = OnlyQueues-SameThread pipe_ok (resolve_priorities-OnlyQueues pipe_ok prio s) in
      record { speaking = voice.speaking; current = voice.current; paused = voice.paused }

  -- The state that `queue_message` leaves.
  abbrev pub state_of : Option (ℤ × Server) → Option Server
  state_of none = none
  state_of (some (r, t)) = some t

  put_in_queue-SameThread :
      (prio : Priority) (p : ℕ) (s : Server)
      → SameThreads s (state_of (put_in_queue pipe_ok prio p s))
  unfolding put_in_queue append_message speaking_get_queue speaking_set_queue
  put_in_queue-SameThread prio p s =
      let s1 = append_message prio p s in
      let appended : SameThread s s1 = record { speaking = refl; current = refl; paused = refl } in
      remembered (if same_priority prio progress then remember_progress p s1 else some s1) (
        if-SameThreads (same_priority prio progress) s (remember_progress p s1) (some s1)
          (SameThreads-trans (remember_progress p s1) appended (remember_progress-SameThread p s1))
          appended)
    where
      remembered :
          (o : Option Server)
          → SameThreads s o
          → SameThreads s (
              state_of (elim o [
                | none ↦ none
                | some s2 ↦ some (
                  pos (s.messages p).id,
                  speaking_semaphore_post (resolve_priorities pipe_ok prio s2),
                )
              ]))
      remembered none h = tt
      remembered (some s2) h = SameThread-trans h (post-SameThread prio s2)

  queue_new-SameThread :
      (p : ℕ) (fd : ℤ) (type : MessageType) (reparted : ℕ) (s : Server)
      → SameThreads s (state_of (queue_new pipe_ok p fd type reparted s))
  unfolding queue_new store_message
  queue_new-SameThread p fd type reparted s = elim (Option-cases (get_client_settings_by_fd s fd)) [
    | inl gone ↦ rw (gone, queue_new) tt
    | inr (client, known) ↦
        let m = fill_in client type (suc s.last_message_id) reparted (s.messages p) in
        let s1 = store_message p m (record s { last_message_id = suc s.last_message_id }) in
        rw (known, queue_new)
          (SameThreads-trans (state_of (put_in_queue pipe_ok client.priority p s1))
            (record { speaking = refl; current = refl; paused = refl })
            (put_in_queue-SameThread client.priority p s1))
  ]

  queue_again-SameThread :
      (p uid reparted : ℕ) (s : Server)
      → SameThreads s (state_of (queue_again pipe_ok p uid reparted s))
  unfolding queue_again store_message
  queue_again-SameThread p uid reparted s =
      elim (Option-cases (get_client_settings_by_uid s (pos uid))) [
        | inl gone ↦ rw (gone, queue_again) tt
        | inr (client, known) ↦
            let s1 = store_message p (set_reparted reparted (s.messages p)) s in
            rw (known, queue_again)
              (SameThreads-trans (state_of (put_in_queue pipe_ok client.priority p s1))
                (record { speaking = refl; current = refl; paused = refl })
                (put_in_queue-SameThread client.priority p s1))
      ]

  queue_text-SameThread :
      (p : ℕ) (fd : ℤ) (type : MessageType) (reparted : ℕ) (s : Server)
      → SameThreads s (state_of (queue_text pipe_ok p fd type reparted s))
  queue_text-SameThread p (pos zero) type reparted s = SameThread-refl s
  queue_text-SameThread p (pos (suc n)) type reparted s =
      queue_new-SameThread p (pos (suc n)) type reparted s
  queue_text-SameThread p (negsuc n) type reparted s = queue_again-SameThread p (suc n) reparted s

  pub queue_message-SameThread :
      (m : Option ℕ) (fd : ℤ) (type : MessageType) (reparted : ℕ) (s : Server)
      → SameThreads s (state_of (queue_message pipe_ok m fd type reparted s))
  unfolding queue_message
  queue_message-SameThread none fd type reparted s = SameThread-refl s
  queue_message-SameThread (some p) fd type reparted s =
      elim (Bool-cases (has_text (s.messages p).buf)) [
        | inl filled ↦ rw (filled, queue_message) (queue_text-SameThread p fd type reparted s)
        | inr empty ↦ rw (empty, queue_message) (SameThread-refl s)
      ]
