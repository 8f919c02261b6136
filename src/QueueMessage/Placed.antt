-- ===== src/QueueMessage/Placed.antt =====
-- Where `queue_message` puts a new message, and what it refuses.
use opentts.Prelude.{
  ℕ, zero, suc, ◌+◌, ◌≡◌, ◌≢◌, refl, ◌∙◌, ap, inl, inr, Bool, true, not, ◌&&◌, List, [], ◌∷◌, ◌++◌,
  Option, none, some, ◌==◌, arith, Bool-cases, Option-cases,
}
use opentts.Prelude.Int.{ℤ, pos, negsuc}
use opentts.Types.{
  Priority, important, message, text, notification, progress, MessageType, Settings, Message, Event,
  Server,
}
use opentts.Clients.{update, get_client_settings_by_fd}
use opentts.Speaking.Queues.{
  same_priority, get_queue, put_queue, speaking_get_queue, speaking_set_queue,
}
use opentts.Speaking.Queues.Ends.{split_last-concat}
use opentts.Speaking.Queues.Loops.{select}
use opentts.Speaking.Pause.{speaking_semaphore_post}
use opentts.Speaking.Priorities.Frame.{resolve_priorities-OnlyQueues}
use opentts.Speaking.Priorities.Steps.{last_group}
use opentts.Speaking.Priorities.Table.{priority_table, resolve_priorities-table}
use opentts.Speaking.Priorities.{resolve_priorities}
use opentts.QueueMessage.{
  store_message, fill_in, has_text, append_message, put_in_queue, queue_new, queue_text,
  queue_message,
}

-- The state in which the priorities are resolved: the message is filled in, numbered, and last in
-- the queue of its client's priority.
abbrev pub arrived : ℕ → Settings → MessageType → ℕ → Server → Server
arrived p client type reparted s = record s {
  queues = put_queue client.priority (get_queue client.priority s.queues ++ p ∷ []) s.queues;
  messages =
      update s.messages p (fill_in client type (suc s.last_message_id) reparted (s.messages p));
  last_message_id = suc s.last_message_id;
}

-- What `queue_message` returned, if the process goes on: the number, and the new state.
pub record Placed (p : ℕ) (client : Settings) (type : MessageType) (reparted : ℕ) (s t : Server)
    : Type 0 where
  pub queues : t.queues ≡ priority_table client.priority (arrived p client type reparted s)
  pub stored : t.messages ≡ (arrived p client type reparted s).messages
  pub numbered : t.last_message_id ≡ suc s.last_message_id
  pub woken : t.posts ≡ s.posts + 1
  pub clients : t.fd_settings ≡ s.fd_settings

put_in_queue_lem :
    (pipe_ok : List Event → Bool) (prio : Priority) (p : ℕ) (s : Server)
    → prio ≢ progress
    → put_in_queue pipe_ok prio p s
      ≡ some (
        pos (s.messages p).id,
        speaking_semaphore_post (resolve_priorities pipe_ok prio (append_message prio p s)),
      )
unfolding put_in_queue
put_in_queue_lem pipe_ok important p s h = refl
put_in_queue_lem pipe_ok progress p s h = absurd (h refl)
put_in_queue_lem pipe_ok _ p s h = refl

pub update_self {ℓ} : {A : Type ℓ} (f : ℕ → A) (k : ℕ) (v : A) → update f k v k ≡ v
update_self f k v = elim (Bool-cases (k == k)) [
  | inl same ↦ rw same
  | inr other ↦ absurd (ground arith)
]

queue_new_lem :
    (pipe_ok : List Event → Bool) (p : ℕ) (fd : ℤ) (type : MessageType) (reparted : ℕ) (s : Server)
    (client : Settings)
    → get_client_settings_by_fd s fd ≡ some client
    → client.priority ≢ progress
    → queue_new pipe_ok p fd type reparted s
      ≡ some (
        pos (suc s.last_message_id),
        speaking_semaphore_post
            (resolve_priorities pipe_ok client.priority (arrived p client type reparted s)),
      )
unfolding queue_new append_message store_message speaking_get_queue speaking_set_queue
queue_new_lem pipe_ok p fd type reparted s client connected waits =
    let m = fill_in client type (suc s.last_message_id) reparted (s.messages p) in
    let s0 = store_message p m (record s { last_message_id = suc s.last_message_id }) in
    let t =
      speaking_semaphore_post
        (resolve_priorities pipe_ok client.priority (append_message client.priority p s0)) in
    let stored : s0.messages p ≡ m = unfold store_message in update_self s.messages p m in
    rw (connected, queue_new) (put_in_queue_lem pipe_ok client.priority p s0 waits ∙ rw stored)

queue_message_lem :
    (pipe_ok : List Event → Bool) (p : ℕ) (fd : ℤ) (type : MessageType) (reparted : ℕ) (s : Server)
    → has_text (s.messages p).buf ≡ true
    → queue_message pipe_ok (some p) fd type reparted s ≡ queue_text pipe_ok p fd type reparted s
unfolding queue_message
queue_message_lem pipe_ok p fd type reparted s filled = rw (filled, queue_message)

abbrev pub EndsWith : ℕ → List ℕ → Type 0
EndsWith p q = (front : List ℕ) × (q ≡ front ++ p ∷ [])

select-concat :
    (test : ℕ → Bool) (q : List ℕ) (p : ℕ)
    → test p ≡ true
    → select test (q ++ p ∷ []) ≡ select test q ++ p ∷ []
select-concat test [] p h = rw h
select-concat test (x ∷ q) p h = elim (Bool-cases (test x)) [
  | inl on ↦ rw on (ap (◌∷◌ x) (select-concat test q p h))
  | inr off ↦ rw off (select-concat test q p h)
]

last_group-EndsWith :
    (h : ℕ → Message) (q : List ℕ) (p : ℕ) → EndsWith p (last_group h (q ++ p ∷ []))
last_group-EndsWith h q p =
    let gid = (h p).settings.reparted in
    elim (Bool-cases (gid == 0)) [
      | inl alone ↦ ([], rw (split_last-concat q p, alone, last_group))
      | inr block ↦ (
        select (λ x. (h x).settings.reparted == gid) q,
        rw (split_last-concat q p, block, last_group)
            (select-concat (λ x. (h x).settings.reparted == gid) q p (ground arith)),
      )
    ]

-- A notification that comes while something of another priority is being said.
abbrev pub Drowned : Priority → Server → Type 0
Drowned prio s =
    (prio ≡ notification)
    × ((s.speaking && not (same_priority s.current_priority notification)) ≡ true)

table-EndsWith :
    (prio : Priority) (p : ℕ) (s : Server)
    → prio ≢ progress
    → ¬ Drowned prio s
    → EndsWith p (get_queue prio (priority_table prio (append_message prio p s)))
unfolding priority_table append_message speaking_get_queue speaking_set_queue
table-EndsWith important p s h k = (s.queues.p1, refl)
table-EndsWith message p s h k = (s.queues.p2, refl)
table-EndsWith text p s h k = last_group-EndsWith s.messages s.queues.p3 p
table-EndsWith notification p s h k =
    elim (Bool-cases (s.speaking && not (same_priority s.current_priority notification))) [
      | inl other ↦ absurd (k (refl, other))
      | inr own ↦ rw own (last_group-EndsWith s.messages s.queues.p4 p)
    ]
table-EndsWith progress p s h k = absurd (h refl)

module _ (pipe_ok : List Event → Bool) (p n : ℕ) (type : MessageType) (reparted : ℕ) (s : Server)
    (client : Settings) (filled : has_text (s.messages p).buf ≡ true)
    (connected : get_client_settings_by_fd s (pos (suc n)) ≡ some client)
    (waits : client.priority ≢ progress) where
  -- A text of a connected client whose priority is not `progress` is accepted: `queue_message`
  -- returns the next number, which the message gets with a copy of the client's settings, the
  -- queues are those of the priority table with the message last in its queue, the speaking thread
  -- is woken once, and no client's settings change.
  pub queue_message-Placed :
      (t : Server) × (queue_message pipe_ok (some p) (pos (suc n)) type reparted s
        ≡ some (pos (suc s.last_message_id), t))
      × Placed p client type reparted s t
  unfolding queue_message speaking_semaphore_post
  queue_message-Placed =
      let s1 = arrived p client type reparted s in
      let only = (resolve_priorities-OnlyQueues pipe_ok client.priority s1).only in
      (
        speaking_semaphore_post (resolve_priorities pipe_ok client.priority s1),
        queue_message_lem pipe_ok p (pos (suc n)) type reparted s filled
            ∙ queue_new_lem pipe_ok p (pos (suc n)) type reparted s client connected waits,
        record {
          queues = resolve_priorities-table pipe_ok client.priority s1;
          stored = ap (λ x. x.messages) only;
          numbered = ap (λ x. x.last_message_id) only;
          woken = ap (λ x. x.posts + 1) only;
          clients = ap (λ x. x.fd_settings) only;
        },
      )

  -- A text of a connected client whose priority is not `progress` is not lost by its own arrival: it
  -- ends up last in its queue, unless it is a notification that comes while something of another
  -- priority is said.
  pub queue_message-EndsWith :
      ¬ Drowned client.priority s
      → (t : Server) × (queue_message pipe_ok (some p) (pos (suc n)) type reparted s
          ≡ some (pos (suc s.last_message_id), t))
        × EndsWith p (get_queue client.priority t.queues)
  unfolding store_message append_message speaking_get_queue speaking_set_queue
  queue_message-EndsWith heard =
      let m = fill_in client type (suc s.last_message_id) reparted (s.messages p) in
      let s0 = store_message p m (record s { last_message_id = suc s.last_message_id }) in
      let (t, e, placed) = queue_message-Placed in
      (t, e, rw placed.queues (table-EndsWith client.priority p s0 waits heard))

put_in_queue-id :
    (pipe_ok : List Event → Bool) (prio : Priority) (p : ℕ) (s t : Server) (r : ℤ)
    → put_in_queue pipe_ok prio p s ≡ some (r, t)
    → r ≡ pos (s.messages p).id
unfolding put_in_queue
put_in_queue-id pipe_ok prio p s t r e = ground arith

queue_new-id :
    (pipe_ok : List Event → Bool) (p : ℕ) (fd : ℤ) (type : MessageType) (reparted : ℕ)
    (s t : Server) (r : ℤ)
    → queue_new pipe_ok p fd type reparted s ≡ some (r, t)
    → r ≡ pos (suc s.last_message_id)
unfolding queue_new store_message
queue_new-id pipe_ok p fd type reparted s t r e =
    elim (Option-cases (get_client_settings_by_fd s fd)) [
      | inl gone ↦ absurd (none-ne-some (rw (gone, queue_new) at e))
      | inr (client, here) ↦
          let m = fill_in client type (suc s.last_message_id) reparted (s.messages p) in
          let s0 = store_message p m (record s { last_message_id = suc s.last_message_id }) in
          put_in_queue-id pipe_ok client.priority p s0 t r (rw (here, queue_new) at e)
          ∙ ap (λ x. pos (Message.id x)) (update_self s.messages p m)
    ]
  where
    none-ne-some : ◌≡◌ {A = Option (ℤ × Server)} none (some (r, t)) → ⊥
    none-ne-some h = cc

-- The callers in parse.c take a return value of 0 for a failure. For a connected client's message
-- there is no such value: a refusal is -1, and a number that is given is above 0.
queue_message-ne-zero :
    (pipe_ok : List Event → Bool) (p : Option ℕ) (n : ℕ) (type : MessageType) (reparted : ℕ)
    (s t : Server) (r : ℤ)
    → queue_message pipe_ok p (pos n) type reparted s ≡ some (r, t)
    → (r ≢ pos 0) × ((r ≡ negsuc 0) → t ≡ s)
unfolding queue_message
queue_message-ne-zero pipe_ok none n type reparted s t r e = ground arith
queue_message-ne-zero pipe_ok (some p) zero type reparted s t r e = ground arith
queue_message-ne-zero pipe_ok (some p) (suc n) type reparted s t r e =
    ground (arith, queue_new-id pipe_ok p (pos (suc n)) type reparted s t r)
