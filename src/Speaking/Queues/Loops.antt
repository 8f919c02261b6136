-- ===== src/Speaking/Queues/Loops.antt =====
-- Each loop over a queue, as one equation: the queue that is left, and what it did to the server.
use opentts.Prelude.{
  ℕ, zero, suc, ◌≤◌, ◌≡◌, refl, ap, ◌⊎◌, inl, inr, Bool, not, List, [], ◌∷◌, none, some, length,
  ltb, ◌==◌, if◌then◌else◌, arith, Bool-cases,
}
use opentts.Types.{Message, cancel, Event, Server}
use opentts.Speaking.Queues.{
  cancel_flag, has_flag, report_event, mem_free_message, queue_remove_message, empty_queue,
  empty_queue_by_time, find_uid, stop_rounds, purge_group,
}

-- The addresses that a test accepts, in their order.
abbrev pub select : (ℕ → Bool) → List ℕ → List ℕ
select test [] = []
select test (p ∷ q) = if test p then p ∷ select test q else select test q

-- Addresses put one by one in front of those freed before.
abbrev pub push_all : List ℕ → List ℕ → List ℕ
push_all [] freed = freed
push_all (p ∷ q) freed = push_all q (p ∷ freed)

-- The CANCELED events of a list of messages, sent to the clients that want them.
abbrev pub cancels : (ℕ → Message) → List ℕ → List Event → List Event
cancels h [] events = events
cancels h (p ∷ q) events = cancels h q (
    if has_flag (h p).settings.notification cancel_flag
    then report_event cancel (h p) ∷ events
    else events)

-- Messages freed in silence, and messages reported as canceled and freed.
abbrev pub free_all : List ℕ → Server → Server
free_all q s = record s { freed = push_all q s.freed }

abbrev pub discard : List ℕ → Server → Server
discard q s = record s { freed = push_all q s.freed; events = cancels s.messages q s.events }

pub empty_queue_lem : (q : List ℕ) (s : Server) → empty_queue q s ≡ ([], discard q s)
unfolding empty_queue queue_remove_message
empty_queue_lem [] s = refl
empty_queue_lem (p ∷ q) s = empty_queue_lem q (queue_remove_message p s)

abbrev pub is_older : (ℕ → Message) → ℕ → ℕ → Bool
is_older h uid p = ltb (h p).id uid

pub empty_queue_by_time_lem :
    (uid : ℕ) (q : List ℕ) (s : Server)
    → empty_queue_by_time uid q s ≡ (
      select (λ p. not (is_older s.messages uid p)) q,
      discard (select (is_older s.messages uid) q) s,
    )
unfolding empty_queue_by_time queue_remove_message
empty_queue_by_time_lem uid [] s = refl
empty_queue_by_time_lem uid (p ∷ q) s = elim (Bool-cases (is_older s.messages uid p)) [
  | inl old ↦ rw old (rw (empty_queue_by_time_lem uid q (queue_remove_message p s)) refl)
  | inr young ↦ rw young (rw (empty_queue_by_time_lem uid q s) refl)
]

pub purge_group_lem :
    (gid : ℕ) (q : List ℕ) (s : Server)
    → purge_group gid q s ≡ (
      select (λ p. (s.messages p).settings.reparted == gid) q,
      free_all (select (λ p. not ((s.messages p).settings.reparted == gid)) q) s,
    )
unfolding purge_group mem_free_message
purge_group_lem gid [] s = refl
purge_group_lem gid (p ∷ q) s = elim (Bool-cases ((s.messages p).settings.reparted == gid)) [
  | inl same ↦ rw same (rw (purge_group_lem gid q s) refl)
  | inr other ↦ rw other (rw (purge_group_lem gid q (mem_free_message p s)) refl)
]

abbrev pub of_uid : (ℕ → Message) → ℕ → ℕ → Bool
of_uid h uid p = (h p).settings.uid == uid

-- What a search takes out of a queue: nothing, or the first of those that are looked for.
Found : (ℕ → Message) → ℕ → List ℕ → Type 0
Found h uid q =
    ((find_uid h uid q ≡ none)
      × (select (of_uid h uid) q ≡ [])
      × (select (λ p. not (of_uid h uid p)) q ≡ q))
    ⊎ ((p : ℕ) × (rest : List ℕ) × (find_uid h uid q ≡ some (p, rest))
        × (select (of_uid h uid) q ≡ p ∷ select (of_uid h uid) rest)
        × (select (λ p. not (of_uid h uid p)) q ≡ select (λ p. not (of_uid h uid p)) rest)
        × (length q ≡ suc (length rest)))

find_uid-Found : (h : ℕ → Message) (uid : ℕ) (q : List ℕ) → Found h uid q
unfolding find_uid Found
find_uid-Found h uid [] = inl (refl, refl, refl)
find_uid-Found h uid (p ∷ q) = elim (Bool-cases (of_uid h uid p)) [
  | inl hit ↦ inr (p, q, rw (hit, find_uid), rw hit, rw hit, refl)
  | inr miss ↦ elim (find_uid-Found h uid q) [
    | inl (e, a, b) ↦ inl (rw (miss, e, find_uid), rw (miss, a), rw (miss, b))
    | inr (m, rest, e, a, b, n) ↦
        inr (m, p ∷ rest, rw (miss, e, find_uid), rw (miss, a), rw (miss, b), ap suc n)
  ]
]

pub stop_rounds_lem :
    (rounds uid : ℕ) (q : List ℕ) (s : Server)
    → length q ≤ rounds
    → stop_rounds rounds uid q s ≡ (
      select (λ p. not (of_uid s.messages uid p)) q,
      discard (select (of_uid s.messages uid) q) s,
    )
unfolding stop_rounds queue_remove_message Found
stop_rounds_lem zero uid [] s h = refl
stop_rounds_lem zero uid (p ∷ q) s h = elim h [ ]
stop_rounds_lem (suc rounds) uid q s h = elim (find_uid-Found s.messages uid q) [
  | inl (e, a, b) ↦ rw (e, a, b, stop_rounds)
  | inr (m, rest, e, a, b, n) ↦
      rw (e, a, b, stop_rounds)
        (stop_rounds_lem rounds uid rest (queue_remove_message m s) (omega arith))
]
