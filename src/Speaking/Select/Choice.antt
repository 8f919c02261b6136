-- ===== src/Speaking/Select/Choice.antt =====
-- Which message `get_message_from_queues` takes, and what it leaves.
use native.Mathlib.Decide.{dec_lt}
use opentts.Prelude.{
  ℕ, suc, ◌<◌, ◌≡◌, refl, ap, ◌⊎◌, inl, inr, true, false, List, [], ◌∷◌, ◌++◌, Option, none, some,
  arith, Bool-cases,
}
use opentts.Types.{Priority, important, message, text, notification, progress, Server}
use opentts.Speaking.Queues.{number, get_queue, put_queue, speaking_get_queue, speaking_set_queue}
use opentts.Speaking.Select.{message_nto_speak, find_speakable, descend, get_message_from_queues}

-- All messages of the list belong to paused clients.
abbrev pub AllPaused : Server → List ℕ → Type 0
AllPaused s [] = Unit {0}
AllPaused s (p ∷ q) = (message_nto_speak s p ≡ true) × AllPaused s q

-- The first message of a queue that may be said, with what stands before and behind it.
record First (s : Server) (q : List ℕ) (m : ℕ) (rest : List ℕ) : Type 0 where
  before : List ℕ
  behind : List ℕ
  parts : q ≡ before ++ m ∷ behind
  left : rest ≡ before ++ behind
  skipped : AllPaused s before
  speakable : message_nto_speak s m ≡ false

find_speakable-First :
    (s : Server) (q : List ℕ)
    → ((find_speakable s q ≡ none) × AllPaused s q)
      ⊎ ((m : ℕ) × (rest : List ℕ) × (find_speakable s q ≡ some (m, rest)) × First s q m rest)
unfolding find_speakable
find_speakable-First s [] = inl (refl, tt)
find_speakable-First s (p ∷ q) = elim (Bool-cases (message_nto_speak s p)) [
  | inr free ↦ inr (
    p,
    q,
    rw (free, find_speakable),
    record { before = []; behind = q; parts = refl; left = refl; skipped = tt; speakable = free },
  )
  | inl paused ↦ elim (find_speakable-First s q) [
    | inl (e, all) ↦ inl (rw (paused, e, find_speakable), (paused, all))
    | inr (m, rest, e, f) ↦ inr (
      m,
      p ∷ rest,
      rw (paused, e, find_speakable),
      record {
        before = p ∷ f.before;
        behind = f.behind;
        parts = ap (◌∷◌ p) f.parts;
        left = ap (◌∷◌ p) f.left;
        skipped = (paused, f.skipped);
        speakable = f.speakable;
      },
    )
  ]
]

-- The message `m` is taken from the queue of `prio`: it is the first of that queue that may be
-- said, nothing in a more urgent queue may be said, and it alone leaves.
pub record Taken (s : Server) (m : ℕ) (t : Server) : Type 0 where
  pub prio : Priority
  pub before : List ℕ
  pub behind : List ℕ
  pub parts : get_queue prio s.queues ≡ before ++ m ∷ behind
  pub queues : t.queues ≡ put_queue prio (before ++ behind) s.queues
  pub current : t.current_priority ≡ prio
  pub freed : t.freed ≡ s.freed
  pub skipped : AllPaused s before
  pub speakable : message_nto_speak s m ≡ false
  pub urgent : (p : Priority) → number p < number prio → AllPaused s (get_queue p s.queues)

-- Either nothing may be said and nothing changes, or a message is taken.
abbrev pub Chosen : Server → Option ℕ × Server → Type 0
Chosen s (none, t) = (t ≡ s) × ((p : Priority) → AllPaused s (get_queue p s.queues))
Chosen s (some m, t) = Taken s m t

-- The priorities passed so far have nothing to say.
Passed : Server → ℕ → Type 0
Passed s n = (p : Priority) → number p < n → AllPaused s (get_queue p s.queues)

descend-step :
    (s : Server) (prio : Priority) (prios : List Priority)
    → Passed s (number prio)
    → (AllPaused s (get_queue prio s.queues) → Chosen s (descend prios s))
    → Chosen s (descend (prio ∷ prios) s)
unfolding descend Passed speaking_get_queue speaking_set_queue
descend-step s prio prios passed later = elim (find_speakable-First s (get_queue prio s.queues)) [
  | inl (e, all) ↦ rw (e, descend) (later all)
  | inr (m, rest, e, f) ↦
      rw (e, descend)
        (record {
          prio = prio;
          before = f.before;
          behind = f.behind;
          parts = f.parts;
          queues = ap (λ q. put_queue prio q s.queues) f.left;
          current = refl;
          freed = refl;
          skipped = f.skipped;
          speakable = f.speakable;
          urgent = passed;
        })
]

number_bounds : (p : Priority) → (0 < number p) × (number p < 6)
number_bounds important = omega arith
number_bounds _ = omega arith

number-injective : (p q : Priority) → number p ≡ number q → p ≡ q
number-injective important q h = ground arith
number-injective message q h = ground arith
number-injective text q h = ground arith
number-injective notification q h = ground arith
number-injective progress q h = ground arith

pass :
    (s : Server) (prio : Priority)
    → Passed s (number prio)
    → AllPaused s (get_queue prio s.queues)
    → (n : ℕ) → n ≡ suc (number prio)
    → Passed s n
unfolding Passed
pass s prio passed all n e p h = elim (dec_lt (number p) (number prio)) [
  | yes before ↦ passed p before
  | no here ↦ rw (number-injective p prio (omega arith)) all
]

-- `get_message_from_queues` takes the first message of an unpaused client from the most urgent
-- queue that has one, leaves all others in their order, and makes that queue's priority the
-- current one; it finds nothing only if all messages in the queues are of paused clients.
pub get_message_from_queues-Chosen : (s : Server) → Chosen s (get_message_from_queues s)
unfolding get_message_from_queues Passed
get_message_from_queues-Chosen s =
    descend-step s important (message ∷ text ∷ notification ∷ progress ∷ []) p1 λ a1.
      let p2 = pass s important p1 a1 2 refl in
      descend-step s message (text ∷ notification ∷ progress ∷ []) p2 λ a2.
        let p3 = pass s message p2 a2 3 refl in
        descend-step s text (notification ∷ progress ∷ []) p3 λ a3.
          let p4 = pass s text p3 a3 4 refl in
          descend-step s notification (progress ∷ []) p4 λ a4.
            let p5 = pass s notification p4 a4 5 refl in
            descend-step s progress [] p5 λ a5.
              let p6 = pass s progress p5 a5 6 refl in
              unfold descend Passed in (refl, λ p. p6 p (number_bounds p).1)
  where
    p1 : Passed s 1
    p1 = λ p h. absurd (omega (arith, number_bounds p))
