-- ===== src/Speaking/Queues/Count.antt =====
-- How often an address stands in a list, and what the loops over a queue do to that number.
use opentts.Prelude.{ℕ, ◌+◌, ◌≡◌, refl, Bool, not, List, [], ◌∷◌, ◌++◌, ◌==◌, if◌then◌else◌, arith}
use opentts.Types.{Priority, important, message, text, notification, progress, Queues}
use opentts.Speaking.Queues.{get_queue, put_queue}
use opentts.Speaking.Queues.Loops.{select, push_all}

-- Occurrences of the address `a`.
abbrev pub count : ℕ → List ℕ → ℕ
count a [] = 0
count a (p ∷ q) = (if p == a then 1 else 0) + count a q

pub count-append : (a : ℕ) (q r : List ℕ) → count a (q ++ r) ≡ count a q + count a r
count-append a [] r = omega arith
count-append a (p ∷ q) r = omega (arith, count-append a q r)

pub count-push_all :
    (a : ℕ) (q freed : List ℕ) → count a (push_all q freed) ≡ count a q + count a freed
count-push_all a [] freed = omega arith
count-push_all a (p ∷ q) freed = omega (arith, count-push_all a q (p ∷ freed))

-- A test splits a list in two parts.
pub count-select :
    (a : ℕ) (test : ℕ → Bool) (q : List ℕ)
    → count a (select test q) + count a (select (λ p. not (test p)) q) ≡ count a q
count-select a test [] = refl
count-select a test (p ∷ q) = ground (arith, count-select a test q)

-- The addresses of all queues.
abbrev pub queued : Queues → List ℕ
queued qs = qs.p1 ++ (qs.p2 ++ (qs.p3 ++ (qs.p4 ++ qs.p5)))

pub count-queued :
    (a : ℕ) (qs : Queues)
    → count a (queued qs)
      ≡ count a qs.p1 + count a qs.p2 + count a qs.p3 + count a qs.p4 + count a qs.p5
count-queued a qs = omega (
  arith,
  count-append a qs.p1 (qs.p2 ++ (qs.p3 ++ (qs.p4 ++ qs.p5))),
  count-append a qs.p2 (qs.p3 ++ (qs.p4 ++ qs.p5)),
  count-append a qs.p3 (qs.p4 ++ qs.p5),
  count-append a qs.p4 qs.p5,
)

-- One queue is exchanged for another.
pub count-put_queue :
    (a : ℕ) (p : Priority) (q : List ℕ) (qs : Queues)
    → count a (queued (put_queue p q qs)) + count a (get_queue p qs)
      ≡ count a (queued qs) + count a q
count-put_queue a important q qs =
    omega (arith, count-queued a qs, count-queued a (put_queue important q qs))
count-put_queue a message q qs =
    omega (arith, count-queued a qs, count-queued a (put_queue message q qs))
count-put_queue a text q qs = omega (arith, count-queued a qs, count-queued a (put_queue text q qs))
count-put_queue a notification q qs =
    omega (arith, count-queued a qs, count-queued a (put_queue notification q qs))
count-put_queue a progress q qs =
    omega (arith, count-queued a qs, count-queued a (put_queue progress q qs))
