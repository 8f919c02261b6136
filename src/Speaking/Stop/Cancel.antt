-- ===== src/Speaking/Stop/Cancel.antt =====
-- CANCEL leaves exactly the messages of the other clients, in their order.
use opentts.Prelude.{ℕ, ◌≡◌, refl, sym, ◌∙◌, Bool, not, List, [], ◌∷◌, ◌++◌, ◌==◌, arith, length}
use opentts.Types.{
  Priority, important, message, text, notification, progress, Message, Queues, Event, Server,
}
use opentts.Output.Frame.{output_stop-SameScheduler}
use opentts.Speaking.Queues.{get_queue, put_queue, stop_priority_from_uid}
use opentts.Speaking.Queues.Count.{count-append, count-push_all, count-select}
use opentts.Speaking.Queues.Ends.{Accepted}
use opentts.Speaking.Priorities.Steps.{queues-stop_priority}
use opentts.Speaking.Queues.Loops.{select, push_all, of_uid, stop_rounds_lem}
use opentts.Speaking.Priorities.Conserve.{occurrences, tally-put_queue, occurrences-stop_priority}
use opentts.Speaking.Stop.Blocks.{speaking_stop-TookOff}
use opentts.Speaking.Stop.{stop_queue_from_uid, stop_from_uid, speaking_cancel, speaking_cancel_all}

abbrev pub of_others : (ℕ → Message) → ℕ → List ℕ → List ℕ
of_others h uid = select (λ p. not (of_uid h uid p))

-- Every queue without the messages of one client.
abbrev pub without_uid : (ℕ → Message) → ℕ → Queues → Queues
without_uid h uid qs = record {
  p1 = of_others h uid qs.p1;
  p2 = of_others h uid qs.p2;
  p3 = of_others h uid qs.p3;
  p4 = of_others h uid qs.p4;
  p5 = of_others h uid qs.p5;
}

-- One queue: those of the client are freed.
stop_queue_from_uid_lem :
    (uid : ℕ) (p : Priority) (s : Server)
    → ((stop_queue_from_uid uid p s).queues
        ≡ put_queue p (of_others s.messages uid (get_queue p s.queues)) s.queues)
      × ((stop_queue_from_uid uid p s).freed
          ≡ push_all (select (of_uid s.messages uid) (get_queue p s.queues)) s.freed)
      × ((stop_queue_from_uid uid p s).messages ≡ s.messages)
unfolding stop_queue_from_uid stop_priority_from_uid
stop_queue_from_uid_lem uid p s =
    let q = get_queue p s.queues in
    rw (stop_rounds_lem (length q) uid q s (omega arith)) (refl, refl, refl)

messages-stop_queue_from_uid :
    (uid : ℕ) (p : Priority) (s : Server) → (stop_queue_from_uid uid p s).messages ≡ s.messages
messages-stop_queue_from_uid uid p s = (stop_queue_from_uid_lem uid p s).2

queues-stop_queue_from_uid :
    (uid : ℕ) (p : Priority) (s : Server)
    → (stop_queue_from_uid uid p s).queues
      ≡ put_queue p (of_others s.messages uid (get_queue p s.queues)) s.queues
queues-stop_queue_from_uid uid p s = (stop_queue_from_uid_lem uid p s).0

occurrences-stop_queue_from_uid :
    (a uid : ℕ) (p : Priority) (s : Server)
    → occurrences a (stop_queue_from_uid uid p s) ≡ occurrences a s
occurrences-stop_queue_from_uid a uid p s =
    let (q', f', _) = stop_queue_from_uid_lem uid p s in
    let q = get_queue p s.queues in
    rw (q', f')
      (tally-put_queue a p (of_others s.messages uid q) s.queues s.freed
        (push_all (select (of_uid s.messages uid) q) s.freed)
        (omega (
          arith,
          count-push_all a (select (of_uid s.messages uid) q) s.freed,
          count-select a (of_uid s.messages uid) q,
        )))

pub queues-stop_from_uid :
    (uid : ℕ) (s : Server) → (stop_from_uid uid s).queues ≡ without_uid s.messages uid s.queues
unfolding stop_from_uid
queues-stop_from_uid uid s =
    let s1 = stop_queue_from_uid uid important s in
    let s2 = stop_queue_from_uid uid message s1 in
    let s3 = stop_queue_from_uid uid text s2 in
    let m1 = messages-stop_queue_from_uid uid important s in
    let m2 = messages-stop_queue_from_uid uid message s1 in
    let m3 = messages-stop_queue_from_uid uid text s2 in
    let m4 = messages-stop_queue_from_uid uid notification s3 in
    simp queues-stop_queue_from_uid (rw (m4, m3, m2, m1))

pub occurrences-stop_from_uid :
    (a uid : ℕ) (s : Server) → occurrences a (stop_from_uid uid s) ≡ occurrences a s
unfolding stop_from_uid
occurrences-stop_from_uid a uid s = simp occurrences-stop_queue_from_uid

-- What leaves the end of a queue in a STOP is the client's, so CANCEL finds the others untouched.
of_others-append :
    (h : ℕ → Message) (uid : ℕ) (front tail : List ℕ)
    → (Accepted (λ m. m.settings.uid == uid) h tail)
    → of_others h uid (front ++ tail) ≡ of_others h uid front
of_others-append h uid [] [] all = refl
of_others-append h uid [] (p ∷ tail) all = rw all.0 (of_others-append h uid [] tail all.1)
of_others-append h uid (p ∷ front) tail all = rw (of_others-append h uid front tail all)

without_uid-put_queue :
    (h : ℕ → Message) (uid : ℕ) (p : Priority) (q : List ℕ) (qs : Queues)
    → of_others h uid q ≡ of_others h uid (get_queue p qs)
    → without_uid h uid (put_queue p q qs) ≡ without_uid h uid qs
without_uid-put_queue h uid important q qs e = rw e
without_uid-put_queue h uid message q qs e = rw e
without_uid-put_queue h uid text q qs e = rw e
without_uid-put_queue h uid notification q qs e = rw e
without_uid-put_queue h uid progress q qs e = rw e

module _ (pipe_ok : List Event → Bool) (uid : ℕ) (s : Server) where
  -- After CANCEL each queue holds what it held, less the messages of the client, in the old order.
  pub speaking_cancel-queues :
      (speaking_cancel pipe_ok uid s).queues ≡ without_uid s.messages uid s.queues
  unfolding speaking_cancel
  speaking_cancel-queues =
      let (front, tail, took) = speaking_stop-TookOff pipe_ok uid s in
      rw (queues-stop_from_uid, took.messages, took.queues)
        (without_uid-put_queue s.messages uid s.current_priority front s.queues
          (rw took.parts (sym (of_others-append s.messages uid front tail took.accepted))))

  -- CANCEL moves messages from the queues to the freed ones and nowhere else: each address occurs in
  -- the queues and among the freed ones together as often as before.
  speaking_cancel-conserves :
      (a : ℕ) → occurrences a (speaking_cancel pipe_ok uid s) ≡ occurrences a s
  unfolding speaking_cancel
  speaking_cancel-conserves a =
      let (front, tail, took) = speaking_stop-TookOff pipe_ok uid s in
      occurrences-stop_from_uid a uid _
      ∙ rw (took.queues, took.freed)
          (tally-put_queue a s.current_priority front s.queues s.freed (tail ++ s.freed)
            (rw took.parts (omega (arith, count-append a front tail, count-append a tail s.freed))))

  -- After CANCEL ALL all queues are empty.
  speaking_cancel_all-queues :
      (speaking_cancel_all pipe_ok s).queues
      ≡ record { p1 = []; p2 = []; p3 = []; p4 = []; p5 = [] }
  unfolding speaking_cancel_all
  speaking_cancel_all-queues = rw (
    queues-stop_priority, queues-stop_priority, queues-stop_priority, queues-stop_priority,
    queues-stop_priority,
  )

  pub speaking_cancel_all-conserves :
      (a : ℕ) → occurrences a (speaking_cancel_all pipe_ok s) ≡ occurrences a s
  unfolding speaking_cancel_all
  speaking_cancel_all-conserves a =
      let same = output_stop-SameScheduler pipe_ok s in
      simp occurrences-stop_priority (rw (same.queues, same.freed))
