-- ===== src/Speaking/Priorities/Only.antt =====
-- A change of the queues that leaves all else alone, but what goes out and the state of the modules.
use mathlib.Core.List.{append_assoc}
use opentts.Prelude.{
  ℕ, ◌≡◌, refl, sym, ◌∙◌, ap, ◌⊎◌, inl, inr, Bool, false, List, [], ◌∷◌, ◌++◌, none, some,
  Bool-cases,
}
use opentts.Types.{Priority, Message, Queues, Event, cancel, Server}
use opentts.Clients.{update}
use opentts.Speaking.Queues.{cancel_flag, has_flag, report_event, put_queue, speaking_set_queue}
use opentts.Speaking.Queues.Loops.{push_all, cancels}

-- The module that speaks did not take a command, after the events `new` had gone out: it is marked as
-- not working, and no module speaks any more.
pub record Broken (pipe_ok : List Event → Bool) (s t : Server) : Type 0 where
  pub failed : ℕ
  pub new : List Event
  pub spoke : s.speaking_module ≡ some failed
  pub refused : pipe_ok (new ++ s.events) ≡ false
  pub silent : t.speaking_module ≡ none
  pub working : t.working ≡ update s.working failed false

abbrev pub SameModules : Server → Server → Type 0
SameModules s t = (t.speaking_module ≡ s.speaking_module) × (t.working ≡ s.working)

-- From `s` to `t` at most the queues, the freed addresses, the events and the state of the output
-- module have changed. Events were only added, and the state of the module has changed only if its
-- pipe is broken.
pub record OnlyQueues (pipe_ok : List Event → Bool) (s t : Server) : Type 0 where
  pub only : t ≡ record s {
    queues = t.queues;
    freed = t.freed;
    speaking_module = t.speaking_module;
    working = t.working;
    events = t.events;
  }
  pub sent : (new : List Event) × (t.events ≡ new ++ s.events)
  pub modules : SameModules s t ⊎ Broken pipe_ok s t

cancels-grow :
    (h : ℕ → Message) (q : List ℕ) (events : List Event)
    → (new : List Event) × (cancels h q events ≡ new ++ events)
cancels-grow h [] events = ([], refl)
cancels-grow h (p ∷ q) events =
    elim (Bool-cases (has_flag (h p).settings.notification cancel_flag)) [
      | inl asked ↦
          let (new, e) = cancels-grow h q (report_event cancel (h p) ∷ events) in
          (
            new ++ report_event cancel (h p) ∷ [],
            rw asked (e ∙ sym (append_assoc new (report_event cancel (h p) ∷ []) events)),
          )
      | inr silent ↦ let (new, e) = cancels-grow h q events in (new, rw silent e)
    ]

module _ (pipe_ok : List Event → Bool) where
  pub OnlyQueues-refl : (s : Server) → OnlyQueues pipe_ok s s
  OnlyQueues-refl s = record { only = refl; sent = ([], refl); modules = inl (refl, refl) }

  -- New queues, freed addresses, and events on top of the old ones.
  pub queues-OnlyQueues :
      (qs : Queues) (freed : List ℕ) (events new : List Event) (s : Server)
      → events ≡ new ++ s.events
      → OnlyQueues pipe_ok s (record s { queues = qs; freed = freed; events = events })
  queues-OnlyQueues qs freed events new s e = record {
    only = refl;
    sent = (new, e);
    modules = inl (refl, refl);
  }

  pub set_queue-OnlyQueues :
      (p : Priority) (q : List ℕ) (s : Server) → OnlyQueues pipe_ok s (speaking_set_queue p q s)
  unfolding speaking_set_queue
  set_queue-OnlyQueues p q s = queues-OnlyQueues (put_queue p q s.queues) s.freed s.events [] s refl

  -- A queue is exchanged, and messages are canceled and freed.
  pub discarded-OnlyQueues :
      (p : Priority) (q away : List ℕ) (s : Server)
      → OnlyQueues pipe_ok s (record s {
        queues = put_queue p q s.queues;
        freed = push_all away s.freed;
        events = cancels s.messages away s.events;
      })
  discarded-OnlyQueues p q away s =
      let (new, e) = cancels-grow s.messages away s.events in
      queues-OnlyQueues (put_queue p q s.queues) (push_all away s.freed)
        (cancels s.messages away s.events) new s e

  -- A pipe that is broken first, and what comes later.
  later_failure :
      (s t u : Server)
      → OnlyQueues pipe_ok s t
      → SameModules s t
      → Broken pipe_ok t u
      → Broken pipe_ok s u
  later_failure s t u a (spoke, working) f =
      let (new, grown) = a.sent in
      let joined : f.new ++ t.events ≡ (f.new ++ new) ++ s.events =
        ap (λ x. f.new ++ x) grown ∙ sym (append_assoc f.new new s.events) in
      record {
        failed = f.failed;
        new = f.new ++ new;
        spoke = sym spoke ∙ f.spoke;
        refused = rw (← joined) f.refused;
        silent = f.silent;
        working = f.working ∙ ap (λ w. update w f.failed false) working;
      }

  modules_trans :
      (s t u : Server)
      → OnlyQueues pipe_ok s t
      → SameModules s t ⊎ Broken pipe_ok s t
      → SameModules t u ⊎ Broken pipe_ok t u
      → SameModules s u ⊎ Broken pipe_ok s u
  modules_trans s t u a (inl (m, w)) (inl (m', w')) = inl (m' ∙ m, w' ∙ w)
  modules_trans s t u a (inl same) (inr f) = inr (later_failure s t u a same f)
  modules_trans s t u a (inr f) (inl (m, w)) = inr (record {
    failed = f.failed;
    new = f.new;
    spoke = f.spoke;
    refused = f.refused;
    silent = m ∙ f.silent;
    working = w ∙ f.working;
  })
  modules_trans s t u a (inr f) (inr g) = absurd (cc (f.silent, g.spoke))

  pub OnlyQueues-trans :
      {s t u : Server} → OnlyQueues pipe_ok s t → OnlyQueues pipe_ok t u → OnlyQueues pipe_ok s u
  OnlyQueues-trans {s} {t} {u} a b =
      let (older, e) = a.sent in
      let (newer, d) = b.sent in
      record {
        only = b.only ∙ ap onto a.only;
        sent =
            (newer ++ older, d ∙ ap (λ x. newer ++ x) e ∙ sym (append_assoc newer older s.events));
        modules = modules_trans s t u a a.modules b.modules;
      }
    where
      onto : Server → Server
      onto x = record x {
        queues = u.queues;
        freed = u.freed;
        speaking_module = u.speaking_module;
        working = u.working;
        events = u.events;
      }
