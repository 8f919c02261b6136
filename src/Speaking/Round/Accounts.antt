-- ===== src/Speaking/Round/Accounts.antt =====
-- Where the addresses of messages are, before and after a round of `speak`.
use mathlib.Core.Path.{subst}
use opentts.Prelude.{
  ℕ, ◌+◌, ◌≡◌, refl, ◌∙◌, ap, inl, inr, Bool, true, false, List, [], ◌∷◌, ◌++◌, Option, none, some,
  ◌==◌, if◌then◌else◌, arith, Option-cases,
}
use opentts.Prelude.Int.{ℤ}
use opentts.Types.{Bytes, Priority, Message, Server}
use opentts.Output.{module_failed}
use opentts.QueueMessage.{store_message, free_block}
use opentts.Speaking.Queues.{mem_free_message, split_last, speaking_get_queue, speaking_set_queue}
use opentts.Speaking.Queues.Count.{count, queued, count-append, count-push_all, count-put_queue}
use opentts.Speaking.Queues.Loops.{push_all}
use opentts.Speaking.Select.{find_speakable, descend, priorities, get_message_from_queues}
use opentts.Speaking.Select.Choice.{Chosen, Taken, get_message_from_queues-Chosen}
use opentts.Speaking.Round.{
  hand_over, output_speak, insert_marks, start_speaking, replace_current, said_progress,
}

-- The current message, unless it was paused while it was said: then it is not the current message that
-- keeps it, since it is not freed with the next one.
abbrev pub held : Option ℕ → (ℕ → Message) → List ℕ
held none h = []
held (some q) h = if (h q).settings.paused_while_speaking then [] else q ∷ []

-- How often an address occurs in the queues, in the list of paused messages, in the last block of
-- progress messages, as the current message, and among the freed.
abbrev pub places : ℕ → Server → ℕ
places a s =
    count a (queued s.queues)
    + count a s.paused_list
    + count a s.last_p5_block
    + count a (held s.current_message s.messages)
    + count a s.freed

-- No address has moved, and nobody was told anything.
pub record SamePlaces (s t : Server) : Type 0 where
  pub queues : t.queues ≡ s.queues
  pub paused : t.paused_list ≡ s.paused_list
  pub block : t.last_p5_block ≡ s.last_p5_block
  pub current : t.current_message ≡ s.current_message
  pub freed : t.freed ≡ s.freed
  pub events : t.events ≡ s.events
  pub settings : (q : ℕ) → (t.messages q).settings ≡ (s.messages q).settings

held-same :
    (o : Option ℕ) (g h : ℕ → Message)
    → ((q : ℕ) → (g q).settings ≡ (h q).settings)
    → held o g ≡ held o h
held-same none g h same = refl
held-same (some q) g h same = rw (same q) refl

pub places-same : (a : ℕ) (s t : Server) → SamePlaces s t → places a t ≡ places a s
places-same a s t h =
    let kept = held-same s.current_message t.messages s.messages h.settings in
    rw (h.queues, h.paused, h.block, h.current, h.freed) (rw kept refl)

pub SamePlaces-trans : (s t u : Server) → SamePlaces s t → SamePlaces t u → SamePlaces s u
SamePlaces-trans s t u a b = record {
  queues = b.queues ∙ a.queues;
  paused = b.paused ∙ a.paused;
  block = b.block ∙ a.block;
  current = b.current ∙ a.current;
  freed = b.freed ∙ a.freed;
  events = b.events ∙ a.events;
  settings = λ q. b.settings q ∙ a.settings q;
}

-- The message is prepared and handed over: no address moves, and nobody is told.
pub insert_marks-SamePlaces :
    (isspace : Bytes → Bool) (p : ℕ) (s t : Server)
    → insert_marks isspace p s ≡ some t
    → SamePlaces s t
unfolding insert_marks store_message
insert_marks-SamePlaces isspace p s t e = record {
  queues = ground (arith, e);
  paused = ground (arith, e);
  block = ground (arith, e);
  current = ground (arith, e);
  freed = ground (arith, e);
  events = ground (arith, e);
  settings = λ q. ground (arith, e);
}

module _ (module_of : Server → ℕ → Option ℕ) (deliver : Server → ℕ → ℤ × Bool) where
  pub output_speak-SamePlaces :
      (p : ℕ) (s : Server) → SamePlaces s (output_speak module_of deliver p s).1
  unfolding output_speak hand_over store_message module_failed
  output_speak-SamePlaces p s = record {
    queues = ground arith;
    paused = ground arith;
    block = ground arith;
    current = ground arith;
    freed = ground arith;
    events = ground arith;
    settings = λ q. ground arith;
  }

-- The block of progress messages is freed.
free_block_lem :
    (q : List ℕ) (s : Server)
    → free_block q s ≡ record s { freed = push_all q s.freed; last_p5_block = [] }
unfolding free_block mem_free_message
free_block_lem [] s = refl
free_block_lem (p ∷ q) s = free_block_lem q (mem_free_message p s)

places-free_block : (a : ℕ) (s : Server) → places a (free_block s.last_p5_block s) ≡ places a s
places-free_block a s =
    rw (free_block_lem s.last_p5_block s) (omega (arith, count-push_all a s.last_p5_block s.freed))

places-if :
    (a : ℕ) (test : Bool) (s t u : Server)
    → places a t ≡ places a s
    → places a u ≡ places a s
    → places a (if test then t else u) ≡ places a s
places-if a true s t u x y = x
places-if a false s t u x y = y

places-said_progress : (a p : ℕ) (s : Server) → places a (said_progress p s) ≡ places a s
unfolding said_progress
places-said_progress a p s = elim (Option-cases (split_last s.last_p5_block)) [
  | inl empty ↦ rw (empty, said_progress) refl
  | inr ((front, last), e) ↦
      let same = (s.messages last).settings.reparted == (s.messages p).settings.reparted in
      rw (e, said_progress)
        (places-if a same s (free_block s.last_p5_block s) s (places-free_block a s) refl)
]

-- The old current message is freed or was put aside, and the new one is held.
places-replace_current :
    (a p : ℕ) (s : Server)
    → places a (replace_current p s) ≡ places a s + count a (held (some p) s.messages)
unfolding replace_current mem_free_message
places-replace_current a p s = ground arith

pub places-start_speaking :
    (a p : ℕ) (s : Server)
    → places a (start_speaking p s) ≡ places a s + count a (held (some p) s.messages)
unfolding start_speaking
places-start_speaking a p s =
    let s1 : Server = record s { speaking = true; speaking_uid = (s.messages p).settings.uid } in
    places-said_progress a p (replace_current p s1) ∙ places-replace_current a p s1

current-said_progress :
    (p : ℕ) (s : Server) → (said_progress p s).current_message ≡ s.current_message
unfolding said_progress
current-said_progress p s = elim (Option-cases (split_last s.last_p5_block)) [
  | inl empty ↦ rw (empty, said_progress) refl
  | inr ((front, last), e) ↦
      rw (e, said_progress) (rw (free_block_lem s.last_p5_block s) (ground arith))
]

pub current-start_speaking : (p : ℕ) (s : Server) → (start_speaking p s).current_message ≡ some p
unfolding start_speaking replace_current
current-start_speaking p s =
    let s1 : Server = record s { speaking = true; speaking_uid = (s.messages p).settings.uid } in
    current-said_progress p (replace_current p s1)

-- The choice of a message changes the queues and the current priority.
descend-only :
    (prios : List Priority) (s : Server)
    → (descend prios s).1 ≡ record s {
      queues = (descend prios s).1.queues;
      current_priority = (descend prios s).1.current_priority;
    }
unfolding descend speaking_set_queue
descend-only [] s = refl
descend-only (prio ∷ prios) s = elim (Option-cases (find_speakable s (speaking_get_queue prio s))) [
  | inl nothing ↦ rw (nothing, descend) (descend-only prios s)
  | inr ((m, rest), e) ↦ rw (e, descend) refl
]

pub get_message-only :
    (s : Server)
    → (get_message_from_queues s).1 ≡ record s {
      queues = (get_message_from_queues s).1.queues;
      current_priority = (get_message_from_queues s).1.current_priority;
    }
unfolding get_message_from_queues
get_message-only s = descend-only priorities s

pub Chosen-Taken :
    (s : Server) (r : Option ℕ × Server) (p : ℕ) → Chosen s r → r.0 ≡ some p → Taken s p r.1
Chosen-Taken s (none, t) p c e = absurd (cc e)
Chosen-Taken s (some q, t) p c e = let same : q ≡ p = cc e in subst (λ x. Taken s x t) same c

pub Chosen-nothing : (s : Server) (r : Option ℕ × Server) → Chosen s r → r.0 ≡ none → r.1 ≡ s
Chosen-nothing s (none, t) c e = c.0
Chosen-nothing s (some q, t) c e = absurd (cc e)

-- The address `p` occurs once less.
abbrev pub Missing : ℕ → Server → Server → Type 0
Missing p s t = (a : ℕ) → places a t + count a (p ∷ []) ≡ places a s

-- The message that is taken leaves its queue, and nothing else moves.
pub taken-Missing :
    (p : ℕ) (s : Server)
    → (get_message_from_queues s).0 ≡ some p
    → Missing p s (get_message_from_queues s).1
taken-Missing p s e a =
    let taken = Chosen-Taken s (get_message_from_queues s) p (get_message_from_queues-Chosen s) e in
    let left = taken.before ++ taken.behind in
    let moved = count-put_queue a taken.prio left s.queues in
    let whole = ap (count a) taken.parts in
    rw (get_message-only s) (
      rw taken.queues (
        omega (
          arith,
          moved,
          whole,
          count-append a taken.before taken.behind,
          count-append a taken.before (p ∷ taken.behind),
        )))
