-- ===== src/Speaking/Queues.antt =====
-- The message queues of src/server/speaking.c: access by priority, and the loops that empty them.
-- A GList is a list; a loop that looks a link up and deletes it returns the list that is left.
pub mod Loops
pub mod Count
pub mod Ends
use Prim.Native.Nat.{bit_and}
use opentts.Prelude.{
  ℕ, zero, suc, ◌≡◌, refl, Bool, true, false, not, List, [], ◌∷◌, Option, none, some, length, ltb,
  ◌==◌, if◌then◌else◌,
}
use opentts.Types.{
  Priority, important, message, text, notification, progress, Message, Queues, Report, cancel,
  Event, report, Server,
}

abbrev pub number : Priority → ℕ
number important = 1
number message = 2
number text = 3
number notification = 4
number progress = 5

abbrev pub same_priority : Priority → Priority → Bool
same_priority p q = number p == number q

abbrev pub get_queue : Priority → Queues → List ℕ
get_queue important qs = qs.p1
get_queue message qs = qs.p2
get_queue text qs = qs.p3
get_queue notification qs = qs.p4
get_queue progress qs = qs.p5

abbrev pub put_queue : Priority → List ℕ → Queues → Queues
put_queue important q qs = record qs { p1 = q }
put_queue message q qs = record qs { p2 = q }
put_queue text q qs = record qs { p3 = q }
put_queue notification q qs = record qs { p4 = q }
put_queue progress q qs = record qs { p5 = q }

unfoldable pub speaking_get_queue : Priority → Server → List ℕ
speaking_get_queue p s = get_queue p s.queues

unfoldable pub speaking_set_queue : Priority → List ℕ → Server → Server
speaking_set_queue p q s = record s { queues = put_queue p q s.queues }

-- SPD_CANCEL, and the test `notification & flag`.
abbrev pub cancel_flag : ℕ
cancel_flag = 8

abbrev pub has_flag : ℕ → ℕ → Bool
has_flag n flag = not (bit_and n flag == 0)

-- `report_begin` and its like (REPORT_STATE).
abbrev pub report_event : Report → Message → Event
report_event r m = report r m.settings.fd m.id m.settings.uid

unfoldable pub mem_free_message : ℕ → Server → Server
mem_free_message p s = record s { freed = p ∷ s.freed }

-- `queue_remove_message`, less the deletion of the link, which is the caller's here.
unfoldable pub queue_remove_message : ℕ → Server → Server
unfolding mem_free_message
queue_remove_message p s = mem_free_message p (record s {
  events =
      if has_flag m.settings.notification cancel_flag
      then report_event cancel m ∷ s.events
      else s.events;
})
  where
    m : Message
    m = s.messages p

unfoldable pub empty_queue : List ℕ → Server → List ℕ × Server
empty_queue [] s = ([], s)
empty_queue (p ∷ q) s = empty_queue q (queue_remove_message p s)

unfoldable pub empty_queue_by_time : ℕ → List ℕ → Server → List ℕ × Server
empty_queue_by_time uid [] s = ([], s)
empty_queue_by_time uid (p ∷ q) s =
    let older = ltb (s.messages p).id uid in
    let (rest, s') = empty_queue_by_time uid q (if older then queue_remove_message p s else s) in
    (if older then rest else p ∷ rest, s')

-- `g_list_find_custom` by `compare_message_uid`: the first message of the client, and the list
-- without its link.
unfoldable pub find_uid : (ℕ → Message) → ℕ → List ℕ → Option (ℕ × List ℕ)
find_uid h uid [] = none
find_uid h uid (p ∷ q) = elim ((h p).settings.uid == uid) [
  | true ↦ some (p, q)
  | false ↦ elim (find_uid h uid q) [ none ↦ none | some (m, rest) ↦ some (m, p ∷ rest) ]
]

-- The `while` loop of `stop_priority_from_uid`; each round takes one link out.
unfoldable pub stop_rounds : ℕ → ℕ → List ℕ → Server → List ℕ × Server
stop_rounds zero uid q s = (q, s)
stop_rounds (suc rounds) uid q s = elim (find_uid s.messages uid q) [
  | none ↦ (q, s)
  | some (p, rest) ↦ stop_rounds rounds uid rest (queue_remove_message p s)
]

unfoldable pub stop_priority_from_uid : ℕ → List ℕ → Server → List ℕ × Server
stop_priority_from_uid uid q s = stop_rounds (length q) uid q s

-- `g_list_last`, and the list without that link.
abbrev pub split_last : List ℕ → Option (List ℕ × ℕ)
split_last [] = none
split_last (p ∷ q) = elim (split_last q) [
  | none ↦ some ([], p)
  | some (front, last) ↦ some (p ∷ front, last)
]

-- The loop of `stop_priority_except_first`: whatever is not of the group goes, with no report.
unfoldable pub purge_group : ℕ → List ℕ → Server → List ℕ × Server
purge_group gid [] s = ([], s)
purge_group gid (p ∷ q) s =
    let same = (s.messages p).settings.reparted == gid in
    let (rest, s') = purge_group gid q (if same then s else mem_free_message p s) in
    (if same then p ∷ rest else rest, s')

-- The loop of `speaking_stop` and `speaking_stop_all`: links go from the end while `test` accepts
-- the message. Each round takes one link out.
unfoldable pub strip_rounds : ℕ → (Message → Bool) → List ℕ → Server → List ℕ × Server
strip_rounds zero test q s = (q, s)
strip_rounds (suc rounds) test q s = elim (split_last q) [
  | none ↦ (q, s)
  | some (front, last) ↦ elim (test (s.messages last)) [
    | true ↦ strip_rounds rounds test front (mem_free_message last s)
    | false ↦ (q, s)
  ]
]

abbrev pub strip_end : (Message → Bool) → List ℕ → Server → List ℕ × Server
strip_end test q s = strip_rounds (length q) test q s

-- Reading and writing one queue.
pub put-get_queue : (p : Priority) (qs : Queues) → put_queue p (get_queue p qs) qs ≡ qs
put-get_queue important qs = refl
put-get_queue _ qs = refl

pub get-put_queue : (p : Priority) (q : List ℕ) (qs : Queues) → get_queue p (put_queue p q qs) ≡ q
get-put_queue important q qs = refl
get-put_queue _ q qs = refl

pub put-put_queue :
    (p : Priority) (q r : List ℕ) (qs : Queues)
    → put_queue p r (put_queue p q qs) ≡ put_queue p r qs
put-put_queue important q r qs = refl
put-put_queue _ q r qs = refl
