-- ===== src/Speaking/Select.antt =====
-- Which message is said next: `message_nto_speak` and `get_message_from_queues`.
pub mod Choice
use opentts.Prelude.{ℕ, Bool, true, false, not, List, [], ◌∷◌, Option, none, some, ◌==◌}
use opentts.Types.{Priority, important, message, text, notification, progress, Server}
use opentts.Clients.{get_client_settings_by_fd}
use opentts.Speaking.Queues.{speaking_get_queue, speaking_set_queue}

-- Is the client of the message paused? A client that is gone is not.
unfoldable pub message_nto_speak : Server → ℕ → Bool
unfolding get_client_settings_by_fd
message_nto_speak s p = elim (get_client_settings_by_fd s (s.messages p).settings.fd) [
  | none ↦ false
  | some client ↦ not (client.paused == 0)
]

-- The inner loop of `get_message_from_queues`: the first message that may be said, and the queue
-- without its link. The same loop is `g_list_find_custom` by `message_nto_speak`.
unfoldable pub find_speakable : Server → List ℕ → Option (ℕ × List ℕ)
unfolding message_nto_speak
find_speakable s [] = none
find_speakable s (p ∷ q) = elim (message_nto_speak s p) [
  | false ↦ some (p, q)
  | true ↦ elim (find_speakable s q) [ none ↦ none | some (m, rest) ↦ some (m, p ∷ rest) ]
]

-- The outer loop, over the priorities that are left.
unfoldable pub descend : List Priority → Server → Option ℕ × Server
unfolding find_speakable speaking_get_queue speaking_set_queue
descend [] s = (none, s)
descend (prio ∷ prios) s = elim (find_speakable s (speaking_get_queue prio s)) [
  | none ↦ descend prios s
  | some (m, rest) ↦ (some m, record (speaking_set_queue prio rest s) { current_priority = prio })
]

abbrev pub priorities : List Priority
priorities = important ∷ message ∷ text ∷ notification ∷ progress ∷ []

unfoldable pub get_message_from_queues : Server → Option ℕ × Server
unfolding descend
get_message_from_queues s = descend priorities s
