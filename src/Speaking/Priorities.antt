-- ===== src/Speaking/Priorities.antt =====
-- The interaction of priorities: `stop_priority` and its like, and `resolve_priorities`.
pub mod Steps
pub mod Table
pub mod Conserve
pub mod Only
pub mod Frame
use opentts.Prelude.{
  ℕ, Bool, true, false, not, ◌&&◌, List, [], ◌∷◌, none, some, ◌==◌, if◌then◌else◌,
}
use opentts.Types.{Priority, important, message, text, notification, progress, Event, Server}
use opentts.Output.{output_stop}
use opentts.Speaking.Queues.{
  same_priority, speaking_get_queue, speaking_set_queue, empty_queue, empty_queue_by_time,
  split_last, purge_group,
}

-- The case SPD_PROGRESS: while something is said, only the last progress message is kept.
unfoldable pub keep_last_progress : Server → Server
unfolding speaking_get_queue speaking_set_queue
keep_last_progress s = elim (split_last (speaking_get_queue progress s)) [
  | none ↦ s
  | some (front, last) ↦
      let (_, s1) = empty_queue front (speaking_set_queue progress front s) in
      speaking_set_queue progress (last ∷ []) s1
]

module _ (pipe_ok : List Event → Bool) where
  abbrev stop_if : Bool → Server → Server
  stop_if b s = if b then output_stop pipe_ok s else s

  unfoldable pub stop_priority : Priority → Server → Server
  unfolding speaking_get_queue speaking_set_queue
  stop_priority p s =
      let queue = speaking_get_queue p s in
      let s1 = stop_if (same_priority s.current_priority p) s in
      let (queue', s2) = empty_queue queue s1 in speaking_set_queue p queue' s2

  unfoldable pub stop_priority_older_than : Priority → ℕ → Server → Server
  unfolding speaking_get_queue speaking_set_queue
  stop_priority_older_than p uid s =
      let queue = speaking_get_queue p s in
      let s1 = stop_if (same_priority s.current_priority p) s in
      let (queue', s2) = empty_queue_by_time uid queue s1 in speaking_set_queue p queue' s2

  -- Only the last message of the queue, or its whole group if it is one of a block, is kept.
  unfoldable pub stop_priority_except_first : Priority → Server → Server
  unfolding speaking_get_queue speaking_set_queue
  stop_priority_except_first p s = elim (split_last (speaking_get_queue p s)) [
    | none ↦ s
    | some (front, last) ↦
        let gid = (s.messages last).settings.reparted in
        elim (gid == 0) [
          | true ↦ speaking_set_queue p (last ∷ []) (stop_priority p (speaking_set_queue p front s))
          | false ↦
              let s1 =
                stop_if (same_priority s.current_priority p && not (s.speaking_gid == gid)) s in
              let (queue', s2) = purge_group gid (speaking_get_queue p s) s1 in
              speaking_set_queue p queue' s2
        ]
  ]

  unfoldable pub resolve_priorities : Priority → Server → Server
  resolve_priorities important s =
      let s1 = stop_if (s.speaking && not (same_priority s.current_priority important)) s in
      stop_priority progress (stop_priority notification s1)
  resolve_priorities message s =
      let s1 =
        stop_if
          (s.speaking
            && not (same_priority s.current_priority important)
            && not (same_priority s.current_priority message))
          s in
      stop_priority progress (stop_priority notification (stop_priority text s1))
  resolve_priorities text s =
      stop_priority progress (stop_priority notification (stop_priority_except_first text s))
  resolve_priorities notification s =
      let s1 = stop_priority_except_first notification s in
      if s1.speaking && not (same_priority s1.current_priority notification)
      then stop_priority notification s1
      else s1
  resolve_priorities progress s =
      let s1 = stop_priority notification s in if s1.speaking then keep_last_progress s1 else s1
