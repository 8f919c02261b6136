-- ===== src/Speaking/Stop.antt =====
-- STOP and CANCEL: `speaking_stop`, `speaking_cancel` and their like for all clients.
pub mod Blocks
pub mod Silent
pub mod Cancel
use opentts.Prelude.{ℕ, Bool, true, false, not, ◌&&◌, List, none, some, ◌==◌, if◌then◌else◌}
use opentts.Types.{
  Priority, important, message, text, notification, progress, Message, Event, Server,
}
use opentts.Output.{output_stop}
use opentts.Speaking.Queues.{
  speaking_get_queue, speaking_set_queue, split_last, strip_end, stop_priority_from_uid,
}
use opentts.Speaking.Priorities.{stop_priority}

-- 0 if nobody is speaking.
unfoldable pub get_speaking_client_uid : Server → ℕ × Server
get_speaking_client_uid s =
    if s.speaking then (s.speaking_uid, s) else (0, record s { speaking_uid = 0 })

abbrev pub in_group : ℕ → ℕ → Message → Bool
in_group gid uid m = m.settings.reparted == gid && m.settings.uid == uid

-- `stop_from_uid` on one queue.
unfoldable pub stop_queue_from_uid : ℕ → Priority → Server → Server
unfolding speaking_get_queue speaking_set_queue
stop_queue_from_uid uid p s =
    let (queue', s1) = stop_priority_from_uid uid (speaking_get_queue p s) s in
    speaking_set_queue p queue' s1

unfoldable pub stop_from_uid : ℕ → Server → Server
stop_from_uid uid s = stop_queue_from_uid uid progress (
    stop_queue_from_uid uid notification (
      stop_queue_from_uid uid text
        (stop_queue_from_uid uid message (stop_queue_from_uid uid important s))))

-- Take off the end of the current queue what `test` accepts.
unfoldable pub strip_current : (Message → Bool) → Server → Server
unfolding speaking_get_queue speaking_set_queue
strip_current test s =
    let p = s.current_priority in
    let (queue', s1) = strip_end test (speaking_get_queue p s) s in speaking_set_queue p queue' s1

-- `speaking_stop` behind the call of `output_stop`, and the same for all clients.
unfoldable pub stop_block : ℕ → Server → Server
unfolding speaking_get_queue
stop_block uid s = elim (split_last (speaking_get_queue s.current_priority s)) [
  | none ↦ s
  | some (_, last) ↦
      let m = s.messages last in
      if not (m.settings.reparted == 0) && m.settings.uid == uid
      then strip_current (in_group m.settings.reparted uid) s
      else s
]

unfoldable pub stop_any_block : Server → Server
unfolding speaking_get_queue
stop_any_block s = elim (split_last (speaking_get_queue s.current_priority s)) [
  | none ↦ s
  | some (_, last) ↦
      if not ((s.messages last).settings.reparted == 0)
      then strip_current (λ m. m.settings.reparted == 1) s
      else s
]

module _ (pipe_ok : List Event → Bool) where
  unfoldable pub speaking_stop : ℕ → Server → Server
  unfolding get_speaking_client_uid
  speaking_stop uid s =
      let (speaker, s1) = get_speaking_client_uid s in
      if speaker == uid then stop_block uid (output_stop pipe_ok s1) else s1

  unfoldable pub speaking_stop_all : Server → Server
  speaking_stop_all s = stop_any_block (output_stop pipe_ok s)

  unfoldable pub speaking_cancel : ℕ → Server → Server
  speaking_cancel uid s = stop_from_uid uid (speaking_stop uid s)

  unfoldable pub speaking_cancel_all : Server → Server
  speaking_cancel_all s = stop_priority pipe_ok progress (
      stop_priority pipe_ok notification (
        stop_priority pipe_ok text (
          stop_priority pipe_ok message (stop_priority pipe_ok important (output_stop pipe_ok s)))))
