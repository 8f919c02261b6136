-- ===== src/Output.antt =====
-- What speaking.c needs of src/server/output.c: the commands that go to the module that speaks.
-- `pipe_ok` says of the history of events whether the next write to the module's pipe succeeds.
pub mod Frame
pub mod Dots
pub mod Modules
use opentts.Prelude.{ℕ, none, some, Bool, false, List, ◌∷◌, if◌then◌else◌}
use opentts.Prelude.Int.{ℤ, pos, negsuc}
use opentts.Types.{Command, stop_command, pause_command, Event, command, Server}
use opentts.Clients.{update}

-- A broken pipe marks the module as not working, and nobody is speaking any more.
unfoldable pub module_failed : ℕ → Server → Server
module_failed m s = record s { working = update s.working m false; speaking_module = none }

module _ (pipe_ok : List Event → Bool) where
  -- `output_send_data` of a command that wants no reply.
  unfoldable pub output_send_data : Command → ℕ → Server → ℤ × Server
  unfolding module_failed
  output_send_data c m s =
      if pipe_ok s.events
      then (pos 0, record s { events = command m c ∷ s.events })
      else (negsuc 0, module_failed m s)

  unfoldable pub output_stop : Server → Server
  unfolding output_send_data
  output_stop s = elim s.speaking_module [
    | none ↦ s
    | some m ↦ (output_send_data stop_command m s).1
  ]

  unfoldable pub output_pause : Server → ℤ × Server
  unfolding output_send_data
  output_pause s = elim s.speaking_module [
    | none ↦ (pos 0, s)
    | some m ↦ output_send_data pause_command m s
  ]
