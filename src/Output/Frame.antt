-- ===== src/Output/Frame.antt =====
-- Stopping the module that speaks leaves alone all that the scheduler of messages works on.
use opentts.Prelude.{◌≡◌, refl, Bool, List, arith}
use opentts.Types.{Event, Server}
use opentts.Output.{output_stop}

-- The fields of the scheduler agree.
pub record SameScheduler (s t : Server) : Type 0 where
  pub queues : t.queues ≡ s.queues
  pub freed : t.freed ≡ s.freed
  pub messages : t.messages ≡ s.messages
  pub speaking : t.speaking ≡ s.speaking
  pub current_priority : t.current_priority ≡ s.current_priority
  pub fd_settings : t.fd_settings ≡ s.fd_settings
  pub paused_list : t.paused_list ≡ s.paused_list
  pub current_message : t.current_message ≡ s.current_message

abbrev pub SameScheduler-refl : (s : Server) → SameScheduler s s
SameScheduler-refl s = record {
  queues = refl;
  freed = refl;
  messages = refl;
  speaking = refl;
  current_priority = refl;
  fd_settings = refl;
  paused_list = refl;
  current_message = refl;
}

pub output_stop-SameScheduler :
    (pipe_ok : List Event → Bool) (s : Server) → SameScheduler s (output_stop pipe_ok s)
unfolding output_stop
output_stop-SameScheduler pipe_ok s = ground arith
