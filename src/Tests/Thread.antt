-- ===== src/Tests/Thread.antt =====
-- Runs of the speaking thread.
use opentts.Prelude.{ℕ, ◌≡◌, ◌≢◌, refl, Bool, true, false, [], ◌∷◌, Option, none, some, ◌==◌}
use opentts.Prelude.Int.{ℤ, pos, negsuc}
use opentts.Types.{Bytes, data_text, Server}
use opentts.IndexMarks.{insert_index_marks}
use opentts.QueueMessage.{store_message, queue_message, queue_again, put_in_queue, append_message}
use opentts.Speaking.Pause.{speaking_semaphore_post}
use opentts.Speaking.Priorities.{resolve_priorities, stop_priority, stop_priority_except_first}
use opentts.Speaking.Round.Resumed.{handle_resume-none}
use opentts.Output.{output_stop}
use opentts.Speaking.Queues.{
  empty_queue, queue_remove_message, mem_free_message, speaking_get_queue, speaking_set_queue,
}
use opentts.Speaking.Select.{get_message_from_queues, descend, find_speakable, message_nto_speak}
use opentts.Speaking.Thread.{
  reply_mark, begin_mark, end_mark, is_sb_speaking, on_reply, on_mark, on_begin, notify,
  forget_module,
}
use opentts.Speaking.Thread.Reported.{Told, is_sb_speaking-Told}
use opentts.Speaking.Round.{
  handle_resume, resume_rounds, reload_message, queue_reloaded, speak, start_speaking,
  replace_current, said_progress, hand_over, output_speak, is_zero,
}
use opentts.Speaking.Round.Announced.{start, next, reported, round, Reached-Announced}
use opentts.Clients.{get_client_settings_by_uid, get_client_settings_by_fd, get_client_uid_by_fd}
use opentts.Tests.Samples.{demo, open_pipe}

-- No mark has a number, only " " is a space, and module 0 is always chosen.
abbrev no_number : Bytes → Option ℤ
no_number b = none

abbrev space : Bytes → Bool
space [] = false
space (c ∷ rest) = c == b' '

abbrev module_zero : Server → ℕ → Option ℕ
module_zero s p = some 0

-- A module that answers with an error.
abbrev refuses : Server → ℕ → ℤ × Bool
refuses s p = (negsuc 1, false)

is_sb_speaking-Told_example :
    Told (demo.messages 0) demo (is_sb_speaking (reply_mark end_mark) demo)
is_sb_speaking-Told_example = is_sb_speaking-Told (reply_mark end_mark) 0 0 demo refl refl

-- Nothing is said yet, but the module starts.
abbrev quiet : Server
quiet = record demo { speaking = false }

begins : (is_sb_speaking (reply_mark begin_mark) quiet).speaking ≡ true
unfolding is_sb_speaking on_reply on_mark on_begin notify forget_module
begins = refl

abbrev started : Server
started = is_sb_speaking (reply_mark begin_mark) quiet

goes_on : speak open_pipe no_number space module_zero refuses started ≡ some started
unfolding speak is_sb_speaking on_reply on_mark on_begin notify forget_module
goes_on = refl

Reached-Announced_example : started.current_message ≢ none
Reached-Announced_example =
    Reached-Announced open_pipe no_number space module_zero refuses quiet started refl
      (next started started (next quiet started start (reported (reply_mark begin_mark) quiet))
        (round started started goes_on))
      begins

-- Message 5 is taken, and has its marks.
abbrev taken : Server
taken = (get_message_from_queues demo).1

abbrev marked_five : Server
marked_five =
    let m = taken.messages 5 in
    store_message 5
      (record m { buf = some (insert_index_marks space data_text (b'h' ∷ b'i' ∷ [])) }) taken

five_refused : is_zero (output_speak module_zero refuses 5 marked_five).0 ≡ false
unfolding output_speak
five_refused = refl

abbrev after_refusal : Server
after_refusal = (output_speak module_zero refuses 5 marked_five).1

-- Clients 1 and 2 have each a paused message, and client 2 is paused still.
abbrev two_paused : Server
two_paused = record demo {
  queues = record { p1 = []; p2 = []; p3 = []; p4 = []; p5 = [] };
  paused_list = 3 ∷ 7 ∷ [];
  resume_requested = true;
}

abbrev resumed : Server
resumed = elim (handle_resume open_pipe no_number two_paused) [ none ↦ demo | some t ↦ t ]

resumed_is : handle_resume open_pipe no_number two_paused ≡ some resumed
unfolding handle_resume resume_rounds reload_message queue_reloaded find_speakable message_nto_speak
    get_client_settings_by_fd get_client_settings_by_uid get_client_uid_by_fd queue_message
    queue_again put_in_queue append_message store_message speaking_get_queue speaking_set_queue
    speaking_semaphore_post resolve_priorities stop_priority stop_priority_except_first empty_queue
    queue_remove_message output_stop
resumed_is = refl

handle_resume-none_example : find_speakable resumed resumed.paused_list ≡ none
handle_resume-none_example = handle_resume-none open_pipe no_number two_paused resumed resumed_is

-- A module that takes everything.
abbrev accepts : Server → ℕ → ℤ × Bool
accepts s p = (pos 0, false)

abbrev after_start : Server
after_start = start_speaking 5 (output_speak module_zero accepts 5 marked_five).1

-- Message 0, which was said before, is freed.
zero_freed : after_start.freed ≡ 0 ∷ []
unfolding start_speaking replace_current said_progress output_speak hand_over store_message
    mem_free_message get_message_from_queues descend find_speakable message_nto_speak
    get_client_settings_by_fd get_client_uid_by_fd speaking_get_queue speaking_set_queue
zero_freed = refl
