-- ===== src/Tests/Scheduler.antt =====
-- Runs of the queues, the priorities and the control of the speech flow.
use opentts.Prelude.{true, false, ℕ, ◌+◌, ◌≡◌, refl, [], ◌∷◌, some, arith}
use opentts.Prelude.Int.{pos}
use opentts.Types.{important, message, text, text_type, Server}
use opentts.Clients.{get_client_settings_by_fd}
use opentts.Output.{output_stop}
use opentts.QueueMessage.Block.{InBlock, Below, block_number, remember_progress-InBlock}
use opentts.QueueMessage.Placed.{Placed, EndsWith, queue_message-Placed, queue_message-EndsWith}
use opentts.QueueMessage.{queue_message, remember_progress}
use opentts.Speaking.Pause.Held.{speaking_resume-speaking_pause}
use opentts.Speaking.Pause.{speaking_pause, speaking_resume}
use opentts.Speaking.Priorities.Conserve.{occurrences, resolve_priorities-conserves}
use opentts.Speaking.Priorities.Frame.{resolve_priorities-OnlyQueues}
use opentts.Speaking.Priorities.Only.{OnlyQueues}
use opentts.Speaking.Priorities.Table.{priority_table, resolve_priorities-table}
use opentts.Speaking.Priorities.{stop_priority, stop_priority_except_first, resolve_priorities}
use opentts.Speaking.Queues.{empty_queue, queue_remove_message, purge_group}
use opentts.Speaking.Select.Choice.{Chosen, get_message_from_queues-Chosen}
use opentts.Speaking.Select.{message_nto_speak, get_message_from_queues}
use opentts.Speaking.Stop.Blocks.{TookAll, speaking_stop-TookAll}
use opentts.Speaking.Stop.Silent.{speaking_stop_all_misses}
use opentts.Speaking.Stop.Cancel.{without_uid, speaking_cancel-queues}
use opentts.Speaking.Stop.{in_group, speaking_stop, speaking_stop_all, speaking_cancel}
use opentts.Tests.Samples.{first_client, store, demo, open_pipe}

-- A message of priority `text` keeps its own block and drops the notifications.
text_keeps_block :
    (resolve_priorities open_pipe text demo).queues
    ≡ record { p1 = []; p2 = 3 ∷ []; p3 = 1 ∷ 2 ∷ []; p4 = []; p5 = [] }
unfolding resolve_priorities stop_priority stop_priority_except_first empty_queue
    queue_remove_message purge_group output_stop
text_keeps_block = refl

resolve_priorities-table_example :
    (resolve_priorities open_pipe text demo).queues ≡ priority_table text demo
resolve_priorities-table_example = resolve_priorities-table open_pipe text demo

resolve_priorities-conserves_example :
    occurrences 4 (resolve_priorities open_pipe important demo) ≡ occurrences 4 demo
resolve_priorities-conserves_example = resolve_priorities-conserves open_pipe 4 important demo

resolve_priorities-OnlyQueues_example :
    OnlyQueues open_pipe demo (resolve_priorities open_pipe message demo)
resolve_priorities-OnlyQueues_example = resolve_priorities-OnlyQueues open_pipe message demo

get_message_from_queues-Chosen_example : Chosen demo (get_message_from_queues demo)
get_message_from_queues-Chosen_example = get_message_from_queues-Chosen demo

-- The more urgent message 3 is of the paused client.
skips_paused : (get_message_from_queues demo).0 ≡ some 5
unfolding get_message_from_queues
skips_paused = refl

queue_message-Placed_example :
    (t : Server) × (queue_message open_pipe (some 8) (pos 5) text_type 0 demo ≡ some (pos 10, t))
    × Placed 8 first_client text_type 0 demo t
unfolding get_client_settings_by_fd
queue_message-Placed_example =
    queue_message-Placed open_pipe 8 4 text_type 0 demo first_client refl refl (ground arith)

queue_message-EndsWith_example :
    (t : Server) × (queue_message open_pipe (some 8) (pos 5) text_type 0 demo ≡ some (pos 10, t))
    × EndsWith 8 t.queues.p3
unfolding get_client_settings_by_fd
queue_message-EndsWith_example =
    queue_message-EndsWith open_pipe 8 4 text_type 0 demo first_client refl refl (ground arith)
      (ground arith)

-- Two progress messages of block 7 are behind; one that stands alone comes in.
abbrev progressing : Server
progressing = record demo { last_p5_block = 1 ∷ 2 ∷ [] }

remember_progress-InBlock_example :
    (t : Server) × (remember_progress 8 progressing ≡ some t)
    × InBlock t.messages (block_number 8 progressing) t.last_p5_block
    × Below t.allocated t.last_p5_block
remember_progress-InBlock_example =
    remember_progress-InBlock 8 2 7 progressing refl (refl, (refl, tt)) (omega arith)

speaking_stop-TookAll_example : TookAll (in_group 7 1) demo (speaking_stop open_pipe 1 demo)
speaking_stop-TookAll_example =
    speaking_stop-TookAll open_pipe 1 demo (5 ∷ 1 ∷ []) 2 7 refl refl refl refl refl (omega arith)

-- STOP ALL forgets block 7.
speaking_stop_all_misses_example :
    ((speaking_stop_all open_pipe demo).queues ≡ demo.queues)
    × ((speaking_stop_all open_pipe demo).freed ≡ [])
speaking_stop_all_misses_example =
    speaking_stop_all_misses open_pipe 1 demo (5 ∷ 1 ∷ []) 2 refl (omega arith)

speaking_cancel-queues_example :
    (speaking_cancel open_pipe 1 demo).queues ≡ without_uid store 1 demo.queues
speaking_cancel-queues_example = speaking_cancel-queues open_pipe 1 demo

cancel_leaves_other :
    without_uid store 1 demo.queues ≡ record { p1 = []; p2 = 3 ∷ []; p3 = []; p4 = []; p5 = [] }
cancel_leaves_other = refl

speaking_resume-speaking_pause_example :
    (t u : Server) × (speaking_pause open_pipe 1 demo ≡ (0, t))
    × (speaking_resume 1 t ≡ (0, u))
    × ((p : ℕ) → (t.messages p).settings.fd ≡ pos 5 → message_nto_speak t p ≡ true)
    × ((p : ℕ) → (u.messages p).settings.fd ≡ pos 5 → message_nto_speak u p ≡ false)
    × (u.resume_requested ≡ true)
    × (u.posts ≡ t.posts + 1)
speaking_resume-speaking_pause_example =
    speaking_resume-speaking_pause open_pipe 4 0 first_client demo refl refl
