-- ===== src/Speaking.antt =====
-- src/server/speaking.c: the queues, the priorities, and the control of the speech flow.
pub mod Queues
pub mod Priorities
pub mod Select
pub mod Stop
pub mod Pause
pub mod Thread
pub mod Round
