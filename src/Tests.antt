-- ===== src/Tests.antt =====
-- Concrete runs.
pub mod Samples
pub mod DataMode
pub mod Names
pub mod Session
pub mod Modules
pub mod Thread
pub mod IndexMarks
pub mod Scheduler
pub mod Settings
pub mod Connections
pub mod History
pub mod Protocol
