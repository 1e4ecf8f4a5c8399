-- ===== src/Queue/Engine.antt =====
-- internal/queue/queue.go, compaction.go, scheduler.go: the state of one queue and its operations.
-- Each runs with the queue's mutex held, so it is one step from state to state.
pub mod State
pub mod Compact
pub mod Operations
pub mod Scheduler
pub mod Receipts
pub mod Calls
