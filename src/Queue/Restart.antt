-- ===== src/Queue/Restart.antt =====
-- What a restart finds of the messages: the live map of openQueue against the messages in memory.
pub mod Live
pub mod Files
pub mod Inflight
pub mod Snapshot
pub mod Compacted
pub mod Changes
pub mod Bodies
pub mod Moves
pub mod Sends
pub mod Returns
pub mod Runs
