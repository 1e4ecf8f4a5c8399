-- ===== src/Queue.antt =====
-- internal/queue: the engine of one queue.
pub mod Clock
pub mod Name
pub mod Message
pub mod Tokens
pub mod Heap
pub mod Engine
pub mod Replay
pub mod Counters
pub mod Places
pub mod Scheduling
pub mod Waiting
pub mod Restart
pub mod Manager
