-- ===== src/Queue/Waiting.antt =====
-- Receive of internal/queue/queue.go with a wait, among the calls of other goroutines.
pub mod Lull
pub mod Receiver
pub mod Asleep
pub mod Stranded
pub mod Answer
