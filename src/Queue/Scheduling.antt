-- ===== src/Queue/Scheduling.antt =====
-- The scheduler's goroutine of internal/queue/scheduler.go, among the calls of other goroutines.
pub mod Alarm
pub mod Alert
pub mod Clients
pub mod Goroutine
pub mod Invariant
pub mod Sound
pub mod Safety
pub mod Progress
