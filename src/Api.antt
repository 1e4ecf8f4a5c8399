-- ===== src/Api.antt =====
-- internal/api: durations in requests.
pub mod Seconds
pub mod Handlers
pub mod Messages
pub mod Router
pub mod Answers
pub mod Refusals
pub mod Wrapping
pub mod Stays
pub mod Service
