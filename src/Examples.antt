-- ===== src/Examples.antt =====
-- Sample data for internal/storage, internal/queue and internal/api, and the theorems at it.
pub mod Samples
mod Sorting
mod Storage
mod Queue
mod Api
mod Places
mod Manager
mod Directory
mod Tokens
mod Scheduling
mod Waiting
mod Server
mod Restart
