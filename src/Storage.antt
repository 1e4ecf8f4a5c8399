-- ===== src/Storage.antt =====
-- internal/storage: the log of one queue.
pub mod Record
pub mod Disk
pub mod Log
pub mod Scanner
pub mod Recovery
pub mod Compaction
pub mod Create
pub mod Directory
