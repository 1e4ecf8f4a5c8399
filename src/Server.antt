-- ===== src/Server.antt =====
-- cmd/server/main.go: the process, as steps of a system. main starts the registry before it opens the
-- listener, serves until the listener fails or a signal comes, drains, and closes the registry.
pub mod Process
pub mod Safety
