-- ===== src/Ops.antt =====
-- internal/ops/ops.go: persisted server operations and the runner that carries them out.
pub mod Journal
pub mod Job
pub mod Queue
pub mod Requests
pub mod Runner
pub mod Filling
pub mod Turns
pub mod Restart
pub mod Moves
pub mod Places
pub mod Running
pub mod Table
pub mod Exclusion
pub mod Ended
pub mod Lifecycle
pub mod Recovery
pub mod Loads
pub mod Lanes
pub mod Fill
pub mod Saved
pub mod Resent
