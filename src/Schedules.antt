-- ===== src/Schedules.antt =====
-- internal/schedules: the schedules of a server, their owners' authority, and what a run queues.
pub mod Settings
pub mod Authority
pub mod State
pub mod Run
pub mod Recording
pub mod Owners
pub mod Attempts
pub mod Authorized
pub mod Once
pub mod Saved
