-- ===== src/Schedtime.antt =====
-- internal/schedtime/schedtime.go: the slots and the next run of a schedule.
pub mod Clock
pub mod Next
pub mod Days
pub mod Runs
