-- ===== src/Scheduler.antt =====
-- internal/scheduler: the ticks and the schedule entries (Interval, Window, Tick, CatchUp, Rounds),
-- the circuit breaker of a scheduled command with the checks before a job is enqueued (Circuit), and
-- the recovery of orphaned jobs at startup (Recovery). The scheduler's part of the database is the
-- job tables, the breaker tables and the schedule entries; the clock is an argument, and what the
-- event hub and the logger are told is left out.
pub mod Circuit
pub mod Recovery
pub mod Interval
pub mod Window
pub mod Tick
pub mod CatchUp
pub mod Rounds
mod Examples
