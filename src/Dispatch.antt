-- ===== src/Dispatch.antt =====
-- internal/dispatch: what the dispatcher does with a job that has ended, and its helpers.
pub mod Retry
pub mod Backoff
pub mod Failure
pub mod Output
pub mod With
mod Examples
