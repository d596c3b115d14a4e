-- ===== src/Queue/Invariant.antt =====
-- What holds of the tables of internal/queue between two operations, and the lemmas on which its
-- preservation rests. schema.sql calls job_queue.status a cache of the facts in job_transitions.
pub mod Facts
pub mod Insertion
pub mod Start
pub mod Ending
pub mod Cancellation
pub mod Pruning
pub mod Trimmed
