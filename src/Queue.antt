-- ===== src/Queue.antt =====
-- internal/queue: the job queue over SQLite. The tables are in Table, the operations in Enqueue,
-- Dequeue, Complete, Prune, Breakers and Entries, the reads in Reads, and the proofs in the modules
-- below Invariant and in Order, Dedupe and History.
pub mod Table
pub mod Enqueue
pub mod Dequeue
pub mod Complete
pub mod Prune
pub mod Reads
pub mod Breakers
pub mod Entries
pub mod Invariant
pub mod Order
pub mod Dedupe
pub mod History
mod Examples
