-- ===== src/Queue/Invariant/Pruning.antt =====
-- The retention passes, the invariant, and what they leave.
use native.Mathlib.Nat.{le_trans}
use senechal_gw.Prelude.{
  ℕ, ◌-◌, ◌≡◌, Bool, true, not, List, arith, select, ◌==◌, Bool-cases, inl, inr,
}
use senechal_gw.Prelude.Rows.{
  All-map, All-select, count_p-select_le, any-select-false, select-select,
}
use senechal_gw.Queue.Table.{Job, JobAttempt, LogRow, Db, has_id, is_outstanding}
use senechal_gw.Queue.Enqueue.{has_source}
use senechal_gw.Queue.Dequeue.{is_running_for}
use senechal_gw.Queue.Prune.{is_expired, prune_job_queue, prune_job_attempts, prune_job_logs}
use senechal_gw.Queue.Invariant.Facts.{IsWellFormed, IsCached, IsAhead}

select-IsWellFormed :
    (p : Job → Bool) (db : Db)
    → IsWellFormed db
    → IsWellFormed (record db { jobs = select p db.jobs })
select-IsWellFormed p db v = record {
  unique_ids = λ i. le_trans (count_p-select_le p (has_id i) db.jobs) (v.unique_ids i);
  exclusive = λ c. le_trans (count_p-select_le p (is_running_for c) db.jobs) (v.exclusive c);
  unique_sources = λ parent source plugin command.
      le_trans (count_p-select_le p (has_source parent source plugin command) db.jobs)
        (v.unique_sources parent source plugin command);
  cached = All-map _ _ (λ x h. h.0) _ (All-select (IsCached db.transitions) p db.jobs v.cached);
  ahead = All-map _ _ (λ x h. h.0) _ (All-select (IsAhead db.attempts) p db.jobs v.ahead);
}

-- PruneJobQueue keeps the tables well formed.
pub prune_job_queue-IsWellFormed :
    (retention now : ℕ) (db : Db)
    → IsWellFormed db
    → IsWellFormed (prune_job_queue retention now db)
unfolding prune_job_queue
prune_job_queue-IsWellFormed retention now db v = elim (Bool-cases (0 == retention)) [
  | inl e ↦ rw e v
  | inr e ↦ rw e (select-IsWellFormed _ db v)
]

forget-IsWellFormed :
    (p : JobAttempt → Bool) (db : Db)
    → IsWellFormed db
    → IsWellFormed (record db { attempts = select p db.attempts })
forget-IsWellFormed p db v = record {
  unique_ids = v.unique_ids;
  exclusive = v.exclusive;
  unique_sources = v.unique_sources;
  cached = v.cached;
  ahead = All-map _ _ (λ x h. any-select-false p _ db.attempts h) db.jobs v.ahead;
}

-- PruneJobAttempts keeps the tables well formed.
pub prune_job_attempts-IsWellFormed :
    (retention now : ℕ) (db : Db)
    → IsWellFormed db
    → IsWellFormed (prune_job_attempts retention now db)
unfolding prune_job_attempts
prune_job_attempts-IsWellFormed retention now db v = elim (Bool-cases (0 == retention)) [
  | inl e ↦ rw e v
  | inr e ↦ rw e (forget-IsWellFormed _ db v)
]

log-IsWellFormed :
    (db : Db) (log : List LogRow) → IsWellFormed db → IsWellFormed (record db { log = log })
log-IsWellFormed db log v = record {
  unique_ids = v.unique_ids;
  exclusive = v.exclusive;
  unique_sources = v.unique_sources;
  cached = v.cached;
  ahead = v.ahead;
}

-- PruneJobLogs keeps the tables well formed.
pub prune_job_logs-IsWellFormed :
    (retention now : ℕ) (db : Db) → IsWellFormed db → IsWellFormed (prune_job_logs retention now db)
unfolding prune_job_logs
prune_job_logs-IsWellFormed retention now db v = elim (Bool-cases (0 == retention)) [
  | inl e ↦ rw e v
  | inr e ↦ rw e (log-IsWellFormed db _ v)
]

outstanding_kept :
    (cutoff : ℕ) (j : Job) → is_outstanding j.status ≡ true → not (is_expired cutoff j) ≡ true
unfolding is_expired
outstanding_kept cutoff j h = ground arith

-- PruneJobQueue deletes no queued or running job: those that it leaves are the same, in order.
pub prune_job_queue-keeps_outstanding :
    (retention now : ℕ) (db : Db)
    → select (λ j. is_outstanding j.status) (prune_job_queue retention now db).jobs
      ≡ select (λ j. is_outstanding j.status) db.jobs
unfolding prune_job_queue
prune_job_queue-keeps_outstanding retention now db = elim (Bool-cases (0 == retention)) [
  | inl e ↦ rw e
  | inr e ↦ rw e (
      select-select (λ j. not (is_expired (now - retention) j)) (λ j. is_outstanding j.status)
        (λ j. outstanding_kept (now - retention) j) db.jobs)
]
