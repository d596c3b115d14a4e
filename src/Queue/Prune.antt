-- ===== src/Queue/Prune.antt =====
-- The retention passes of internal/queue/queue.go: PruneJobLogs, PruneJobQueue,
-- PruneJobTransitions, PruneJobAttempts and
-- PruneBreakerTransitions. A retention of 0 stands for 0 and below.
use senechal_gw.Prelude.{
  ℕ, ◌-◌, Bool, false, not, ◌&&◌, Option, none, some, select, ◌==◌, if◌then◌else◌,
}
use senechal_gw.Stamp.{stamp_lt}
use senechal_gw.Queue.Table.{Job, Db, is_terminal}
use senechal_gw.Queue.Breakers.{Breakers}

abbrev pub completed_before : ℕ → Option ℕ → Bool
completed_before cutoff none = false
completed_before cutoff (some t) = stamp_lt t cutoff

unfoldable pub is_expired : ℕ → Job → Bool
is_expired cutoff j = is_terminal j.status && completed_before cutoff j.completed_at

unfoldable pub prune_job_logs : ℕ → ℕ → Db → Db
prune_job_logs retention now db =
    if 0 == retention
    then db
    else record db { log = select (λ r. not (stamp_lt r.completed_at (now - retention))) db.log }

unfoldable pub prune_job_queue : ℕ → ℕ → Db → Db
prune_job_queue retention now db =
    if 0 == retention
    then db
    else record db { jobs = select (λ j. not (is_expired (now - retention) j)) db.jobs }

unfoldable pub prune_job_transitions : ℕ → ℕ → Db → Db
prune_job_transitions retention now db = if 0 == retention then db else record db {
  transitions = select (λ t. not (stamp_lt t.created_at (now - retention))) db.transitions;
}

unfoldable pub prune_job_attempts : ℕ → ℕ → Db → Db
prune_job_attempts retention now db = if 0 == retention then db else record db {
  attempts = select (λ a. not (stamp_lt a.created_at (now - retention))) db.attempts;
}

unfoldable pub prune_breaker_transitions : ℕ → ℕ → Breakers → Breakers
prune_breaker_transitions retention now s = if 0 == retention then s else record s {
  transitions = select (λ t. not (stamp_lt t.created_at (now - retention))) s.transitions;
}
