-- ===== src/Dispatch/Failure/Outcome.antt =====
-- What failOrRetry of internal/dispatch/dispatcher.go makes of the row of the job.
use senechal_gw.Prelude.{ℕ, suc, ◌+◌, ◌≤◌, String, ◌≡◌, some, find?}
use senechal_gw.Queue.Table.{Job, Db, queued, has_id}
use senechal_gw.Queue.Enqueue.{Queue}
use senechal_gw.Queue.Complete.{reschedule, finish, non_empty}
use senechal_gw.Queue.Complete
use senechal_gw.Dispatch.Failure.{Failure, deref}

-- The row of the id, after it has been found.
abbrev Row : String → Job → Db → Type 0
Row id j db = find? (has_id id) db.jobs ≡ some j

-- The row that a failed run leaves: it is queued for another attempt, which the policy has room for,
-- or it has ended with the status of the failure, at the same attempt.
pub data Left (job : Job) (f : Failure) (limit now backoff : ℕ) : Job → Type 0 where
  requeued :
      suc job.attempt ≤ limit
      → Left job f limit now backoff (
          reschedule queued
            (suc job.attempt)
            (some (now + backoff))
            (non_empty (some (deref f.last_error)))
            job)
  ended : Left job f limit now backoff (finish f.status now f.last_error job)
