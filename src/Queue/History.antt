-- ===== src/Queue/History.antt =====
-- The tables over any history of operations: what the invariant says at every point of it.
use senechal_gw.Prelude.{
  ℕ, String, ◌≡◌, ◌≢◌, subst, ◌⊎◌, inl, inr, Bool-cases, Bool, true, false, Option, List, [], arith,
  any, count_p,
}
use senechal_gw.Queue.Table.{Db, JobTransition, Status, running, empty, commit}
use senechal_gw.Queue.Enqueue.{Queue, EnqueueRequest, enqueue}
use senechal_gw.Queue.Dequeue.{dequeue_eligible}
use senechal_gw.Queue.Complete.{
  complete_with_result, update_job_for_recovery, cancel_outstanding_jobs,
}
use senechal_gw.Queue.Prune.{
  prune_job_queue, prune_job_attempts, prune_job_logs, prune_job_transitions,
}
use senechal_gw.Queue.Invariant.Facts.{IsWellFormed, IsSafe}
use senechal_gw.Queue.Invariant.Insertion.{IsFresh, enqueue-IsWellFormed}
use senechal_gw.Queue.Invariant.Start.{dequeue_eligible-IsWellFormed}
use senechal_gw.Queue.Invariant.Ending.{
  IsLater, complete_with_result-IsWellFormed, update_job_for_recovery-IsWellFormed,
}
use senechal_gw.Queue.Invariant.Cancellation.{cancel_outstanding_jobs-IsWellFormed}
use senechal_gw.Queue.Invariant.Pruning.{
  prune_job_queue-IsWellFormed, prune_job_attempts-IsWellFormed, prune_job_logs-IsWellFormed,
}
use senechal_gw.Queue.Invariant.Trimmed.{
  with_history, Agrees-IsWellFormed, enqueue-Ignores, dequeue_eligible-Ignores,
  complete_with_result-Ignores, update_job_for_recovery-Ignores, cancel_outstanding_jobs-Ignores,
  prune_job_queue-Ignores, prune_job_attempts-Ignores, prune_job_logs-Ignores,
  prune_job_transitions-Agrees,
}

-- One transaction, or one retention pass; `trims` says whether the pass over the transitions may be
-- among them. The uuid of an enqueue is new, and a recovery raises the attempt and does not set a job
-- running: dispatcher.go and scheduler.go call it so.
pub data Step (trims : Bool) (db : Db) : Db → Type 0 where
  enqueues :
      (id : String) (q : Queue) (req : EnqueueRequest) (now : ℕ)
      → IsFresh id db
      → Step trims db (commit db (enqueue id q req now db))
  dequeues :
      (skip keys : List String) (now : ℕ) (provider : Option String)
      → Step trims db (commit db (dequeue_eligible skip keys now provider db))
  completes :
      (id : String) (status : Status) (result last_error : Option String) (stderr : Option (List ℕ))
      (now : ℕ)
      → Step trims db (commit db (complete_with_result id status result last_error stderr now db))
  recovers :
      (id : String) (status : Status) (attempt : ℕ) (next : Option ℕ) (last_error : String)
      (now : ℕ)
      → status ≢ running
      → IsLater id attempt db
      → Step trims db (commit db (update_job_for_recovery id status attempt next last_error now db))
  cancels :
      (plugin command reason : String) (now : ℕ)
      → Step trims db (commit db (cancel_outstanding_jobs plugin command reason now db))
  prunes_jobs : (retention now : ℕ) → Step trims db (prune_job_queue retention now db)
  prunes_attempts : (retention now : ℕ) → Step trims db (prune_job_attempts retention now db)
  prunes_logs : (retention now : ℕ) → Step trims db (prune_job_logs retention now db)
  prunes_transitions :
      (retention now : ℕ) → trims ≡ true → Step trims db (prune_job_transitions retention now db)

pub data Reach (trims : Bool) (db : Db) : Db → Type 0 where
  here : Reach trims db db
  then : {mid end : Db} → Reach trims db mid → Step trims mid end → Reach trims db end

-- A step keeps the tables well formed with all the transitions that were ever recorded.
Step-history :
    {trims : Bool} {a b : Db}
    → Step trims a b
    → (ts : List JobTransition) → IsWellFormed (with_history ts a)
    → (ts' : List JobTransition) × IsWellFormed (with_history ts' b)
Step-history {a = a} {b = b} (enqueues id q req now f) ts v = (
  _,
  Agrees-IsWellFormed b _ (enqueue-Ignores id q req now a ts)
      (enqueue-IsWellFormed id q req now (with_history ts a) v f),
)
Step-history {a = a} {b = b} (dequeues skip keys now provider) ts v = (
  _,
  Agrees-IsWellFormed b _ (dequeue_eligible-Ignores skip keys now provider a ts)
      (dequeue_eligible-IsWellFormed skip keys now provider (with_history ts a) v),
)
Step-history {a = a} {b = b} (completes id status result last_error stderr now) ts v = (
  _,
  Agrees-IsWellFormed b _ (complete_with_result-Ignores id status result last_error stderr now a ts)
      (complete_with_result-IsWellFormed id status result last_error stderr now (with_history ts a)
        v),
)
Step-history {a = a} {b = b} (recovers id status attempt next last_error now r l) ts v = (
  _,
  Agrees-IsWellFormed b _
      (update_job_for_recovery-Ignores id status attempt next last_error now a ts)
      (update_job_for_recovery-IsWellFormed id status attempt next last_error now
        (with_history ts a) v r l),
)
Step-history {a = a} {b = b} (cancels plugin command reason now) ts v = (
  _,
  Agrees-IsWellFormed b _ (cancel_outstanding_jobs-Ignores plugin command reason now a ts)
      (cancel_outstanding_jobs-IsWellFormed plugin command reason now (with_history ts a) v),
)
Step-history {a = a} {b = b} (prunes_jobs retention now) ts v = (
  _,
  Agrees-IsWellFormed b _ (prune_job_queue-Ignores retention now a ts)
      (prune_job_queue-IsWellFormed retention now (with_history ts a) v),
)
Step-history {a = a} {b = b} (prunes_attempts retention now) ts v = (
  _,
  Agrees-IsWellFormed b _ (prune_job_attempts-Ignores retention now a ts)
      (prune_job_attempts-IsWellFormed retention now (with_history ts a) v),
)
Step-history {a = a} {b = b} (prunes_logs retention now) ts v = (
  _,
  Agrees-IsWellFormed b _ (prune_job_logs-Ignores retention now a ts)
      (prune_job_logs-IsWellFormed retention now (with_history ts a) v),
)
Step-history {a = a} {b = b} (prunes_transitions retention now t) ts v =
    (ts, Agrees-IsWellFormed b (with_history ts a) (prune_job_transitions-Agrees retention now a) v)

Step-IsWellFormed : {a b : Db} → Step false a b → IsWellFormed a → IsWellFormed b
Step-IsWellFormed {a} (enqueues id q req now f) v = enqueue-IsWellFormed id q req now a v f
Step-IsWellFormed {a} (dequeues skip keys now provider) v =
    dequeue_eligible-IsWellFormed skip keys now provider a v
Step-IsWellFormed {a} (completes id status result last_error stderr now) v =
    complete_with_result-IsWellFormed id status result last_error stderr now a v
Step-IsWellFormed {a} (recovers id status attempt next last_error now r l) v =
    update_job_for_recovery-IsWellFormed id status attempt next last_error now a v r l
Step-IsWellFormed {a} (cancels plugin command reason now) v =
    cancel_outstanding_jobs-IsWellFormed plugin command reason now a v
Step-IsWellFormed {a} (prunes_jobs retention now) v = prune_job_queue-IsWellFormed retention now a v
Step-IsWellFormed {a} (prunes_attempts retention now) v =
    prune_job_attempts-IsWellFormed retention now a v
Step-IsWellFormed {a} (prunes_logs retention now) v = prune_job_logs-IsWellFormed retention now a v
Step-IsWellFormed {a} (prunes_transitions retention now t) v = cc

pub empty-IsWellFormed : IsWellFormed empty
unfolding count_p any
empty-IsWellFormed = record {
  unique_ids = λ i. omega arith;
  exclusive = λ c. omega arith;
  unique_sources = λ parent source plugin command. omega arith;
  cached = tt;
  ahead = tt;
}

reached :
    {trims : Bool} {db : Db}
    → Reach trims empty db
    → (ts : List JobTransition) × IsWellFormed (with_history ts db)
reached here = ([], empty-IsWellFormed)
reached (then r s) = let (ts, v) = reached r in Step-history s ts v

pub untrimmed-IsWellFormed : {db : Db} → Reach false empty db → IsWellFormed db
untrimmed-IsWellFormed here = empty-IsWellFormed
untrimmed-IsWellFormed (then r s) = Step-IsWellFormed s (untrimmed-IsWellFormed r)

-- Whatever operations and retention passes led from empty tables to these, in whatever order and with
-- whatever errors: ids and source-event identities are unique, at most one job runs for a dedupe key,
-- plugin and command, and no recorded attempt bars a coming start. Where PruneJobTransitions was not
-- among them, each row also has the status of its last transition. The operations are Enqueue,
-- DequeueEligible, CompleteWithResult, UpdateJobForRecovery, CancelOutstandingJobs and the passes
-- PruneJobQueue, PruneJobAttempts, PruneJobLogs and PruneJobTransitions.
pub Reach-IsWellFormed :
    {trims : Bool} {db : Db} → Reach trims empty db → IsSafe db × ((trims ≡ true) ⊎ IsWellFormed db)
Reach-IsWellFormed {trims} {db} r =
    let (ts, v) = reached r in
    (
      record {
        unique_ids = v.unique_ids;
        exclusive = v.exclusive;
        unique_sources = v.unique_sources;
        ahead = v.ahead;
      },
      elim (Bool-cases trims) [
        | inl e ↦ inl e
        | inr e ↦ inr (untrimmed-IsWellFormed (subst (λ t. Reach t empty db) e r))
      ],
    )
