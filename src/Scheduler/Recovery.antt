-- ===== src/Scheduler/Recovery.antt =====
-- recoverOrphanedJobs and countMissedRuns of internal/scheduler/scheduler.go.
pub mod Orphans
pub mod Missed
use senechal_gw.Prelude.{
  ℕ, zero, suc, ◌+◌, ◌-◌, ◌/◌, String, Bool, true, false, not, Option, none, some, List, [], ◌∷◌,
  ◌++◌, leb, ltb, ◌==◌, decimal, str_append, if◌then◌else◌,
}
use senechal_gw.Queue.Table.{Job, Db, Status, queued, running, dead, Error, Result, ok, err, commit}
use senechal_gw.Queue.Complete.{complete_with_result, update_job_for_recovery}
use senechal_gw.Queue.Reads.{find_jobs_by_status}

-- The event job.failed of a recovery, and the call of the recovery hook with the same payload.
pub record RecoveryEvent : Type 0 where
  pub job_id : String
  pub plugin : String
  pub command : String
  pub status : Status
  pub error : String

abbrev pub dead_message : ℕ → String
dead_message max_attempts =
    str_append "Job marked dead during crash recovery: max attempts ("
      (str_append (decimal max_attempts) ") reached")

abbrev pub recovery_event : Job → RecoveryEvent
recovery_event j = record {
  job_id = j.id;
  plugin = j.plugin;
  command = j.command;
  status = dead;
  error = dead_message j.max_attempts;
}

-- The rest of the branch of a dead job, after the update: an error of the update skips it, one of the
-- completion does not skip the event.
unfoldable pub after_dead : Job → ℕ → Db → Result (Unit {0} × Db) → Db × List RecoveryEvent
after_dead j now db (err e) = (db, [])
after_dead j now db (ok (_, db')) = (
  commit db'
      (complete_with_result j.id dead none (some (dead_message j.max_attempts)) none now db'),
  recovery_event j ∷ [],
)

-- The body of the loop; errors of the queue are logged.
unfoldable pub recover_orphan : Job → ℕ → Db → Db × List RecoveryEvent
unfolding after_dead
recover_orphan j now db =
    let attempt = suc j.attempt in
    if leb attempt j.max_attempts
    then (commit db (update_job_for_recovery j.id queued attempt none "" now db), [])
    else after_dead j now db
        (update_job_for_recovery j.id dead attempt none (dead_message j.max_attempts) now db)

abbrev pub also : List RecoveryEvent → Db × List RecoveryEvent → Db × List RecoveryEvent
also es (db, fs) = (db, es ++ fs)

unfoldable pub recover_each : List Job → ℕ → Db → Db × List RecoveryEvent
recover_each [] now db = (db, [])
recover_each (j ∷ js) now db =
    let (db', es) = recover_orphan j now db in also es (recover_each js now db')

-- recoverOrphanedJobs
unfoldable pub recover_orphaned_jobs : ℕ → Db → Db × List RecoveryEvent
unfolding recover_each
recover_orphaned_jobs now db = recover_each (find_jobs_by_status running db) now db

-- countMissedRuns; an interval of 0 stands for 0 and below
unfoldable pub count_missed_runs : ℕ → ℕ → ℕ → ℕ
count_missed_runs last now interval =
    if 0 == interval
    then 0
    else if not (ltb last now)
    then 0
    else let next_due = last + interval in
      if ltb now next_due then 0 else suc ((now - next_due) / interval)
