-- ===== src/Queue/Complete.antt =====
-- CompleteWithResult, Complete, UpdateJobForRecovery and CancelOutstandingJobs of
-- internal/queue/queue.go: what ends a job, or sends it back to the queue.
use senechal_gw.Prelude.{
  ℕ, ◌*◌, String, Bool, not, ◌&&◌, Option, none, some, List, [], ◌∷◌, ◌++◌, any, select, find?,
  count_p, length, take, update_where, is_empty, trim_space, str_eq, ltb, ◌==◌, if◌then◌else◌,
}
use senechal_gw.Queue.Table.{
  Job, JobTransition, LogRow, Db, Status, dead, Result, ok, err, ◌>>◌, reject_if, job_id_is_empty,
  job_not_found, load_job_for_completion, invalid_terminal_status, selected_but_updated,
  plugin_is_empty, command_is_empty, status_eq, is_outstanding, is_terminal, has_id, is_target,
  record_job_transition,
}

abbrev pub max_stderr_bytes : ℕ
max_stderr_bytes = 64 * 1024

-- s[:maxStderrBytes] where the text is longer; the text is given by its bytes
unfoldable pub truncate_stderr : Option (List ℕ) → Option (List ℕ)
truncate_stderr none = none
truncate_stderr (some s) =
    if ltb max_stderr_bytes (length s) then some (take max_stderr_bytes s) else some s

-- A transition is recorded only where the status changes.
unfoldable pub transition_to :
    Job → Status → Option String → ℕ → List JobTransition → List JobTransition
transition_to j status reason now ts =
    if status_eq j.status status
    then ts
    else record_job_transition j.id (some j.status) status reason now ts

unfoldable pub finish : Status → ℕ → Option String → Job → Job
finish status completed_at last_error j = record j {
  status = status;
  completed_at = some completed_at;
  last_error = last_error;
}

unfoldable pub log_row : Job → Status → Option String → Option String → Option (List ℕ) → ℕ → LogRow
log_row j status result last_error stderr completed_at = record {
  job_id = j.id;
  attempt = j.attempt;
  plugin = j.plugin;
  command = j.command;
  status = status;
  result = result;
  submitted_by = j.submitted_by;
  created_at = j.created_at;
  completed_at = completed_at;
  last_error = last_error;
  stderr = stderr;
  parent_job_id = j.parent_job_id;
  source_event_id = j.source_event_id;
  event_context_id = j.event_context_id;
  enqueued_config_snapshot_id = j.enqueued_config_snapshot_id;
  started_config_snapshot_id = j.started_config_snapshot_id;
}

abbrev pub is_log_of : String → ℕ → LogRow → Bool
is_log_of job_id attempt r = str_eq r.job_id job_id && r.attempt == attempt

-- INSERT OR IGNORE INTO job_log
unfoldable pub insert_log : LogRow → List LogRow → List LogRow
insert_log row log = if any (is_log_of row.job_id row.attempt) log then log else log ++ row ∷ []

-- len(result) > 0
abbrev pub non_empty : Option String → Option String
non_empty none = none
non_empty (some s) = if is_empty s then none else some s

unfoldable pub complete_job :
    Option Job
    → Status
    → Option String
    → Option String
    → Option (List ℕ)
    → ℕ
    → Db
    → Result (Unit {0} × Db)
complete_job none status result last_error stderr now db = err load_job_for_completion
complete_job (some j) status result last_error stderr now db = ok (
  tt,
  record db {
    jobs = update_where (has_id j.id) (finish status now last_error) db.jobs;
    transitions = transition_to j status last_error now db.transitions;
    log =
        insert_log (log_row j status (non_empty result) last_error (truncate_stderr stderr) now)
          db.log;
  },
)

-- CompleteWithResult. A missing row is an error of the load.
unfoldable pub complete_with_result :
    String
    → Status
    → Option String
    → Option String
    → Option (List ℕ)
    → ℕ
    → Db
    → Result (Unit {0} × Db)
unfolding complete_job
complete_with_result job_id status result last_error stderr now db = do
  reject_if (is_empty job_id) job_id_is_empty
  reject_if (not (is_terminal status)) (invalid_terminal_status status)
  complete_job (find? (has_id job_id) db.jobs) status result last_error stderr now db

-- Complete
unfoldable pub complete :
    String → Status → Option String → Option (List ℕ) → ℕ → Db → Result (Unit {0} × Db)
unfolding complete_with_result
complete job_id status last_error stderr now db =
    complete_with_result job_id status none last_error stderr now db

unfoldable pub reschedule : Status → ℕ → Option ℕ → Option String → Job → Job
reschedule status attempt next_retry_at last_error j = record j {
  status = status;
  attempt = attempt;
  next_retry_at = next_retry_at;
  last_error = last_error;
}

unfoldable pub recover_job :
    Option Job → Status → ℕ → Option ℕ → Option String → ℕ → Db → Result (Unit {0} × Db)
recover_job none status attempt next_retry_at last_error now db = err job_not_found
recover_job (some j) status attempt next_retry_at last_error now db = ok (
  tt,
  record db {
    jobs = update_where (has_id j.id) (reschedule status attempt next_retry_at last_error) db.jobs;
    transitions = transition_to j status last_error now db.transitions;
  },
)

-- UpdateJobForRecovery; an empty error text is NULL.
unfoldable pub update_job_for_recovery :
    String → Status → ℕ → Option ℕ → String → ℕ → Db → Result (Unit {0} × Db)
unfolding recover_job
update_job_for_recovery job_id status attempt next_retry_at last_error now db =
    recover_job (find? (has_id job_id) db.jobs) status attempt next_retry_at
      (non_empty (some last_error)) now db

unfoldable pub is_outstanding_for : String → String → Job → Bool
is_outstanding_for plugin command j = is_target plugin command j && is_outstanding j.status

unfoldable pub record_dead : String → ℕ → List Job → List JobTransition → List JobTransition
record_dead reason now [] ts = ts
record_dead reason now (j ∷ js) ts =
    record_dead reason now js (record_job_transition j.id (some j.status) dead (some reason) now ts)

abbrev pub reason_or_default : String → String
reason_or_default reason = if is_empty (trim_space reason) then "cancelled by scheduler" else reason

-- CancelOutstandingJobs
unfoldable pub cancel_outstanding_jobs : String → String → String → ℕ → Db → Result (ℕ × Db)
cancel_outstanding_jobs plugin command reason now db = do
  reject_if (is_empty plugin) plugin_is_empty
  reject_if (is_empty command) command_is_empty
  let why = reason_or_default reason
  let jobs = select (is_outstanding_for plugin command) db.jobs
  let affected = count_p (is_outstanding_for plugin command) db.jobs
  reject_if (not (affected == length jobs)) (selected_but_updated (length jobs) affected)
  ok (
    affected,
    record db {
      jobs = update_where (is_outstanding_for plugin command) (finish dead now (some why)) db.jobs;
      transitions = record_dead why now jobs db.transitions;
    },
  )
