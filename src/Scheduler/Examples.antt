-- ===== src/Scheduler/Examples.antt =====
-- Runs of internal/scheduler on small tables, and instances of the theorems about it.
use senechal_gw.Prelude.{
  ◌+◌, ◌*◌, ◌≤◌, ◌≡◌, refl, ◌↔◌, none, some, [], ◌∷◌, map, select, count_p, trim_space, arith, any,
  update_where,
}
use senechal_gw.Config.{PluginConf}
use senechal_gw.Queue.Table.{
  Job, Db, running, succeeded, failed, ok, empty, commit, record_job_attempt,
}
use senechal_gw.Queue.Enqueue.{Queue, EnqueueRequest, enqueue, is_ignored, new_job}
use senechal_gw.Queue.Dequeue.{dequeue_eligible, is_running_for, claim, is_eligible, oldest, start}
use senechal_gw.Queue.Reads.{
  CommandResult, has_status, latest_completed_command_result, count_outstanding_jobs_by_submitter,
  last_completed, is_result_of,
}
use senechal_gw.Queue.Breakers.{CircuitBreaker, Breakers, get_circuit_breaker, find_breaker}
use senechal_gw.Queue.Invariant.Facts.{IsWellFormed}
use senechal_gw.Queue.History.{here, then, enqueues, dequeues, untrimmed-IsWellFormed}
use senechal_gw.Scheduler.Circuit.{
  Store, policy_of, can_schedule, current_or_closed, current_circuit_breaker,
  outstanding_for_policy, apply_policy,
}
use senechal_gw.Scheduler.Circuit.Failures.{Follows, observe_all, observe_all-Follows}
use senechal_gw.Scheduler.Circuit.Reconcile.{Settles, reconcile_circuit_breaker-Settles}
use senechal_gw.Scheduler.Circuit.Admission.{Admitted, can_schedule-Admitted}
use senechal_gw.Scheduler.Recovery.{recover_orphaned_jobs, count_missed_runs}
use senechal_gw.Scheduler.Recovery.Missed.{count_missed_runs-counts}
use senechal_gw.Scheduler.Recovery.Orphans.{recovered, recover_orphaned_jobs-recovers}

abbrev conf : PluginConf
conf = record {
  circuit_breaker = none;
  max_outstanding_polls = 1;
  retry = none;
  timeouts = none;
  notify_on_complete = none;
}

abbrev service : Queue
service = record { dedupe_ttl = 0; config_snapshot_id_provider = none }

abbrev request : EnqueueRequest
request = record {
  plugin = "echo";
  command = "poll";
  payload = "{}";
  max_attempts = 2;
  submitted_by = "ductile";
  dedupe_key = none;
  dedupe_ttl = none;
  parent_job_id = none;
  event_context_id = none;
  source_event_id = none;
  enqueued_config_snapshot_id = "";
}

abbrev no_breakers : Breakers
no_breakers = record { rows = []; transitions = [] }

abbrev bare : Store
bare = record { db = empty; breakers = no_breakers }

abbrev run : Db
run =
    commit (commit empty (enqueue "a" service request 1000 empty))
      (dequeue_eligible [] [] 2000 none (commit empty (enqueue "a" service request 1000 empty)))

run-IsWellFormed : IsWellFormed run
unfolding any
run-IsWellFormed =
    untrimmed-IsWellFormed
      (then (then here (enqueues "a" service request 1000 refl)) (dequeues [] [] 2000 none))

abbrev failed_job : Job
failed_job = record {
  id = "a";
  plugin = "echo";
  command = "poll";
  payload = none;
  status = failed;
  attempt = 1;
  max_attempts = 2;
  submitted_by = "ductile";
  dedupe_key = none;
  created_at = 1000;
  started_at = some 2000;
  completed_at = some 3000;
  next_retry_at = none;
  last_error = none;
  parent_job_id = none;
  source_event_id = none;
  event_context_id = none;
  enqueued_config_snapshot_id = none;
  started_config_snapshot_id = none;
}

abbrev finished : Db
finished = record { jobs = failed_job ∷ []; transitions = []; attempts = []; log = [] }

abbrev outcome : CommandResult
outcome = record { job_id = "a"; status = failed; completed_at = 3000 }

abbrev success : CommandResult
success = record outcome { status = succeeded }

empty-IsWellFormed : IsWellFormed empty
empty-IsWellFormed = untrimmed-IsWellFormed here

can_schedule-Admitted_example : Admitted "ductile" "echo" "poll" (policy_of "queue") conf bare
unfolding can_schedule current_circuit_breaker get_circuit_breaker find_breaker apply_policy
    trim_space outstanding_for_policy count_outstanding_jobs_by_submitter count_p
can_schedule-Admitted_example =
    can_schedule-Admitted "ductile" "echo" "poll" "queue" conf 2000 bare bare empty-IsWellFormed
      refl

observe_all-Follows_example : Follows 3 (outcome ∷ outcome ∷ outcome ∷ success ∷ outcome ∷ []) (
    observe_all 3
      (outcome ∷ outcome ∷ outcome ∷ success ∷ outcome ∷ [])
      (current_or_closed "echo" "poll" none))
observe_all-Follows_example =
    observe_all-Follows 3 (outcome ∷ outcome ∷ outcome ∷ success ∷ outcome ∷ []) "echo" "poll"
      (omega arith)

reconcile_circuit_breaker-Settles_example :
    (before : CircuitBreaker) × (b : Breakers) × (current_circuit_breaker "echo" "poll" no_breakers
      ≡ ok before)
    × Settles "ductile" "echo" "poll" conf 4000
        (record { db = finished; breakers = no_breakers })
        outcome
        before
        b
unfolding latest_completed_command_result last_completed select is_result_of
reconcile_circuit_breaker-Settles_example =
    reconcile_circuit_breaker-Settles "ductile" "echo" "poll" conf 4000
      (record { db = finished; breakers = no_breakers }) outcome refl

recover_orphaned_jobs-recovers_example :
    ((recover_orphaned_jobs 5000 run).0.jobs ≡ map (recovered 5000) run.jobs)
    × (count_p (has_status running) (recover_orphaned_jobs 5000 run).0.jobs ≡ 0)
    × IsWellFormed (recover_orphaned_jobs 5000 run).0
unfolding enqueue dequeue_eligible oldest select is_ignored any is_eligible new_job is_running_for
    claim record_job_attempt update_where start
recover_orphaned_jobs-recovers_example =
    recover_orphaned_jobs-recovers 5000 run run-IsWellFormed (refl, tt)

count_missed_runs-counts_example : (2 ≤ count_missed_runs 100 350 100) ↔ (100 + 2 * 100 ≤ 350)
count_missed_runs-counts_example =
    count_missed_runs-counts 100 350 100 2 (omega arith) (omega arith)
