-- ===== src/Dispatch/Examples.antt =====
-- Instances of the theorems about the dispatcher.
use senechal_gw.Prelude.{ℕ, String, true, none, some, List, [], ◌∷◌, arith}
use senechal_gw.Config.{PluginConf}
use senechal_gw.Queue.Table.{Job, Db, running, failed}
use senechal_gw.Queue.Enqueue.{Queue}
use senechal_gw.Dispatch.Retry.{decide_retry_policy}
use senechal_gw.Dispatch.Failure.{Failure, HookDispatch}
use senechal_gw.Dispatch.Output.{
  IsPrefixOf, concat, new_bounded_buffer, write_all, write_all-keeps_prefix,
}

abbrev conf : PluginConf
conf = record {
  circuit_breaker = none;
  max_outstanding_polls = 1;
  retry = none;
  timeouts = none;
  notify_on_complete = some true;
}

abbrev job : Job
job = record {
  id = "a";
  plugin = "echo";
  command = "poll";
  payload = none;
  status = running;
  attempt = 1;
  max_attempts = 2;
  submitted_by = "ductile";
  dedupe_key = none;
  created_at = 1000;
  started_at = some 2000;
  completed_at = none;
  next_retry_at = none;
  last_error = none;
  parent_job_id = none;
  source_event_id = none;
  event_context_id = none;
  enqueued_config_snapshot_id = none;
  started_config_snapshot_id = none;
}

abbrev db : Db
db = record { jobs = job ∷ []; transitions = []; attempts = []; log = [] }

abbrev failure : Failure
failure = record {
  status = failed;
  result = none;
  last_error = some "plugin error";
  stderr = none;
  decision = decide_retry_policy (some "error") none 1 (some job) conf "";
}

abbrev queue : Queue
queue = record { dedupe_ttl = 0; config_snapshot_id_provider = none }

abbrev no_hooks : String → List HookDispatch
no_hooks signal = []

abbrev writes : List (List ℕ)
writes = (1 ∷ 2 ∷ []) ∷ (3 ∷ 4 ∷ []) ∷ []

write_all-keeps_prefix_example :
    IsPrefixOf (concat writes) 3 (write_all writes (new_bounded_buffer 3))
write_all-keeps_prefix_example =
    write_all-keeps_prefix 3 writes (omega arith) (omega arith, (omega arith, tt))
