-- ===== src/Dispatch/Failure.antt =====
-- failOrRetry, completeJob and maybeFireHooks of internal/dispatch/dispatcher.go.
pub mod Outcome
use senechal_gw.Prelude.{
  ℕ, zero, suc, ◌+◌, ◌/◌, String, Bool, true, false, not, ◌&&◌, Option, none, some, List, [], ◌∷◌,
  ◌++◌, is_empty, trim_space, ltb, if◌then◌else◌,
}
use senechal_gw.Config.{PluginConf, RetryConfig, default_backoff_base}
use senechal_gw.Queue.Table.{
  Job, Db, Status, queued, running, succeeded, failed, timed_out, dead, skipped, Error, Result, ok,
  err, commit,
}
use senechal_gw.Queue.Enqueue.{Queue, EnqueueRequest, enqueue}
use senechal_gw.Queue.Complete.{complete_with_result, update_job_for_recovery}
use senechal_gw.Dispatch.Retry.{RetryDecision}
use senechal_gw.Dispatch.Backoff.{calculate_backoff_delay}

-- What is published: the events of the retries, and the type of the event of a completion.
pub data Published : Type 0 where
  retry_scheduled : ℕ → ℕ → String → Published
  retry_exhausted : ℕ → String → Option String → Published
  job_ended : String → Published

-- hookSignalForStatus
unfoldable pub hook_signal_for_status : Status → String
hook_signal_for_status succeeded = "job.completed"
hook_signal_for_status timed_out = "job.timed_out"
hook_signal_for_status failed = "job.failed"
hook_signal_for_status dead = "job.failed"
hook_signal_for_status _ = ""

abbrev pub ended_event : String → List Published
ended_event type = if is_empty type then [] else job_ended type ∷ []

-- completeJob: the events have the names of the hook signals; an error of the queue is logged.
unfoldable pub complete_job :
    String → Status → Option String → Option String → Option (List ℕ) → ℕ → Db → Db × List Published
unfolding hook_signal_for_status
complete_job job_id status result last_error stderr now db = (
  commit db (complete_with_result job_id status result last_error stderr now db),
  ended_event (hook_signal_for_status status),
)

-- A dispatch of the router for a hook: the event's text, or none where json.Marshal fails, and the
-- uuid of the job that it makes.
pub record HookDispatch : Type 0 where
  pub plugin : String
  pub command : String
  pub event : Option String
  pub job_id : String

abbrev pub hook_request : HookDispatch → String → EnqueueRequest
hook_request d payload = record {
  plugin = d.plugin;
  command = d.command;
  payload = payload;
  max_attempts = 0;
  submitted_by = "hook";
  dedupe_key = none;
  dedupe_ttl = none;
  parent_job_id = none;
  event_context_id = none;
  source_event_id = none;
  enqueued_config_snapshot_id = "";
}

unfoldable pub enqueue_hook : Option String → HookDispatch → Queue → ℕ → Db → Db
enqueue_hook none d q now db = db
enqueue_hook (some payload) d q now db =
    commit db (enqueue d.job_id q (hook_request d payload) now db)

unfoldable pub enqueue_hooks : List HookDispatch → Queue → ℕ → Db → Db
unfolding enqueue_hook
enqueue_hooks [] q now db = db
enqueue_hooks (d ∷ ds) q now db = enqueue_hooks ds q now (enqueue_hook d.event d q now db)

-- d.cfg.Plugins[job.Plugin] is there and its notify_on_complete is true
abbrev pub notifies : Option PluginConf → Bool
notifies none = false
notifies (some conf) = elim conf.notify_on_complete [ none ↦ false | some b ↦ b ]

abbrev pub is_root : Job → Bool
is_root job = elim job.event_context_id [ none ↦ true | some c ↦ false ]

-- maybeFireHooks; the last list is NextHook's answer for the signal, empty where there is no router or
-- it fails.
unfoldable pub maybe_fire_hooks :
    Job → String → Option PluginConf → (String → List HookDispatch) → Queue → ℕ → Db → Db
unfolding enqueue_hooks
maybe_fire_hooks job signal conf next_hook q now db =
    if is_empty (trim_space signal)
    then db
    else if is_root job && notifies conf
    then enqueue_hooks (next_hook signal) q now db
    else db

-- What a failed run is judged by, and its result.
pub record Failure : Type 0 where
  pub status : Status
  pub result : Option String
  pub last_error : Option String
  pub stderr : Option (List ℕ)
  pub decision : RetryDecision

abbrev pub deref : Option String → String
deref none = ""
deref (some s) = s

unfoldable pub after_retry :
    Job → Failure → ℕ → ℕ → Db → Result (Unit {0} × Db) → Db × List Published
unfolding complete_job
after_retry job f backoff now db (ok (_, db')) =
    (db', retry_scheduled job.attempt (now + backoff) f.decision.reason ∷ [])
after_retry job f backoff now db (err e) =
    complete_job job.id f.status f.result f.last_error f.stderr now db

abbrev pub exhausted : Job → RetryDecision → Published
exhausted job d =
    if d.retryable
    then retry_exhausted job.attempt "attempts_exhausted" (some d.reason)
    else retry_exhausted job.attempt d.reason none

abbrev pub also : Published → Db × List Published → Db × List Published
also p (db, ps) = (db, p ∷ ps)

-- failOrRetry; `conf` is the configuration that maybeFireHooks looks up.
unfoldable pub fail_or_retry :
    Job
    → Failure
    → ℕ
    → Option PluginConf
    → (String → List HookDispatch)
    → Queue
    → ℕ
    → Db
    → Db × List Published
unfolding after_retry maybe_fire_hooks complete_job hook_signal_for_status
fail_or_retry job f backoff conf next_hook q now db =
    if f.decision.retryable && not f.decision.attempts_exhausted
    then after_retry job f backoff now db (
        update_job_for_recovery job.id queued (suc job.attempt) (some (now + backoff))
          (deref f.last_error) now db)
    else also (exhausted job f.decision) (
        complete_job job.id f.status f.result f.last_error f.stderr now
          (maybe_fire_hooks job (hook_signal_for_status f.status) conf next_hook q now db))

abbrev pub backoff_base_of : Option RetryConfig → ℕ
backoff_base_of none = default_backoff_base
backoff_base_of (some r) = if ltb 0 r.backoff_base then r.backoff_base else default_backoff_base

-- computeRetryDelay; `random` is rand.Int63n(base/4 + 1)
unfoldable pub compute_retry_delay : ℕ → Option RetryConfig → ℕ → ℕ → ℕ
compute_retry_delay out_of_range retry attempt random =
    let base = backoff_base_of retry in
    calculate_backoff_delay out_of_range base attempt (if ltb 0 (base / 4) then random else 0)
