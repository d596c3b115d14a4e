-- ===== src/Scheduler/Circuit.antt =====
-- reconcileCircuitBreaker, currentCircuitBreaker and canSchedule of
-- internal/scheduler/scheduler.go, with outstandingForPolicy of poll_view.go.
pub mod Failures
pub mod Reconcile
pub mod Policy
pub mod Admission
pub mod Spares
use senechal_gw.Prelude.{
  ℕ, suc, ◌+◌, ◌*◌, String, Bool, true, false, not, ◌&&◌, Option, none, some, List, [], ◌∷◌,
  is_empty, trim_space, ltb, leb, ◌==◌, str_eq, if◌then◌else◌,
}
use senechal_gw.Config.{CircuitBreakerConfig, PluginConf, default_threshold, default_reset_after}
use senechal_gw.Queue.Table.{
  Db, Status, succeeded, Error, Result, ok, err, ◌>>=◌, ◌>>◌, status_eq, commit,
}
use senechal_gw.Queue.Complete.{cancel_outstanding_jobs}
use senechal_gw.Queue.Reads.{
  CommandResult, count_outstanding_jobs, count_outstanding_jobs_by_submitter,
  latest_completed_command_result,
}
use senechal_gw.Queue.Breakers.{
  CircuitState, circuit_closed, circuit_open, circuit_half_open, CircuitBreaker,
  CircuitBreakerTransition, Breakers, failure_threshold, success, cooldown_elapsed,
  get_circuit_breaker, upsert_circuit_breaker, record_circuit_breaker_transition,
}

-- The part of the database that the scheduler uses.
pub record Store : Type 0 where
  pub db : Db
  pub breakers : Breakers

unfoldable pub or_default : ℕ → ℕ → ℕ
or_default n d = if 0 == n then d else n

-- breakerThreshold
unfoldable pub breaker_threshold : PluginConf → ℕ
unfolding or_default
breaker_threshold conf = elim conf.circuit_breaker [
  | none ↦ default_threshold
  | some c ↦ or_default c.threshold default_threshold
]

-- breakerResetAfter
unfoldable pub breaker_reset_after : PluginConf → ℕ
unfolding or_default
breaker_reset_after conf = elim conf.circuit_breaker [
  | none ↦ default_reset_after
  | some c ↦ or_default c.reset_after default_reset_after
]

-- !now.Before(opened + reset)
unfoldable pub cooldown_over : Option ℕ → ℕ → ℕ → Bool
cooldown_over none reset_after now = true
cooldown_over (some opened) reset_after now = not (ltb now (opened + reset_after))

-- currentCircuitBreaker: the row, or a closed breaker
unfoldable pub current_or_closed : String → String → Option CircuitBreaker → CircuitBreaker
current_or_closed plugin command none = record {
  plugin = plugin;
  command = command;
  state = circuit_closed;
  failure_count = 0;
  opened_at = none;
  last_failure = none;
  last_job_id = none;
  updated_at = 0;
}
current_or_closed plugin command (some cb) = cb

unfoldable pub current_circuit_breaker : String → String → Breakers → Result CircuitBreaker
unfolding current_or_closed
current_circuit_breaker plugin command s = do
  found ← get_circuit_breaker plugin command s
  ok (current_or_closed plugin command found)

-- The branch on latest.Status of reconcileCircuitBreaker.
unfoldable pub observe : ℕ → CommandResult → CircuitBreaker → CircuitBreaker
observe threshold latest cb =
    if status_eq latest.status succeeded
    then record cb {
      state = circuit_closed;
      failure_count = 0;
      opened_at = none;
      last_failure = none;
      last_job_id = some latest.job_id;
    }
    else if leb threshold (suc cb.failure_count)
    then record cb {
      state = circuit_open;
      failure_count = suc cb.failure_count;
      opened_at = some latest.completed_at;
      last_failure = some latest.completed_at;
      last_job_id = some latest.job_id;
    }
    else record cb {
      state = circuit_closed;
      failure_count = suc cb.failure_count;
      opened_at = none;
      last_failure = some latest.completed_at;
      last_job_id = some latest.job_id;
    }

abbrev pub state_eq : CircuitState → CircuitState → Bool
state_eq circuit_closed circuit_closed = true
state_eq circuit_open circuit_open = true
state_eq circuit_half_open circuit_half_open = true
state_eq _ _ = false

abbrev pub change_fact : CircuitState → CircuitBreaker → String → ℕ → CircuitBreakerTransition
change_fact previous cb job_id now = record {
  plugin = cb.plugin;
  command = cb.command;
  from_state = some previous;
  to_state = cb.state;
  failure_count = cb.failure_count;
  reason = if state_eq cb.state circuit_open then failure_threshold else success;
  job_id = some job_id;
  created_at = now;
}

-- The transition fact, where the state has changed.
unfoldable pub record_change :
    CircuitState → CircuitBreaker → String → ℕ → Breakers → Result Breakers
record_change previous cb job_id now s =
    if state_eq cb.state previous
    then ok s
    else record_circuit_breaker_transition (change_fact previous cb job_id now) s

abbrev pub is_seen : Option String → String → Bool
is_seen none id = false
is_seen (some seen) id = str_eq seen id

-- A result that the breaker has seen already changes nothing.
unfoldable pub reconcile_result :
    ℕ
    → ℕ
    → CircuitBreaker
    → Option CommandResult
    → Breakers
    → Result (Option CommandResult × Breakers)
unfolding record_change
reconcile_result threshold now cb none s = ok (none, s)
reconcile_result threshold now cb (some latest) s =
    if is_seen cb.last_job_id latest.job_id then ok (some latest, s) else (do
      let cb' = observe threshold latest cb
      s1 ← upsert_circuit_breaker cb' now s
      s2 ← record_change cb.state cb' latest.job_id now s1
      ok (some latest, s2))

-- reconcileCircuitBreaker; `service` is cfg.Service.Name
unfoldable pub reconcile_circuit_breaker :
    String → String → String → PluginConf → ℕ → Store → Result (Option CommandResult × Breakers)
unfolding reconcile_result
reconcile_circuit_breaker service plugin command conf now s = do
  cb ← current_circuit_breaker plugin command s.breakers
  latest ← latest_completed_command_result plugin command service s.db
  reconcile_result (breaker_threshold conf) now cb latest s.breakers

-- The answers of canSchedule: the reason is that of the skipped event.
pub data Verdict : Type 0 where
  allowed : Verdict
  refused : String → Verdict
  failed_with : Error → Verdict
  invalid_if_running : String → Verdict

-- outstandingForPolicy; schedulerSubmitter trims the name of the service
unfoldable pub outstanding_for_policy : String → String → String → Db → Result ℕ
outstanding_for_policy service plugin command db =
    if str_eq command "poll"
    then count_outstanding_jobs_by_submitter plugin command (trim_space service) db
    else count_outstanding_jobs plugin command db

unfoldable pub skip_policy : Result ℕ → Store → Verdict × Store
skip_policy (err e) s = (failed_with e, s)
skip_policy (ok n) s = (if ltb 0 n then refused "already_running" else allowed, s)

unfoldable pub queue_policy : ℕ → Result ℕ → Store → Verdict × Store
queue_policy limit (err e) s = (failed_with e, s)
queue_policy limit (ok n) s = (if leb limit n then refused "outstanding_limit" else allowed, s)

unfoldable pub cancelled : Result (ℕ × Db) → Store → Verdict × Store
cancelled (err e) s = (failed_with e, s)
cancelled (ok (n, db)) s = (allowed, record s { db = db })

unfoldable pub cancel_policy : String → String → ℕ → Result ℕ → Store → Verdict × Store
unfolding cancelled
cancel_policy plugin command now (err e) s = (failed_with e, s)
cancel_policy plugin command now (ok n) s =
    if ltb 0 n
    then cancelled
        (cancel_outstanding_jobs plugin command "cancelled by scheduler (if_running=cancel)" now
          s.db)
        s
    else (allowed, s)

abbrev pub policy_of : String → String
policy_of if_running =
    let policy = trim_space if_running in if is_empty policy then "skip" else policy

-- The switch on if_running; blank is "skip".
unfoldable pub apply_policy :
    String → String → String → String → PluginConf → ℕ → Store → Verdict × Store
unfolding skip_policy queue_policy cancel_policy or_default
apply_policy service plugin command if_running conf now s =
    let policy = policy_of if_running in
    let outstanding = outstanding_for_policy service plugin command s.db in
    if str_eq policy "skip"
    then skip_policy outstanding s
    else if str_eq policy "queue"
    then queue_policy (or_default conf.max_outstanding_polls 1) outstanding s
    else if str_eq policy "cancel"
    then cancel_policy plugin command now outstanding s
    else (invalid_if_running policy, s)

abbrev pub half_open_fact : CircuitBreaker → ℕ → CircuitBreakerTransition
half_open_fact cb now = record {
  plugin = cb.plugin;
  command = cb.command;
  from_state = some cb.state;
  to_state = circuit_half_open;
  failure_count = cb.failure_count;
  reason = cooldown_elapsed;
  job_id = cb.last_job_id;
  created_at = now;
}

-- The breaker moves to half-open after the cooldown; both writes come before the policy.
unfoldable pub half_open : CircuitBreaker → ℕ → Breakers → Result Breakers
half_open cb now s = do
  let cb' = record cb { state = circuit_half_open }
  s1 ← upsert_circuit_breaker cb' now s
  record_circuit_breaker_transition (half_open_fact cb now) s1

-- The part of canSchedule before the policy: what the policy goes on from.
pub data Gate : Type 0 where
  passes : Breakers → Gate
  stays_open : Gate
  fails : Error → Gate

unfoldable pub opened : Result Breakers → Gate
opened (ok s) = passes s
opened (err e) = fails e

unfoldable pub gate : PluginConf → ℕ → Result CircuitBreaker → Breakers → Gate
unfolding opened half_open
gate conf now (err e) s = fails e
gate conf now (ok cb) s =
    if state_eq cb.state circuit_open
    then (if cooldown_over cb.opened_at (breaker_reset_after conf) now
        then opened (half_open cb now s)
        else stays_open)
    else passes s

unfoldable pub after_gate :
    String → String → String → String → PluginConf → ℕ → Gate → Store → Verdict × Store
after_gate service plugin command if_running conf now (fails e) s = (failed_with e, s)
after_gate service plugin command if_running conf now stays_open s = (refused "circuit_open", s)
after_gate service plugin command if_running conf now (passes b) s =
    apply_policy service plugin command if_running conf now (record s { breakers = b })

-- canSchedule
unfoldable pub can_schedule :
    String → String → String → String → PluginConf → ℕ → Store → Verdict × Store
unfolding after_gate gate
can_schedule service plugin command if_running conf now s =
    after_gate service plugin command if_running conf now
      (gate conf now (current_circuit_breaker plugin command s.breakers) s.breakers) s
