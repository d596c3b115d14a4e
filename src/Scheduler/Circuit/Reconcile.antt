-- ===== src/Scheduler/Circuit/Reconcile.antt =====
-- reconcileCircuitBreaker against the tables: one observation for each completed job.
use senechal_gw.Prelude.{
  ℕ, String, ◌≡◌, refl, ◌∙◌, inl, inr, true, false, Option, some, arith, is_empty, Bool-cases,
  if◌then◌else◌,
}
use senechal_gw.Config.{PluginConf}
use senechal_gw.Queue.Table.{ok, plugin_is_empty, command_is_empty, reject-ok}
use senechal_gw.Queue.Reads.{CommandResult, latest_completed_command_result}
use senechal_gw.Queue.Breakers.{
  CircuitState, CircuitBreaker, Breakers, find_breaker, get_circuit_breaker,
}
use senechal_gw.Queue.Invariant.Facts.{str_eq_refl}
use senechal_gw.Scheduler.Circuit.{
  Store, breaker_threshold, current_or_closed, current_circuit_breaker, observe, change_fact,
  record_change, reconcile_result, reconcile_circuit_breaker, state_eq, is_seen,
}
use senechal_gw.Scheduler.Circuit.Failures.{IsOf, current-IsOf, upsert-current, record-current}

change-current :
    (plugin command : String) (previous : CircuitState) (cb : CircuitBreaker) (id : String)
    (now : ℕ) (b : Breakers)
    → is_empty cb.plugin ≡ false
    → is_empty cb.command ≡ false
    → (b' : Breakers) × (record_change previous cb id now b ≡ ok b')
      × (current_circuit_breaker plugin command b' ≡ current_circuit_breaker plugin command b)
unfolding record_change
change-current plugin command previous cb id now b p c =
    elim (Bool-cases (state_eq cb.state previous)) [
      | inl e ↦ (b, rw e, refl)
      | inr e ↦
          let (b', w, k) = record-current plugin command (change_fact previous cb id now) b p c in
          (b', rw e w, k)
    ]

observe-IsOf :
    (threshold : ℕ) (r : CommandResult) (plugin command : String) (cb : CircuitBreaker)
    → IsOf plugin command cb
    → IsOf plugin command (observe threshold r cb)
unfolding observe
observe-IsOf threshold r plugin command cb o = ground arith

observe-seen :
    (threshold : ℕ) (r : CommandResult) (cb : CircuitBreaker)
    → (observe threshold r cb).last_job_id ≡ some r.job_id
unfolding observe
observe-seen threshold r cb = ground arith

-- What a reconciliation leaves as the current breaker.
abbrev pub settled : ℕ → CommandResult → ℕ → CircuitBreaker → CircuitBreaker
settled threshold latest now cb =
    if is_seen cb.last_job_id latest.job_id
    then cb
    else record (observe threshold latest cb) { updated_at = now }

result-settled :
    (threshold now : ℕ) (latest : CommandResult) (plugin command : String) (cb : CircuitBreaker)
    (b : Breakers)
    → is_empty plugin ≡ false
    → is_empty command ≡ false
    → IsOf plugin command cb
    → current_circuit_breaker plugin command b ≡ ok cb
    → (b' : Breakers) × (reconcile_result threshold now cb (some latest) b ≡ ok (some latest, b'))
      × (current_circuit_breaker plugin command b' ≡ ok (settled threshold latest now cb))
unfolding reconcile_result
result-settled threshold now latest plugin command cb b p c o k =
    elim (Bool-cases (is_seen cb.last_job_id latest.job_id)) [
      | inl e ↦ (b, rw e, rw e k)
      | inr e ↦
          let cb' = observe threshold latest cb in
          let o' = observe-IsOf threshold latest plugin command cb o in
          let (b1, w1, k1) = upsert-current plugin command cb' now b p c o' in
          let (b2, w2, k2) =
            change-current plugin command cb.state cb' latest.job_id now b1 (rw o'.plugin_eq p)
              (rw o'.command_eq c) in
          (b2, rw (e, w1, w2) refl, rw e (k2 ∙ k1))
    ]

latest-keys :
    (plugin command service : String) (s : Store) {r : Option CommandResult}
    → latest_completed_command_result plugin command service s.db ≡ ok r
    → (is_empty plugin ≡ false) × (is_empty command ≡ false)
unfolding latest_completed_command_result
latest-keys plugin command service s e =
    let (p, e1) = reject-ok (is_empty plugin) plugin_is_empty _ e in
    let (c, e2) = reject-ok (is_empty command) command_is_empty _ e1 in (p, c)

current-of :
    (plugin command : String) (b : Breakers)
    → is_empty plugin ≡ false
    → is_empty command ≡ false
    → (cb : CircuitBreaker) × (current_circuit_breaker plugin command b ≡ ok cb)
unfolding current_circuit_breaker get_circuit_breaker
current-of plugin command b p c =
    (current_or_closed plugin command (find_breaker plugin command b.rows), rw (p, c) refl)

is_seen-settled :
    (threshold : ℕ) (latest : CommandResult) (now : ℕ) (cb : CircuitBreaker)
    → is_seen (settled threshold latest now cb).last_job_id latest.job_id ≡ true
is_seen-settled threshold latest now cb = elim (Bool-cases (is_seen cb.last_job_id latest.job_id)) [
  | inl e ↦ rw (e, e) refl
  | inr e ↦ rw (e, observe-seen threshold latest cb) (str_eq_refl latest.job_id)
]

again :
    (service plugin command : String) (conf : PluginConf) (now : ℕ) (s : Store)
    (latest : CommandResult) (cb : CircuitBreaker)
    → latest_completed_command_result plugin command service s.db ≡ ok (some latest)
    → current_circuit_breaker plugin command s.breakers ≡ ok cb
    → is_seen cb.last_job_id latest.job_id ≡ true
    → reconcile_circuit_breaker service plugin command conf now s ≡ ok (some latest, s.breakers)
unfolding reconcile_circuit_breaker
again service plugin command conf now s latest cb l k h = rw (k, l, h) refl

-- What reconcileCircuitBreaker does where the scheduler has a latest completed job of the command.
pub record Settles (service plugin command : String) (conf : PluginConf) (now : ℕ) (s : Store)
    (latest : CommandResult) (before : CircuitBreaker) (b : Breakers) : Type 0 where
  pub answers : reconcile_circuit_breaker service plugin command conf now s ≡ ok (some latest, b)
  -- the result is observed, unless it has been seen
  pub current :
      current_circuit_breaker plugin command b
      ≡ ok (settled (breaker_threshold conf) latest now before)
  -- another reconciliation before another job completes changes nothing
  pub once :
      (conf' : PluginConf) (now' : ℕ)
      → reconcile_circuit_breaker service plugin command conf' now'
          (record { db = s.db; breakers = b })
        ≡ ok (some latest, b)

-- Where the command has a latest completed job of the service, reconcileCircuitBreaker succeeds with
-- it, and the current breaker is then that of before with the job observed, or unchanged where the job
-- was its last. A second reconciliation on the same jobs, with whatever configuration and time, writes
-- nothing: a job counts once.
pub reconcile_circuit_breaker-Settles :
    (service plugin command : String) (conf : PluginConf) (now : ℕ) (s : Store)
    (latest : CommandResult)
    → latest_completed_command_result plugin command service s.db ≡ ok (some latest)
    → (before : CircuitBreaker) × (b : Breakers) × (current_circuit_breaker plugin command
          s.breakers
        ≡ ok before)
      × Settles service plugin command conf now s latest before b
unfolding reconcile_circuit_breaker
reconcile_circuit_breaker-Settles service plugin command conf now s latest l =
    let (p, c) = latest-keys plugin command service s l in
    let (cb, k) = current-of plugin command s.breakers p c in
    let (_, _, o) = current-IsOf plugin command s.breakers k in
    let (b, w, k') =
      result-settled (breaker_threshold conf) now latest plugin command cb s.breakers p c o k in
    (
      cb,
      b,
      k,
      record {
        answers = rw (k, l, w) refl;
        current = k';
        once = λ conf' now'.
            again service plugin command conf' now' (record { db = s.db; breakers = b }) latest _ l
              k' (is_seen-settled (breaker_threshold conf) latest now cb);
      },
    )
