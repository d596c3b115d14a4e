-- ===== src/Scheduler/Circuit/Failures.antt =====
-- The breaker as a function of the results that it has seen, and the reconciliation with the tables.
use senechal_gw.Prelude.{
  ℕ, suc, ◌<◌, String, ◌≡◌, refl, subst, inl, inr, false, Option, none, some, List, [], ◌∷◌, ◌++◌,
  arith, is_empty, leb, eq_iff, Bool-cases, Option-cases, if◌then◌else◌,
}
use senechal_gw.Config.{PluginConf}
use senechal_gw.Queue.Table.{succeeded, ok, status_eq}
use senechal_gw.Queue.Reads.{CommandResult}
use senechal_gw.Queue.Breakers.{
  circuit_closed, circuit_open, CircuitBreaker, CircuitBreakerTransition, Breakers, trim_to_null,
  is_breaker_of, find_breaker, put_breaker, get_circuit_breaker, upsert_circuit_breaker,
  record_circuit_breaker_transition,
}
use senechal_gw.Scheduler.Circuit.{
  breaker_threshold, current_or_closed, current_circuit_breaker, observe,
}

-- The failed results since the last success; the newest result stands first.
pub failures : List CommandResult → ℕ
failures [] = 0
failures (r ∷ rs) = let rest = failures rs in if status_eq r.status succeeded then 0 else suc rest

-- The breaker after the results, the newest first.
pub observe_all : ℕ → List CommandResult → CircuitBreaker → CircuitBreaker
observe_all threshold [] cb = cb
observe_all threshold (r ∷ rs) cb = observe threshold r (observe_all threshold rs cb)

abbrev opening : List CommandResult → Option ℕ
opening [] = none
opening (r ∷ rs) = some r.completed_at

pub record Follows (threshold : ℕ) (rs : List CommandResult) (cb : CircuitBreaker) : Type 0 where
  pub counted : cb.failure_count ≡ failures rs
  pub state : cb.state ≡ (if leb threshold (failures rs) then circuit_open else circuit_closed)
  pub opened : cb.opened_at ≡ (if leb threshold (failures rs) then opening rs else none)

-- A threshold of the configuration is never 0.
pub breaker_threshold-pos : (conf : PluginConf) → 0 < breaker_threshold conf
unfolding breaker_threshold
breaker_threshold-pos conf = ground arith

observe-Follows :
    (threshold : ℕ) (r : CommandResult) (rs : List CommandResult) (cb : CircuitBreaker)
    → Follows threshold rs cb
    → 0 < threshold
    → Follows threshold (r ∷ rs) (observe threshold r cb)
unfolding observe failures
observe-Follows threshold r rs cb f h = ground arith

-- From a closed breaker without failures, after any results: the failure count is the number of
-- failures since the last success, the breaker is open exactly where that number has reached the
-- threshold (which is positive), and then it was opened when the last result completed.
pub observe_all-Follows :
    (threshold : ℕ) (rs : List CommandResult) (plugin command : String)
    → 0 < threshold
    → Follows threshold rs (observe_all threshold rs (current_or_closed plugin command none))
unfolding observe_all failures current_or_closed
observe_all-Follows threshold [] plugin command h = ground arith
observe_all-Follows threshold (r ∷ rs) plugin command h =
    observe-Follows threshold r rs _ (observe_all-Follows threshold rs plugin command h) h

-- The row of the key is the one that was put.
find-put_breaker :
    (plugin command : String) (cb : CircuitBreaker) (rows : List CircuitBreaker)
    → cb.plugin ≡ plugin
    → cb.command ≡ command
    → find_breaker plugin command (put_breaker cb rows) ≡ some cb
unfolding find_breaker put_breaker is_breaker_of
find-put_breaker plugin command cb [] p c =
    ground (arith, eq_iff cb.plugin plugin, eq_iff cb.command command)
find-put_breaker plugin command cb (x ∷ xs) p c = ground (
  arith,
  p,
  c,
  eq_iff cb.plugin plugin,
  eq_iff cb.command command,
  eq_iff x.plugin plugin,
  eq_iff x.plugin cb.plugin,
  eq_iff x.command command,
  eq_iff x.command cb.command,
  find-put_breaker plugin command cb xs p c,
)

pub record IsOf (plugin command : String) (cb : CircuitBreaker) : Type 0 where
  pub plugin_eq : cb.plugin ≡ plugin
  pub command_eq : cb.command ≡ command

pub find-IsOf :
    (plugin command : String) (rows : List CircuitBreaker) {cb : CircuitBreaker}
    → find_breaker plugin command rows ≡ some cb
    → IsOf plugin command cb
unfolding find_breaker is_breaker_of
find-IsOf plugin command [] e = cc
find-IsOf plugin command (x ∷ xs) {cb} e = ground (
  arith,
  e,
  eq_iff x.plugin plugin,
  eq_iff x.command command,
  find-IsOf plugin command xs {cb = cb},
)

pub closed-IsOf :
    (plugin command : String) → IsOf plugin command (current_or_closed plugin command none)
unfolding current_or_closed
closed-IsOf plugin command = record { plugin_eq = refl; command_eq = refl }

-- currentCircuitBreaker succeeds with a breaker of its key.
pub current-IsOf :
    (plugin command : String) (b : Breakers) {cb : CircuitBreaker}
    → current_circuit_breaker plugin command b ≡ ok cb
    → (is_empty plugin ≡ false) × (is_empty command ≡ false) × IsOf plugin command cb
unfolding current_circuit_breaker get_circuit_breaker
current-IsOf plugin command b {cb} e = elim (Bool-cases (is_empty plugin)) [
  | inl p ↦ absurd (ground (arith, p, e))
  | inr p ↦ elim (Bool-cases (is_empty command)) [
    | inl c ↦ absurd (ground (arith, p, c, e))
    | inr c ↦ (
      p,
      c,
      elim (Option-cases (find_breaker plugin command b.rows)) [
        | inl n ↦
            let s : current_or_closed plugin command none ≡ cb = ground (arith, p, c, n, e) in
            subst (IsOf plugin command) s (closed-IsOf plugin command)
        | inr (x, n) ↦
            let s : x ≡ cb = ground (arith, p, c, n, e) in
            subst (IsOf plugin command) s (find-IsOf plugin command b.rows n)
      ],
    )
  ]
]

-- After an upsert of a breaker of the key, the current breaker is that one, with the new time.
pub upsert-current :
    (plugin command : String) (cb : CircuitBreaker) (now : ℕ) (b : Breakers)
    → is_empty plugin ≡ false
    → is_empty command ≡ false
    → IsOf plugin command cb
    → (b' : Breakers) × (upsert_circuit_breaker cb now b ≡ ok b')
      × (current_circuit_breaker plugin command b' ≡ ok (record cb { updated_at = now }))
unfolding upsert_circuit_breaker current_circuit_breaker get_circuit_breaker current_or_closed
upsert-current plugin command cb now b p c o = (
  record b { rows = put_breaker (record cb { updated_at = now }) b.rows },
  ground (arith, p, c, o),
  ground (
    arith,
    p,
    c,
    find-put_breaker plugin command (record cb { updated_at = now }) b.rows o.plugin_eq
        o.command_eq,
  ),
)

-- Recording a transition leaves the breakers.
pub record-current :
    (plugin command : String) (t : CircuitBreakerTransition) (b : Breakers)
    → is_empty t.plugin ≡ false
    → is_empty t.command ≡ false
    → (b' : Breakers) × (record_circuit_breaker_transition t b ≡ ok b')
      × (current_circuit_breaker plugin command b' ≡ current_circuit_breaker plugin command b)
unfolding record_circuit_breaker_transition current_circuit_breaker get_circuit_breaker
record-current plugin command t b p c = (
  record b { transitions = b.transitions ++ record t { job_id = trim_to_null t.job_id } ∷ [] },
  ground (arith, p, c),
  refl,
)
