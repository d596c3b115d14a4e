-- ===== src/Scheduler/Circuit/Admission.antt =====
-- When canSchedule of internal/scheduler/scheduler.go lets a job be enqueued.
use senechal_gw.Prelude.{ℕ, ◌<◌, String, ◌≡◌, ◌≢◌, refl, ◌∙◌, subst, inl, inr, arith, Bool-cases}
use senechal_gw.Config.{PluginConf}
use senechal_gw.Queue.Table.{Result, ok, err}
use senechal_gw.Queue.Breakers.{circuit_open, circuit_half_open, CircuitBreaker, Breakers}
use senechal_gw.Queue.Invariant.Facts.{IsWellFormed}
use senechal_gw.Scheduler.Circuit.{
  Store, allowed, current_circuit_breaker, state_eq, outstanding_for_policy, policy_of, half_open,
  half_open_fact, Gate, passes, stays_open, fails, gate, after_gate, can_schedule,
}
use senechal_gw.Scheduler.Circuit.Policy.{limit_of, policy-room}
use senechal_gw.Scheduler.Circuit.Failures.{current-IsOf, upsert-current, record-current}

-- The gate is passed with a breaker that is not open.
gate-passes :
    (plugin command : String) (conf : PluginConf) (now : ℕ) (b b' : Breakers) (cb : CircuitBreaker)
    → current_circuit_breaker plugin command b ≡ ok cb
    → gate conf now (ok cb) b ≡ passes b'
    → (cb' : CircuitBreaker) × (current_circuit_breaker plugin command b' ≡ ok cb')
      × (cb'.state ≢ circuit_open)
unfolding gate half_open
gate-passes plugin command conf now b b' cb k g =
    elim (Bool-cases (state_eq cb.state circuit_open)) [
      | inr e ↦
          let s : b ≡ b' = ground (arith, e, g) in
          (cb, subst (λ x. current_circuit_breaker plugin command x ≡ ok cb) s k, ground (arith, e))
      | inl e ↦
          let (p, c, o) = current-IsOf plugin command b k in
          let cb' = record cb { state = circuit_half_open } in
          let (b1, w1, k1) =
            upsert-current plugin command cb' now b p c
              (record { plugin_eq = o.plugin_eq; command_eq = o.command_eq }) in
          let (b2, w2, k2) =
            record-current plugin command (half_open_fact cb now) b1 (rw o.plugin_eq p)
              (rw o.command_eq c) in
          let h : half_open cb now b ≡ ok b2 = rw w1 w2 in
          let q : b2 ≡ b' = ground (arith, e, h, g) in
          (
            record cb' { updated_at = now },
            subst
                (λ x.
                  current_circuit_breaker plugin command x ≡ ok (record cb' { updated_at = now }))
                q (k2 ∙ k1),
            ground arith,
          )
    ]

-- What canSchedule promises of a job that it allows.
pub record Admitted (service plugin command policy : String) (conf : PluginConf) (s : Store)
    : Type 0 where
  pub breaker : CircuitBreaker
  pub current : current_circuit_breaker plugin command s.breakers ≡ ok breaker
  pub not_open : breaker.state ≢ circuit_open
  pub outstanding : ℕ
  pub counted : outstanding_for_policy service plugin command s.db ≡ ok outstanding
  pub below : outstanding < limit_of policy conf

after_gate-admits :
    (service plugin command if_running : String) (conf : PluginConf) (now : ℕ) (s s' : Store)
    (g : Gate)
    → IsWellFormed s.db
    → ((b : Breakers)
        → g ≡ passes b
        → (cb : CircuitBreaker) × (current_circuit_breaker plugin command b ≡ ok cb)
          × (cb.state ≢ circuit_open))
    → after_gate service plugin command if_running conf now g s ≡ (allowed, s')
    → Admitted service plugin command (policy_of if_running) conf s'
unfolding after_gate
after_gate-admits service plugin command if_running conf now s s' (fails x) v h e = cc
after_gate-admits service plugin command if_running conf now s s' stays_open v h e = cc
after_gate-admits service plugin command if_running conf now s s' (passes b) v h e =
    let (cb, k, o) = h b refl in
    let r =
      policy-room service plugin command if_running conf now (record s { breakers = b }) s' v e in
    record {
      breaker = cb;
      current = rw r.breakers k;
      not_open = o;
      outstanding = r.outstanding;
      counted = r.counted;
      below = r.below;
    }

gate-not_open :
    (plugin command : String) (conf : PluginConf) (now : ℕ) (b b' : Breakers)
    (r : Result CircuitBreaker)
    → current_circuit_breaker plugin command b ≡ r
    → gate conf now r b ≡ passes b'
    → (cb : CircuitBreaker) × (current_circuit_breaker plugin command b' ≡ ok cb)
      × (cb.state ≢ circuit_open)
unfolding gate
gate-not_open plugin command conf now b b' (ok cb) k g =
    gate-passes plugin command conf now b b' cb k g
gate-not_open plugin command conf now b b' (err x) k g = cc

-- A job that canSchedule allows, on well-formed tables: afterwards the breaker of the command is
-- not open, and the outstanding jobs that the policy counts are none, or under "queue" fewer than
-- the limit. Under "cancel" that is after the cancellation, and no other policy allows a job.
pub can_schedule-Admitted :
    (service plugin command if_running : String) (conf : PluginConf) (now : ℕ) (s s' : Store)
    → IsWellFormed s.db
    → can_schedule service plugin command if_running conf now s ≡ (allowed, s')
    → Admitted service plugin command (policy_of if_running) conf s'
unfolding can_schedule
can_schedule-Admitted service plugin command if_running conf now s s' v e =
    after_gate-admits service plugin command if_running conf now s s' _ v
      (λ b g. gate-not_open plugin command conf now s.breakers b _ refl g) e
