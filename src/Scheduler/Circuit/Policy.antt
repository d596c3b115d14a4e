-- ===== src/Scheduler/Circuit/Policy.antt =====
-- What the policies of canSchedule in internal/scheduler/scheduler.go leave room for.
use senechal_gw.Prelude.{
  ℕ, ◌<◌, String, ◌≡◌, refl, sym, subst, inl, inr, false, List, [], ◌∷◌, arith, is_empty,
  trim_space, ltb, str_eq, eq_iff, count_p, Bool-cases, if◌then◌else◌,
}
use senechal_gw.Config.{PluginConf}
use senechal_gw.Queue.Table.{Job, Db, ok, Result-cases}
use senechal_gw.Queue.Complete.{is_outstanding_for}
use senechal_gw.Queue.Reads.{
  is_submitted_for, count_outstanding_jobs, count_outstanding_jobs_by_submitter,
}
use senechal_gw.Queue.Breakers.{Breakers}
use senechal_gw.Queue.Invariant.Facts.{IsWellFormed}
use senechal_gw.Queue.Invariant.Cancellation.{cancel_outstanding_jobs-Cancels}
use senechal_gw.Scheduler.Circuit.{
  Store, allowed, or_default, outstanding_for_policy, policy_of, skip_policy, queue_policy,
  cancel_policy, cancelled, apply_policy,
}

count_p-submitted :
    (plugin command by : String) (jobs : List Job)
    → count_p (is_outstanding_for plugin command) jobs ≡ 0
    → count_p (is_submitted_for plugin command by) jobs ≡ 0
unfolding count_p is_outstanding_for is_submitted_for
count_p-submitted plugin command by [] h = refl
count_p-submitted plugin command by (j ∷ js) h =
    ground (arith, h, count_p-submitted plugin command by js)

outstanding-none :
    (service plugin command : String) (db db' : Db) {n : ℕ}
    → outstanding_for_policy service plugin command db ≡ ok n
    → count_p (is_outstanding_for plugin command) db'.jobs ≡ 0
    → outstanding_for_policy service plugin command db' ≡ ok 0
unfolding outstanding_for_policy count_outstanding_jobs count_outstanding_jobs_by_submitter
outstanding-none service plugin command db db' e h =
    ground (arith, e, h, count_p-submitted plugin command (trim_space service) db'.jobs h)

outstanding-keys :
    (service plugin command : String) (db : Db) {n : ℕ}
    → outstanding_for_policy service plugin command db ≡ ok n
    → (is_empty plugin ≡ false) × (is_empty command ≡ false)
unfolding outstanding_for_policy count_outstanding_jobs count_outstanding_jobs_by_submitter
outstanding-keys service plugin command db e = ground (arith, e)

-- The outstanding jobs that the policy leaves room beside.
abbrev pub limit_of : String → PluginConf → ℕ
limit_of policy conf = if str_eq policy "queue" then or_default conf.max_outstanding_polls 1 else 1

-- A store with room for another job of the command, and the breakers that the policy found.
pub record HasRoom (service plugin command policy : String) (conf : PluginConf) (b : Breakers)
    (s : Store) : Type 0 where
  pub breakers : s.breakers ≡ b
  pub outstanding : ℕ
  pub counted : outstanding_for_policy service plugin command s.db ≡ ok outstanding
  pub below : outstanding < limit_of policy conf

skip-room :
    (service plugin command : String) (conf : PluginConf) (s s' : Store)
    → skip_policy (outstanding_for_policy service plugin command s.db) s ≡ (allowed, s')
    → HasRoom service plugin command "skip" conf s.breakers s'
unfolding skip_policy
skip-room service plugin command conf s s' e =
    elim (Result-cases (outstanding_for_policy service plugin command s.db)) [
      | inl (x, k) ↦ absurd (ground (arith, k, e))
      | inr (n, k) ↦
          let z : n ≡ 0 = ground (arith, k, e) in
          let q : s ≡ s' = ground (arith, k, e) in
          subst (HasRoom service plugin command "skip" conf s.breakers) q
            (record { breakers = refl; outstanding = n; counted = k; below = ground (arith, z) })
    ]

queue-room :
    (service plugin command : String) (conf : PluginConf) (s s' : Store)
    → queue_policy
        (or_default conf.max_outstanding_polls 1)
        (outstanding_for_policy service plugin command s.db)
        s
      ≡ (allowed, s')
    → HasRoom service plugin command "queue" conf s.breakers s'
unfolding queue_policy
queue-room service plugin command conf s s' e =
    elim (Result-cases (outstanding_for_policy service plugin command s.db)) [
      | inl (x, k) ↦ absurd (ground (arith, k, e))
      | inr (n, k) ↦
          let z : n < or_default conf.max_outstanding_polls 1 = ground (arith, k, e) in
          let q : s ≡ s' = ground (arith, k, e) in
          subst (HasRoom service plugin command "queue" conf s.breakers) q
            (record { breakers = refl; outstanding = n; counted = k; below = z })
    ]

cancel-room :
    (service plugin command : String) (conf : PluginConf) (now : ℕ) (s s' : Store)
    → IsWellFormed s.db
    → cancel_policy plugin command now (outstanding_for_policy service plugin command s.db) s
      ≡ (allowed, s')
    → HasRoom service plugin command "cancel" conf s.breakers s'
unfolding cancel_policy cancelled
cancel-room service plugin command conf now s s' v e =
    elim (Result-cases (outstanding_for_policy service plugin command s.db)) [
      | inl (x, k) ↦ absurd (ground (arith, k, e))
      | inr (n, k) ↦ elim (Bool-cases (ltb 0 n)) [
        | inr z ↦
            let q : s ≡ s' = ground (arith, k, z, e) in
            subst (HasRoom service plugin command "cancel" conf s.breakers) q
              (record { breakers = refl; outstanding = n; counted = k; below = ground (arith, z) })
        | inl z ↦
            let (p, c) = outstanding-keys service plugin command s.db k in
            let (r, w, a) =
              cancel_outstanding_jobs-Cancels plugin command
                "cancelled by scheduler (if_running=cancel)" now s.db v p c in
            let q : record s { db = r.1 } ≡ s' = ground (arith, k, z, w, e) in
            subst (HasRoom service plugin command "cancel" conf s.breakers) q (record {
              breakers = refl;
              outstanding = 0;
              counted = outstanding-none service plugin command s.db r.1 k a.none_left;
              below = ground arith;
            })
      ]
    ]

pub policy-room :
    (service plugin command if_running : String) (conf : PluginConf) (now : ℕ) (s s' : Store)
    → IsWellFormed s.db
    → apply_policy service plugin command if_running conf now s ≡ (allowed, s')
    → HasRoom service plugin command (policy_of if_running) conf s.breakers s'
unfolding apply_policy
policy-room service plugin command if_running conf now s s' v e =
    elim (Bool-cases (str_eq (policy_of if_running) "skip")) [
      | inl a ↦
          let n : policy_of if_running ≡ "skip" =
            ground (arith, a, eq_iff (policy_of if_running) "skip") in
          subst (λ x. HasRoom service plugin command x conf s.breakers s') (sym n)
            (skip-room service plugin command conf s s' (ground (arith, a, e)))
      | inr a ↦ elim (Bool-cases (str_eq (policy_of if_running) "queue")) [
        | inl b ↦
            let n : policy_of if_running ≡ "queue" =
              ground (arith, b, eq_iff (policy_of if_running) "queue") in
            subst (λ x. HasRoom service plugin command x conf s.breakers s') (sym n)
              (queue-room service plugin command conf s s' (ground (arith, a, b, e)))
        | inr b ↦ elim (Bool-cases (str_eq (policy_of if_running) "cancel")) [
          | inl c ↦
              let n : policy_of if_running ≡ "cancel" =
                ground (arith, c, eq_iff (policy_of if_running) "cancel") in
              subst (λ x. HasRoom service plugin command x conf s.breakers s') (sym n)
                (cancel-room service plugin command conf now s s' v (ground (arith, a, b, c, e)))
          | inr c ↦ absurd (ground (arith, a, b, c, e))
        ]
      ]
    ]
