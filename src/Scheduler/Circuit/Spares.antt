-- ===== src/Scheduler/Circuit/Spares.antt =====
-- canSchedule of internal/scheduler/scheduler.go: what it does to the job tables.
use senechal_gw.Prelude.{
  ℕ, ◌≡◌, refl, subst, String, Bool, true, false, some, List, [], ◌∷◌, arith, length, update_where,
  ltb, leb, str_eq, if◌then◌else◌,
}
use senechal_gw.Config.{PluginConf}
use senechal_gw.Queue.Table.{Db, Result, ok, err, dead}
use senechal_gw.Queue.Complete.{
  is_outstanding_for, finish, reason_or_default, cancel_outstanding_jobs,
}
use senechal_gw.Scheduler.Circuit.{
  Store, Verdict, allowed, refused, failed_with, invalid_if_running, outstanding_for_policy,
  policy_of, or_default, skip_policy, queue_policy, cancel_policy, cancelled, apply_policy, Gate,
  passes, stays_open, fails, gate, after_gate, can_schedule, current_circuit_breaker,
}

-- The verdict leaves the job tables, or it lets a job pass and leaves as many jobs.
abbrev Spares : Db → Verdict × Store → Type 0
Spares d (allowed, s) = length s.db.jobs ≡ length d.jobs
Spares d (v, s) = s.db ≡ d

pub length-update_where {ℓ} :
    {A : Type ℓ} (p : A → Bool) (f : A → A) (xs : List A) → length (update_where p f xs) ≡ length xs
unfolding update_where
length-update_where p f [] = refl
length-update_where p f (x ∷ xs) = omega (arith, length-update_where p f xs)

cancel-length :
    (plugin command why : String) (now : ℕ) (d : Db) (n : ℕ) (d' : Db)
    → cancel_outstanding_jobs plugin command why now d ≡ ok (n, d')
    → length d'.jobs ≡ length d.jobs
unfolding cancel_outstanding_jobs
cancel-length plugin command why now d n d' h =
    let dies = finish dead now (some (reason_or_default why)) in
    ground (arith, h, length-update_where (is_outstanding_for plugin command) dies d.jobs)

Spares-if :
    (d : Db) (b : Bool) (x y : Verdict × Store)
    → (b ≡ true → Spares d x)
    → (b ≡ false → Spares d y)
    → Spares d (if b then x else y)
Spares-if d true x y h k = h refl
Spares-if d false x y h k = k refl

module _ (s : Store) where
  skip-Spares : (r : Result ℕ) → Spares s.db (skip_policy r s)
  unfolding skip_policy
  skip-Spares (err e) = refl
  skip-Spares (ok n) = of_test (ltb 0 n)
    where
      of_test : (b : Bool) → Spares s.db ((if b then refused "already_running" else allowed), s)
      of_test true = refl
      of_test false = refl

  queue-Spares : (limit : ℕ) (r : Result ℕ) → Spares s.db (queue_policy limit r s)
  unfolding queue_policy
  queue-Spares limit (err e) = refl
  queue-Spares limit (ok n) = of_test (leb limit n)
    where
      of_test : (b : Bool) → Spares s.db ((if b then refused "outstanding_limit" else allowed), s)
      of_test true = refl
      of_test false = refl

  cancel-Spares :
      (plugin command : String) (now : ℕ) (r : Result ℕ)
      → Spares s.db (cancel_policy plugin command now r s)
  unfolding cancel_policy cancelled
  cancel-Spares plugin command now (err e) = refl
  cancel-Spares plugin command now (ok n) =
      Spares-if s.db (ltb 0 n) _ (allowed, s)
        (λ h.
          of_cancel
            (cancel_outstanding_jobs plugin command "cancelled by scheduler (if_running=cancel)" now
              s.db)
            refl)
        (λ h. refl)
    where
      of_cancel :
          (r : Result (ℕ × Db))
          → cancel_outstanding_jobs plugin command "cancelled by scheduler (if_running=cancel)" now
              s.db
            ≡ r
          → Spares s.db (cancelled r s)
      of_cancel (err e) h = refl
      of_cancel (ok (k, d')) h =
          cancel-length plugin command "cancelled by scheduler (if_running=cancel)" now s.db k d' h

  policy-Spares :
      (service plugin command if_running : String) (conf : PluginConf) (now : ℕ)
      → Spares s.db (apply_policy service plugin command if_running conf now s)
  unfolding apply_policy
  policy-Spares service plugin command if_running conf now =
      let r = outstanding_for_policy service plugin command s.db in
      Spares-if s.db (str_eq (policy_of if_running) "skip") _ _ (λ h. skip-Spares r)
        (λ h.
          Spares-if s.db (str_eq (policy_of if_running) "queue") _ _
            (λ k. queue-Spares (or_default conf.max_outstanding_polls 1) r)
            (λ k.
              Spares-if s.db (str_eq (policy_of if_running) "cancel") _
                (invalid_if_running (policy_of if_running), s)
                (λ m. cancel-Spares plugin command now r) (λ m. refl)))

after_gate-Spares :
    (service plugin command if_running : String) (conf : PluginConf) (now : ℕ) (g : Gate)
    (s : Store)
    → Spares s.db (after_gate service plugin command if_running conf now g s)
unfolding after_gate
after_gate-Spares service plugin command if_running conf now (fails e) s = refl
after_gate-Spares service plugin command if_running conf now stays_open s = refl
after_gate-Spares service plugin command if_running conf now (passes b) s =
    policy-Spares (record s { breakers = b }) service plugin command if_running conf now

can_schedule-Spares :
    (service plugin command if_running : String) (conf : PluginConf) (now : ℕ) (s : Store)
    → Spares s.db (can_schedule service plugin command if_running conf now s)
unfolding can_schedule
can_schedule-Spares service plugin command if_running conf now s =
    after_gate-Spares service plugin command if_running conf now
      (gate conf now (current_circuit_breaker plugin command s.breakers) s.breakers) s

abbrev is_allowed : Verdict → Bool
is_allowed allowed = true
is_allowed _ = false

Spares-db : (d : Db) (v : Verdict) (s : Store) → is_allowed v ≡ false → Spares d (v, s) → s.db ≡ d
Spares-db d allowed s h k = absurd (ground (arith, h))
Spares-db d (refused w) s h k = k
Spares-db d (failed_with e) s h k = k
Spares-db d (invalid_if_running w) s h k = k

-- A refusal leaves the job tables.
pub can_schedule-db :
    (service plugin command if_running : String) (conf : PluginConf) (now : ℕ) (s : Store)
    (v : Verdict) (s' : Store)
    → is_allowed v ≡ false
    → can_schedule service plugin command if_running conf now s ≡ (v, s')
    → s'.db ≡ s.db
can_schedule-db service plugin command if_running conf now s v s' n h =
    Spares-db s.db v s' n
      (subst (Spares s.db) h (can_schedule-Spares service plugin command if_running conf now s))

-- A job that is allowed to be enqueued stands beside as many jobs as there were.
pub can_schedule-length :
    (service plugin command if_running : String) (conf : PluginConf) (now : ℕ) (s s' : Store)
    → can_schedule service plugin command if_running conf now s ≡ (allowed, s')
    → length s'.db.jobs ≡ length s.db.jobs
can_schedule-length service plugin command if_running conf now s s' h =
    subst (Spares s.db) h (can_schedule-Spares service plugin command if_running conf now s)
