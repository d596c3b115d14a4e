-- ===== src/Scheduler/Tick/Reaches.antt =====
-- processSchedule of internal/scheduler/scheduler.go: what holds of a call that comes to the enqueue.
use senechal_gw.Prelude.{◌≡◌, refl, ◌∙◌, true, false, not, Option, none, arith, str_eq}
use senechal_gw.Queue.Table.{Db, Result, ok, err}
use senechal_gw.Queue.Breakers.{Breakers}
use senechal_gw.Queue.Reads.{CommandResult}
use senechal_gw.Queue.Entries.{ScheduleEntryState, active}
use senechal_gw.Scheduler.Circuit.{
  Store, Verdict, allowed, refused, failed_with, invalid_if_running, can_schedule,
  reconcile_circuit_breaker,
}
use senechal_gw.Scheduler.Window.{
  Constraint, allows, forbids, malformed, schedule_constraints_allow_at,
}
use senechal_gw.Scheduler.Circuit.Spares.{can_schedule-db}
use senechal_gw.Scheduler.Tick.{
  Scheduler, Tables, Call, Outcome, Step, go, halt, ◌>>=◌, command_of, save, pause_invalid,
  load_entry, is_paused_invalid,
}
use senechal_gw.Scheduler.Tick.Checks.{
  Timing, Timed, timed, bad_schedule, out_of_slice, timing_of, read_timing, check_command,
  is_supported, reactivate, reconcile_breaker, reconciled, keep_timing,
}
use senechal_gw.Scheduler.Tick.Due.{await_due, await_form, with_timing}
use senechal_gw.Scheduler.Tick.Fire.{
  check_constraints, check_admission, admitted, constrained, fire, read_entry, checked,
  process_steps,
}
use senechal_gw.Scheduler.Tick.Waits.{moved, await_form-Goes}
use senechal_gw.Scheduler.Tick.Loads.{IsRunning, load_entry-Goes}
use senechal_gw.Scheduler.Tick.Stages.{
  is_fired, Goes, Goes-bind, Goes-if, Passed, Runs, save-Goes, pause_invalid-Goes,
}

module _ (s : Scheduler) (c : Call) (t0 : Tables) where
  abbrev pub d0 : Db
  d0 = t0.store.db

  -- What the schedule and the stored entry were found to be.
  pub record Ready (x : Timing) : Type 0 where
    pub runs : Runs c t0
    pub timing : timing_of s c.schedule c.now ≡ timed x

  pub record Suits (x : Timing) : Type 0 where
    pub ready : Ready x
    pub not_handle : str_eq (command_of c.schedule) "handle" ≡ false
    pub supported : is_supported s c.plugin (command_of c.schedule) ≡ true

  abbrev AtReady : ScheduleEntryState × Timing → Tables → Type 0
  AtReady (e, x) t = Passed c t0 e t × Ready x

  abbrev AtSuits : ScheduleEntryState × Timing → Tables → Type 0
  AtSuits (e, x) t = Passed c t0 e t × Suits x

  abbrev AtLatest : ScheduleEntryState × Timing × Option CommandResult → Tables → Type 0
  AtLatest (e, x, latest) t = Passed c t0 e t × Suits x

  read_timing-Goes :
      (e : ScheduleEntryState) (t : Tables) (m : Timed)
      → Passed c t0 e t
      → Runs c t0
      → timing_of s c.schedule c.now ≡ m
      → Goes d0 AtReady (read_timing c e m t)
  unfolding read_timing pause_invalid
  read_timing-Goes e t bad_schedule p r h =
      pause_invalid-Goes d0 AtReady c e "invalid_schedule_config" t p.db_eq
  read_timing-Goes e t out_of_slice p r h = (refl, p.db_eq)
  read_timing-Goes e t (timed x) p r h = (p, record { runs = r; timing = h })

  check_command-Goes :
      (ex : ScheduleEntryState × Timing) (t : Tables)
      → AtReady ex t
      → Goes d0 AtSuits (check_command s c ex t)
  unfolding check_command pause_invalid
  check_command-Goes (e, x) t (p, r) =
      let command = command_of c.schedule in
      Goes-if d0 AtSuits (str_eq command "handle") _ _
        (λ h. pause_invalid-Goes d0 AtSuits c e "scheduled_handle_disallowed" t p.db_eq)
        (λ h.
          Goes-if d0 AtSuits (not (is_supported s c.plugin command)) _ _
            (λ k. pause_invalid-Goes d0 AtSuits c e "command_not_supported" t p.db_eq)
            (λ k. (p, record { ready = r; not_handle = h; supported = ground (arith, k) })))

  reactivate-Goes :
      (ex : ScheduleEntryState × Timing) (t : Tables)
      → AtSuits ex t
      → Goes d0 AtSuits (reactivate c ex t)
  unfolding reactivate
  reactivate-Goes (e, x) t (p, r) =
      let e' = record e { status = active; reason = none } in
      Goes-if d0 AtSuits (is_paused_invalid e.status) (save c e' t >>= keep_timing x) (go (e, x) t)
        (λ h.
          Goes-bind d0 (Passed c t0) AtSuits (save c e' t) (keep_timing x)
            (save-Goes d0 (Passed c t0) c t e' p.db_eq (λ rows. moved c t0 e' t rows (record {
              plugin_eq = p.plugin_eq;
              schedule_id_eq = p.schedule_id_eq;
              command_eq = p.command_eq;
              db_eq = p.db_eq;
            })))
            (λ e'' t' q. (q, r)))
        (λ h. (p, r))

  reconcile_breaker-Goes :
      (ex : ScheduleEntryState × Timing) (t : Tables)
      → AtSuits ex t
      → Goes d0 AtLatest (reconcile_breaker s c ex t)
  unfolding reconcile_breaker
  reconcile_breaker-Goes (e, x) t (p, r) = of_result (
      reconcile_circuit_breaker s.service_name c.plugin (command_of c.schedule) c.conf c.now
        t.store)
    where
      of_result :
          (m : Result (Option CommandResult × Breakers)) → Goes d0 AtLatest (reconciled e x t m)
      of_result (err z) = (refl, p.db_eq)
      of_result (ok (latest, b)) = (
        record {
          plugin_eq = p.plugin_eq;
          schedule_id_eq = p.schedule_id_eq;
          command_eq = p.command_eq;
          db_eq = p.db_eq;
        },
        r,
      )

  await_due-Goes :
      (z : ScheduleEntryState × Timing × Option CommandResult) (t : Tables)
      → AtLatest z t
      → Goes d0 AtSuits (await_due s c z t)
  unfolding await_due
  await_due-Goes (e, x, latest) t (p, r) =
      Goes-bind d0 (Passed c t0) AtSuits (await_form s c x latest e x.every t) (with_timing x)
        (await_form-Goes s c t0 x latest e x.every t p) (λ e' t' q. (q, r))

  abbrev Allowed : Type 0
  Allowed =
      schedule_constraints_allow_at s.durations.to_lower s.load_location s.utc c.schedule c.now
      ≡ allows

  abbrev AtAllowed : ScheduleEntryState × Timing → Tables → Type 0
  AtAllowed ex t = AtSuits ex t × Allowed

  check_constraints-Goes :
      (ex : ScheduleEntryState × Timing) (t : Tables)
      → AtSuits ex t
      → Goes d0 AtAllowed (check_constraints s c ex t)
  unfolding check_constraints
  check_constraints-Goes ex t p =
      of_answer
        (schedule_constraints_allow_at s.durations.to_lower s.load_location s.utc c.schedule c.now)
        refl
    where
      of_answer :
          (k : Constraint)
          → schedule_constraints_allow_at s.durations.to_lower s.load_location s.utc c.schedule
              c.now
            ≡ k
          → Goes d0 AtAllowed (constrained ex t k)
      of_answer allows h = (p, h)
      of_answer (forbids why) h = (refl, p.0.db_eq)
      of_answer malformed h = (refl, p.0.db_eq)

  -- A call that canSchedule has let pass, from the tables before it.
  pub record Passes (e : ScheduleEntryState) (x : Timing) (t' : Tables) : Type 0 where
    pub before : Tables
    pub named : Passed c t0 e before
    pub suits : Suits x
    pub constraints : Allowed
    pub entries_eq : t'.entries ≡ before.entries
    pub admits :
        can_schedule s.service_name c.plugin
          (command_of c.schedule)
          c.schedule.if_running
          c.conf
          c.now
          before.store
        ≡ (allowed, t'.store)

  abbrev pub AtFire : ScheduleEntryState × Timing → Tables → Type 0
  AtFire (e, x) t = Passes e x t

  check_admission-Goes :
      (ex : ScheduleEntryState × Timing) (t : Tables)
      → AtAllowed ex t
      → Goes d0 AtFire (check_admission s c ex t)
  unfolding check_admission
  check_admission-Goes (e, x) t ((p, r), a) =
      of_verdict
        (can_schedule s.service_name c.plugin (command_of c.schedule) c.schedule.if_running c.conf
          c.now t.store)
        refl
    where
      of_verdict :
          (v : Verdict × Store)
          → can_schedule s.service_name c.plugin
              (command_of c.schedule)
              c.schedule.if_running
              c.conf
              c.now
              t.store
            ≡ v
          → Goes d0 AtFire (admitted (e, x) t v)
      of_verdict (allowed, st) h = record {
        before = t;
        named = p;
        suits = r;
        constraints = a;
        entries_eq = refl;
        admits = h;
      }
      of_verdict (refused why, st) h = (
        refl,
        can_schedule-db s.service_name c.plugin (command_of c.schedule) c.schedule.if_running c.conf
              c.now t.store (refused why) st refl h
            ∙ p.db_eq,
      )
      of_verdict (failed_with z, st) h = (
        refl,
        can_schedule-db s.service_name c.plugin (command_of c.schedule) c.schedule.if_running c.conf
              c.now t.store (failed_with z) st refl h
            ∙ p.db_eq,
      )
      of_verdict (invalid_if_running z, st) h = (
        refl,
        can_schedule-db s.service_name c.plugin (command_of c.schedule) c.schedule.if_running c.conf
              c.now t.store (invalid_if_running z) st refl h
            ∙ p.db_eq,
      )

  checked-Goes : Goes d0 AtLatest (checked s c t0)
  unfolding checked
  checked-Goes =
      Goes-bind d0 AtSuits AtLatest _ (reconcile_breaker s c)
        (Goes-bind d0 AtSuits AtSuits _ (reactivate c)
          (Goes-bind d0 AtReady AtSuits _ (check_command s c)
            (Goes-bind d0 (IsRunning c t0) AtReady (load_entry c t0) (read_entry s c)
              (load_entry-Goes c t0)
              (λ e t r. read_timing-Goes e t (timing_of s c.schedule c.now) r.passed r.runs refl))
            check_command-Goes)
          reactivate-Goes)
        reconcile_breaker-Goes

  Goes-last :
      {A B : Type 0} (P : A → Tables → Type 0) (m : Step A) (f : A → Tables → Step B) (o : Outcome)
      (t' : Tables)
      → Goes d0 P m
      → (m >>= f) ≡ halt o t'
      → is_fired o ≡ true
      → (a : A) × (t : Tables) × P a t × (f a t ≡ halt o t')
  Goes-last P (go a t) f o t' p h k = (a, t, p, h)
  Goes-last P (halt q t) f o t' (p, d) h k = absurd (ground (arith, p, h, k))

  abbrev pub to_admission : Step (ScheduleEntryState × Timing)
  to_admission = checked s c t0 >>= await_due s c >>= check_constraints s c >>= check_admission s c

  pub to_admission-Goes : Goes d0 AtFire to_admission
  to_admission-Goes =
      Goes-bind d0 AtAllowed AtFire _ (check_admission s c)
        (Goes-bind d0 AtSuits AtAllowed _ (check_constraints s c)
          (Goes-bind d0 AtLatest AtSuits (checked s c t0) (await_due s c) checked-Goes
            await_due-Goes)
          check_constraints-Goes)
        check_admission-Goes

  -- A call that comes to the enqueue went through every check before it.
  pub process_steps-fires :
      (o : Outcome) (t' : Tables)
      → process_steps s c t0 ≡ halt o t'
      → is_fired o ≡ true
      → (e : ScheduleEntryState) × (x : Timing) × (t : Tables) × Passes e x t
        × (fire s c (e, x) t ≡ halt o t')
  unfolding process_steps
  process_steps-fires o t' h k =
      let ((e, x), t, p, f) = Goes-last AtFire to_admission (fire s c) o t' to_admission-Goes h k in
      (e, x, t, p, f)
