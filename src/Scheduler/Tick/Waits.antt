-- ===== src/Scheduler/Tick/Waits.antt =====
-- processSchedule of internal/scheduler/scheduler.go: the wait for the due time keeps the entry and the
-- job tables.
use senechal_gw.Prelude.{
  ℕ, ◌+◌, refl, Bool, true, false, Option, none, some, List, ltb, if◌then◌else◌,
}
use senechal_gw.Cron.{CronExpression}
use senechal_gw.Cron.Next.{Location}
use senechal_gw.Queue.Table.{Db}
use senechal_gw.Queue.Reads.{CommandResult}
use senechal_gw.Queue.Entries.{ScheduleEntryState}
use senechal_gw.Scheduler.Interval.{calculate_jittered_interval}
use senechal_gw.Scheduler.Tick.{Scheduler, Tables, Call, go, ◌>>=◌, save, pause_invalid}
use senechal_gw.Scheduler.Tick.Checks.{Timing}
use senechal_gw.Scheduler.Tick.Due.{
  await_form, await_rest, await_every, await_cron, await_once, await_at, due_every, due_once,
  save_change, after_cron, evaluate_cron_due, CronDue, due_now, not_yet, no_time, due_at, wait,
  zone, is_new_success, is_before,
}
use senechal_gw.Scheduler.Tick.Stages.{
  Goes, Goes-bind, Goes-if, Passed, save-Goes, pause_invalid-Goes,
}

pub moved :
    (c : Call) (t0 : Tables) (e : ScheduleEntryState) (t : Tables) (rows : List ScheduleEntryState)
    → Passed c t0 e t
    → Passed c t0 e (record t { entries = rows })
moved c t0 e t rows p = record {
  plugin_eq = p.plugin_eq;
  schedule_id_eq = p.schedule_id_eq;
  command_eq = p.command_eq;
  db_eq = p.db_eq;
}

pub retimed :
    (c : Call) (t0 : Tables) (e : ScheduleEntryState) (t : Tables) (next : Option ℕ)
    → Passed c t0 e t
    → Passed c t0 (record e { next_run_at = next }) t
retimed c t0 e t next p = record {
  plugin_eq = p.plugin_eq;
  schedule_id_eq = p.schedule_id_eq;
  command_eq = p.command_eq;
  db_eq = p.db_eq;
}

module _ (s : Scheduler) (c : Call) (t0 : Tables) where
  abbrev d0 : Db
  d0 = t0.store.db

  due_every-Goes :
      (e : ScheduleEntryState) (t : Tables)
      → Passed c t0 e t
      → Goes d0 (Passed c t0) (due_every c e t)
  due_every-Goes e t p =
      Goes-if d0 (Passed c t0) (is_before c.now e.next_run_at) _ (go e t) (λ h. (refl, p.db_eq))
        (λ h. p)

  await_every-Goes :
      (base : ℕ) (latest : Option CommandResult) (e : ScheduleEntryState) (t : Tables)
      → Passed c t0 e t
      → Goes d0 (Passed c t0) (await_every c base latest e t)
  unfolding await_every
  await_every-Goes base none e t p = due_every-Goes e t p
  await_every-Goes base (some r) e t p = of_test (is_new_success e.last_success_job_id r)
    where
      later : ScheduleEntryState
      later = record e {
        last_success_job_id = some r.job_id;
        last_success_at = some r.completed_at;
        next_run_at =
            some (r.completed_at + calculate_jittered_interval base c.schedule.jitter c.draw);
      }

      of_test :
          (b : Bool)
          → Goes d0
              (Passed c t0)
              (save_change c (if b then some later else none) e t >>= due_every c)
      of_test false = due_every-Goes e t p
      of_test true =
          Goes-bind d0 (Passed c t0) (Passed c t0) (save c later t) (due_every c)
            (save-Goes d0 (Passed c t0) c t later p.db_eq (λ rows. moved c t0 later t rows (record {
              plugin_eq = p.plugin_eq;
              schedule_id_eq = p.schedule_id_eq;
              command_eq = p.command_eq;
              db_eq = p.db_eq;
            })))
            due_every-Goes

  due_once-Goes :
      (run_at : ℕ) (e : ScheduleEntryState) (t : Tables)
      → Passed c t0 e t
      → Goes d0 (Passed c t0) (due_once c run_at e t)
  due_once-Goes run_at e t p =
      Goes-if d0 (Passed c t0) (ltb c.now run_at) _ (go e t) (λ h. (refl, p.db_eq)) (λ h. p)

  await_at-Goes :
      (run_at : ℕ) (e : ScheduleEntryState) (next : Option ℕ) (t : Tables)
      → Passed c t0 e t
      → Goes d0 (Passed c t0) (await_at c run_at e next t)
  await_at-Goes run_at e (some n) t p = due_once-Goes n e t p
  await_at-Goes run_at e none t p =
      let e' = record e { next_run_at = some run_at } in
      Goes-bind d0 (Passed c t0) (Passed c t0) (save c e' t) (due_once c run_at)
        (save-Goes d0 (Passed c t0) c t e' p.db_eq
          (λ rows. moved c t0 e' t rows (retimed c t0 e t (some run_at) p)))
        (due_once-Goes run_at)

  await_once-Goes :
      (run_at : Option ℕ) (e : ScheduleEntryState) (t : Tables)
      → Passed c t0 e t
      → Goes d0 (Passed c t0) (await_once c run_at e t)
  unfolding await_once
  await_once-Goes none e t p = p
  await_once-Goes (some n) e t p = await_at-Goes n e e.next_run_at t p

  after_cron-Goes :
      (e : ScheduleEntryState) (t : Tables) (d : CronDue)
      → Passed c t0 e t
      → Goes d0 (Passed c t0) (after_cron c e d t)
  unfolding after_cron pause_invalid
  after_cron-Goes e t due_now p = p
  after_cron-Goes e t not_yet p = (refl, p.db_eq)
  after_cron-Goes e t no_time p =
      pause_invalid-Goes d0 (Passed c t0) c e "invalid_schedule_config" t p.db_eq
  after_cron-Goes e t (due_at next) p =
      let e' = record e { next_run_at = some next } in
      Goes-bind d0 (Passed c t0) (Passed c t0) (save c e' t) wait
        (save-Goes d0 (Passed c t0) c t e' p.db_eq
          (λ rows. moved c t0 e' t rows (retimed c t0 e t (some next) p)))
        (λ e'' t' q. (refl, q.db_eq))

  await_cron-Goes :
      (x : CronExpression) (l : Option Location) (e : ScheduleEntryState) (t : Tables)
      → Passed c t0 e t
      → Goes d0 (Passed c t0) (await_cron c x l e t)
  unfolding await_cron pause_invalid
  await_cron-Goes x none e t p =
      pause_invalid-Goes d0 (Passed c t0) c e "invalid_schedule_config" t p.db_eq
  await_cron-Goes x (some l) e t p =
      after_cron-Goes e t (evaluate_cron_due x l c.now e.next_run_at) p

  await_rest-Goes :
      (x : Timing) (e : ScheduleEntryState) (m : Option CronExpression) (t : Tables)
      → Passed c t0 e t
      → Goes d0 (Passed c t0) (await_rest s c x e m t)
  await_rest-Goes x e (some m) t p = await_cron-Goes m (zone s c.schedule) e t p
  await_rest-Goes x e none t p = await_once-Goes x.one_shot e t p

  pub await_form-Goes :
      (x : Timing) (latest : Option CommandResult) (e : ScheduleEntryState) (m : Option ℕ)
      (t : Tables)
      → Passed c t0 e t
      → Goes d0 (Passed c t0) (await_form s c x latest e m t)
  await_form-Goes x latest e (some base) t p = await_every-Goes base latest e t p
  await_form-Goes x latest e none t p = await_rest-Goes x e x.cron t p
