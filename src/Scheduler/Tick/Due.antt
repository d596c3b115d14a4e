-- ===== src/Scheduler/Tick/Due.antt =====
-- processSchedule of internal/scheduler/scheduler.go: whether a schedule is due.
use senechal_gw.Prelude.{
  ℕ, ◌+◌, ◌-◌, ◌/◌, ◌*◌, String, Bool, false, not, ◌&&◌, Option, none, some, ltb, str_eq,
  if◌then◌else◌,
}
use senechal_gw.Config.{ScheduleConfig}
use senechal_gw.Cron.{CronExpression}
use senechal_gw.Cron.Next.{Location, minute_length, matches_at, next_after}
use senechal_gw.Queue.Table.{succeeded, status_eq}
use senechal_gw.Queue.Reads.{CommandResult}
use senechal_gw.Queue.Entries.{ScheduleEntryState}
use senechal_gw.Scheduler.Interval.{calculate_jittered_interval}
use senechal_gw.Scheduler.Window.{zone_of}
use senechal_gw.Scheduler.Tick.{
  Scheduler, Tables, Call, skipped, Step, go, halt, ◌>>=◌, save, pause_invalid,
}
use senechal_gw.Scheduler.Tick.Checks.{Timing}

abbrev pub zone : Scheduler → ScheduleConfig → Option Location
zone s x = zone_of s.load_location s.local x.timezone

abbrev pub is_new_success : Option String → CommandResult → Bool
is_new_success none r = status_eq r.status succeeded
is_new_success (some id) r = status_eq r.status succeeded && not (str_eq id r.job_id)

-- reconcileScheduleTiming: none where nothing changes.
unfoldable pub reconcile_timing :
    Call → ℕ → Option CommandResult → ScheduleEntryState → Option ScheduleEntryState
unfolding calculate_jittered_interval
reconcile_timing c base none e = none
reconcile_timing c base (some r) e =
    if is_new_success e.last_success_job_id r
    then some (record e {
      last_success_job_id = some r.job_id;
      last_success_at = some r.completed_at;
      next_run_at =
          some (r.completed_at + calculate_jittered_interval base c.schedule.jitter c.draw);
    })
    else none

abbrev pub save_change :
    Call → Option ScheduleEntryState → ScheduleEntryState → Tables → Step ScheduleEntryState
save_change c none e t = go e t
save_change c (some e') e t = save c e' t

abbrev pub is_before : ℕ → Option ℕ → Bool
is_before now none = false
is_before now (some t) = ltb now t

abbrev pub due_every : Call → ScheduleEntryState → Tables → Step ScheduleEntryState
due_every c e t = if is_before c.now e.next_run_at then halt (skipped "not_due") t else go e t

-- The branch of an interval.
unfoldable pub await_every :
    Call → ℕ → Option CommandResult → ScheduleEntryState → Tables → Step ScheduleEntryState
unfolding reconcile_timing save
await_every c base latest e t = save_change c (reconcile_timing c base latest e) e t >>= due_every c

-- evaluateCronDueState: due, due at a later time that is saved, not yet due, or an error.
pub data CronDue : Type 0 where
  due_now not_yet no_time : CronDue
  due_at : ℕ → CronDue

abbrev pub due_or_none : Option ℕ → CronDue
due_or_none none = no_time
due_or_none (some t) = due_at t

unfoldable pub evaluate_cron_due : CronExpression → Location → ℕ → Option ℕ → CronDue
unfolding next_after
evaluate_cron_due x l now none =
    let slot = now / minute_length in
    if matches_at x l slot
    then due_now
    else due_or_none (next_after x l ((slot - 1) * minute_length))
evaluate_cron_due x l now (some next) =
    if ltb (now / minute_length) (next / minute_length) then not_yet else due_now

abbrev pub wait : ScheduleEntryState → Tables → Step ScheduleEntryState
wait e t = halt (skipped "not_due") t

unfoldable pub after_cron : Call → ScheduleEntryState → CronDue → Tables → Step ScheduleEntryState
unfolding pause_invalid save
after_cron c e due_now t = go e t
after_cron c e not_yet t = halt (skipped "not_due") t
after_cron c e no_time t = pause_invalid c e "invalid_schedule_config" t
after_cron c e (due_at next) t = save c (record e { next_run_at = some next }) t >>= wait

-- The branch of a cron expression.
unfoldable pub await_cron :
    Call → CronExpression → Option Location → ScheduleEntryState → Tables → Step ScheduleEntryState
unfolding pause_invalid after_cron evaluate_cron_due
await_cron c x none e t = pause_invalid c e "invalid_schedule_config" t
await_cron c x (some l) e t = after_cron c e (evaluate_cron_due x l c.now e.next_run_at) t

abbrev pub due_once : Call → ℕ → ScheduleEntryState → Tables → Step ScheduleEntryState
due_once c run_at e t = if ltb c.now run_at then halt (skipped "not_due") t else go e t

abbrev pub await_at : Call → ℕ → ScheduleEntryState → Option ℕ → Tables → Step ScheduleEntryState
await_at c run_at e (some next) t = due_once c next e t
await_at c run_at e none t = save c (record e { next_run_at = some run_at }) t >>= due_once c run_at

-- The branch of a schedule that runs once: the time that was saved first counts.
unfoldable pub await_once : Call → Option ℕ → ScheduleEntryState → Tables → Step ScheduleEntryState
unfolding save
await_once c none e t = go e t
await_once c (some run_at) e t = await_at c run_at e e.next_run_at t

abbrev pub await_rest :
    Scheduler
    → Call
    → Timing
    → ScheduleEntryState
    → Option CronExpression
    → Tables
    → Step ScheduleEntryState
await_rest s c x e (some cron) t = await_cron c cron (zone s c.schedule) e t
await_rest s c x e none t = await_once c x.one_shot e t

abbrev pub await_form :
    Scheduler
    → Call
    → Timing
    → Option CommandResult
    → ScheduleEntryState
    → Option ℕ
    → Tables
    → Step ScheduleEntryState
await_form s c x latest e (some base) t = await_every c base latest e t
await_form s c x latest e none t = await_rest s c x e x.cron t

abbrev pub with_timing : Timing → ScheduleEntryState → Tables → Step (ScheduleEntryState × Timing)
with_timing x e t = go (e, x) t

-- Whether the schedule is due.
unfoldable pub await_due :
    Scheduler
    → Call
    → ScheduleEntryState × Timing × Option CommandResult
    → Tables
    → Step (ScheduleEntryState × Timing)
unfolding await_every await_cron await_once
await_due s c (e, x, latest) t = await_form s c x latest e x.every t >>= with_timing x
