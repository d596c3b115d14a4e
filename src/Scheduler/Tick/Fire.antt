-- ===== src/Scheduler/Tick/Fire.antt =====
-- processSchedule of internal/scheduler/scheduler.go: the last checks, the enqueue, and the whole.
use senechal_gw.Prelude.{
  ℕ, ◌+◌, String, Bool, true, false, not, ◌&&◌, Option, none, some, str_append, if◌then◌else◌,
}
use senechal_gw.Config.{RetryConfig}
use senechal_gw.Cron.{CronExpression}
use senechal_gw.Cron.Next.{Location, next_after}
use senechal_gw.Queue.Table.{Db, Result, ok, err, dedupe_drop}
use senechal_gw.Queue.Enqueue.{EnqueueRequest, enqueue}
use senechal_gw.Queue.Reads.{CommandResult}
use senechal_gw.Queue.Entries.{exhausted, ScheduleEntryState}
use senechal_gw.Scheduler.Circuit.{
  Store, Verdict, allowed, refused, failed_with, invalid_if_running, can_schedule,
}
use senechal_gw.Scheduler.Interval.{calculate_jittered_interval}
use senechal_gw.Scheduler.Window.{
  Constraint, allows, forbids, malformed, schedule_constraints_allow_at,
}
use senechal_gw.Scheduler.Tick.{
  Scheduler, Tables, Call, Outcome, skipped, enqueued, deduped, stopped, Step, go, halt, ◌>>=◌,
  schedule_id_of, command_of, save_or_log, load_entry,
}
use senechal_gw.Scheduler.Tick.Checks.{
  Timing, timing_of, read_timing, check_command, reactivate, reconcile_breaker,
}
use senechal_gw.Scheduler.Tick.Due.{zone, await_due}

abbrev pub constrained :
    ScheduleEntryState × Timing → Tables → Constraint → Step (ScheduleEntryState × Timing)
constrained ex t allows = go ex t
constrained ex t (forbids reason) = halt (skipped reason) t
constrained ex t malformed = halt stopped t

-- scheduleConstraintsAllowAt, as processSchedule goes on from it.
unfoldable pub check_constraints :
    Scheduler → Call → ScheduleEntryState × Timing → Tables → Step (ScheduleEntryState × Timing)
unfolding schedule_constraints_allow_at
check_constraints s c ex t =
    constrained ex t
      (schedule_constraints_allow_at s.durations.to_lower s.load_location s.utc c.schedule c.now)

abbrev pub admitted :
    ScheduleEntryState × Timing → Tables → Verdict × Store → Step (ScheduleEntryState × Timing)
admitted ex t (allowed, st) = go ex (record t { store = st })
admitted ex t (refused reason, st) = halt (skipped reason) (record t { store = st })
admitted ex t (failed_with e, st) = halt stopped (record t { store = st })
admitted ex t (invalid_if_running p, st) = halt stopped (record t { store = st })

-- canSchedule, as processSchedule goes on from it.
unfoldable pub check_admission :
    Scheduler → Call → ScheduleEntryState × Timing → Tables → Step (ScheduleEntryState × Timing)
unfolding can_schedule
check_admission s c ex t = admitted ex t (
    can_schedule s.service_name c.plugin (command_of c.schedule) c.schedule.if_running c.conf c.now
      t.store)

abbrev pub max_attempts_of : Option RetryConfig → ℕ
max_attempts_of none = 0
max_attempts_of (some r) = r.max_attempts

abbrev pub payload_of : Option String → String
payload_of none = "{}"
payload_of (some p) = p

abbrev pub job_request : Scheduler → Call → String → ℕ → EnqueueRequest
job_request s c key ttl = record {
  plugin = c.plugin;
  command = command_of c.schedule;
  payload = payload_of c.schedule.payload;
  max_attempts = max_attempts_of c.conf.retry;
  submitted_by = s.service_name;
  dedupe_key = some key;
  dedupe_ttl = some ttl;
  parent_job_id = none;
  event_context_id = none;
  source_event_id = none;
  enqueued_config_snapshot_id = "";
}

abbrev pub colon : String → String → String
colon s t = str_append s (str_append ":" t)

abbrev pub dedupe_key_of : Call → String
dedupe_key_of c = colon c.plugin (colon (command_of c.schedule) (schedule_id_of c.schedule))

-- The answer of enqueueScheduledJob: whether the job was dropped as a duplicate, or an error.
pub data Enqueued : Type 0 where
  added : Db → Enqueued
  duplicate failed_enqueue : Enqueued

abbrev pub enqueued_of : Result (String × Db) → Enqueued
enqueued_of (ok (id, db)) = added db
enqueued_of (err (dedupe_drop key id)) = duplicate
enqueued_of (err _) = failed_enqueue

-- enqueueScheduledJob
unfoldable pub enqueue_scheduled_job : Scheduler → Call → ℕ → Db → Enqueued
unfolding enqueue
enqueue_scheduled_job s c ttl db =
    enqueued_of (enqueue c.job_id s.queue (job_request s c (dedupe_key_of c) ttl) c.now db)

abbrev pub dedupe_ttl_of : Scheduler → Option ℕ → ℕ
dedupe_ttl_of s none = s.tick_interval
dedupe_ttl_of s (some base) = base

abbrev pub fired : Call → ScheduleEntryState → ScheduleEntryState
fired c e = record e { last_fired_at = some c.now }

abbrev pub exhaust : ScheduleEntryState → ScheduleEntryState
exhaust e = record e { status = exhausted; reason = some "one_shot_exhausted"; next_run_at = none }

-- advanceScheduleNextRun
abbrev pub advance_every : Call → ℕ → ScheduleEntryState → ScheduleEntryState
advance_every c base e = record e {
  next_run_at = some (c.now + calculate_jittered_interval base c.schedule.jitter c.draw);
}

-- What the calls after the enqueue of a schedule with an interval save.
abbrev pub after_every : Call → ℕ → Bool → ScheduleEntryState → Tables → ScheduleEntryState × Tables
after_every c base hit e t =
    let e' = advance_every c base e in if hit then (e', save_or_log c e' t) else (e, t)

abbrev pub after_next : Call → Option ℕ → ScheduleEntryState → Tables → ScheduleEntryState × Tables
after_next c none e t = (e, t)
after_next c (some next) e t =
    let e' = record e { next_run_at = some next } in (e', save_or_log c e' t)

-- advanceCronNextRun, where the location can be loaded
abbrev pub after_cron_in :
    Call
    → CronExpression
    → Option Location
    → ScheduleEntryState
    → Tables
    → ScheduleEntryState × Tables
after_cron_in c x none e t = (e, t)
after_cron_in c x (some l) e t = after_next c (next_after x l c.now) e t

abbrev pub after_cron_form :
    Scheduler
    → Call
    → Option CronExpression
    → ScheduleEntryState
    → Tables
    → ScheduleEntryState × Tables
after_cron_form s c none e t = (e, t)
after_cron_form s c (some x) e t = after_cron_in c x (zone s c.schedule) e t

abbrev pub advance :
    Scheduler
    → Call
    → Timing
    → Option ℕ
    → Bool
    → ScheduleEntryState
    → Tables
    → ScheduleEntryState × Tables
advance s c x (some base) hit e t = after_every c base hit e t
advance s c x none hit e t = after_cron_form s c x.cron e t

abbrev pub is_some : Option ℕ → Bool
is_some none = false
is_some (some n) = true

-- The last writes: a schedule that runs once is exhausted.
unfoldable pub finish : Call → Timing → Bool → ScheduleEntryState × Tables → Tables
unfolding save_or_log
finish c x hit (e, t) =
    if is_some x.one_shot
    then save_or_log c (exhaust e) t
    else if is_some x.every && not hit
    then save_or_log c e t
    else t

-- What follows an enqueue without an error.
unfoldable pub settle : Scheduler → Call → Timing → Bool → ScheduleEntryState → Tables → Tables
unfolding finish save_or_log
settle s c x hit e t = finish c x hit (advance s c x x.every hit (fired c e) t)

abbrev pub settled :
    Scheduler → Call → Timing → ScheduleEntryState → Tables → Enqueued → Step (Unit {0})
settled s c x e t (added db) =
    halt enqueued (settle s c x false e (record t { store = record t.store { db = db } }))
settled s c x e t duplicate = halt deduped (settle s c x true e t)
settled s c x e t failed_enqueue = halt stopped t

-- The enqueue and what follows it.
unfoldable pub fire : Scheduler → Call → ScheduleEntryState × Timing → Tables → Step (Unit {0})
unfolding settle enqueue_scheduled_job
fire s c (e, x) t =
    settled s c x e t (enqueue_scheduled_job s c (dedupe_ttl_of s x.every) t.store.db)

abbrev pub read_entry :
    Scheduler → Call → ScheduleEntryState → Tables → Step (ScheduleEntryState × Timing)
read_entry s c e t = read_timing c e (timing_of s c.schedule c.now) t

-- processSchedule, as far as its due time.
unfoldable pub checked :
    Scheduler → Call → Tables → Step (ScheduleEntryState × Timing × Option CommandResult)
unfolding load_entry read_timing timing_of check_command reactivate reconcile_breaker
checked s c t =
    load_entry c t
    >>= read_entry s c
    >>= check_command s c
    >>= reactivate c
    >>= reconcile_breaker s c

unfoldable pub process_steps : Scheduler → Call → Tables → Step (Unit {0})
unfolding checked await_due check_constraints check_admission fire
process_steps s c t =
    checked s c t >>= await_due s c >>= check_constraints s c >>= check_admission s c >>= fire s c

abbrev pub ended : Step (Unit {0}) → Outcome × Tables
ended (go u t) = (stopped, t)
ended (halt o t) = (o, t)

-- processSchedule. `fire` always halts.
unfoldable pub process_schedule : Scheduler → Call → Tables → Outcome × Tables
unfolding process_steps
process_schedule s c t = ended (process_steps s c t)
