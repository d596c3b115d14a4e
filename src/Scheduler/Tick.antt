-- ===== src/Scheduler/Tick.antt =====
-- processSchedule of internal/scheduler/scheduler.go with what it calls: its types and the entry of the
-- schedule. The checks of the schedule are in Checks, its due time in Due, and the enqueue and the whole
-- in Fire. What the call publishes last is its outcome. The clock, the random number of the jitter and
-- the uuid are arguments, and one time stands for the calls of time.Now; the fields of the event not_due
-- are left out.
pub mod Checks
pub mod Due
pub mod Fire
pub mod Stages
pub mod Loads
pub mod Waits
pub mod Reaches
pub mod Jobs
pub mod Shots
pub mod Once
use senechal_gw.Prelude.{
  ℕ, zero, suc, ◌+◌, ◌-◌, ◌/◌, ◌*◌, String, Bool, true, false, not, ◌&&◌, ◌||◌, Option, none, some,
  List, [], ◌∷◌, is_empty, trim_space, str_append, ltb, leb, ◌==◌, str_eq, if◌then◌else◌,
}
use senechal_gw.Config.{
  PluginConf, ScheduleConfig, RetryConfig, Plugin, or_text, normalized_schedules,
}
use senechal_gw.Cron.{CronExpression}
use senechal_gw.Cron.Parse.{Parse, parsed, invalid, panics, parse_cron}
use senechal_gw.Cron.Next.{Location, minute_length, matches_at, next_after}
use senechal_gw.Queue.Table.{Db, Result, ok, err, Error, dedupe_drop, Status, succeeded, status_eq}
use senechal_gw.Queue.Enqueue.{Queue, EnqueueRequest, enqueue}
use senechal_gw.Queue.Reads.{CommandResult}
use senechal_gw.Queue.Breakers.{Breakers}
use senechal_gw.Queue.Entries.{
  ScheduleEntryStatus, active, paused_manual, paused_invalid, exhausted, ScheduleEntryState,
  get_schedule_entry_state, upsert_schedule_entry_state,
}
use senechal_gw.Scheduler.Circuit.{
  Store, Verdict, allowed, refused, failed_with, invalid_if_running, reconcile_circuit_breaker,
  can_schedule,
}
use senechal_gw.Scheduler.Interval.{
  Durations, Interval, interval, invalid_interval, parse_interval, calculate_jittered_interval,
}
use senechal_gw.Scheduler.Window.{
  Constraint, allows, forbids, malformed, zone_of, schedule_constraints_allow_at,
}

-- Scheduler, with the functions of Go's library that it uses.
pub record Scheduler : Type 0 where
  pub service_name : String
  pub tick_interval : ℕ
  pub queue : Queue
  pub supports_command : Option (String → String → Bool)
  pub durations : Durations
  pub load_location : String → Option Location
  pub local : Location
  pub utc : Location
  pub parse_rfc3339 : String → Option ℕ
  pub format_rfc3339 : ℕ → String

-- The part of the database that a tick uses.
pub record Tables : Type 0 where
  pub store : Store
  pub entries : List ScheduleEntryState

-- What one call is made with.
pub record Call : Type 0 where
  pub plugin : String
  pub conf : PluginConf
  pub schedule : ScheduleConfig
  pub now : ℕ
  pub draw : ℕ
  pub job_id : String

-- How processSchedule ends: with the event scheduler.skipped and its reason, after the enqueue, after an
-- error that is logged, or with an index out of range.
pub data Outcome : Type 0 where
  skipped : String → Outcome
  enqueued deduped stopped crashed : Outcome

-- A part of processSchedule: it goes on with a value, or the call returns.
pub data Step (A : Type 0) : Type 0 where
  go : A → Tables → Step A
  halt : Outcome → Tables → Step A

infixl 20 ◌>>=◌
abbrev pub ◌>>=◌ : {A B : Type 0} → Step A → (A → Tables → Step B) → Step B
go a t >>= f = f a t
halt o t >>= f = halt o t

abbrev pub schedule_id_of : ScheduleConfig → String
schedule_id_of s = let id = trim_space s.id in if is_empty id then "default" else id

abbrev pub command_of : ScheduleConfig → String
command_of s = let command = trim_space s.command in if is_empty command then "poll" else command

abbrev pub new_entry : String → String → String → ScheduleEntryState
new_entry plugin schedule_id command = record {
  plugin = plugin;
  schedule_id = schedule_id;
  command = command;
  status = active;
  reason = none;
  last_fired_at = none;
  last_success_job_id = none;
  last_success_at = none;
  next_run_at = none;
  updated_at = 0;
}

abbrev pub entry_or_new : String → String → String → Option ScheduleEntryState → ScheduleEntryState
entry_or_new plugin schedule_id command none = new_entry plugin schedule_id command
entry_or_new plugin schedule_id command (some e) =
    if is_empty e.command then record e { command = command } else e

abbrev pub found_entry :
    String → String → String → Result (Option ScheduleEntryState) → Result ScheduleEntryState
found_entry plugin schedule_id command (err e) = err e
found_entry plugin schedule_id command (ok found) =
    ok (entry_or_new plugin schedule_id command found)

-- currentScheduleEntryState
unfoldable pub current_entry :
    String → String → String → List ScheduleEntryState → Result ScheduleEntryState
unfolding get_schedule_entry_state
current_entry plugin schedule_id command rows =
    found_entry plugin schedule_id command (get_schedule_entry_state plugin schedule_id rows)

abbrev pub saved_or : Tables → Result (List ScheduleEntryState) → Tables
saved_or t (err e) = t
saved_or t (ok rows) = record t { entries = rows }

-- A write whose error is logged.
unfoldable pub save_or_log : Call → ScheduleEntryState → Tables → Tables
unfolding upsert_schedule_entry_state
save_or_log c e t = saved_or t (upsert_schedule_entry_state e c.now t.entries)

abbrev pub saved :
    ScheduleEntryState → Tables → Result (List ScheduleEntryState) → Step ScheduleEntryState
saved e t (err x) = halt stopped t
saved e t (ok rows) = go e (record t { entries = rows })

-- A write whose error is logged and ends the call.
unfoldable pub save : Call → ScheduleEntryState → Tables → Step ScheduleEntryState
unfolding upsert_schedule_entry_state
save c e t = saved e t (upsert_schedule_entry_state e c.now t.entries)

abbrev pub loaded : Tables → Result ScheduleEntryState → Step ScheduleEntryState
loaded t (err e) = halt stopped t
loaded t (ok e) = go e t

abbrev pub is_paused_invalid : ScheduleEntryStatus → Bool
is_paused_invalid paused_invalid = true
is_paused_invalid _ = false

-- The entry after a change of the command of its schedule.
abbrev pub renamed : String → ScheduleEntryState → ScheduleEntryState
renamed command e =
    let e' = record e {
      command = command;
      last_success_job_id = none;
      last_success_at = none;
      next_run_at = none;
    } in
    if is_paused_invalid e.status then record e' { status = active; reason = none } else e'

unfoldable pub change_command : Call → ScheduleEntryState → Tables → Step ScheduleEntryState
unfolding save
change_command c e t =
    let command = command_of c.schedule in
    if str_eq e.command command then go e t else save c (renamed command e) t

abbrev pub status_step : ScheduleEntryStatus → ScheduleEntryState → Tables → Step ScheduleEntryState
status_step paused_manual e t = halt (skipped "schedule_paused_manual") t
status_step exhausted e t = halt (skipped "schedule_exhausted") t
status_step _ e t = go e t

abbrev pub check_status : ScheduleEntryState → Tables → Step ScheduleEntryState
check_status e t = status_step e.status e t

-- The entry of the schedule, as far as the test of its status.
unfoldable pub load_entry : Call → Tables → Step ScheduleEntryState
unfolding current_entry change_command
load_entry c t =
    loaded t (current_entry c.plugin (schedule_id_of c.schedule) (command_of c.schedule) t.entries)
    >>= change_command c
    >>= check_status

-- pauseScheduleInvalid, whose error is logged, and the event.
unfoldable pub pause_invalid : {A : Type 0} → Call → ScheduleEntryState → String → Tables → Step A
unfolding save_or_log
pause_invalid c e reason t =
    halt (skipped reason)
      (save_or_log c (record e { status = paused_invalid; reason = some reason }) t)
