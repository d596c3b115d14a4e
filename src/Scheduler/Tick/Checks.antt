-- ===== src/Scheduler/Tick/Checks.antt =====
-- processSchedule of internal/scheduler/scheduler.go: the checks of the schedule before its due time.
use senechal_gw.Prelude.{
  ℕ, ◌+◌, String, Bool, true, not, Option, none, some, is_empty, trim_space, ltb, str_eq,
  if◌then◌else◌,
}
use senechal_gw.Config.{ScheduleConfig}
use senechal_gw.Cron.{CronExpression}
use senechal_gw.Cron.Parse.{Parse, parsed, invalid, panics, parse_cron}
use senechal_gw.Queue.Table.{Result, ok, err}
use senechal_gw.Queue.Reads.{CommandResult}
use senechal_gw.Queue.Breakers.{Breakers}
use senechal_gw.Queue.Entries.{active, ScheduleEntryState}
use senechal_gw.Scheduler.Circuit.{reconcile_circuit_breaker}
use senechal_gw.Scheduler.Interval.{Interval, interval, invalid_interval, parse_interval}
use senechal_gw.Scheduler.Tick.{
  Scheduler, Tables, Call, stopped, crashed, Step, go, halt, ◌>>=◌, command_of, save, pause_invalid,
  is_paused_invalid,
}

-- The forms of a schedule, each where it has it.
pub record Timing : Type 0 where
  pub every : Option ℕ
  pub cron : Option CronExpression
  pub one_shot : Option ℕ

pub data Timed : Type 0 where
  timed : Timing → Timed
  bad_schedule out_of_slice : Timed

abbrev pub has_text : String → Bool
has_text s = not (is_empty (trim_space s))

abbrev pub with_every : Interval → Option ℕ → Timed
with_every (interval d) one = timed (record { every = some d; cron = none; one_shot = one })
with_every invalid_interval one = bad_schedule

abbrev pub with_cron : Parse CronExpression → Option ℕ → Timed
with_cron (parsed x) one = timed (record { every = none; cron = some x; one_shot = one })
with_cron (invalid e) one = bad_schedule
with_cron panics one = out_of_slice

-- parseScheduleInterval and ParseCron: not both of every and cron.
unfoldable pub recurring : Scheduler → ScheduleConfig → Option ℕ → Timed
unfolding parse_interval parse_cron
recurring s x one =
    if has_text x.every
    then (if has_text x.cron
        then bad_schedule
        else with_every (parse_interval s.durations x.every) one)
    else if has_text x.cron
    then with_cron (parse_cron s.durations.to_lower x.cron) one
    else timed (record { every = none; cron = none; one_shot = one })

abbrev pub at_time : Option ℕ → Timed → (Option ℕ → Timed) → Timed
at_time none bad k = bad
at_time (some t) bad k = k (some t)

abbrev pub bad_after : Timed → Timed
bad_after out_of_slice = out_of_slice
bad_after _ = bad_schedule

-- The parse of the timing of a schedule. An error of the recurring part comes before one of the time.
unfoldable pub timing_of : Scheduler → ScheduleConfig → ℕ → Timed
unfolding recurring
timing_of s x now =
    if has_text x.at
    then at_time (s.parse_rfc3339 x.at) (bad_after (recurring s x none)) (recurring s x)
    else if ltb 0 x.after
    then recurring s x (some (now + x.after))
    else recurring s x none

unfoldable pub read_timing :
    Call → ScheduleEntryState → Timed → Tables → Step (ScheduleEntryState × Timing)
unfolding pause_invalid
read_timing c e bad_schedule t = pause_invalid c e "invalid_schedule_config" t
read_timing c e out_of_slice t = halt crashed t
read_timing c e (timed x) t = go (e, x) t

abbrev pub is_supported : Scheduler → String → String → Bool
is_supported s plugin command = elim s.supports_command [
  | none ↦ true
  | some supports ↦ supports plugin command
]

-- The checks of the command.
unfoldable pub check_command :
    Scheduler → Call → ScheduleEntryState × Timing → Tables → Step (ScheduleEntryState × Timing)
unfolding pause_invalid
check_command s c (e, x) t =
    let command = command_of c.schedule in
    if str_eq command "handle"
    then pause_invalid c e "scheduled_handle_disallowed" t
    else if not (is_supported s c.plugin command)
    then pause_invalid c e "command_not_supported" t
    else go (e, x) t

abbrev pub keep_timing : Timing → ScheduleEntryState → Tables → Step (ScheduleEntryState × Timing)
keep_timing x e t = go (e, x) t

-- activateScheduleEntry
unfoldable pub reactivate :
    Call → ScheduleEntryState × Timing → Tables → Step (ScheduleEntryState × Timing)
unfolding save
reactivate c (e, x) t =
    if is_paused_invalid e.status
    then save c (record e { status = active; reason = none }) t >>= keep_timing x
    else go (e, x) t

abbrev pub reconciled :
    ScheduleEntryState
    → Timing
    → Tables
    → Result (Option CommandResult × Breakers)
    → Step (ScheduleEntryState × Timing × Option CommandResult)
reconciled e x t (err z) = halt stopped t
reconciled e x t (ok (latest, b)) =
    go (e, x, latest) (record t { store = record t.store { breakers = b } })

unfoldable pub reconcile_breaker :
    Scheduler
    → Call
    → ScheduleEntryState × Timing
    → Tables
    → Step (ScheduleEntryState × Timing × Option CommandResult)
unfolding reconcile_circuit_breaker
reconcile_breaker s c (e, x) t =
    reconciled e x t (
      reconcile_circuit_breaker s.service_name c.plugin (command_of c.schedule) c.conf c.now
        t.store)
