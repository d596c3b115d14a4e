-- ===== src/Scheduler/Rounds/Examples.antt =====
-- Runs of the scheduler's rounds and instances of their theorems.
use senechal_gw.Prelude.{
  if◌then◌else◌, ℕ, ◌+◌, ◌/◌, ◌%◌, ◌-◌, ◌==◌, ltb, ◌≤◌, ◌≡◌, refl, ap, any, count_p, arith, true,
  none, some, List, [], ◌∷◌, length, decimal, trim_space, select, str_append,
}
use senechal_gw.Config.{PluginConf, ScheduleConfig, Plugin}
use senechal_gw.Cron.Next.{Location, minute_length}
use senechal_gw.Queue.Table.{empty}
use senechal_gw.Queue.Enqueue.{
  find_outstanding, newest, find_recent_succeeded, latest_completed, is_ignored,
}
use senechal_gw.Queue.Reads.{
  latest_completed_command_result, last_completed, count_outstanding_jobs_by_submitter,
}
use senechal_gw.Queue.Breakers.{get_circuit_breaker, find_breaker}
use senechal_gw.Scheduler.Circuit.{current_circuit_breaker, apply_policy, outstanding_for_policy}
use senechal_gw.Queue.Entries.{ScheduleEntryState, find_entry}
use senechal_gw.Scheduler.Window.{malformed, allows, forbids, check_minutes, check_minutes-cyclic}
use senechal_gw.Scheduler.Tick.{Scheduler, Tables, Call, skipped, enqueued, halt, new_entry}
use senechal_gw.Scheduler.Tick.Checks.{Timing}
use senechal_gw.Scheduler.Tick.Fire.{fire, process_schedule}
use senechal_gw.Scheduler.Tick.Reaches.{Passes}
use senechal_gw.Scheduler.Tick.Jobs.{process_schedule-fires}
use senechal_gw.Scheduler.Tick.Once.{later, process_schedule-once}
use senechal_gw.Scheduler.Recovery.{count_missed_runs}
use senechal_gw.Scheduler.CatchUp.{catch_up_since}
use senechal_gw.Scheduler.CatchUp.Slots.{IsAdvanced, catch_up_since-IsAdvanced}
use senechal_gw.Scheduler.Rounds.{Retentions, Round, planned, tick}
use senechal_gw.Scheduler.Rounds.Bounds.{tick-le}

abbrev utc : Location
utc = record {
  clock = λ m. record { minute = m % 60; hour = m / 60 % 24; day = 1; month = 1; weekday = 0 };
  five_years_after = λ m. m + 2628000;
}

abbrev scheduler : Scheduler
scheduler = record {
  service_name = "ductile";
  tick_interval = minute_length;
  queue = record { dedupe_ttl = 0; config_snapshot_id_provider = none };
  supports_command = none;
  durations = record {
    to_lower = λ s. s;
    parse_duration = λ s. some minute_length;
    scaled = λ s d. some d;
  };
  load_location = λ s. none;
  local = utc;
  utc = utc;
  parse_rfc3339 = λ s. some 7;
  format_rfc3339 = decimal;
}

abbrev conf : PluginConf
conf = record {
  circuit_breaker = none;
  max_outstanding_polls = 1;
  retry = none;
  timeouts = none;
  notify_on_complete = none;
}

abbrev once : ScheduleConfig
once = record {
  id = "";
  every = "";
  cron = "";
  at = "noon";
  after = 0;
  jitter = 0;
  catch_up = "";
  if_running = "";
  only_between = "";
  timezone = "";
  not_on = [];
  command = "";
  payload = none;
}

abbrev hourly : ScheduleConfig
hourly = record once { every = "hourly"; at = ""; catch_up = "run_all" }

abbrev call : ScheduleConfig → ℕ → Call
call x now = record {
  plugin = "mail";
  conf = conf;
  schedule = x;
  now = now;
  draw = 0;
  job_id = "j1";
}

abbrev blank : Tables
blank = record {
  store = record { db = empty; breakers = record { rows = []; transitions = [] } };
  entries = [];
}

abbrev after_once : Tables
after_once = (process_schedule scheduler (call once 10) blank).1

once_outcome : (process_schedule scheduler (call once 10) blank).0 ≡ enqueued
unfolding process_schedule trim_space find_entry current_circuit_breaker get_circuit_breaker
    latest_completed_command_result last_completed select find_breaker apply_policy
    outstanding_for_policy count_outstanding_jobs_by_submitter count_p str_append find_outstanding
    newest find_recent_succeeded latest_completed is_ignored any
once_outcome = refl

once_run : process_schedule scheduler (call once 10) blank ≡ (enqueued, after_once)
once_run = ap (λ o. (o, after_once)) once_outcome

process_schedule-once_example :
    process_schedule scheduler (later (call once 10) 20 0 "j2") after_once
    ≡ (skipped "schedule_exhausted", after_once)
unfolding trim_space
process_schedule-once_example =
    process_schedule-once scheduler (call once 10) blank enqueued after_once 20 0 "j2" once_run refl
      refl

process_schedule-fires_example :
    (e : ScheduleEntryState) × (x : Timing) × (t1 : Tables) × Passes scheduler
      (call once 10)
      blank
      e
      x
      t1
    × (fire scheduler (call once 10) (e, x) t1 ≡ halt enqueued after_once)
process_schedule-fires_example =
    process_schedule-fires scheduler (call once 10) blank enqueued after_once once_run refl

early_run : (process_schedule scheduler (call once 3) blank).0 ≡ skipped "not_due"
unfolding process_schedule trim_space find_entry current_circuit_breaker get_circuit_breaker
    latest_completed_command_result last_completed select
early_run = refl

abbrev keep_all : Retentions
keep_all = record {
  job_log = 0;
  job_queue = 0;
  job_transitions = 0;
  job_attempts = 0;
  breaker_transitions = 0;
}

abbrev round : Round
round = record { now = 10; draw = λ n. 0; id = λ n k. decimal n }

abbrev plugins : List Plugin
plugins = record { name = "mail"; enabled = true; conf = conf; schedules = once ∷ hourly ∷ [] } ∷ []

tick-le_example :
    length (tick scheduler keep_all round plugins blank).1.store.db.jobs
    ≤ length (planned plugins) + length blank.store.db.jobs
tick-le_example = tick-le scheduler keep_all round plugins blank

abbrev fired_at : ℕ → ScheduleEntryState
fired_at last = record (new_entry "mail" "default" "poll") { last_fired_at = some last }

missed_run : count_missed_runs 0 100 30 ≡ 3
unfolding count_missed_runs
missed_run = refl

saved_run :
    (catch_up_since scheduler
      (call hourly 100)
      (λ n. decimal n)
      "run_all"
      30
      (fired_at 0)
      blank
      0).failed
    ≡ none
unfolding catch_up_since
saved_run = refl

catch_up_since-IsAdvanced_example :
    (e : ScheduleEntryState) × (find_entry "mail" "default"
        (catch_up_since scheduler
          (call hourly 100)
          (λ n. decimal n)
          "run_all"
          30
          (fired_at 0)
          blank
          0).tables.entries
      ≡ some e)
    × IsAdvanced 0 100 e
catch_up_since-IsAdvanced_example =
    catch_up_since-IsAdvanced scheduler (call hourly 100) (λ n. decimal n) "run_all" 30 (fired_at 0)
      blank 0 (omega arith) (omega (arith, missed_run)) saved_run

check_minutes-cyclic_example : check_minutes 1320 360 30 ≡ (
    if 1320 == 360
    then malformed
    else if ltb ((30 + 1440 - 1320) % 1440) ((360 + 1440 - 1320) % 1440)
    then allows
    else forbids "outside_time_window")
check_minutes-cyclic_example =
    check_minutes-cyclic 1320 360 30 (omega arith) (omega arith) (omega arith)
