-- ===== src/Scheduler/CatchUp.antt =====
-- catchUpSchedule of internal/scheduler/scheduler.go with enqueueCatchUpJob. The uuids are an argument,
-- one for each run.
pub mod Slots
use senechal_gw.Prelude.{
  ℕ, zero, suc, ◌+◌, ◌*◌, List, String, Bool, true, false, not, ◌&&◌, ◌||◌, Option, none, some,
  is_empty, trim_space, ltb, leb, ◌==◌, str_eq, if◌then◌else◌,
}
use senechal_gw.Config.{ScheduleConfig}
use senechal_gw.Queue.Table.{Db, Error, Result, ok, err}
use senechal_gw.Queue.Enqueue.{enqueue}
use senechal_gw.Queue.Entries.{ScheduleEntryState, upsert_schedule_entry_state}
use senechal_gw.Scheduler.Recovery.{count_missed_runs}
use senechal_gw.Scheduler.Interval.{Interval, interval, invalid_interval, parse_interval}
use senechal_gw.Scheduler.Tick.{Scheduler, Tables, Call, schedule_id_of, command_of, current_entry}
use senechal_gw.Scheduler.Tick.Fire.{
  Enqueued, added, duplicate, failed_enqueue, enqueued_of, job_request, colon, dedupe_key_of,
}

-- catchUpRunAllMax
abbrev pub catch_up_run_all_max : ℕ
catch_up_run_all_max = 100

-- The error that ends the startup, and the tables.
pub record CaughtUp : Type 0 where
  pub failed : Option Error
  pub tables : Tables

abbrev pub slot_key : Scheduler → Call → ℕ → String
slot_key s c slot = colon (dedupe_key_of c) (colon "catchup" (s.format_rfc3339 slot))

-- enqueueCatchUpJob: an error is logged, and a duplicate is none.
abbrev pub after_enqueue : Db → Enqueued → Db
after_enqueue db (added db') = db'
after_enqueue db _ = db

unfoldable pub enqueue_slot : Scheduler → Call → String → ℕ → ℕ → Db → Db
unfolding enqueue
enqueue_slot s c id base slot db =
    after_enqueue db
      (enqueued_of (enqueue id s.queue (job_request s c (slot_key s c slot) base) c.now db))

-- The loop over the runs, where `slot` is the time of the one before.
unfoldable pub enqueue_slots : Scheduler → Call → (ℕ → String) → ℕ → ℕ → ℕ → Db → Db
unfolding enqueue_slot
enqueue_slots s c ids base slot zero db = db
enqueue_slots s c ids base slot (suc n) db =
    enqueue_slots s c ids base (slot + base) n (enqueue_slot s c (ids n) base (slot + base) db)

abbrev pub first_of : Option ℕ → Option ℕ → Option ℕ
first_of (some a) b = some a
first_of none b = b

abbrev pub runs_of : Bool → ℕ → ℕ
runs_of run_all missed =
    if run_all
    then (if ltb catch_up_run_all_max missed then catch_up_run_all_max else missed)
    else 1

abbrev pub next_or_later : Option ℕ → ℕ → ℕ → Option ℕ
next_or_later none advanced base = some (advanced + base)
next_or_later (some next) advanced base =
    if ltb next advanced then some (advanced + base) else some next

-- The time that counts as the last run after the catch-up.
abbrev pub advanced_to : String → ℕ → ℕ → ℕ → ℕ → ℕ
advanced_to policy last runs base now = if str_eq policy "run_once" then now else last + base * runs

abbrev pub caught_up_entry : ScheduleEntryState → ℕ → ℕ → ScheduleEntryState
caught_up_entry e advanced base = record e {
  last_fired_at = some advanced;
  next_run_at = next_or_later e.next_run_at advanced base;
}

abbrev written : Tables → Result (List ScheduleEntryState) → CaughtUp
written t (err e) = record { failed = some e; tables = t }
written t (ok rows) = record { failed = none; tables = record t { entries = rows } }

abbrev unchanged : Tables → CaughtUp
unchanged t = record { failed = none; tables = t }

-- The runs that were missed since `last`.
unfoldable pub catch_up_since :
    Scheduler → Call → (ℕ → String) → String → ℕ → ScheduleEntryState → Tables → ℕ → CaughtUp
unfolding enqueue_slots count_missed_runs upsert_schedule_entry_state
catch_up_since s c ids policy base e t last =
    let missed = count_missed_runs last c.now base in
    let runs = runs_of (str_eq policy "run_all") missed in
    let db = enqueue_slots s c ids base last runs t.store.db in
    let advanced = advanced_to policy last runs base c.now in
    if 0 == missed
    then unchanged t
    else written (record t { store = record t.store { db = db } })
        (upsert_schedule_entry_state (caught_up_entry e advanced base) c.now t.entries)

abbrev catch_up_from :
    Scheduler → Call → (ℕ → String) → String → ℕ → ScheduleEntryState → Tables → Option ℕ → CaughtUp
catch_up_from s c ids policy base e t none = unchanged t
catch_up_from s c ids policy base e t (some last) = catch_up_since s c ids policy base e t last

abbrev catch_up_entry :
    Scheduler → Call → (ℕ → String) → String → ℕ → Tables → Result ScheduleEntryState → CaughtUp
catch_up_entry s c ids policy base t (err e) = record { failed = some e; tables = t }
catch_up_entry s c ids policy base t (ok e) =
    catch_up_from s c ids policy base e t (first_of e.last_fired_at e.last_success_at)

unfoldable pub catch_up_by : Scheduler → Call → (ℕ → String) → String → Interval → Tables → CaughtUp
unfolding current_entry catch_up_since
catch_up_by s c ids policy invalid_interval t = unchanged t
catch_up_by s c ids policy (interval base) t =
    if str_eq policy "skip"
    then unchanged t
    else catch_up_entry s c ids policy base t
        (current_entry c.plugin (schedule_id_of c.schedule) (command_of c.schedule) t.entries)

abbrev pub catch_up_policy : ScheduleConfig → String
catch_up_policy x = let policy = trim_space x.catch_up in if is_empty policy then "skip" else policy

-- catchUpSchedule
unfoldable pub catch_up_schedule : Scheduler → Call → (ℕ → String) → Tables → CaughtUp
unfolding catch_up_by parse_interval
catch_up_schedule s c ids t =
    if not (is_empty (trim_space c.schedule.cron))
    then unchanged t
    else catch_up_by s c ids (catch_up_policy c.schedule)
        (parse_interval s.durations c.schedule.every) t
