-- ===== src/Scheduler/Tick/Stages.antt =====
-- processSchedule of internal/scheduler/scheduler.go: what holds where it comes to the enqueue.
use senechal_gw.Prelude.{
  ◌≡◌, ◌≢◌, refl, ap, ◌∙◌, String, Bool, true, false, some, List, if◌then◌else◌,
}
use senechal_gw.Queue.Table.{Db, Result, ok, err}
use senechal_gw.Queue.Entries.{
  ScheduleEntryState, paused_manual, paused_invalid, exhausted, upsert_schedule_entry_state,
}
use senechal_gw.Scheduler.Tick.{
  Tables, Call, Outcome, enqueued, deduped, Step, go, halt, ◌>>=◌, schedule_id_of, command_of, save,
  saved, current_entry, save_or_log, saved_or, pause_invalid,
}

-- The outcomes of a call that came to the enqueue and had no error of it.
abbrev pub is_fired : Outcome → Bool
is_fired enqueued = true
is_fired deduped = true
is_fired _ = false

-- A step goes on in `P`, and halts before the enqueue with the job tables `d`.
abbrev pub Goes : {A : Type 0} → Db → (A → Tables → Type 0) → Step A → Type 0
Goes d P (go a t) = P a t
Goes d P (halt o t) = (is_fired o ≡ false) × (t.store.db ≡ d)

pub Goes-bind :
    {A B : Type 0} (d : Db) (P : A → Tables → Type 0) (R : B → Tables → Type 0) (m : Step A)
    (f : A → Tables → Step B)
    → Goes d P m
    → ((a : A) (t : Tables) → P a t → Goes d R (f a t))
    → Goes d R (m >>= f)
Goes-bind d P R (go a t) f h k = k a t h
Goes-bind d P R (halt o t) f h k = h

-- The entry `e` and the tables that a part of the call leaves, where it was made at `t`.
pub record Passed (c : Call) (t : Tables) (e : ScheduleEntryState) (t' : Tables) : Type 0 where
  pub plugin_eq : e.plugin ≡ c.plugin
  pub schedule_id_eq : e.schedule_id ≡ schedule_id_of c.schedule
  pub command_eq : e.command ≡ command_of c.schedule
  pub db_eq : t'.store.db ≡ t.store.db

-- The stored entry, or a new one, lets the schedule run.
pub record Runs (c : Call) (t : Tables) : Type 0 where
  pub entry : ScheduleEntryState
  pub loads :
      current_entry c.plugin (schedule_id_of c.schedule) (command_of c.schedule) t.entries
      ≡ ok entry
  pub not_manual : entry.status ≢ paused_manual
  pub not_exhausted : entry.status ≢ exhausted

pub Goes-imply :
    {A : Type 0} (d : Db) (P R : A → Tables → Type 0) (m : Step A)
    → Goes d P m
    → ((a : A) (t : Tables) → P a t → R a t)
    → Goes d R m
Goes-imply d P R (go a t) h k = k a t h
Goes-imply d P R (halt o t) h k = h

pub Goes-if :
    {A : Type 0} (d : Db) (P : A → Tables → Type 0) (b : Bool) (x y : Step A)
    → (b ≡ true → Goes d P x)
    → (b ≡ false → Goes d P y)
    → Goes d P (if b then x else y)
Goes-if d P true x y h k = h refl
Goes-if d P false x y h k = k refl

pub save-Goes :
    (d : Db) (P : ScheduleEntryState → Tables → Type 0) (c : Call) (t : Tables)
    (e : ScheduleEntryState)
    → t.store.db ≡ d
    → ((rows : List ScheduleEntryState) → P e (record t { entries = rows }))
    → Goes d P (save c e t)
unfolding save
save-Goes d P c t e q h = go_on (upsert_schedule_entry_state e c.now t.entries)
  where
    go_on : (r : Result (List ScheduleEntryState)) → Goes d P (saved e t r)
    go_on (err x) = (refl, q)
    go_on (ok rows) = h rows

pub save_or_log-store :
    (c : Call) (e : ScheduleEntryState) (t : Tables) → (save_or_log c e t).store ≡ t.store
unfolding save_or_log
save_or_log-store c e t = of_result (upsert_schedule_entry_state e c.now t.entries)
  where
    of_result : (r : Result (List ScheduleEntryState)) → (saved_or t r).store ≡ t.store
    of_result (err x) = refl
    of_result (ok rows) = refl

pub pause_invalid-Goes :
    {A : Type 0} (d : Db) (P : A → Tables → Type 0) (c : Call) (e : ScheduleEntryState)
    (why : String) (t : Tables)
    → t.store.db ≡ d
    → Goes d P (pause_invalid c e why t)
unfolding pause_invalid
pause_invalid-Goes d P c e why t h = (
  refl,
  ap (λ s. s.db) (save_or_log-store c (record e { status = paused_invalid; reason = some why }) t)
      ∙ h,
)
