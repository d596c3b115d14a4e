-- ===== src/Scheduler/Tick/Once.antt =====
-- processSchedule of internal/scheduler/scheduler.go: a schedule that runs once.
use senechal_gw.Prelude.{
  ℕ, ◌≡◌, refl, ap, subst, ◌∙◌, inl, inr, String, Bool, true, false, Option, none, some, List, [],
  ◌∷◌, arith, is_empty, trim_space, eq_iff, Bool-cases, if◌then◌else◌,
}
use senechal_gw.Config.{ScheduleConfig}
use senechal_gw.Cron.{CronExpression}
use senechal_gw.Cron.Next.{Location, next_after}
use senechal_gw.Queue.Entries.{
  ScheduleEntryState, exhausted, is_entry, find_entry, put_entry, get_schedule_entry_state,
}
use senechal_gw.Scheduler.Tick.{
  Scheduler, Tables, Call, Outcome, skipped, Step, halt, schedule_id_of, command_of, save_or_log,
  load_entry, change_command, current_entry,
}
use senechal_gw.Scheduler.Tick.Checks.{Timing}
use senechal_gw.Scheduler.Tick.Due.{zone}
use senechal_gw.Scheduler.Tick.Fire.{
  Enqueued, added, duplicate, failed_enqueue, advance, after_cron_form, after_cron_in, after_next,
  after_every, is_some, exhaust, finish, settle, settled, fired, fire, enqueue_scheduled_job,
  dedupe_ttl_of, checked, process_steps, process_schedule,
}
use senechal_gw.Scheduler.Tick.Shots.{is_one_shot, timing_of-one_shot}
use senechal_gw.Scheduler.Tick.Loads.{current_entry-IsLoaded}
use senechal_gw.Scheduler.Tick.Stages.{is_fired}
use senechal_gw.Scheduler.Tick.Jobs.{process_schedule-fires}

-- A row that was put is the one that is found.
pub find_entry-put_entry :
    (plugin id : String) (e : ScheduleEntryState) (rows : List ScheduleEntryState)
    → e.plugin ≡ plugin
    → e.schedule_id ≡ id
    → find_entry plugin id (put_entry e rows) ≡ some e
unfolding find_entry put_entry is_entry
find_entry-put_entry plugin id e [] p i =
    ground (arith, p, i, eq_iff e.plugin plugin, eq_iff e.schedule_id id)
find_entry-put_entry plugin id e (x ∷ xs) p i = ground (
  arith,
  p,
  i,
  eq_iff e.plugin plugin,
  eq_iff e.schedule_id id,
  find_entry-put_entry plugin id e xs p i,
)

command_of-not_empty : (x : ScheduleConfig) → is_empty (command_of x) ≡ false
command_of-not_empty x = elim (Bool-cases (is_empty (trim_space x.command))) [
  | inl e ↦ rw e refl
  | inr n ↦ rw n n
]

-- The schedule of the call runs once, and has run.
pub record IsSpent (c : Call) (t : Tables) : Type 0 where
  pub entry : ScheduleEntryState
  pub stored : find_entry c.plugin (schedule_id_of c.schedule) t.entries ≡ some entry
  pub command_eq : entry.command ≡ command_of c.schedule
  pub status_eq : entry.status ≡ exhausted

load_entry-spent :
    (c : Call) (t : Tables)
    → is_empty c.plugin ≡ false
    → is_empty (schedule_id_of c.schedule) ≡ false
    → IsSpent c t
    → load_entry c t ≡ halt (skipped "schedule_exhausted") t
unfolding load_entry current_entry get_schedule_entry_state change_command
load_entry-spent c t p i h =
    let command = command_of c.schedule in
    ground (
      arith,
      p,
      i,
      h.stored,
      h.command_eq,
      h.status_eq,
      command_of-not_empty c.schedule,
      eq_iff h.entry.command command,
    )

-- Two entries of the same schedule and command.
record SameNames (e e' : ScheduleEntryState) : Type 0 where
  plugin_eq : e'.plugin ≡ e.plugin
  schedule_id_eq : e'.schedule_id ≡ e.schedule_id
  command_eq : e'.command ≡ e.command

itself : (e : ScheduleEntryState) → SameNames e e
itself e = record { plugin_eq = refl; schedule_id_eq = refl; command_eq = refl }

after_every-names :
    (c : Call) (base : ℕ) (hit : Bool) (e : ScheduleEntryState) (t : Tables)
    → SameNames e (after_every c base hit e t).0
after_every-names c base true e t = record {
  plugin_eq = refl;
  schedule_id_eq = refl;
  command_eq = refl;
}
after_every-names c base false e t = itself e

after_next-names :
    (c : Call) (o : Option ℕ) (e : ScheduleEntryState) (t : Tables)
    → SameNames e (after_next c o e t).0
after_next-names c none e t = itself e
after_next-names c (some n) e t = record {
  plugin_eq = refl;
  schedule_id_eq = refl;
  command_eq = refl;
}

after_cron_in-names :
    (c : Call) (x : CronExpression) (l : Option Location) (e : ScheduleEntryState) (t : Tables)
    → SameNames e (after_cron_in c x l e t).0
after_cron_in-names c x none e t = itself e
after_cron_in-names c x (some l) e t = after_next-names c (next_after x l c.now) e t

after_cron_form-names :
    (s : Scheduler) (c : Call) (o : Option CronExpression) (e : ScheduleEntryState) (t : Tables)
    → SameNames e (after_cron_form s c o e t).0
after_cron_form-names s c none e t = itself e
after_cron_form-names s c (some x) e t = after_cron_in-names c x (zone s c.schedule) e t

advance-names :
    (s : Scheduler) (c : Call) (x : Timing) (o : Option ℕ) (hit : Bool) (e : ScheduleEntryState)
    (t : Tables)
    → SameNames e (advance s c x o hit e t).0
advance-names s c x (some base) hit e t = after_every-names c base hit e t
advance-names s c x none hit e t = after_cron_form-names s c x.cron e t

-- The entry of the schedule of a call.
record IsOfCall (c : Call) (e : ScheduleEntryState) : Type 0 where
  plugin_eq : e.plugin ≡ c.plugin
  schedule_id_eq : e.schedule_id ≡ schedule_id_of c.schedule
  command_eq : e.command ≡ command_of c.schedule

save_or_log-entries :
    (c : Call) (e : ScheduleEntryState) (t : Tables)
    → is_empty e.plugin ≡ false
    → is_empty e.schedule_id ≡ false
    → is_empty e.command ≡ false
    → (save_or_log c e t).entries ≡ put_entry (record e { updated_at = c.now }) t.entries
unfolding save_or_log
save_or_log-entries c e t p i k = ground (arith, p, i, k)

save_or_log-spends :
    (c : Call) (e : ScheduleEntryState) (t : Tables)
    → is_empty c.plugin ≡ false
    → is_empty (schedule_id_of c.schedule) ≡ false
    → IsOfCall c e
    → IsSpent c (save_or_log c (exhaust e) t)
save_or_log-spends c e t p i h =
    let e' = record (exhaust e) { updated_at = c.now } in
    let found =
      find_entry-put_entry c.plugin (schedule_id_of c.schedule) e' t.entries h.plugin_eq
        h.schedule_id_eq in
    record {
      entry = e';
      stored =
          ap (find_entry c.plugin (schedule_id_of c.schedule)) (
            save_or_log-entries c (exhaust e) t (ap is_empty h.plugin_eq ∙ p)
              (ap is_empty h.schedule_id_eq ∙ i)
              (ap is_empty h.command_eq ∙ command_of-not_empty c.schedule))
          ∙ found;
      command_eq = h.command_eq;
      status_eq = refl;
    }

IsSpent-if :
    (c : Call) (b : Bool) (t u : Tables) → b ≡ true → IsSpent c t → IsSpent c (if b then t else u)
IsSpent-if c true t u h k = k
IsSpent-if c false t u h k = absurd (ground (arith, h))

settle-spends :
    (s : Scheduler) (c : Call) (x : Timing) (hit : Bool) (e : ScheduleEntryState) (t : Tables)
    → is_empty c.plugin ≡ false
    → is_empty (schedule_id_of c.schedule) ≡ false
    → IsOfCall c e
    → is_some x.one_shot ≡ true
    → IsSpent c (settle s c x hit e t)
unfolding settle finish
settle-spends s c x hit e t p i h o =
    let after = advance s c x x.every hit (fired c e) t in
    let names = advance-names s c x x.every hit (fired c e) t in
    let spent = save_or_log-spends c after.0 after.1 p i (record {
      plugin_eq = names.plugin_eq ∙ h.plugin_eq;
      schedule_id_eq = names.schedule_id_eq ∙ h.schedule_id_eq;
      command_eq = names.command_eq ∙ h.command_eq;
    }) in
    IsSpent-if c (is_some x.one_shot) _ _ o spent

halted : {o q : Outcome} {t t' : Tables} → ◌≡◌ {A = Step (Unit {0})} (halt o t) (halt q t') → t ≡ t'
halted h = cc

settled-spends :
    (s : Scheduler) (c : Call) (x : Timing) (e : ScheduleEntryState) (t : Tables) (r : Enqueued)
    (o : Outcome) (t' : Tables)
    → is_empty c.plugin ≡ false
    → is_empty (schedule_id_of c.schedule) ≡ false
    → IsOfCall c e
    → is_some x.one_shot ≡ true
    → settled s c x e t r ≡ halt o t'
    → is_fired o ≡ true
    → IsSpent c t'
settled-spends s c x e t (added db) o t' p i h one k f =
    let t1 = record t { store = record t.store { db = db } } in
    subst (IsSpent c) (halted k) (settle-spends s c x false e t1 p i h one)
settled-spends s c x e t duplicate o t' p i h one k f =
    subst (IsSpent c) (halted k) (settle-spends s c x true e t p i h one)
settled-spends s c x e t failed_enqueue o t' p i h one k f = absurd (ground (arith, k, f))

process_steps-spent :
    (s : Scheduler) (c : Call) (t : Tables) (o : Outcome)
    → load_entry c t ≡ halt o t
    → process_schedule s c t ≡ (o, t)
unfolding process_schedule process_steps checked
process_steps-spent s c t o h = rw h refl

-- A later call for the same schedule.
abbrev pub later : Call → ℕ → ℕ → String → Call
later c now draw id = record c { now = now; draw = draw; job_id = id }

-- A schedule with a time or a delay fires at most once: after the call that came to its enqueue, every
-- later call for it is skipped as exhausted and changes nothing.
pub process_schedule-once :
    (s : Scheduler) (c : Call) (t : Tables) (o : Outcome) (t' : Tables) (now draw : ℕ) (id : String)
    → process_schedule s c t ≡ (o, t')
    → is_fired o ≡ true
    → is_one_shot c.schedule ≡ true
    → process_schedule s (later c now draw id) t' ≡ (skipped "schedule_exhausted", t')
unfolding fire
process_schedule-once s c t o t' now draw id h f one =
    let (e, x, t1, p, k) = process_schedule-fires s c t o t' h f in
    let loads = p.suits.ready.runs in
    let l =
      current_entry-IsLoaded c.plugin (schedule_id_of c.schedule) (command_of c.schedule) t.entries
        loads.entry loads.loads in
    let spent =
      settled-spends s c x e t1 (enqueue_scheduled_job s c (dedupe_ttl_of s x.every) t1.store.db) o
        t' l.plugin_ne l.id_ne
        (record {
          plugin_eq = p.named.plugin_eq;
          schedule_id_eq = p.named.schedule_id_eq;
          command_eq = p.named.command_eq;
        })
        (timing_of-one_shot s c.schedule c.now x one p.suits.ready.timing) k f in
    let c' = later c now draw id in
    process_steps-spent s c' t' (skipped "schedule_exhausted") (
      load_entry-spent c' t' l.plugin_ne l.id_ne (record {
        entry = spent.entry;
        stored = spent.stored;
        command_eq = spent.command_eq;
        status_eq = spent.status_eq;
      }))
