-- ===== src/Scheduler/CatchUp/Slots.antt =====
-- catchUpSchedule of internal/scheduler/scheduler.go: how many jobs it adds and where the entry stands.
use senechal_gw.Prelude.{
  ℕ, zero, suc, ◌+◌, ◌*◌, ◌≤◌, ◌<◌, ◌≡◌, refl, ap, subst, sym, ◌∙◌, inl, inr, String, Bool, true,
  false, not, Option, none, some, List, arith, length, is_empty, trim_space, ltb, ◌==◌, str_eq,
  Bool-cases, if◌then◌else◌,
}
use senechal_gw.Queue.Table.{Db, Result, ok, err}
use senechal_gw.Queue.Enqueue.{EnqueueRequest, enqueue}
use senechal_gw.Queue.Entries.{
  ScheduleEntryState, find_entry, put_entry, upsert_schedule_entry_state,
}
use senechal_gw.Scheduler.Recovery.{count_missed_runs}
use senechal_gw.Scheduler.Recovery.Missed.{count_missed_runs-counts}
use senechal_gw.Scheduler.Interval.{Interval, interval, invalid_interval, parse_interval}
use senechal_gw.Scheduler.Tick.{Scheduler, Tables, Call, schedule_id_of, command_of, current_entry}
use senechal_gw.Scheduler.Tick.Fire.{enqueued_of, job_request, added}
use senechal_gw.Scheduler.Tick.Jobs.{enqueue-length, enqueued_of-added}
use senechal_gw.Scheduler.Tick.Once.{find_entry-put_entry}
use senechal_gw.Scheduler.CatchUp.{
  catch_up_run_all_max, CaughtUp, slot_key, after_enqueue, enqueue_slot, enqueue_slots, first_of,
  runs_of, advanced_to, next_or_later, caught_up_entry, written, unchanged, catch_up_since,
  catch_up_from, catch_up_entry, catch_up_by, catch_up_policy, catch_up_schedule, Enqueued,
  duplicate, failed_enqueue,
}

enqueue_slot-length :
    (s : Scheduler) (c : Call) (id : String) (base slot : ℕ) (db : Db)
    → length (enqueue_slot s c id base slot db).jobs ≤ suc (length db.jobs)
unfolding enqueue_slot
enqueue_slot-length s c id base slot db =
    of_answer (enqueued_of (enqueue id s.queue req c.now db)) (λ db' h.
      let (i, k) = enqueued_of-added (enqueue id s.queue req c.now db) db' h in
      enqueue-length id s.queue req c.now db i db' k)
  where
    req : EnqueueRequest
    req = job_request s c (slot_key s c slot) base

    of_answer :
        (r : Enqueued)
        → ((db' : Db) → r ≡ added db' → length db'.jobs ≤ suc (length db.jobs))
        → length (after_enqueue db r).jobs ≤ suc (length db.jobs)
    of_answer (added db') h = h db' refl
    of_answer duplicate h = omega arith
    of_answer failed_enqueue h = omega arith

enqueue_slots-length :
    (s : Scheduler) (c : Call) (ids : ℕ → String) (base slot n : ℕ) (db : Db)
    → length (enqueue_slots s c ids base slot n db).jobs ≤ n + length db.jobs
unfolding enqueue_slots
enqueue_slots-length s c ids base slot zero db = omega arith
enqueue_slots-length s c ids base slot (suc n) db = omega (
  arith,
  enqueue_slot-length s c (ids n) base (slot + base) db,
  enqueue_slots-length s c ids base (slot + base) n
      (enqueue_slot s c (ids n) base (slot + base) db),
)

runs_of-le : (all : Bool) (missed : ℕ) → runs_of all missed ≤ catch_up_run_all_max
runs_of-le true missed = ground arith
runs_of-le false missed = omega arith

-- At most as many jobs more as a catch-up may run.
abbrev Adds : Tables → CaughtUp → Type 0
Adds t r = length r.tables.store.db.jobs ≤ catch_up_run_all_max + length t.store.db.jobs

unchanged-Adds : (t : Tables) → Adds t (unchanged t)
unchanged-Adds t = omega arith

Adds-if :
    (t : Tables) (b : Bool) (x y : CaughtUp) → Adds t x → Adds t y → Adds t (if b then x else y)
Adds-if t true x y h k = h
Adds-if t false x y h k = k

written-db :
    (t : Tables) (r : Result (List ScheduleEntryState)) → (written t r).tables.store ≡ t.store
written-db t (err e) = refl
written-db t (ok rows) = refl

catch_up_since-Adds :
    (s : Scheduler) (c : Call) (ids : ℕ → String) (policy : String) (base : ℕ)
    (e : ScheduleEntryState) (t : Tables) (last : ℕ)
    → Adds t (catch_up_since s c ids policy base e t last)
unfolding catch_up_since
catch_up_since-Adds s c ids policy base e t last =
    let missed = count_missed_runs last c.now base in
    let runs = runs_of (str_eq policy "run_all") missed in
    let db = enqueue_slots s c ids base last runs t.store.db in
    let advanced = advanced_to policy last runs base c.now in
    let t' = record t { store = record t.store { db = db } } in
    let saved = upsert_schedule_entry_state (caught_up_entry e advanced base) c.now t.entries in
    Adds-if t (0 == missed) _ _ (unchanged-Adds t) (
      omega (
        arith,
        ap (λ st. length st.db.jobs) (written-db t' saved),
        enqueue_slots-length s c ids base last runs t.store.db,
        runs_of-le (str_eq policy "run_all") missed,
      ))

catch_up_from-Adds :
    (s : Scheduler) (c : Call) (ids : ℕ → String) (policy : String) (base : ℕ)
    (e : ScheduleEntryState) (t : Tables) (o : Option ℕ)
    → Adds t (catch_up_from s c ids policy base e t o)
catch_up_from-Adds s c ids policy base e t none = unchanged-Adds t
catch_up_from-Adds s c ids policy base e t (some last) =
    catch_up_since-Adds s c ids policy base e t last

catch_up_entry-Adds :
    (s : Scheduler) (c : Call) (ids : ℕ → String) (policy : String) (base : ℕ) (t : Tables)
    (r : Result ScheduleEntryState)
    → Adds t (catch_up_entry s c ids policy base t r)
catch_up_entry-Adds s c ids policy base t (err e) = omega arith
catch_up_entry-Adds s c ids policy base t (ok e) =
    catch_up_from-Adds s c ids policy base e t (first_of e.last_fired_at e.last_success_at)

catch_up_by-Adds :
    (s : Scheduler) (c : Call) (ids : ℕ → String) (policy : String) (i : Interval) (t : Tables)
    → Adds t (catch_up_by s c ids policy i t)
unfolding catch_up_by
catch_up_by-Adds s c ids policy invalid_interval t = unchanged-Adds t
catch_up_by-Adds s c ids policy (interval base) t =
    Adds-if t (str_eq policy "skip") _ _ (unchanged-Adds t) (
      catch_up_entry-Adds s c ids policy base t
        (current_entry c.plugin (schedule_id_of c.schedule) (command_of c.schedule) t.entries))

-- The catch-up of a schedule adds at most a hundred jobs, however many runs were missed.
pub catch_up_schedule-le :
    (s : Scheduler) (c : Call) (ids : ℕ → String) (t : Tables)
    → length (catch_up_schedule s c ids t).tables.store.db.jobs
      ≤ catch_up_run_all_max + length t.store.db.jobs
unfolding catch_up_schedule
catch_up_schedule-le s c ids t =
    Adds-if t (not (is_empty (trim_space c.schedule.cron))) _ _ (unchanged-Adds t) (
      catch_up_by-Adds s c ids (catch_up_policy c.schedule)
        (parse_interval s.durations c.schedule.every) t)

-- The entry after a catch-up: the last run moved forward and not past the present, and the next run does
-- not come before it.
pub record IsAdvanced (last now : ℕ) (e : ScheduleEntryState) : Type 0 where
  pub fired : ℕ
  pub next : ℕ
  pub fired_eq : e.last_fired_at ≡ some fired
  pub next_eq : e.next_run_at ≡ some next
  pub forward : last < fired
  pub not_ahead : fired ≤ now
  pub ordered : fired ≤ next

next_or_later-le :
    (o : Option ℕ) (advanced base : ℕ)
    → (n : ℕ) × (next_or_later o advanced base ≡ some n) × (advanced ≤ n)
next_or_later-le none advanced base = (advanced + base, refl, omega arith)
next_or_later-le (some n) advanced base = elim (Bool-cases (ltb n advanced)) [
  | inl t ↦ (advanced + base, ground (arith, t), omega arith)
  | inr f ↦ (n, ground (arith, f), ground (arith, f))
]

runs_of-missed :
    (all : Bool) (missed : ℕ)
    → 0 < missed
    → (0 < runs_of all missed) × (runs_of all missed ≤ missed)
runs_of-missed true missed h = ground (arith, h)
runs_of-missed false missed h = omega (arith, h)

pick-between :
    (b : Bool) (last now a : ℕ)
    → (last < now) × (last < a) × (a ≤ now)
    → (last < (if b then now else a)) × ((if b then now else a) ≤ now)
pick-between true last now a (x, y, z) = (x, omega arith)
pick-between false last now a (x, y, z) = (y, z)

times-swap : (base runs : ℕ) → 0 < base → 0 < runs → (base * runs ≡ runs * base) × (0 < base * runs)
times-swap base runs h k = (grind arith, grind arith)

advanced_to-between :
    (policy : String) (last now base : ℕ)
    → 0 < base
    → 0 < count_missed_runs last now base
    → (last
        < advanced_to policy last
            (runs_of (str_eq policy "run_all") (count_missed_runs last now base))
            base
            now)
      × (advanced_to policy last
            (runs_of (str_eq policy "run_all") (count_missed_runs last now base))
            base
            now
          ≤ now)
advanced_to-between policy last now base b m =
    let missed = count_missed_runs last now base in
    let runs = runs_of (str_eq policy "run_all") missed in
    let (some_run, enough) = runs_of-missed (str_eq policy "run_all") missed m in
    let due = (count_missed_runs-counts last now base runs b some_run).0 enough in
    let (same, moves) = times-swap base runs b some_run in
    pick-between (str_eq policy "run_once") last now (last + base * runs)
      (omega (arith, due, same, moves), omega (arith, moves), omega (arith, due, same))

caught_up_entry-IsAdvanced :
    (e : ScheduleEntryState) (last now advanced base : ℕ)
    → last < advanced
    → advanced ≤ now
    → IsAdvanced last now (caught_up_entry e advanced base)
caught_up_entry-IsAdvanced e last now advanced base h k =
    let (n, next, after) = next_or_later-le e.next_run_at advanced base in
    record {
      fired = advanced;
      next = n;
      fired_eq = refl;
      next_eq = next;
      forward = h;
      not_ahead = k;
      ordered = after;
    }

upsert-stored :
    (e : ScheduleEntryState) (now : ℕ) (rows rows' : List ScheduleEntryState)
    → upsert_schedule_entry_state e now rows ≡ ok rows'
    → find_entry e.plugin e.schedule_id rows' ≡ some (record e { updated_at = now })
unfolding upsert_schedule_entry_state
upsert-stored e now rows rows' h =
    let put : put_entry (record e { updated_at = now }) rows ≡ rows' = ground (arith, h) in
    subst (λ r. find_entry e.plugin e.schedule_id r ≡ some (record e { updated_at = now })) put
      (find_entry-put_entry e.plugin e.schedule_id (record e { updated_at = now }) rows refl refl)

written-stored :
    (t : Tables) (e : ScheduleEntryState) (now : ℕ) (r : Result (List ScheduleEntryState))
    → upsert_schedule_entry_state e now t.entries ≡ r
    → (written t r).failed ≡ none
    → find_entry e.plugin e.schedule_id (written t r).tables.entries
      ≡ some (record e { updated_at = now })
written-stored t e now (err x) h f = absurd (ground (arith, f))
written-stored t e now (ok rows) h f = upsert-stored e now t.entries rows h

if-false : (b : Bool) (x y : CaughtUp) → b ≡ false → (if b then x else y) ≡ y
if-false true x y h = absurd (ground (arith, h))
if-false false x y h = refl

-- A catch-up of missed runs that does not fail leaves an entry whose last run has moved forward, but not
-- past the present, and whose next run is not before its last.
pub catch_up_since-IsAdvanced :
    (s : Scheduler) (c : Call) (ids : ℕ → String) (policy : String) (base : ℕ)
    (e : ScheduleEntryState) (t : Tables) (last : ℕ)
    → 0 < base
    → 0 < count_missed_runs last c.now base
    → (catch_up_since s c ids policy base e t last).failed ≡ none
    → (e' : ScheduleEntryState) × (find_entry e.plugin e.schedule_id
          (catch_up_since s c ids policy base e t last).tables.entries
        ≡ some e')
      × IsAdvanced last c.now e'
unfolding catch_up_since
catch_up_since-IsAdvanced s c ids policy base e t last b m f =
    let missed = count_missed_runs last c.now base in
    let runs = runs_of (str_eq policy "run_all") missed in
    let db = enqueue_slots s c ids base last runs t.store.db in
    let advanced = advanced_to policy last runs base c.now in
    let e' = caught_up_entry e advanced base in
    let t' = record t { store = record t.store { db = db } } in
    let (forward, not_ahead) = advanced_to-between policy last c.now base b m in
    let some_missed : (0 == missed) ≡ false = ground (arith, m) in
    let saved = upsert_schedule_entry_state e' c.now t.entries in
    let ends : catch_up_since s c ids policy base e t last ≡ written t' saved =
      if-false (0 == missed) (unchanged t) (written t' saved) some_missed in
    let stored = written-stored t' e' c.now saved refl (sym (ap (λ r. r.failed) ends) ∙ f) in
    let is = caught_up_entry-IsAdvanced e last c.now advanced base forward not_ahead in
    (
      record e' { updated_at = c.now },
      ap (λ r. find_entry e.plugin e.schedule_id r.tables.entries) ends ∙ stored,
      record {
        fired = is.fired;
        next = is.next;
        fired_eq = is.fired_eq;
        next_eq = is.next_eq;
        forward = is.forward;
        not_ahead = is.not_ahead;
        ordered = is.ordered;
      },
    )
