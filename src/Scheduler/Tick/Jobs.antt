-- ===== src/Scheduler/Tick/Jobs.antt =====
-- processSchedule of internal/scheduler/scheduler.go: how many jobs it adds.
use senechal_gw.Prelude.{
  ℕ, suc, ◌≤◌, ◌≡◌, refl, ap, subst, sym, ◌∙◌, inl, inr, String, Bool, true, false, not, ◌&&◌,
  Option, none, some, [], ◌∷◌, arith, length, length-append, if◌then◌else◌,
}
use senechal_gw.Queue.Table.{Db, Error, dedupe_drop, Result, ok, err, Result-cases}
use senechal_gw.Queue.Enqueue.{
  Queue, EnqueueRequest, dedupe, insert_or_ignore, ignored, enqueue, new_job,
}
use senechal_gw.Queue.Entries.{ScheduleEntryState}
use senechal_gw.Cron.{CronExpression}
use senechal_gw.Cron.Next.{Location, next_after}
use senechal_gw.Scheduler.Circuit.Spares.{can_schedule-length}
use senechal_gw.Scheduler.Tick.{
  Scheduler, Tables, Call, Outcome, skipped, enqueued, deduped, stopped, crashed, Step, go, halt,
  ◌>>=◌, command_of,
}
use senechal_gw.Scheduler.Tick.Checks.{Timing}
use senechal_gw.Scheduler.Tick.Due.{zone}
use senechal_gw.Scheduler.Tick.Fire.{
  Enqueued, added, duplicate, failed_enqueue, enqueued_of, enqueue_scheduled_job, job_request,
  dedupe_key_of, dedupe_ttl_of, advance, advance_every, after_cron_form, after_cron_in, after_next,
  after_every, is_some, exhaust, finish, settle, settled, fired, fire, process_steps,
  process_schedule, ended,
}
use senechal_gw.Scheduler.Tick.Stages.{is_fired, Goes, save_or_log-store}
use senechal_gw.Scheduler.Tick.Reaches.{
  AtFire, Passes, to_admission, to_admission-Goes, process_steps-fires,
}

pub enqueue-length :
    (id : String) (q : Queue) (req : EnqueueRequest) (now : ℕ) (db : Db) (i : String) (db' : Db)
    → enqueue id q req now db ≡ ok (i, db')
    → length db'.jobs ≤ suc (length db.jobs)
unfolding enqueue insert_or_ignore ignored
enqueue-length id q req now db i db' h = elim (Result-cases (dedupe req.dedupe_key q req now db)) [
  | inl (e, d) ↦ absurd (ground (arith, d, h))
  | inr (u, d) ↦ ground (arith, d, h, length-append db.jobs (new_job id q req now ∷ []))
]

store-if :
    (b : Bool) (x y t : Tables)
    → x.store ≡ t.store
    → y.store ≡ t.store
    → (if b then x else y).store ≡ t.store
store-if true x y t h k = h
store-if false x y t h k = k

finish-store :
    (c : Call) (x : Timing) (hit : Bool) (e : ScheduleEntryState) (t : Tables)
    → (finish c x hit (e, t)).store ≡ t.store
unfolding finish
finish-store c x hit e t =
    store-if (is_some x.one_shot) _ _ t (save_or_log-store c (exhaust e) t)
      (store-if (is_some x.every && not hit) _ t t (save_or_log-store c e t) refl)

after_every-store :
    (c : Call) (base : ℕ) (hit : Bool) (e : ScheduleEntryState) (t : Tables)
    → ((after_every c base hit e t).1).store ≡ t.store
after_every-store c base true e t = save_or_log-store c (advance_every c base e) t
after_every-store c base false e t = refl

after_next-store :
    (c : Call) (o : Option ℕ) (e : ScheduleEntryState) (t : Tables)
    → ((after_next c o e t).1).store ≡ t.store
after_next-store c none e t = refl
after_next-store c (some n) e t = save_or_log-store c (record e { next_run_at = some n }) t

after_cron_in-store :
    (c : Call) (x : CronExpression) (l : Option Location) (e : ScheduleEntryState) (t : Tables)
    → ((after_cron_in c x l e t).1).store ≡ t.store
after_cron_in-store c x none e t = refl
after_cron_in-store c x (some l) e t = after_next-store c (next_after x l c.now) e t

after_cron_form-store :
    (s : Scheduler) (c : Call) (o : Option CronExpression) (e : ScheduleEntryState) (t : Tables)
    → ((after_cron_form s c o e t).1).store ≡ t.store
after_cron_form-store s c none e t = refl
after_cron_form-store s c (some x) e t = after_cron_in-store c x (zone s c.schedule) e t

advance-store :
    (s : Scheduler) (c : Call) (x : Timing) (o : Option ℕ) (hit : Bool) (e : ScheduleEntryState)
    (t : Tables)
    → ((advance s c x o hit e t).1).store ≡ t.store
advance-store s c x (some base) hit e t = after_every-store c base hit e t
advance-store s c x none hit e t = after_cron_form-store s c x.cron e t

pub settle-store :
    (s : Scheduler) (c : Call) (x : Timing) (hit : Bool) (e : ScheduleEntryState) (t : Tables)
    → (settle s c x hit e t).store ≡ t.store
unfolding settle
settle-store s c x hit e t =
    let after = advance s c x x.every hit (fired c e) t in
    finish-store c x hit after.0 after.1 ∙ advance-store s c x x.every hit (fired c e) t

abbrev pub is_enqueued : Outcome → Bool
is_enqueued enqueued = true
is_enqueued _ = false

-- At most one job more, and as many where none was enqueued.
pub record AddsOne (before : Db) (o : Outcome) (t : Tables) : Type 0 where
  pub bounded : length t.store.db.jobs ≤ suc (length before.jobs)
  pub unchanged : is_enqueued o ≡ false → length t.store.db.jobs ≡ length before.jobs

-- How a part of the call ends: it always halts.
abbrev Adds : Db → Step (Unit {0}) → Type 0
Adds d (go u t) = ⊥
Adds d (halt o t) = AddsOne d o t

settled-Adds :
    (s : Scheduler) (c : Call) (x : Timing) (e : ScheduleEntryState) (t : Tables) (r : Enqueued)
    → ((db : Db) → r ≡ added db → length db.jobs ≤ suc (length t.store.db.jobs))
    → Adds t.store.db (settled s c x e t r)
settled-Adds s c x e t (added db) h =
    let t' = record t { store = record t.store { db = db } } in
    let same = settle-store s c x false e t' in
    record {
      bounded =
          subst (λ st. length st.db.jobs ≤ suc (length t.store.db.jobs)) (sym same) (h db refl);
      unchanged = λ n. cc;
    }
settled-Adds s c x e t duplicate h =
    let same = ap (λ st. length st.db.jobs) (settle-store s c x true e t) in
    record { bounded = omega (arith, same); unchanged = λ n. same }
settled-Adds s c x e t failed_enqueue h = record { bounded = omega arith; unchanged = λ n. refl }

pub enqueued_of-added :
    (r : Result (String × Db)) (db : Db)
    → enqueued_of r ≡ added db
    → (i : String) × (r ≡ ok (i, db))
enqueued_of-added (ok (i, d)) db h = (i, ground (arith, h))
enqueued_of-added (err e) db h = absurd (of_error e h)
  where
    of_error : (e : Error) → enqueued_of (err e) ≡ added db → ⊥
    of_error (dedupe_drop k j) h = cc
    of_error _ h = cc

fire-Adds :
    (s : Scheduler) (c : Call) (e : ScheduleEntryState) (x : Timing) (t : Tables)
    → Adds t.store.db (fire s c (e, x) t)
unfolding fire enqueue_scheduled_job
fire-Adds s c e x t =
    let ttl = dedupe_ttl_of s x.every in
    let req = job_request s c (dedupe_key_of c) ttl in
    settled-Adds s c x e t (enqueue_scheduled_job s c ttl t.store.db) (λ db h.
      let (i, k) = enqueued_of-added (enqueue c.job_id s.queue req c.now t.store.db) db h in
      enqueue-length c.job_id s.queue req c.now t.store.db i db k)

-- The bound for the step after a part that has left as many jobs.
Adds-from :
    (d d' : Db) (m : Step (Unit {0})) → length d'.jobs ≡ length d.jobs → Adds d' m → Adds d m
Adds-from d d' (go u t) h k = k
Adds-from d d' (halt o t) h k = record {
  bounded = subst (λ n. length t.store.db.jobs ≤ suc n) h k.bounded;
  unchanged = λ n. k.unchanged n ∙ h;
}

not_enqueued : (o : Outcome) → is_fired o ≡ false → is_enqueued o ≡ false
not_enqueued enqueued h = cc
not_enqueued deduped h = refl
not_enqueued stopped h = refl
not_enqueued crashed h = refl
not_enqueued (skipped w) h = refl

process_steps-Adds : (s : Scheduler) (c : Call) (t : Tables) → Adds t.store.db (process_steps s c t)
unfolding process_steps
process_steps-Adds s c t = of_step (to_admission s c t) (to_admission-Goes s c t)
  where
    of_step :
        (m : Step (ScheduleEntryState × Timing))
        → Goes t.store.db (AtFire s c t) m
        → Adds t.store.db (m >>= fire s c)
    of_step (halt o t') (q, h) = record {
      bounded = subst (λ d. length d.jobs ≤ suc (length t.store.db.jobs)) (sym h) (omega arith);
      unchanged = λ n. ap (λ d. length d.jobs) h;
    }
    of_step (go (e, x) t') p =
        Adds-from t.store.db t'.store.db (fire s c (e, x) t')
          (can_schedule-length s.service_name c.plugin (command_of c.schedule) c.schedule.if_running
              c.conf c.now p.before.store t'.store p.admits
            ∙ ap (λ d. length d.jobs) p.named.db_eq)
          (fire-Adds s c e x t')

-- One pass over a schedule adds at most one job, and leaves as many as there were unless it says that it
-- enqueued one.
pub process_schedule-AddsOne :
    (s : Scheduler) (c : Call) (t : Tables)
    → AddsOne t.store.db (process_schedule s c t).0 (process_schedule s c t).1
unfolding process_schedule
process_schedule-AddsOne s c t = of_step (process_steps s c t) (process_steps-Adds s c t)
  where
    of_step : (m : Step (Unit {0})) → Adds t.store.db m → AddsOne t.store.db (ended m).0 (ended m).1
    of_step (go u t') h = absurd h
    of_step (halt o t') h = h

-- processSchedule never falls off the end: it ends by one of the outcomes of its parts.
pub process_schedule-fires :
    (s : Scheduler) (c : Call) (t : Tables) (o : Outcome) (t' : Tables)
    → process_schedule s c t ≡ (o, t')
    → is_fired o ≡ true
    → (e : ScheduleEntryState) × (x : Timing) × (t1 : Tables) × Passes s c t e x t1
      × (fire s c (e, x) t1 ≡ halt o t')
unfolding process_schedule
process_schedule-fires s c t o t' h k =
    process_steps-fires s c t o t' (of_step (process_steps s c t) (process_steps-Adds s c t) h) k
  where
    of_step : (m : Step (Unit {0})) → Adds t.store.db m → ended m ≡ (o, t') → m ≡ halt o t'
    of_step (go u t1) a h = absurd a
    of_step (halt q t1) a h = ground (arith, h)
