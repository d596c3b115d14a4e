-- ===== src/Scheduler/Rounds/Bounds.antt =====
-- tick and runStartupCatchUp of internal/scheduler/scheduler.go: how many jobs a round adds.
use senechal_gw.Prelude.{
  ℕ, suc, ◌+◌, ◌*◌, ◌-◌, ◌≤◌, Bool, true, false, not, Option, none, some, List, [], ◌∷◌, arith,
  length, select, ◌==◌, if◌then◌else◌,
}
use senechal_gw.Config.{Plugin}
use senechal_gw.Queue.Table.{Db, Error}
use senechal_gw.Queue.Prune.{
  prune_job_logs, prune_job_queue, prune_job_transitions, prune_job_attempts, is_expired,
}
use senechal_gw.Scheduler.Tick.{
  Scheduler, Tables, Outcome, skipped, enqueued, deduped, stopped, crashed,
}
use senechal_gw.Scheduler.Tick.Fire.{process_schedule}
use senechal_gw.Scheduler.Tick.Jobs.{process_schedule-AddsOne}
use senechal_gw.Scheduler.CatchUp.{catch_up_run_all_max, CaughtUp, catch_up_schedule}
use senechal_gw.Scheduler.CatchUp.Slots.{catch_up_schedule-le}
use senechal_gw.Scheduler.Rounds.{
  Retentions, Planned, planned, Round, call_at, unless_crashed, unless_failed, process_all,
  prune_all, pruned, tick, catch_up_all, run_startup_catch_up,
}

abbrev jobs_of : Tables → ℕ
jobs_of t = length t.store.db.jobs

process_all-le :
    (s : Scheduler) (r : Round) (n : ℕ) (ps : List Planned) (t : Tables)
    → jobs_of (process_all s r n ps t).1 ≤ length ps + jobs_of t
unfolding process_all
process_all-le s r n [] t = omega arith
process_all-le s r n (p ∷ ps) t =
    let c = call_at r n p in
    let t' = (process_schedule s c t).1 in
    of_outcome (process_schedule s c t).0 t' (process_all s r (suc n) ps t')
      (omega (arith, (process_schedule-AddsOne s c t).bounded))
      (omega (arith, (process_schedule-AddsOne s c t).bounded, process_all-le s r (suc n) ps t'))
  where
    of_outcome :
        (o : Outcome) (t' : Tables) (rest : Outcome × Tables) {m : ℕ}
        → jobs_of t' ≤ m
        → jobs_of rest.1 ≤ m
        → jobs_of (unless_crashed o t' rest).1 ≤ m
    of_outcome crashed t' rest h k = h
    of_outcome (skipped w) t' rest h k = k
    of_outcome enqueued t' rest h k = k
    of_outcome deduped t' rest h k = k
    of_outcome stopped t' rest h k = k

length-select : {A : Type 0} (p : A → Bool) (xs : List A) → length (select p xs) ≤ length xs
unfolding select
length-select p [] = omega arith
length-select p (x ∷ xs) = ground (arith, length-select p xs)

abbrev Fewer : Db → Db → Type 0
Fewer d d' = length d'.jobs ≤ length d.jobs

logs-Fewer : (k now : ℕ) (d : Db) → Fewer d (prune_job_logs k now d)
unfolding prune_job_logs
logs-Fewer k now d = ground arith

queue-Fewer : (k now : ℕ) (d : Db) → Fewer d (prune_job_queue k now d)
unfolding prune_job_queue
queue-Fewer k now d = of_test (0 == k)
  where
    of_test :
        (b : Bool)
        → Fewer d
            (if b then d else record d { jobs = select (λ j. not (is_expired (now - k) j)) d.jobs })
    of_test true = omega arith
    of_test false = length-select (λ j. not (is_expired (now - k) j)) d.jobs

transitions-Fewer : (k now : ℕ) (d : Db) → Fewer d (prune_job_transitions k now d)
unfolding prune_job_transitions
transitions-Fewer k now d = ground arith

attempts-Fewer : (k now : ℕ) (d : Db) → Fewer d (prune_job_attempts k now d)
unfolding prune_job_attempts
attempts-Fewer k now d = ground arith

prune_all-le : (k : Retentions) (now : ℕ) (t : Tables) → jobs_of (prune_all k now t) ≤ jobs_of t
unfolding prune_all
prune_all-le k now t =
    let d1 = prune_job_logs k.job_log now t.store.db in
    let d2 = prune_job_queue k.job_queue now d1 in
    let d3 = prune_job_transitions k.job_transitions now d2 in
    omega (
      arith,
      logs-Fewer k.job_log now t.store.db,
      queue-Fewer k.job_queue now d1,
      transitions-Fewer k.job_transitions now d2,
      attempts-Fewer k.job_attempts now d3,
    )

pruned-le :
    (k : Retentions) (now : ℕ) (z : Outcome × Tables) → jobs_of (pruned k now z).1 ≤ jobs_of z.1
pruned-le k now (crashed, t) = omega arith
pruned-le k now (skipped w, t) = prune_all-le k now t
pruned-le k now (enqueued, t) = prune_all-le k now t
pruned-le k now (deduped, t) = prune_all-le k now t
pruned-le k now (stopped, t) = prune_all-le k now t

-- A tick adds at most one job for each schedule of the plugins that are enabled.
pub tick-le :
    (s : Scheduler) (k : Retentions) (r : Round) (plugins : List Plugin) (t : Tables)
    → length (tick s k r plugins t).1.store.db.jobs
      ≤ length (planned plugins) + length t.store.db.jobs
unfolding tick
tick-le s k r plugins t = omega (
  arith,
  pruned-le k r.now (process_all s r 0 (planned plugins) t),
  process_all-le s r 0 (planned plugins) t,
)

catch_up_all-le :
    (s : Scheduler) (r : Round) (n : ℕ) (ps : List Planned) (t : Tables)
    → jobs_of (catch_up_all s r n ps t).tables ≤ catch_up_run_all_max * length ps + jobs_of t
unfolding catch_up_all
catch_up_all-le s r n [] t = omega arith
catch_up_all-le s r n (p ∷ ps) t =
    let c = call_at r n p in
    let done = catch_up_schedule s c (r.id n) t in
    of_failure done.failed done (catch_up_all s r (suc n) ps done.tables)
      (omega (arith, catch_up_schedule-le s c (r.id n) t))
      (omega
        (arith, catch_up_schedule-le s c (r.id n) t, catch_up_all-le s r (suc n) ps done.tables))
  where
    of_failure :
        (o : Option Error) (done rest : CaughtUp) {m : ℕ}
        → jobs_of done.tables ≤ m
        → jobs_of rest.tables ≤ m
        → jobs_of (unless_failed o done rest).tables ≤ m
    of_failure (some e) done rest h k = h
    of_failure none done rest h k = k

-- The catch-up at the start adds at most a hundred jobs for each schedule of the plugins that are enabled.
pub run_startup_catch_up-le :
    (s : Scheduler) (r : Round) (plugins : List Plugin) (t : Tables)
    → length (run_startup_catch_up s r plugins t).tables.store.db.jobs
      ≤ catch_up_run_all_max * length (planned plugins) + length t.store.db.jobs
unfolding run_startup_catch_up
run_startup_catch_up-le s r plugins t = catch_up_all-le s r 0 (planned plugins) t
