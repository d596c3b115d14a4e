-- ===== src/Scheduler/Rounds.antt =====
-- tick and runStartupCatchUp of internal/scheduler/scheduler.go: a round over the schedules of all plugins,
-- which are listed in the order of their names. A place in the round has its random number and its uuids.
pub mod Bounds
mod Examples
use senechal_gw.Prelude.{
  ℕ, zero, suc, ◌+◌, String, Bool, true, false, Option, none, some, List, [], ◌∷◌, ◌++◌, map,
  if◌then◌else◌,
}
use senechal_gw.Config.{ScheduleConfig, Plugin, PluginConf, normalized_schedules}
use senechal_gw.Queue.Table.{Error}
use senechal_gw.Queue.Prune.{
  prune_job_logs, prune_job_queue, prune_job_transitions, prune_job_attempts,
  prune_breaker_transitions,
}
use senechal_gw.Scheduler.Tick.{Scheduler, Tables, Call, Outcome, crashed}
use senechal_gw.Scheduler.Tick.Fire.{process_schedule}
use senechal_gw.Scheduler.CatchUp.{CaughtUp, catch_up_schedule}

-- The retentions of ServiceConfig; 0 stands for 0 and below.
pub record Retentions : Type 0 where
  pub job_log : ℕ
  pub job_queue : ℕ
  pub job_transitions : ℕ
  pub job_attempts : ℕ
  pub breaker_transitions : ℕ

-- A schedule of a plugin.
pub record Planned : Type 0 where
  pub plugin : String
  pub conf : PluginConf
  pub schedule : ScheduleConfig

unfoldable pub planned : List Plugin → List Planned
unfolding normalized_schedules
planned [] = []
planned (p ∷ ps) =
    let rest = planned ps in
    if p.enabled
    then map (λ x. record { plugin = p.name; conf = p.conf; schedule = x }) (normalized_schedules p)
      ++ rest
    else rest

-- What the clock, the random numbers and the uuids of a round are.
pub record Round : Type 0 where
  pub now : ℕ
  pub draw : ℕ → ℕ
  pub id : ℕ → ℕ → String

abbrev pub call_at : Round → ℕ → Planned → Call
call_at r n p = record {
  plugin = p.plugin;
  conf = p.conf;
  schedule = p.schedule;
  now = r.now;
  draw = r.draw n;
  job_id = r.id n 0;
}

abbrev pub unless_crashed : Outcome → Tables → Outcome × Tables → Outcome × Tables
unless_crashed crashed t rest = (crashed, t)
unless_crashed o t rest = rest

-- The loop over the schedules; after an index out of range there is no more.
unfoldable pub process_all : Scheduler → Round → ℕ → List Planned → Tables → Outcome × Tables
unfolding process_schedule
process_all s r n [] t = (Outcome.stopped, t)
process_all s r n (p ∷ ps) t =
    let (o, t') = process_schedule s (call_at r n p) t in
    unless_crashed o t' (process_all s r (suc n) ps t')

unfoldable pub prune_all : Retentions → ℕ → Tables → Tables
unfolding prune_job_logs prune_job_queue prune_job_transitions prune_job_attempts
    prune_breaker_transitions
prune_all k now t =
    let db = prune_job_attempts k.job_attempts now (
      prune_job_transitions k.job_transitions now
        (prune_job_queue k.job_queue now (prune_job_logs k.job_log now t.store.db))) in
    record t {
      store = record {
        db = db;
        breakers = prune_breaker_transitions k.breaker_transitions now t.store.breakers;
      };
    }

abbrev pruned : Retentions → ℕ → Outcome × Tables → Outcome × Tables
pruned k now (crashed, t) = (crashed, t)
pruned k now (o, t) = (o, prune_all k now t)

-- tick
unfoldable pub tick : Scheduler → Retentions → Round → List Plugin → Tables → Outcome × Tables
unfolding process_all planned prune_all
tick s k r plugins t = pruned k r.now (process_all s r 0 (planned plugins) t)

abbrev pub unless_failed : Option Error → CaughtUp → CaughtUp → CaughtUp
unless_failed (some e) done rest = done
unless_failed none done rest = rest

unfoldable pub catch_up_all : Scheduler → Round → ℕ → List Planned → Tables → CaughtUp
unfolding catch_up_schedule
catch_up_all s r n [] t = record { failed = none; tables = t }
catch_up_all s r n (p ∷ ps) t =
    let done = catch_up_schedule s (call_at r n p) (r.id n) t in
    unless_failed done.failed done (catch_up_all s r (suc n) ps done.tables)

-- runStartupCatchUp
unfoldable pub run_startup_catch_up : Scheduler → Round → List Plugin → Tables → CaughtUp
unfolding catch_up_all planned
run_startup_catch_up s r plugins t = catch_up_all s r 0 (planned plugins) t
