-- ===== src/Lib.antt =====
-- The core of ductile, the gateway of this repository: a queue of jobs for plugins over SQLite, a
-- scheduler that fills it, a dispatcher that empties it, and a router that turns the events of the
-- plugins into further jobs. This library models that core and proves what it does.
--
-- The parts, with the files of the repository that they are about:
--   Stamp                   the time columns as the texts that internal/queue/queue.go writes
--   Queue.Table             the tables of internal/storage/schema.sql and the types of internal/queue/types.go
--   Queue.Enqueue           Enqueue: dedupe by key, INSERT OR IGNORE, the conflict of a source event
--   Queue.Dequeue           DequeueEligible and Dequeue
--   Queue.Complete          CompleteWithResult, Complete, UpdateJobForRecovery, CancelOutstandingJobs
--   Queue.Prune             the retention passes
--   Queue.Reads             Depth, Metrics, the counts and lists, LatestCompletedCommandResult
--   Queue.Breakers          the circuit breaker tables
--   Queue.Entries           the schedule entries: GetScheduleEntryState, UpsertScheduleEntryState
--   Config                  the fields of internal/config/types.go that are read
--   Scheduler.Circuit       reconcileCircuitBreaker and canSchedule of internal/scheduler/scheduler.go, and
--                           outstandingForPolicy of internal/scheduler/poll_view.go
--   Scheduler.Recovery      recoverOrphanedJobs and countMissedRuns of internal/scheduler/scheduler.go
--   Scheduler.Interval      ParseInterval of internal/config/loader.go, and the jitter
--   Scheduler.Window        scheduleConstraintsAllowAt of internal/scheduler/scheduler.go
--   Scheduler.Tick          processSchedule of internal/scheduler/scheduler.go, in parts: its types and the
--                           entry, Checks, Due and Fire
--   Scheduler.CatchUp       catchUpSchedule of internal/scheduler/scheduler.go
--   Scheduler.Rounds        tick and runStartupCatchUp of internal/scheduler/scheduler.go
--   Cron                    internal/scheduleexpr/cron.go: Parse, Next
--   Events                  the hub of internal/events/hub.go
--   Dispatch.Retry          internal/dispatch/retry_policy.go
--   Dispatch.Backoff        calculateBackoffDelay of internal/dispatch/dispatcher.go
--   Dispatch.Failure        failOrRetry, completeJob and maybeFireHooks of internal/dispatch/dispatcher.go
--   Dispatch.Output         internal/dispatch/output_limit.go
--   Dispatch.With           internal/dispatch/with.go: the templates that remap a payload
--   Conditions              internal/router/conditions: Eval, Validate, ResolvePath
--   Router                  internal/router/engine.go over the compiled routes of
--                           internal/router/dsl/types.go: the indexes, Next, NextHook, GetEntryDispatches
--   Dsl                     compilePipeline, BuildCompiledRoutes and validatePipelineCalls of
--                           internal/router/dsl/compiler.go: Specs, Builder, Steps, Dag,
--                           Compile, Routes, Calls
--   Auth                    internal/auth/auth.go
--   Baggage                 ApplyClaims of internal/baggage/baggage.go
-- Prelude holds the names that all share, the tests over native numbers, and the lemmas on tables and
-- lists. The modules below a part hold its proofs, and its Examples hold runs and instances.
--
-- How the parts interact: the scheduler asks canSchedule before it enqueues, and recovers orphaned
-- jobs at its start; the compiler makes the routes that the router follows (Dsl.Resolved); the
-- dispatcher claims a job by DequeueEligible and ends it by failOrRetry or completeJob; the router
-- resolves the event of a job to dispatches, and the dispatcher enqueues one job for each with the
-- event as its source; each change is published on the hub.
--
-- How the code is modelled: a table is the list of its rows in the order of rowid, a statement of SQL
-- is a function on the lists, and a transaction answers its result with the tables, or an error that
-- leaves them (Queue.Table.commit). One time stands for the calls of time.Now within an operation, and
-- a uuid is an argument. A count or a duration is a native number, with 0 for 0 and below, except in
-- Dispatch.Backoff, where the 64-bit integers wrap around, and for the timeout of a pipeline in Dsl,
-- which is a ℤ. Failures of SQLite, contexts that are cancelled, and the log are not modelled. A name
-- is written with its part where two parts have it.
--
-- The recursion is structural but for Router.Resolve.resolve_compiled_route, whose fuel bounds the
-- depth of the calls of pipelines by pipelines: Router.Total gives the amount that is enough; and for
-- Dispatch.With.parse_segments, whose fuel is the length of the template and one; for
-- Cron.Parse.mark_from, which takes a value at least in a round, and Cron.Next.search_from, which
-- takes a minute. In Dsl the walk over the calls takes a pipeline in each call, the queue of the graph
-- a node in each round, and the loop for a free name the id of a node, so that one more than there are
-- is enough (Dsl.Calls.Progress, Dsl.Calls.Ending, Dsl.Dag.Ends, Dsl.Ids). The digits of a number are
-- written with the number and one as fuel, which is more than it has digits.
--
-- What is an argument: the locations of Go's time package, time.ParseDuration and the formats of times
-- of the schedules (Cron.Next.Location, Scheduler.Interval.Durations, Scheduler.Tick.Scheduler); the
-- text of a value under the verb %v (Dispatch.With); strings.ToLower and the package regexp
-- (Conditions.Eval.Library); the answer of NextHook and the text of json.Marshal in Dispatch.Failure;
-- what the conversion of a power of two that has no int64 gives (Dispatch.Backoff). Numbers of
-- conditions have a place in the order of the float64 values; NaN is not there.
--
-- Not modelled: the goroutine of the ticks, assignPipelineMaxRouteDepths and the fingerprints of the
-- pipeline compiler, executeJob and routeEvents, the reads ListJobs, ListJobLogs, GetJobTree,
-- GetJobByID and GetJobLineage, plugin state and contexts, relays, webhooks, the HTTP API, the loading
-- of the configuration, and the command line.
pub mod Prelude
pub mod Stamp
pub mod Config
pub mod Queue
pub mod Scheduler
pub mod Events
pub mod Dispatch
pub mod Conditions
pub mod Router
pub mod Auth
pub mod Cron
pub mod Dsl
pub mod Baggage
