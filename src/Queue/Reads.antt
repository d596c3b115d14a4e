-- ===== src/Queue/Reads.antt =====
-- The reads of internal/queue/queue.go: Depth, Metrics, RunningCountsByPlugin, the counts of
-- outstanding jobs, ListSchedulerActivePolls, FindJobsByStatus and LatestCompletedCommandResult.
pub mod Metrics
use senechal_gw.Prelude.{
  ℕ, ◌+◌, String, Bool, true, false, not, ◌&&◌, Option, none, some, List, [], ◌∷◌, map, select,
  count_p, any, is_empty, str_eq, if◌then◌else◌,
}
use senechal_gw.Stamp.{stamp_le}
use senechal_gw.Queue.Table.{
  Job, Db, Status, queued, running, succeeded, failed, timed_out, dead, Result, ok, err, ◌>>=◌,
  ◌>>◌, reject_if, plugin_is_empty, command_is_empty, submitted_by_is_empty, status_eq,
  is_outstanding, is_target,
}
use senechal_gw.Queue.Complete.{is_outstanding_for}

abbrev pub has_status : Status → Job → Bool
has_status s j = status_eq j.status s

-- Depth
unfoldable pub depth : Db → ℕ
depth db = count_p (λ j. is_outstanding j.status) db.jobs

-- next_retry_at > now
abbrev pub is_after : Option ℕ → ℕ → Bool
is_after none now = false
is_after (some t) now = not (stamp_le t now)

unfoldable pub is_delayed : ℕ → Job → Bool
is_delayed now j = status_eq j.status queued && is_after j.next_retry_at now

-- ORDER BY a nullable time, ascending: NULL comes first, and rows that are equal keep their order.
abbrev pub started_le : Option ℕ → Option ℕ → Bool
started_le none b = true
started_le (some a) none = false
started_le (some a) (some b) = stamp_le a b

unfoldable pub insert_by : (Job → Job → Bool) → Job → List Job → List Job
insert_by le x [] = x ∷ []
insert_by le x (y ∷ ys) = let rest = insert_by le x ys in if le x y then x ∷ y ∷ ys else y ∷ rest

unfoldable pub sort_by : (Job → Job → Bool) → List Job → List Job
sort_by le [] = []
sort_by le (x ∷ xs) = insert_by le x (sort_by le xs)

-- GROUP BY plugin with COUNT(*): a lane for each plugin of the rows.
pub record PluginLane : Type 0 where
  pub plugin : String
  pub active_count : ℕ

unfoldable pub add_to_lane : String → List PluginLane → List PluginLane
add_to_lane p [] = record { plugin = p; active_count = 1 } ∷ []
add_to_lane p (l ∷ ls) =
    let rest = add_to_lane p ls in
    if str_eq l.plugin p then record l { active_count = l.active_count + 1 } ∷ ls else l ∷ rest

unfoldable pub lanes : List Job → List PluginLane
lanes [] = []
lanes (j ∷ js) = add_to_lane j.plugin (lanes js)

-- types.go: QueueMetrics
pub record QueueMetrics : Type 0 where
  pub queue_depth : ℕ
  pub running_count : ℕ
  pub delayed_count : ℕ
  pub dead_count : ℕ
  pub active_jobs : List Job
  pub plugin_lanes : List PluginLane

-- Metrics; an active job is given by its row.
unfoldable pub metrics : ℕ → Db → QueueMetrics
metrics now db = record {
  queue_depth = count_p (has_status queued) db.jobs;
  running_count = count_p (has_status running) db.jobs;
  delayed_count = count_p (is_delayed now) db.jobs;
  dead_count = count_p (has_status dead) db.jobs;
  active_jobs =
      sort_by (λ a b. started_le a.started_at b.started_at) (select (has_status running) db.jobs);
  plugin_lanes = lanes (select (has_status running) db.jobs);
}

-- RunningCountsByPlugin: the map, as its value at a plugin; a plugin without running jobs is not in it.
unfoldable pub lane_count : String → List PluginLane → Option ℕ
lane_count p [] = none
lane_count p (l ∷ ls) =
    let rest = lane_count p ls in if str_eq l.plugin p then some l.active_count else rest

unfoldable pub running_counts_by_plugin : Db → String → Option ℕ
running_counts_by_plugin db p = lane_count p (lanes (select (has_status running) db.jobs))

-- CountOutstandingJobs
unfoldable pub count_outstanding_jobs : String → String → Db → Result ℕ
count_outstanding_jobs plugin command db = do
  reject_if (is_empty plugin) plugin_is_empty
  reject_if (is_empty command) command_is_empty
  ok (count_p (is_outstanding_for plugin command) db.jobs)

-- CountOutstandingPollJobs
unfoldable pub count_outstanding_poll_jobs : String → Db → Result ℕ
unfolding count_outstanding_jobs
count_outstanding_poll_jobs plugin db = count_outstanding_jobs plugin "poll" db

unfoldable pub is_submitted_for : String → String → String → Job → Bool
is_submitted_for plugin command submitted_by j =
    is_target plugin command j && str_eq j.submitted_by submitted_by && is_outstanding j.status

-- CountOutstandingJobsBySubmitter
unfoldable pub count_outstanding_jobs_by_submitter : String → String → String → Db → Result ℕ
count_outstanding_jobs_by_submitter plugin command submitted_by db = do
  reject_if (is_empty plugin) plugin_is_empty
  reject_if (is_empty command) command_is_empty
  reject_if (is_empty submitted_by) submitted_by_is_empty
  ok (count_p (is_submitted_for plugin command submitted_by) db.jobs)

unfoldable pub is_active_poll : String → Job → Bool
is_active_poll submitted_by j =
    str_eq j.command "poll" && str_eq j.submitted_by submitted_by && is_outstanding j.status

-- ListSchedulerActivePolls; a poll is given by its row.
unfoldable pub list_scheduler_active_polls : String → Db → Result (List Job)
list_scheduler_active_polls submitted_by db = do
  reject_if (is_empty submitted_by) submitted_by_is_empty
  ok (
      sort_by (λ a b. stamp_le a.created_at b.created_at)
        (select (is_active_poll submitted_by) db.jobs))

-- FindJobsByStatus, which asks for no order: that of the rows
unfoldable pub find_jobs_by_status : Status → Db → List Job
find_jobs_by_status s db = select (has_status s) db.jobs

-- status IN ('succeeded', 'failed', 'timed_out', 'dead')
abbrev pub is_result : Status → Bool
is_result succeeded = true
is_result failed = true
is_result timed_out = true
is_result dead = true
is_result _ = false

abbrev pub is_set : Option ℕ → Bool
is_set none = false
is_set (some t) = true

unfoldable pub is_result_of : String → String → String → Job → Bool
is_result_of plugin command submitted_by j =
    is_target plugin command j
    && str_eq j.submitted_by submitted_by
    && is_set j.completed_at
    && is_result j.status

-- ORDER BY completed_at DESC, rowid DESC LIMIT 1
unfoldable pub last_completed : List Job → Option Job
last_completed [] = none
last_completed (x ∷ xs) = elim (last_completed xs) [
  | none ↦ some x
  | some y ↦ if started_le x.completed_at y.completed_at then some y else some x
]

-- types.go: CommandResult
pub record CommandResult : Type 0 where
  pub job_id : String
  pub status : Status
  pub completed_at : ℕ

abbrev pub time_or : Option ℕ → ℕ
time_or none = 0
time_or (some t) = t

unfoldable pub command_result : Option Job → Option CommandResult
command_result none = none
command_result (some j) =
    some (record { job_id = j.id; status = j.status; completed_at = time_or j.completed_at })

-- LatestCompletedCommandResult
unfoldable pub latest_completed_command_result :
    String → String → String → Db → Result (Option CommandResult)
unfolding command_result
latest_completed_command_result plugin command submitted_by db = do
  reject_if (is_empty plugin) plugin_is_empty
  reject_if (is_empty command) command_is_empty
  reject_if (is_empty submitted_by) submitted_by_is_empty
  ok (command_result (last_completed (select (is_result_of plugin command submitted_by) db.jobs)))
