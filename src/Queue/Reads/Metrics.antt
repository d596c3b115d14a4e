-- ===== src/Queue/Reads/Metrics.antt =====
-- How the counts of Depth, Metrics and RunningCountsByPlugin hang together.
use senechal_gw.Prelude.{
  ℕ, ◌+◌, ◌≤◌, String, ◌≡◌, refl, sym, ◌∙◌, Option, none, some, List, [], ◌∷◌, arith, select,
  count_p, length, str_eq, eq_iff, if◌then◌else◌, count_p-select,
}
use senechal_gw.Queue.Table.{Job, Db, queued, running, is_outstanding}
use senechal_gw.Queue.Reads.{
  PluginLane, has_status, depth, is_delayed, add_to_lane, lanes, lane_count, metrics,
  running_counts_by_plugin,
}

outstanding_split :
    (js : List Job)
    → count_p (λ j. is_outstanding j.status) js
      ≡ count_p (has_status queued) js + count_p (has_status running) js
unfolding count_p
outstanding_split [] = omega arith
outstanding_split (j ∷ js) = ground (arith, outstanding_split js)

delayed-le :
    (now : ℕ) (js : List Job) → count_p (is_delayed now) js ≤ count_p (has_status queued) js
unfolding count_p is_delayed
delayed-le now [] = omega arith
delayed-le now (j ∷ js) = ground (arith, delayed-le now js)

abbrev pub total : List PluginLane → ℕ
total [] = 0
total (l ∷ ls) = l.active_count + total ls

total-add_to_lane : (p : String) (ls : List PluginLane) → total (add_to_lane p ls) ≡ total ls + 1
unfolding add_to_lane
total-add_to_lane p [] = refl
total-add_to_lane p (l ∷ ls) = ground (arith, total-add_to_lane p ls)

total-lanes : (js : List Job) → total (lanes js) ≡ length js
unfolding lanes
total-lanes [] = refl
total-lanes (j ∷ js) = ground (arith, total-add_to_lane j.plugin (lanes js), total-lanes js)

-- A lane's count, 0 where there is no lane.
abbrev pub count_or_zero : Option ℕ → ℕ
count_or_zero none = 0
count_or_zero (some n) = n

lane_count-add_to_lane :
    (p q : String) (ls : List PluginLane)
    → count_or_zero (lane_count q (add_to_lane p ls))
      ≡ count_or_zero (lane_count q ls) + (if str_eq p q then 1 else 0)
unfolding lane_count add_to_lane
lane_count-add_to_lane p q [] = ground arith
lane_count-add_to_lane p q (l ∷ ls) =
    ground (arith, eq_iff l.plugin p, eq_iff l.plugin q, eq_iff p q, lane_count-add_to_lane p q ls)

lane_count-lanes :
    (q : String) (js : List Job)
    → count_or_zero (lane_count q (lanes js)) ≡ count_p (λ j. str_eq j.plugin q) js
unfolding lane_count lanes count_p
lane_count-lanes q [] = refl
lane_count-lanes q (j ∷ js) =
    ground (arith, lane_count-add_to_lane j.plugin q (lanes js), lane_count-lanes q js)

-- What the counts of one table say of one another.
pub record IsConsistent (now : ℕ) (db : Db) : Type 0 where
  -- the depth is the queued and the running jobs
  pub depth_split : depth db ≡ (metrics now db).queue_depth + (metrics now db).running_count
  -- the delayed jobs are some of the queued ones
  pub delayed-le : (metrics now db).delayed_count ≤ (metrics now db).queue_depth
  -- the lanes share out the running jobs
  pub lanes_total : total (metrics now db).plugin_lanes ≡ (metrics now db).running_count
  -- the count of a plugin is that of its running jobs
  pub by_plugin :
      (p : String)
      → count_or_zero (running_counts_by_plugin db p)
        ≡ count_p (λ j. str_eq j.plugin p) (select (has_status running) db.jobs)

-- On all tables: Depth is the queue depth and the running count of Metrics together, the delayed
-- count is at most the queue depth, the plugin lanes add up to the running count, and
-- RunningCountsByPlugin answers for each plugin the number of its running jobs.
pub metrics-IsConsistent : (now : ℕ) (db : Db) → IsConsistent now db
unfolding metrics depth running_counts_by_plugin
metrics-IsConsistent now db = record {
  depth_split = outstanding_split db.jobs;
  delayed-le = delayed-le now db.jobs;
  lanes_total =
      total-lanes (select (has_status running) db.jobs)
      ∙ sym (count_p-select (has_status running) db.jobs);
  by_plugin = λ p. lane_count-lanes p (select (has_status running) db.jobs);
}
