-- ===== src/Queue/Dequeue.antt =====
-- Queue.DequeueEligible and Queue.Dequeue of internal/queue/queue.go.
use senechal_gw.Prelude.{
  ℕ, String, Bool, true, false, not, ◌&&◌, Option, none, some, List, [], ◌∷◌, any, select,
  update_where, is_empty, trim_space, str_eq, if◌then◌else◌,
}
use senechal_gw.Stamp.{stamp_le}
use senechal_gw.Queue.Table.{
  Job, Db, queued, running, Result, ok, ◌>>=◌, status_eq, has_id, is_target, both_eq,
  record_job_transition, record_job_attempt,
}

-- ORDER BY created_at ASC, rowid ASC LIMIT 1
unfoldable pub oldest : List Job → Option Job
oldest [] = none
oldest (x ∷ xs) = elim (oldest xs) [
  | none ↦ some x
  | some y ↦ if stamp_le x.created_at y.created_at then some x else some y
]

-- next_retry_at IS NULL OR next_retry_at <= now; the column is never the empty text
abbrev pub is_due : Option ℕ → ℕ → Bool
is_due none now = true
is_due (some t) now = stamp_le t now

-- Some text of the list is the column's value; NULL is none of them.
abbrev pub is_among : List String → Option String → Bool
is_among keys none = false
is_among keys (some k) = any (str_eq k) keys

-- running.dedupe_key = candidate.dedupe_key, and the same plugin and command
unfoldable pub is_running_for : Job → Job → Bool
is_running_for candidate j =
    status_eq j.status running
    && both_eq j.dedupe_key candidate.dedupe_key
    && is_target candidate.plugin candidate.command j

-- The WHERE clause of the query.
unfoldable pub is_eligible : ℕ → List String → List String → List Job → Job → Bool
is_eligible now skip_plugins active_keys jobs j =
    status_eq j.status queued
    && is_due j.next_retry_at now
    && not (any (str_eq j.plugin) skip_plugins)
    && not (is_among active_keys j.dedupe_key)
    && not (any (is_running_for j) jobs)

-- The SET clause; the snapshot id is NULL where the provider's answer is blank.
unfoldable pub start : ℕ → Option String → Job → Job
start now snapshot j = record j {
  status = running;
  started_at = some now;
  started_config_snapshot_id = snapshot;
}

abbrev pub snapshot_now : Option String → Option String
snapshot_now none = none
snapshot_now (some s) = let id = trim_space s in if is_empty id then none else some id

-- The UPDATE of the row that was selected, and the facts about it.
unfoldable pub claim : Job → ℕ → Option String → Db → Result (Option Job × Db)
claim next now provider db = do
  let job = start now (snapshot_now provider) next
  attempts ← record_job_attempt job.id job.attempt now db.attempts
  ok (
    some job,
    record db {
      jobs = update_where (has_id next.id) (start now (snapshot_now provider)) db.jobs;
      transitions = record_job_transition job.id (some queued) running none now db.transitions;
      attempts = attempts;
    },
  )

unfoldable pub claim_next : Option Job → ℕ → Option String → Db → Result (Option Job × Db)
claim_next none now provider db = ok (none, db)
claim_next (some next) now provider db = claim next now provider db

-- DequeueEligible
unfoldable pub dequeue_eligible :
    List String → List String → ℕ → Option String → Db → Result (Option Job × Db)
unfolding claim_next
dequeue_eligible skip_plugins active_keys now provider db =
    claim_next (oldest (select (is_eligible now skip_plugins active_keys db.jobs) db.jobs)) now
      provider db

-- Dequeue
unfoldable pub dequeue : ℕ → Option String → Db → Result (Option Job × Db)
unfolding dequeue_eligible
dequeue now provider db = dequeue_eligible [] [] now provider db
