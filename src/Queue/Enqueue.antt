-- ===== src/Queue/Enqueue.antt =====
-- Queue.Enqueue of internal/queue/queue.go, with its dedupe lookups. The uuid, the clock and the
-- answer of configSnapshotIDProvider are arguments.
use senechal_gw.Prelude.{
  ℕ, ◌-◌, String, Bool, true, false, ◌&&◌, ◌||◌, Option, none, some, List, [], ◌∷◌, ◌++◌, any,
  select, ◌==◌, is_empty, trim_space, if◌then◌else◌,
}
use senechal_gw.Stamp.{stamp_le}
use senechal_gw.Queue.Table.{
  Job, Db, queued, succeeded, Result, ok, err, ◌>>◌, reject_if, plugin_is_empty, command_is_empty,
  submitted_by_is_empty, dedupe_drop, source_event_conflict, is_outstanding, status_eq, null_eq,
  both_eq, has_id, is_target, record_job_transition,
}

-- Queue, the fields that Enqueue reads. A duration is in nanoseconds; 0 stands for 0 and below.
pub record Queue : Type 0 where
  pub dedupe_ttl : ℕ
  pub config_snapshot_id_provider : Option String

-- types.go: EnqueueRequest. A count of 0 stands for 0 and below.
pub record EnqueueRequest : Type 0 where
  pub plugin : String
  pub command : String
  pub payload : String
  pub max_attempts : ℕ
  pub submitted_by : String
  pub dedupe_key : Option String
  pub dedupe_ttl : Option ℕ
  pub parent_job_id : Option String
  pub event_context_id : Option String
  pub source_event_id : Option String
  pub enqueued_config_snapshot_id : String

-- ORDER BY created_at DESC, rowid DESC LIMIT 1
unfoldable pub newest : List Job → Option Job
newest [] = none
newest (x ∷ xs) = elim (newest xs) [
  | none ↦ some x
  | some y ↦ if stamp_le x.created_at y.created_at then some y else some x
]

abbrev completed_le : Option ℕ → Option ℕ → Bool
completed_le none b = true
completed_le (some a) none = false
completed_le (some a) (some b) = stamp_le a b

-- ORDER BY completed_at DESC LIMIT 1
unfoldable pub latest_completed : List Job → Option Job
latest_completed [] = none
latest_completed (x ∷ xs) = elim (latest_completed xs) [
  | none ↦ some x
  | some y ↦ if completed_le x.completed_at y.completed_at then some y else some x
]

abbrev since : ℕ → Option ℕ → Bool
since cutoff none = false
since cutoff (some t) = stamp_le cutoff t

unfoldable pub is_recent_success : String → String → String → ℕ → Job → Bool
is_recent_success plugin command key cutoff j =
    null_eq j.dedupe_key key
    && is_target plugin command j
    && status_eq j.status succeeded
    && since cutoff j.completed_at

-- findRecentSucceededByDedupeKey
unfoldable pub find_recent_succeeded : String → String → String → ℕ → ℕ → Db → Option Job
find_recent_succeeded plugin command key ttl now db =
    latest_completed (select (is_recent_success plugin command key (now - ttl)) db.jobs)

unfoldable pub holds_key : String → String → String → Job → Bool
holds_key plugin command key j =
    null_eq j.dedupe_key key && is_target plugin command j && is_outstanding j.status

-- findOutstandingByDedupeKey
unfoldable pub find_outstanding : String → String → String → Db → Option Job
find_outstanding plugin command key db = newest (select (holds_key plugin command key) db.jobs)

unfoldable pub drop_found : String → Option Job → Result (Unit {0})
drop_found key none = ok tt
drop_found key (some j) = err (dedupe_drop key j.id)

-- The outstanding lookup is made only where the request has a TTL of its own.
unfoldable pub check_outstanding : Option ℕ → String → String → String → Db → Result (Unit {0})
unfolding drop_found
check_outstanding none plugin command key db = ok tt
check_outstanding (some ttl) plugin command key db =
    drop_found key (find_outstanding plugin command key db)

unfoldable pub check_recent : ℕ → String → String → String → ℕ → Db → Result (Unit {0})
unfolding drop_found
check_recent ttl plugin command key now db =
    if 0 == ttl then ok tt else drop_found key (find_recent_succeeded plugin command key ttl now db)

abbrev ttl_or : Option ℕ → ℕ → ℕ
ttl_or none d = d
ttl_or (some t) d = t

-- The part of Enqueue under `if req.DedupeKey != nil`: the key is trimmed for the lookups.
unfoldable pub dedupe : Option String → Queue → EnqueueRequest → ℕ → Db → Result (Unit {0})
unfolding check_outstanding check_recent
dedupe none q req now db = ok tt
dedupe (some raw) q req now db =
    let key = trim_space raw in
    if is_empty key then ok tt else do
      check_outstanding req.dedupe_ttl req.plugin req.command key db
      check_recent (ttl_or req.dedupe_ttl q.dedupe_ttl) req.plugin req.command key now db

-- The row of the partial UNIQUE index job_queue_event_source_idx.
unfoldable pub has_source : Option String → Option String → String → String → Job → Bool
has_source parent source plugin command j =
    both_eq j.source_event_id source && both_eq j.parent_job_id parent && is_target plugin command j

-- INSERT OR IGNORE does nothing where the id or the source-event identity is there.
unfoldable pub is_ignored : String → EnqueueRequest → Db → Bool
is_ignored id req db =
    any (has_id id) db.jobs
    || any (has_source req.parent_job_id req.source_event_id req.plugin req.command) db.jobs

abbrev provided : Option String → String
provided none = ""
provided (some s) = trim_space s

-- The snapshot id of the request, or else the provider's; NULL where both are blank.
abbrev snapshot_id : String → Option String → Option String
snapshot_id given provider =
    let own = trim_space given in
    let id = if is_empty own then provided provider else own in
    if is_empty id then none else some id

-- The row that is inserted: the key is stored as the request has it.
unfoldable pub new_job : String → Queue → EnqueueRequest → ℕ → Job
new_job id q req now = record {
  id = id;
  plugin = req.plugin;
  command = req.command;
  payload = if is_empty req.payload then none else some req.payload;
  status = queued;
  attempt = 1;
  max_attempts = if 0 == req.max_attempts then 4 else req.max_attempts;
  submitted_by = req.submitted_by;
  dedupe_key = req.dedupe_key;
  created_at = now;
  started_at = none;
  completed_at = none;
  next_retry_at = none;
  last_error = none;
  parent_job_id = req.parent_job_id;
  source_event_id = req.source_event_id;
  event_context_id = req.event_context_id;
  enqueued_config_snapshot_id =
      snapshot_id req.enqueued_config_snapshot_id q.config_snapshot_id_provider;
  started_config_snapshot_id = none;
}

abbrev or_blank : Option String → String
or_blank none = ""
or_blank (some s) = s

-- `affected == 0`: an error only on the source-event path.
unfoldable pub ignored : String → Option String → EnqueueRequest → Db → Result (String × Db)
ignored id none req db = ok (id, db)
ignored id (some source) req db =
    if is_empty (trim_space source)
    then ok (id, db)
    else err (source_event_conflict (or_blank req.parent_job_id) source req.plugin req.command)

unfoldable pub insert_or_ignore : String → Queue → EnqueueRequest → ℕ → Db → Result (String × Db)
unfolding ignored
insert_or_ignore id q req now db =
    if is_ignored id req db
    then ignored id req.source_event_id req db
    else ok (
      id,
      record db {
        jobs = db.jobs ++ new_job id q req now ∷ [];
        transitions = record_job_transition id none queued none now db.transitions;
      },
    )

-- Enqueue
unfoldable pub enqueue : String → Queue → EnqueueRequest → ℕ → Db → Result (String × Db)
unfolding dedupe insert_or_ignore
enqueue id q req now db = do
  reject_if (is_empty req.plugin) plugin_is_empty
  reject_if (is_empty req.command) command_is_empty
  reject_if (is_empty req.submitted_by) submitted_by_is_empty
  dedupe req.dedupe_key q req now db
  insert_or_ignore id q req now db
