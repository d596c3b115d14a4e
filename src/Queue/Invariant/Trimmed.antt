-- ===== src/Queue/Invariant/Trimmed.antt =====
-- No operation of internal/queue reads the transitions. So whatever PruneJobTransitions deletes, the
-- tables are those of a run that has kept all of them, but for the transitions.
use senechal_gw.Prelude.{
  ℕ, String, ◌≡◌, refl, not, inl, inr, Option, none, some, List, find?, length, select, count_p,
  is_empty, trim_space, ◌==◌, Bool-cases, Option-cases,
}
use senechal_gw.Queue.Table.{
  Job, JobTransition, Db, Status, Result, ok, err, ◌>>=◌, ◌>>◌, commit, has_id, reject_if,
  plugin_is_empty, command_is_empty, submitted_by_is_empty, job_id_is_empty, is_terminal,
  invalid_terminal_status, selected_but_updated, record_job_attempt,
}
use senechal_gw.Queue.Enqueue.{
  Queue, EnqueueRequest, check_outstanding, find_outstanding, check_recent, find_recent_succeeded,
  dedupe, is_ignored, insert_or_ignore, enqueue,
}
use senechal_gw.Queue.Dequeue.{oldest, is_eligible, start, claim, claim_next, dequeue_eligible}
use senechal_gw.Queue.Complete.{
  complete_job, complete_with_result, recover_job, update_job_for_recovery, is_outstanding_for,
  cancel_outstanding_jobs,
}
use senechal_gw.Queue.Prune.{
  prune_job_queue, prune_job_attempts, prune_job_logs, prune_job_transitions,
}
use senechal_gw.Queue.Invariant.Facts.{IsWellFormed}
use senechal_gw.Queue.Invariant.Insertion.{ignored-unchanged}

abbrev pub with_history : List JobTransition → Db → Db
with_history ts db = record db { transitions = ts }

-- The jobs and the attempts are the same.
abbrev pub Agrees : Db → Db → Type 0
Agrees a b = (a.jobs ≡ b.jobs) × (a.attempts ≡ b.attempts)

-- An operation does the same with another history.
abbrev pub Ignores : (Db → Db) → Type 0
Ignores f = (db : Db) (ts : List JobTransition) → Agrees (f db) (f (with_history ts db))

pub Agrees-IsWellFormed :
    (a b : Db) → Agrees a b → IsWellFormed b → IsWellFormed (with_history b.transitions a)
Agrees-IsWellFormed a b (e, f) v = record {
  unique_ids = λ i. rw e (v.unique_ids i);
  exclusive = λ c. rw e (v.exclusive c);
  unique_sources =
      λ parent source plugin command. rw e (v.unique_sources parent source plugin command);
  cached = rw e v.cached;
  ahead = rw (e, f) v.ahead;
}

then-Agrees :
    {A : Type 0} (a b : Db) (r : Result (Unit {0})) (m n : Result (A × Db))
    → Agrees a b
    → Agrees (commit a m) (commit b n)
    → Agrees (commit a (r >> m)) (commit b (r >> n))
then-Agrees a b (ok u) m n h k = k
then-Agrees a b (err e) m n h k = h

bind-Agrees :
    {A B : Type 0} (a b : Db) (r : Result B) (m n : B → Result (A × Db))
    → Agrees a b
    → ((x : B) → Agrees (commit a (m x)) (commit b (n x)))
    → Agrees (commit a (r >>= m)) (commit b (r >>= n))
bind-Agrees a b (ok x) m n h k = k x
bind-Agrees a b (err e) m n h k = h

insert_or_ignore-Ignores :
    (id : String) (q : Queue) (req : EnqueueRequest) (now : ℕ)
    → Ignores (λ db. commit db (insert_or_ignore id q req now db))
unfolding insert_or_ignore is_ignored
insert_or_ignore-Ignores id q req now db ts = elim (Bool-cases (is_ignored id req db)) [
  | inl e ↦ rw e (
      rw
        (
          ignored-unchanged id req.source_event_id req db,
          ignored-unchanged id req.source_event_id req (with_history ts db),
        )
        (refl, refl))
  | inr e ↦ rw e (refl, refl)
]

outstanding-same :
    (ttl : Option ℕ) (plugin command key : String) (db : Db) (ts : List JobTransition)
    → check_outstanding ttl plugin command key db
      ≡ check_outstanding ttl plugin command key (with_history ts db)
unfolding check_outstanding find_outstanding
outstanding-same none plugin command key db ts = refl
outstanding-same (some t) plugin command key db ts = refl

dedupe-same :
    (key : Option String) (q : Queue) (req : EnqueueRequest) (now : ℕ) (db : Db)
    (ts : List JobTransition)
    → dedupe key q req now db ≡ dedupe key q req now (with_history ts db)
unfolding dedupe check_recent find_recent_succeeded
dedupe-same none q req now db ts = refl
dedupe-same (some raw) q req now db ts =
    rw (outstanding-same req.dedupe_ttl req.plugin req.command (trim_space raw) db ts) refl

pub enqueue-Ignores :
    (id : String) (q : Queue) (req : EnqueueRequest) (now : ℕ)
    → Ignores (λ db. commit db (enqueue id q req now db))
unfolding enqueue
enqueue-Ignores id q req now db ts =
    let g = with_history ts db in
    then-Agrees db g (reject_if (is_empty req.plugin) plugin_is_empty) _ _ (refl, refl)
      (then-Agrees db g (reject_if (is_empty req.command) command_is_empty) _ _ (refl, refl)
        (then-Agrees db g (reject_if (is_empty req.submitted_by) submitted_by_is_empty) _ _
          (refl, refl)
          (rw (dedupe-same req.dedupe_key q req now db ts) (
            then-Agrees db g (dedupe req.dedupe_key q req now g) _ _ (refl, refl)
              (insert_or_ignore-Ignores id q req now db ts)))))

claim-Ignores :
    (next : Job) (now : ℕ) (provider : Option String)
    → Ignores (λ db. commit db (claim next now provider db))
unfolding claim start
claim-Ignores next now provider db ts =
    bind-Agrees db (with_history ts db) (record_job_attempt next.id next.attempt now db.attempts) _
      _ (refl, refl) (λ attempts. (refl, refl))

pub dequeue_eligible-Ignores :
    (skip keys : List String) (now : ℕ) (provider : Option String)
    → Ignores (λ db. commit db (dequeue_eligible skip keys now provider db))
unfolding dequeue_eligible claim_next
dequeue_eligible-Ignores skip keys now provider db ts =
    elim (Option-cases (oldest (select (is_eligible now skip keys db.jobs) db.jobs))) [
      | inl e ↦ rw e (refl, refl)
      | inr (next, e) ↦ rw e (claim-Ignores next now provider db ts)
    ]

pub complete_with_result-Ignores :
    (id : String) (status : Status) (result last_error : Option String) (stderr : Option (List ℕ))
    (now : ℕ)
    → Ignores (λ db. commit db (complete_with_result id status result last_error stderr now db))
unfolding complete_with_result complete_job
complete_with_result-Ignores id status result last_error stderr now db ts =
    let g = with_history ts db in
    then-Agrees db g (reject_if (is_empty id) job_id_is_empty) _ _ (refl, refl)
      (then-Agrees db g (reject_if (not (is_terminal status)) (invalid_terminal_status status)) _ _
        (refl, refl)
        (elim (Option-cases (find? (has_id id) db.jobs)) [
          | inl e ↦ rw e (refl, refl)
          | inr (j, e) ↦ rw e (refl, refl)
        ]))

pub update_job_for_recovery-Ignores :
    (id : String) (status : Status) (attempt : ℕ) (next : Option ℕ) (last_error : String) (now : ℕ)
    → Ignores (λ db. commit db (update_job_for_recovery id status attempt next last_error now db))
unfolding update_job_for_recovery recover_job
update_job_for_recovery-Ignores id status attempt next last_error now db ts =
    elim (Option-cases (find? (has_id id) db.jobs)) [
      | inl e ↦ rw e (refl, refl)
      | inr (j, e) ↦ rw e (refl, refl)
    ]

pub cancel_outstanding_jobs-Ignores :
    (plugin command reason : String) (now : ℕ)
    → Ignores (λ db. commit db (cancel_outstanding_jobs plugin command reason now db))
unfolding cancel_outstanding_jobs
cancel_outstanding_jobs-Ignores plugin command reason now db ts =
    let g = with_history ts db in
    then-Agrees db g (reject_if (is_empty plugin) plugin_is_empty) _ _ (refl, refl)
      (then-Agrees db g (reject_if (is_empty command) command_is_empty) _ _ (refl, refl)
        (then-Agrees {A = ℕ} db g
          (reject_if
            (not (
              count_p (is_outstanding_for plugin command) db.jobs
              == length (select (is_outstanding_for plugin command) db.jobs)))
            (selected_but_updated (length (select (is_outstanding_for plugin command) db.jobs))
              (count_p (is_outstanding_for plugin command) db.jobs)))
          _ _ (refl, refl) (refl, refl)))

pub prune_job_queue-Ignores : (retention now : ℕ) → Ignores (prune_job_queue retention now)
unfolding prune_job_queue
prune_job_queue-Ignores retention now db ts = elim (Bool-cases (0 == retention)) [
  | inl e ↦ rw e (refl, refl)
  | inr e ↦ rw e (refl, refl)
]

pub prune_job_attempts-Ignores : (retention now : ℕ) → Ignores (prune_job_attempts retention now)
unfolding prune_job_attempts
prune_job_attempts-Ignores retention now db ts = elim (Bool-cases (0 == retention)) [
  | inl e ↦ rw e (refl, refl)
  | inr e ↦ rw e (refl, refl)
]

pub prune_job_logs-Ignores : (retention now : ℕ) → Ignores (prune_job_logs retention now)
unfolding prune_job_logs
prune_job_logs-Ignores retention now db ts = elim (Bool-cases (0 == retention)) [
  | inl e ↦ rw e (refl, refl)
  | inr e ↦ rw e (refl, refl)
]

-- PruneJobTransitions leaves the jobs and the attempts.
pub prune_job_transitions-Agrees :
    (retention now : ℕ) (db : Db) → Agrees (prune_job_transitions retention now db) db
unfolding prune_job_transitions
prune_job_transitions-Agrees retention now db = elim (Bool-cases (0 == retention)) [
  | inl e ↦ rw e (refl, refl)
  | inr e ↦ rw e (refl, refl)
]
