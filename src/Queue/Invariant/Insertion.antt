-- ===== src/Queue/Invariant/Insertion.antt =====
-- Enqueue keeps the invariant.
use senechal_gw.Prelude.{
  ℕ, ◌≤◌, String, ◌≡◌, refl, sym, subst, is_empty, true, false, Option, none, some, [], ◌∷◌, ◌++◌,
  arith, any, count_p, All, str_eq, eq_iff, Bool-cases, inl, inr,
}
use senechal_gw.Prelude.Rows.{
  All-append, All-get, All-of_mem, count_p-append, any-count_p, any-weaken, any-get_false,
}
use senechal_gw.Queue.Table.{
  Job, Db, queued, Result, ok, err, ◌>>◌, has_id, commit, reject_if, plugin_is_empty,
  command_is_empty, submitted_by_is_empty, record_job_transition,
}
use senechal_gw.Queue.Enqueue.{
  Queue, EnqueueRequest, has_source, is_ignored, ignored, new_job, dedupe, insert_or_ignore,
  enqueue,
}
use senechal_gw.Queue.Dequeue.{is_running_for}
use senechal_gw.Queue.Invariant.Facts.{
  IsWellFormed, IsCached, IsAhead, latest-record, reaches, str_eq_refl, str_eq_sym, both_eq_join,
}

-- No attempt of the id has been recorded: a uuid that is drawn for a job is new.
abbrev pub IsFresh : String → Db → Type 0
IsFresh id db = any (λ a. str_eq a.job_id id) db.attempts ≡ false

-- A step that only checks leaves the tables to the rest.
pub commit-bind :
    {A : Type 0} (P : Db → Type 0) (db : Db) (r : Result (Unit {0})) (m : Result (A × Db))
    → P db
    → P (commit db m)
    → P (commit db (r >> m))
commit-bind P db (ok u) m h k = k
commit-bind P db (err e) m h k = h

module _ (id : String) (q : Queue) (req : EnqueueRequest) (now : ℕ) (db : Db) (v : IsWellFormed db)
    (fresh : IsFresh id db) (new : is_ignored id req db ≡ false) where
  abbrev job : Job
  job = new_job id q req now

  no_row : any (has_id id) db.jobs ≡ false
  unfolding is_ignored
  no_row = ground (arith, new)

  no_source :
      any (has_source req.parent_job_id req.source_event_id req.plugin req.command) db.jobs ≡ false
  unfolding is_ignored
  no_source = ground (arith, new)

  unique_ids-insert : (i : String) → count_p (has_id i) (db.jobs ++ job ∷ []) ≤ 1
  unfolding new_job count_p
  unique_ids-insert i =
      rw count_p-append
        (ground (arith, eq_iff id i, v.unique_ids i, any-count_p (has_id id) db.jobs no_row))

  exclusive-insert : (c : Job) → count_p (is_running_for c) (db.jobs ++ job ∷ []) ≤ 1
  unfolding new_job count_p is_running_for
  exclusive-insert c = rw count_p-append (ground (arith, v.exclusive c))

  same_source :
      (parent source : Option String) (plugin command : String) (x : Job)
      → has_source parent source plugin command job ≡ true
      → has_source parent source plugin command x ≡ true
      → has_source req.parent_job_id req.source_event_id req.plugin req.command x ≡ true
  unfolding new_job has_source
  same_source parent source plugin command x p r = ground (
    arith,
    both_eq_join x.source_event_id req.source_event_id source,
    both_eq_join x.parent_job_id req.parent_job_id parent,
    eq_iff x.plugin plugin,
    eq_iff req.plugin plugin,
    eq_iff x.plugin req.plugin,
    eq_iff x.command command,
    eq_iff req.command command,
    eq_iff x.command req.command,
  )

  unique_sources-insert :
      (parent source : Option String) (plugin command : String)
      → count_p (has_source parent source plugin command) (db.jobs ++ job ∷ []) ≤ 1
  unfolding new_job count_p
  unique_sources-insert parent source plugin command =
      rw count_p-append (elim (Bool-cases (has_source parent source plugin command job)) [
        | inl e ↦
            rw
              (
                e,
                any-count_p (has_source parent source plugin command) db.jobs (
                    any-weaken _ _ (λ x r. same_source parent source plugin command x e r) db.jobs
                      no_source),
              )
              (omega arith)
        | inr e ↦ rw e (omega (arith, v.unique_sources parent source plugin command))
      ])

  IsCached-insert :
      All
        (IsCached (record_job_transition id none queued none now db.transitions))
        (db.jobs ++ job ∷ [])
  unfolding new_job
  IsCached-insert =
      All-append _ db.jobs _
        (All-of_mem _ db.jobs (λ x m. rw latest-record (
          ground (
            arith,
            str_eq_sym x.id id (any-get_false (has_id id) db.jobs no_row m),
            All-get (IsCached db.transitions) db.jobs v.cached m,
          ))))
        (rw latest-record (ground (arith, str_eq_refl id)), tt)

  IsAhead-insert : All (IsAhead db.attempts) (db.jobs ++ job ∷ [])
  unfolding new_job
  IsAhead-insert =
      All-append _ db.jobs _ v.ahead
        (any-weaken _ (reaches id 1) (λ a r. ground arith) db.attempts fresh, tt)

  insert-IsWellFormed : IsWellFormed (commit db (insert_or_ignore id q req now db))
  unfolding insert_or_ignore
  insert-IsWellFormed = rw new (record {
    unique_ids = unique_ids-insert;
    exclusive = exclusive-insert;
    unique_sources = unique_sources-insert;
    cached = IsCached-insert;
    ahead = IsAhead-insert;
  })

-- A row that the tables refuse changes nothing, whatever the answer is.
pub ignored-unchanged :
    (id : String) (source : Option String) (req : EnqueueRequest) (db : Db)
    → commit db (ignored id source req db) ≡ db
unfolding ignored
ignored-unchanged id none req db = refl
ignored-unchanged id (some s) req db = ground arith

insert_ignored :
    (id : String) (q : Queue) (req : EnqueueRequest) (now : ℕ) (db : Db)
    → is_ignored id req db ≡ true
    → commit db (insert_or_ignore id q req now db) ≡ db
unfolding insert_or_ignore
insert_ignored id q req now db e = rw e (ignored-unchanged id req.source_event_id req db)

insert_or_ignore-IsWellFormed :
    (id : String) (q : Queue) (req : EnqueueRequest) (now : ℕ) (db : Db)
    → IsWellFormed db
    → IsFresh id db
    → IsWellFormed (commit db (insert_or_ignore id q req now db))
insert_or_ignore-IsWellFormed id q req now db v fresh = elim (Bool-cases (is_ignored id req db)) [
  | inl e ↦ subst IsWellFormed (sym (insert_ignored id q req now db e)) v
  | inr e ↦ insert-IsWellFormed id q req now db v fresh e
]

-- Enqueue keeps the tables well formed, for every request, where no attempt of the new id is
-- recorded.
pub enqueue-IsWellFormed :
    (id : String) (q : Queue) (req : EnqueueRequest) (now : ℕ) (db : Db)
    → IsWellFormed db
    → IsFresh id db
    → IsWellFormed (commit db (enqueue id q req now db))
unfolding enqueue
enqueue-IsWellFormed id q req now db v fresh =
    commit-bind IsWellFormed db (reject_if (is_empty req.plugin) plugin_is_empty) _ v (
      commit-bind IsWellFormed db (reject_if (is_empty req.command) command_is_empty) _ v (
        commit-bind IsWellFormed db (reject_if (is_empty req.submitted_by) submitted_by_is_empty) _
          v
          (commit-bind IsWellFormed db (dedupe req.dedupe_key q req now db) _ v
            (insert_or_ignore-IsWellFormed id q req now db v fresh))))
