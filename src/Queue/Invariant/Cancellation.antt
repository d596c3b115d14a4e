-- ===== src/Queue/Invariant/Cancellation.antt =====
-- CancelOutstandingJobs keeps the invariant, ends every outstanding job of its target, and never
-- meets its check on the number of rows.
use native.Mathlib.Nat.{le_trans}
use mathlib.Core.List.{Memᴰ}
use senechal_gw.Prelude.{
  ℕ, suc, ◌≤◌, String, ◌≡◌, refl, is_empty, Bool, true, false, not, Option, some, List, [], ◌∷◌,
  arith, any, count_p, select, count_p-select, length, All, update_where, ◌==◌, Bool-cases,
  true-ne-false, inl, inr, if◌then◌else◌,
}
use senechal_gw.Prelude.Rows.{
  All-get, All-update, All-of_mem, count_p-update_keep, any-weaken, any-select-true,
  any-select_none, unique_row,
}
use senechal_gw.Queue.Table.{
  Job, JobTransition, JobAttempt, Db, Status, queued, dead, ok, has_id, commit, reject_if,
  plugin_is_empty, command_is_empty, selected_but_updated, record_job_transition,
}
use senechal_gw.Queue.Enqueue.{has_source}
use senechal_gw.Queue.Dequeue.{is_running_for}
use senechal_gw.Queue.Complete.{
  finish, is_outstanding_for, record_dead, reason_or_default, cancel_outstanding_jobs,
}
use senechal_gw.Queue.Invariant.Facts.{
  IsWellFormed, IsCached, IsAhead, latest, latest-record, first_free, reaches, str_eq_refl,
}
use senechal_gw.Queue.Invariant.Insertion.{commit-bind}

latest-record_dead :
    (i why : String) (now : ℕ) (js : List Job) (ts : List JobTransition)
    → latest i (record_dead why now js ts) ≡ (if any (has_id i) js then some dead else latest i ts)
unfolding record_dead any
latest-record_dead i why now [] ts = refl
latest-record_dead i why now (j ∷ js) ts = ground (
  arith,
  latest-record_dead i why now js
      (record_job_transition j.id (some j.status) dead (some why) now ts),
  latest-record i j.id (some j.status) dead (some why) now ts,
)

ahead_of_dead :
    (s : Status) (i : String) (n : ℕ) (a : JobAttempt)
    → reaches i (suc n) a ≡ true
    → reaches i (first_free s n) a ≡ true
ahead_of_dead queued i n a h = ground arith
ahead_of_dead _ i n a h = ground arith

module _ (plugin command why : String) (now : ℕ) (db : Db) (v : IsWellFormed db) where
  abbrev hit : Job → Bool
  hit = is_outstanding_for plugin command

  abbrev end : Job → Job
  end = finish dead now (some why)

  abbrev cancelled : Db
  cancelled = record db {
    jobs = update_where hit end db.jobs;
    transitions = record_dead why now (select hit db.jobs) db.transitions;
  }

  unique_ids-cancel : (i : String) → count_p (has_id i) cancelled.jobs ≤ 1
  unfolding finish
  unique_ids-cancel i =
      le_trans
        (count_p-update_keep hit (has_id i) end db.jobs (All-of_mem _ db.jobs (λ x m e r. r)))
        (v.unique_ids i)

  exclusive-cancel : (c : Job) → count_p (is_running_for c) cancelled.jobs ≤ 1
  unfolding finish is_running_for
  exclusive-cancel c =
      le_trans
        (count_p-update_keep hit (is_running_for c) end db.jobs
          (All-of_mem _ db.jobs (λ x m e r. ground arith)))
        (v.exclusive c)

  unique_sources-cancel :
      (parent source : Option String) (p c : String)
      → count_p (has_source parent source p c) cancelled.jobs ≤ 1
  unfolding finish has_source
  unique_sources-cancel parent source p c =
      le_trans
        (count_p-update_keep hit (has_source parent source p c) end db.jobs
          (All-of_mem _ db.jobs (λ x m e r. r)))
        (v.unique_sources parent source p c)

  missed :
      (x : Job) → Memᴰ x db.jobs → hit x ≡ false → any (has_id x.id) (select hit db.jobs) ≡ false
  missed x m e = any-select_none hit (has_id x.id) db.jobs λ y n t.
      elim (Bool-cases (has_id x.id y)) [
        | inl s ↦ absurd (
            true-ne-false (hit x)
              (rw (unique_row (has_id x.id) db.jobs (v.unique_ids x.id) m n (str_eq_refl x.id) s) t)
              e)
        | inr s ↦ s
      ]

  IsCached-cancel : All (IsCached cancelled.transitions) cancelled.jobs
  unfolding finish
  IsCached-cancel =
      All-update (λ x. Memᴰ x db.jobs × IsCached db.transitions x) _ hit end
        (λ x h e.
          rw (
            latest-record_dead,
            any-select-true hit (has_id x.id) db.jobs h.0 e (str_eq_refl x.id),
          ))
        (λ x h e. rw (latest-record_dead, missed x h.0 e) h.1) db.jobs
        (All-of_mem _ db.jobs (λ x m. (m, All-get (IsCached db.transitions) db.jobs v.cached m)))

  IsAhead-cancel : All (IsAhead db.attempts) cancelled.jobs
  unfolding finish
  IsAhead-cancel =
      All-update (IsAhead db.attempts) _ hit end
        (λ x h e. any-weaken _ _ (λ a r. ahead_of_dead x.status x.id x.attempt a r) db.attempts h)
        (λ x h e. h) db.jobs v.ahead

  cancelled-IsWellFormed : IsWellFormed cancelled
  cancelled-IsWellFormed = record {
    unique_ids = unique_ids-cancel;
    exclusive = exclusive-cancel;
    unique_sources = unique_sources-cancel;
    cached = IsCached-cancel;
    ahead = IsAhead-cancel;
  }

none_left :
    (plugin command why : String) (now : ℕ) (jobs : List Job)
    → count_p
        (is_outstanding_for plugin command)
        (update_where (is_outstanding_for plugin command) (finish dead now (some why)) jobs)
      ≡ 0
unfolding count_p update_where is_outstanding_for finish
none_left plugin command why now [] = refl
none_left plugin command why now (j ∷ js) = ground (arith, none_left plugin command why now js)

-- What CancelOutstandingJobs answers: the number of the outstanding jobs of the target, none of which
-- is left.
pub record Cancels (plugin command : String) (db : Db) (r : ℕ × Db) : Type 0 where
  pub number : r.0 ≡ count_p (is_outstanding_for plugin command) db.jobs
  pub none_left : count_p (is_outstanding_for plugin command) r.1.jobs ≡ 0
  pub kept : IsWellFormed r.1

-- With a plugin and a command, CancelOutstandingJobs succeeds, answers the number of their
-- outstanding jobs, leaves none of them outstanding and keeps the tables well formed.
pub cancel_outstanding_jobs-Cancels :
    (plugin command reason : String) (now : ℕ) (db : Db)
    → IsWellFormed db
    → is_empty plugin ≡ false
    → is_empty command ≡ false
    → (r : ℕ × Db) × (cancel_outstanding_jobs plugin command reason now db ≡ ok r)
      × Cancels plugin command db r
unfolding cancel_outstanding_jobs
cancel_outstanding_jobs-Cancels plugin command reason now db v p c = (
  (
    count_p (is_outstanding_for plugin command) db.jobs,
    cancelled plugin command (reason_or_default reason) now db v,
  ),
  ground (arith, p, c, count_p-select (is_outstanding_for plugin command) db.jobs),
  record {
    number = refl;
    none_left = none_left plugin command (reason_or_default reason) now db.jobs;
    kept = cancelled-IsWellFormed plugin command (reason_or_default reason) now db v;
  },
)

-- CancelOutstandingJobs keeps the tables well formed, with whatever arguments.
pub cancel_outstanding_jobs-IsWellFormed :
    (plugin command reason : String) (now : ℕ) (db : Db)
    → IsWellFormed db
    → IsWellFormed (commit db (cancel_outstanding_jobs plugin command reason now db))
unfolding cancel_outstanding_jobs
cancel_outstanding_jobs-IsWellFormed plugin command reason now db v =
    commit-bind IsWellFormed db (reject_if (is_empty plugin) plugin_is_empty) _ v (
      commit-bind IsWellFormed db (reject_if (is_empty command) command_is_empty) _ v (
        commit-bind {A = ℕ} IsWellFormed db
          (reject_if (not (affected == length jobs)) (selected_but_updated (length jobs) affected))
          (ok (affected, cancelled plugin command (reason_or_default reason) now db v)) v
          (cancelled-IsWellFormed plugin command (reason_or_default reason) now db v)))
  where
    jobs : List Job
    jobs = select (is_outstanding_for plugin command) db.jobs

    affected : ℕ
    affected = count_p (is_outstanding_for plugin command) db.jobs
