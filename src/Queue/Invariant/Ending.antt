-- ===== src/Queue/Invariant/Ending.antt =====
-- CompleteWithResult and UpdateJobForRecovery keep the invariant.
use native.Mathlib.Nat.{le_trans}
use mathlib.Core.List.{Memᴰ}
use senechal_gw.Prelude.{
  ℕ, ◌≤◌, ◌<◌, String, ◌≡◌, refl, ap, is_empty, ◌≢◌, true, false, not, Option, none, some, List,
  arith, count_p, find?, All, update_where, str_eq, eq_iff, Bool-cases, inl, inr, if◌then◌else◌,
}
use senechal_gw.Prelude.Rows.{
  All-find?, All-get, All-update, All-of_mem, count_p-update_keep, any-weaken, unique_row,
}
use senechal_gw.Queue.Table.{
  Job, JobTransition, JobAttempt, LogRow, Db, Status, running, has_id, commit, reject_if,
  job_id_is_empty, invalid_terminal_status, is_terminal, status_eq,
}
use senechal_gw.Queue.Enqueue.{has_source}
use senechal_gw.Queue.Dequeue.{is_running_for}
use senechal_gw.Queue.Complete.{
  finish, reschedule, transition_to, complete_job, complete_with_result, recover_job,
  update_job_for_recovery,
}
use senechal_gw.Queue.Invariant.Facts.{
  IsWellFormed, IsCached, IsAhead, latest, latest-record, first_free, reaches, str_eq_refl,
  str_eq_sym,
}
use senechal_gw.Queue.Invariant.Insertion.{commit-bind}

-- An update of one row keeps what the indexes see of it.
pub record Keeps (f : Job → Job) (j : Job) : Type 0 where
  pub id : (x : Job) → (f x).id ≡ x.id
  pub source :
      (parent source : Option String) (plugin command : String) (x : Job)
      → has_source parent source plugin command (f x) ≡ has_source parent source plugin command x
  pub stopped : (c x : Job) → is_running_for c (f x) ≡ false
  pub further :
      (x : Job) → x ≡ j → first_free x.status x.attempt ≤ first_free (f x).status (f x).attempt

reaches_further :
    (i : String) (n m : ℕ) (a : JobAttempt) → n ≤ m → reaches i m a ≡ true → reaches i n a ≡ true
reaches_further i n m a l h = ground arith

pub status_eq_sound : (a b : Status) → status_eq a b ≡ true → a ≡ b
status_eq_sound a b h = ground arith

latest-transition_to :
    (i : String) (j : Job) (status : Status) (reason : Option String) (now : ℕ)
    (ts : List JobTransition)
    → latest i (transition_to j status reason now ts) ≡ (
        if status_eq j.status status
        then latest i ts
        else if str_eq j.id i
        then some status
        else latest i ts)
unfolding transition_to
latest-transition_to i j status reason now ts = elim (Bool-cases (status_eq j.status status)) [
  | inl e ↦ rw e
  | inr e ↦ rw e (latest-record i j.id (some j.status) status reason now ts)
]

module _ (db : Db) (v : IsWellFormed db) (j : Job) (found : Memᴰ j db.jobs) (f : Job → Job)
    (keeps : Keeps f j) where
  abbrev jobs' : List Job
  jobs' = update_where (has_id j.id) f db.jobs

  same_row : (x : Job) → Memᴰ x db.jobs → has_id j.id x ≡ true → x ≡ j
  same_row x m e = unique_row (has_id j.id) db.jobs (v.unique_ids j.id) m found e (str_eq_refl j.id)

  unique_ids-update : (i : String) → count_p (has_id i) jobs' ≤ 1
  unique_ids-update i =
      le_trans
        (count_p-update_keep (has_id j.id) (has_id i) f db.jobs
          (All-of_mem _ db.jobs (λ x m e r. rw (← keeps.id x) r)))
        (v.unique_ids i)

  exclusive-update : (c : Job) → count_p (is_running_for c) jobs' ≤ 1
  exclusive-update c =
      le_trans
        (count_p-update_keep (has_id j.id) (is_running_for c) f db.jobs
          (All-of_mem _ db.jobs (λ x m e r. cc (keeps.stopped c x))))
        (v.exclusive c)

  unique_sources-update :
      (parent source : Option String) (plugin command : String)
      → count_p (has_source parent source plugin command) jobs' ≤ 1
  unique_sources-update parent source plugin command =
      le_trans
        (count_p-update_keep (has_id j.id) (has_source parent source plugin command) f db.jobs
          (All-of_mem _ db.jobs (λ x m e r. rw (← keeps.source parent source plugin command x) r)))
        (v.unique_sources parent source plugin command)

  IsAhead-update : All (IsAhead db.attempts) jobs'
  IsAhead-update =
      All-update (λ x. Memᴰ x db.jobs × IsAhead db.attempts x) _ (has_id j.id) f
        (λ x h e. rw keeps.id (
          any-weaken (reaches x.id (first_free x.status x.attempt)) _
            (λ a r. reaches_further x.id _ _ a (keeps.further x (same_row x h.0 e)) r) db.attempts
            h.1))
        (λ x h e. h.1) db.jobs
        (All-of_mem _ db.jobs (λ x m. (m, All-get (IsAhead db.attempts) db.jobs v.ahead m)))

  module _ (status : Status) (sets : (x : Job) → (f x).status ≡ status) (reason : Option String)
      (now : ℕ) where
    IsCached-update : All (IsCached (transition_to j status reason now db.transitions)) jobs'
    IsCached-update =
        All-update (λ x. Memᴰ x db.jobs × IsCached db.transitions x) _ (has_id j.id) f
          (λ x h e.
            rw (keeps.id x, sets x, latest-transition_to)
              (ground (
                arith,
                eq_iff j.id x.id,
                eq_iff x.id j.id,
                status_eq_sound j.status status,
                ap (λ (k : Job). k.status) (same_row x h.0 e),
                h.1,
              )))
          (λ x h e. rw latest-transition_to (ground (arith, str_eq_sym x.id j.id e, h.1))) db.jobs
          (All-of_mem _ db.jobs (λ x m. (m, All-get (IsCached db.transitions) db.jobs v.cached m)))

    pub update-IsWellFormed :
        (log : List LogRow)
        → IsWellFormed (record db {
          jobs = jobs';
          transitions = transition_to j status reason now db.transitions;
          log = log;
        })
    update-IsWellFormed log = record {
      unique_ids = unique_ids-update;
      exclusive = exclusive-update;
      unique_sources = unique_sources-update;
      cached = IsCached-update;
      ahead = IsAhead-update;
    }

find-found :
    (id : String) (db : Db) {j : Job}
    → find? (has_id id) db.jobs ≡ some j
    → Memᴰ j db.jobs × (has_id id j ≡ true)
find-found id db e =
    All-find? (λ j. Memᴰ j db.jobs) (has_id id) db.jobs
      (All-of_mem (λ j. Memᴰ j db.jobs) db.jobs (λ x m. m)) e

finish-status :
    (status : Status) (now : ℕ) (last_error : Option String) (x : Job)
    → (finish status now last_error x).status ≡ status
unfolding finish
finish-status status now last_error x = refl

reschedule-status :
    (status : Status) (attempt : ℕ) (next : Option ℕ) (last_error : Option String) (x : Job)
    → (reschedule status attempt next last_error x).status ≡ status
unfolding reschedule
reschedule-status status attempt next last_error x = refl

finish-Keeps :
    (j : Job) (status : Status) (now : ℕ) (last_error : Option String)
    → is_terminal status ≡ true
    → Keeps (finish status now last_error) j
unfolding finish has_source is_running_for
finish-Keeps j status now last_error t = record {
  id = λ x. refl;
  source = λ parent source plugin command x. refl;
  stopped = λ c x. ground arith;
  further = λ x e. ground arith;
}

reschedule-Keeps :
    (j : Job) (status : Status) (attempt : ℕ) (next : Option ℕ) (last_error : Option String)
    → status ≢ running
    → j.attempt < attempt
    → Keeps (reschedule status attempt next last_error) j
unfolding reschedule has_source is_running_for
reschedule-Keeps j status attempt next last_error t l = record {
  id = λ x. refl;
  source = λ parent source plugin command x. refl;
  stopped = λ c x. ground arith;
  further = λ x e. ground (arith, ap (λ (k : Job). k.attempt) e);
}

complete_job-IsWellFormed :
    (db : Db)
    → IsWellFormed db
    → (id : String) (status : Status) (result last_error : Option String) (stderr : Option (List ℕ))
      (now : ℕ)
    → is_terminal status ≡ true
    → (o : Option Job) → find? (has_id id) db.jobs ≡ o
    → IsWellFormed (commit db (complete_job o status result last_error stderr now db))
unfolding complete_job
complete_job-IsWellFormed db v id status result last_error stderr now t none e = v
complete_job-IsWellFormed db v id status result last_error stderr now t (some j) e =
    update-IsWellFormed db v j (find-found id db e).0 (finish status now last_error)
      (finish-Keeps j status now last_error t) status (finish-status status now last_error)
      last_error now _

-- CompleteWithResult keeps the tables well formed, for every job id and status.
pub complete_with_result-IsWellFormed :
    (job_id : String) (status : Status) (result last_error : Option String)
    (stderr : Option (List ℕ)) (now : ℕ) (db : Db)
    → IsWellFormed db
    → IsWellFormed (commit db (complete_with_result job_id status result last_error stderr now db))
unfolding complete_with_result
complete_with_result-IsWellFormed job_id status result last_error stderr now db v =
    commit-bind IsWellFormed db (reject_if (is_empty job_id) job_id_is_empty) _ v
      (elim (Bool-cases (is_terminal status)) [
        | inl t ↦
            commit-bind IsWellFormed db
              (reject_if (not (is_terminal status)) (invalid_terminal_status status)) _ v
              (complete_job-IsWellFormed db v job_id status result last_error stderr now t _ refl)
        | inr t ↦ rw t v
      ])

-- The row of the id, if there is one, is of an earlier attempt.
abbrev pub IsLater : String → ℕ → Db → Type 0
IsLater job_id attempt db = (j : Job) → find? (has_id job_id) db.jobs ≡ some j → j.attempt < attempt

recover_job-IsWellFormed :
    (db : Db)
    → IsWellFormed db
    → (id : String) (status : Status) (attempt : ℕ) (next : Option ℕ) (last_error : Option String)
      (now : ℕ)
    → status ≢ running
    → IsLater id attempt db
    → (o : Option Job) → find? (has_id id) db.jobs ≡ o
    → IsWellFormed (commit db (recover_job o status attempt next last_error now db))
unfolding recover_job
recover_job-IsWellFormed db v id status attempt next last_error now r l none e = v
recover_job-IsWellFormed db v id status attempt next last_error now r l (some j) e =
    update-IsWellFormed db v j (find-found id db e).0 (reschedule status attempt next last_error)
      (reschedule-Keeps j status attempt next last_error r (l j e)) status
      (reschedule-status status attempt next last_error) last_error now db.log

-- UpdateJobForRecovery keeps the tables well formed where it raises the attempt of the row and does
-- not set it running, as each of its callers does.
pub update_job_for_recovery-IsWellFormed :
    (job_id : String) (status : Status) (attempt : ℕ) (next : Option ℕ) (last_error : String)
    (now : ℕ) (db : Db)
    → IsWellFormed db
    → status ≢ running
    → IsLater job_id attempt db
    → IsWellFormed
        (commit db (update_job_for_recovery job_id status attempt next last_error now db))
unfolding update_job_for_recovery
update_job_for_recovery-IsWellFormed job_id status attempt next last_error now db v r l =
    recover_job-IsWellFormed db v job_id status attempt next _ now r l _ refl
