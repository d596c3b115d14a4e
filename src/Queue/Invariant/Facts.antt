-- ===== src/Queue/Invariant/Facts.antt =====
-- The invariant of the tables, and what appending a fact does to it.
use senechal_gw.Prelude.{
  ℕ, suc, ◌≤◌, ◌<◌, String, ◌≡◌, refl, Bool, true, false, ◌&&◌, Option, none, some, List, [], ◌∷◌,
  arith, any, count_p, All, leb, str_eq, eq_iff, if◌then◌else◌,
}
use senechal_gw.Queue.Table.{
  Job, JobTransition, JobAttempt, Db, Status, queued, has_id, both_eq, record_job_transition,
}
use senechal_gw.Queue.Enqueue.{has_source}
use senechal_gw.Queue.Dequeue.{is_running_for}

-- The status that the last transition of a job recorded.
pub latest : String → List JobTransition → Option Status
latest i [] = none
latest i (t ∷ ts) = elim (latest i ts) [
  | some s ↦ some s
  | none ↦ if str_eq t.job_id i then some t.to_status else none
]

-- The least attempt that a coming start of the job may have.
abbrev pub first_free : Status → ℕ → ℕ
first_free queued n = n
first_free _ n = suc n

-- The fact is of this job, and of its attempt `n` or a later one.
abbrev pub reaches : String → ℕ → JobAttempt → Bool
reaches i n a = str_eq a.job_id i && leb n a.attempt

abbrev pub IsCached : List JobTransition → Job → Type 0
IsCached ts j = latest j.id ts ≡ some j.status

abbrev pub IsAhead : List JobAttempt → Job → Type 0
IsAhead facts j = any (reaches j.id (first_free j.status j.attempt)) facts ≡ false

pub record IsWellFormed (db : Db) : Type 0 where
  -- the primary key
  pub unique_ids : (i : String) → count_p (has_id i) db.jobs ≤ 1
  -- at most one job runs for a dedupe key and target
  pub exclusive : (c : Job) → count_p (is_running_for c) db.jobs ≤ 1
  -- at most one job for a source-event identity
  pub unique_sources :
      (parent source : Option String) (plugin command : String)
      → count_p (has_source parent source plugin command) db.jobs ≤ 1
  -- the status of a row is that of its last transition
  pub cached : All (IsCached db.transitions) db.jobs
  -- no fact of an attempt stands in the way of the next start
  pub ahead : All (IsAhead db.attempts) db.jobs

-- What does not depend on the transitions.
pub record IsSafe (db : Db) : Type 0 where
  pub unique_ids : (i : String) → count_p (has_id i) db.jobs ≤ 1
  pub exclusive : (c : Job) → count_p (is_running_for c) db.jobs ≤ 1
  pub unique_sources :
      (parent source : Option String) (plugin command : String)
      → count_p (has_source parent source plugin command) db.jobs ≤ 1
  pub ahead : All (IsAhead db.attempts) db.jobs

-- A fact about one job leaves the others' last status.
pub latest-record :
    (i j : String) (from : Option Status) (to : Status) (reason : Option String) (now : ℕ)
    (ts : List JobTransition)
    → latest i (record_job_transition j from to reason now ts)
      ≡ (if str_eq j i then some to else latest i ts)
unfolding latest record_job_transition
latest-record i j from to reason now [] = ground arith
latest-record i j from to reason now (t ∷ ts) =
    ground (arith, latest-record i j from to reason now ts)

pub str_eq_refl : (s : String) → str_eq s s ≡ true
str_eq_refl s = (eq_iff s s).1 refl

pub str_eq_sym : (s t : String) → str_eq s t ≡ false → str_eq t s ≡ false
str_eq_sym s t h = ground (arith, eq_iff s t, eq_iff t s)

pub both_eq_join :
    (a b c : Option String) → both_eq a c ≡ true → both_eq b c ≡ true → both_eq a b ≡ true
both_eq_join none b c p q = cc
both_eq_join (some x) none c p q = cc
both_eq_join (some x) (some y) none p q = cc
both_eq_join (some x) (some y) (some z) p q = ground (arith, eq_iff x z, eq_iff y z, eq_iff x y)

-- A start at the row's attempt goes past the facts that the row was ahead of.
pub reaches_past :
    (s : Status) (i : String) (n m : ℕ) (a : JobAttempt)
    → n < m
    → reaches i m a ≡ true
    → reaches i (first_free s n) a ≡ true
reaches_past queued i n m a l h = ground arith
reaches_past _ i n m a l h = ground arith
