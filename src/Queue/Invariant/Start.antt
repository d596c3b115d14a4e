-- ===== src/Queue/Invariant/Start.antt =====
-- DequeueEligible keeps the invariant: what it claims is a row of the table that nothing excludes.
use mathlib.Core.List.{Memᴰ}
use senechal_gw.Prelude.{
  ℕ, suc, ◌≤◌, String, ◌≡◌, refl, subst, ap, true, false, Option, none, some, List, [], ◌∷◌, ◌++◌,
  arith, any, select, count_p, All, update_where, eq_iff, Bool-cases, Option-cases, true-ne-false,
  inl, inr,
}
use senechal_gw.Prelude.Rows.{
  All-get, All-of_mem, All-select, All-update, unique_row, count_p-update_le, count_p-update_keep,
  any-count_p, any-append_false, any-weaken,
}
use native.Mathlib.Nat.{le_trans}
use senechal_gw.Stamp.{stamp_le}
use senechal_gw.Queue.Table.{
  Job, Db, queued, running, ok, has_id, is_attempt, commit, record_job_transition,
  record_job_attempt,
}
use senechal_gw.Queue.Enqueue.{has_source}
use senechal_gw.Queue.Dequeue.{
  oldest, is_eligible, is_running_for, start, snapshot_now, claim, claim_next, dequeue_eligible,
}
use senechal_gw.Queue.Invariant.Facts.{
  IsWellFormed, IsCached, IsAhead, latest-record, first_free, reaches, reaches_past, both_eq_join,
  str_eq_refl, str_eq_sym,
}

pub All-oldest : (P : Job → Type 0) (xs : List Job) {x : Job} → All P xs → oldest xs ≡ some x → P x
unfolding oldest
All-oldest P [] h e = cc
All-oldest P (y ∷ ys) {x} h e = elim (Option-cases (oldest ys)) [
  | inl n ↦ let s : y ≡ x = ground (arith, n, e) in subst P s h.0
  | inr (z, n) ↦ elim (Bool-cases (stamp_le y.created_at z.created_at)) [
    | inl t ↦ let s : y ≡ x = ground (arith, n, t, e) in subst P s h.0
    | inr t ↦ let s : z ≡ x = ground (arith, n, t, e) in subst P s (All-oldest P ys h.1 n)
  ]
]

abbrev Eligible : ℕ → List String → List String → List Job → Job → Type 0
Eligible now skip keys jobs j = Memᴰ j jobs × (is_eligible now skip keys jobs j ≡ true)

-- What is claimed is a row of the table that passes the WHERE clause.
pub oldest-Eligible :
    (now : ℕ) (skip keys : List String) (jobs : List Job) {x : Job}
    → oldest (select (is_eligible now skip keys jobs) jobs) ≡ some x
    → Memᴰ x jobs × (is_eligible now skip keys jobs x ≡ true)
oldest-Eligible now skip keys jobs e =
    All-oldest (Eligible now skip keys jobs) _
      (All-select (λ j. Memᴰ j jobs) (is_eligible now skip keys jobs) jobs
        (All-of_mem (λ j. Memᴰ j jobs) jobs (λ x m. m)))
      e

pub eligible_queued :
    (now : ℕ) (skip keys : List String) (jobs : List Job) (j : Job)
    → is_eligible now skip keys jobs j ≡ true
    → j.status ≡ queued
unfolding is_eligible
eligible_queued now skip keys jobs j h = ground arith

pub eligible_alone :
    (now : ℕ) (skip keys : List String) (jobs : List Job) (j : Job)
    → is_eligible now skip keys jobs j ≡ true
    → any (is_running_for j) jobs ≡ false
unfolding is_eligible
eligible_alone now skip keys jobs j h = ground arith

module _ (db : Db) (v : IsWellFormed db) (next : Job) (now : ℕ) (provider : Option String)
    (found : Memᴰ next db.jobs) (status : next.status ≡ queued)
    (alone : any (is_running_for next) db.jobs ≡ false) where
  abbrev pub run : Job → Job
  run = start now (snapshot_now provider)

  abbrev pub jobs' : List Job
  jobs' = update_where (has_id next.id) run db.jobs

  same_row : (x : Job) → Memᴰ x db.jobs → has_id next.id x ≡ true → x ≡ next
  same_row x m e =
      unique_row (has_id next.id) db.jobs (v.unique_ids next.id) m found e (str_eq_refl next.id)

  unique_ids-start : (i : String) → count_p (has_id i) jobs' ≤ 1
  unfolding start
  unique_ids-start i =
      le_trans
        (count_p-update_keep (has_id next.id) (has_id i) run db.jobs
          (All-of_mem _ db.jobs (λ x m e r. r)))
        (v.unique_ids i)

  unique_sources-start :
      (parent source : Option String) (plugin command : String)
      → count_p (has_source parent source plugin command) jobs' ≤ 1
  unfolding start has_source
  unique_sources-start parent source plugin command =
      le_trans
        (count_p-update_keep (has_id next.id) (has_source parent source plugin command) run db.jobs
          (All-of_mem _ db.jobs (λ x m e r. r)))
        (v.unique_sources parent source plugin command)

  clash :
      (c x : Job)
      → is_running_for c (run next) ≡ true
      → is_running_for c x ≡ true
      → is_running_for next x ≡ true
  unfolding is_running_for start
  clash c x p q = ground (
    arith,
    both_eq_join x.dedupe_key next.dedupe_key c.dedupe_key,
    eq_iff x.plugin c.plugin,
    eq_iff next.plugin c.plugin,
    eq_iff x.plugin next.plugin,
    eq_iff x.command c.command,
    eq_iff next.command c.command,
    eq_iff x.command next.command,
  )

  exclusive-start : (c : Job) → count_p (is_running_for c) jobs' ≤ 1
  exclusive-start c = elim (Bool-cases (is_running_for c (run next))) [
    | inl e ↦ omega (
      arith,
      count_p-update_le (has_id next.id) (is_running_for c) run db.jobs,
      any-count_p (is_running_for c) db.jobs (
          any-weaken (is_running_for next) (is_running_for c) (λ x q. clash c x e q) db.jobs alone),
      v.unique_ids next.id,
    )
    | inr e ↦
        le_trans
          (count_p-update_keep (has_id next.id) (is_running_for c) run db.jobs
            (All-of_mem _ db.jobs (λ x m h r. absurd (other c x e (same_row x m h) r))))
          (v.exclusive c)
  ]
    where
      other :
          (c x : Job)
          → is_running_for c (run next) ≡ false
          → x ≡ next
          → is_running_for c (run x) ≡ true
          → ⊥
      other c x e s r = true-ne-false _ (rw s at r) e

  IsCached-start :
      All
        (IsCached (record_job_transition next.id (some queued) running none now db.transitions))
        jobs'
  unfolding start
  IsCached-start =
      All-update (IsCached db.transitions) _ (has_id next.id) run
        (λ x h e. rw latest-record (ground (arith, eq_iff x.id next.id, eq_iff next.id x.id)))
        (λ x h e. rw latest-record (ground (arith, str_eq_sym x.id next.id e, h))) db.jobs v.cached

  IsAhead-start :
      All
        (IsAhead (
          db.attempts
          ++ record { job_id = next.id; attempt = next.attempt; created_at = now } ∷ []))
        jobs'
  unfolding start any
  IsAhead-start =
      All-update (λ x. Memᴰ x db.jobs × IsAhead db.attempts x) _ (has_id next.id) run
        (λ x h e.
          any-append_false (reaches x.id (suc x.attempt)) db.attempts _
            (any-weaken (reaches x.id (first_free x.status x.attempt)) _
              (λ a r. reaches_past x.status x.id x.attempt (suc x.attempt) a (omega arith) r)
              db.attempts h.1)
            (ground (arith, ap (λ (j : Job). j.attempt) (same_row x h.0 e))))
        (λ x h e.
          any-append_false (reaches x.id (first_free x.status x.attempt)) db.attempts _ h.1
            (ground (arith, str_eq_sym x.id next.id e)))
        db.jobs (All-of_mem _ db.jobs (λ x m. (m, All-get (IsAhead db.attempts) db.jobs v.ahead m)))

  unfoldable pub claimed : Db
  claimed = record db {
    jobs = jobs';
    transitions = record_job_transition next.id (some queued) running none now db.transitions;
    attempts =
        db.attempts ++ record { job_id = next.id; attempt = next.attempt; created_at = now } ∷ [];
  }

  claimed-IsWellFormed : IsWellFormed claimed
  unfolding claimed
  claimed-IsWellFormed = record {
    unique_ids = unique_ids-start;
    exclusive = exclusive-start;
    unique_sources = unique_sources-start;
    cached = IsCached-start;
    ahead = IsAhead-start;
  }

  no_fact : any (is_attempt next.id next.attempt) db.attempts ≡ false
  no_fact =
      any-weaken (reaches next.id next.attempt) (is_attempt next.id next.attempt)
        (λ a r. ground arith) db.attempts
        (ground (arith, All-get (IsAhead db.attempts) db.jobs v.ahead found))

  pub claim-eq : claim next now provider db ≡ ok (some (run next), claimed)
  unfolding claim record_job_attempt claimed start
  claim-eq = ground (arith, no_fact)

claim_next-IsWellFormed :
    (db : Db)
    → IsWellFormed db
    → (now : ℕ) (skip keys : List String) (provider : Option String) (o : Option Job)
    → oldest (select (is_eligible now skip keys db.jobs) db.jobs) ≡ o
    → IsWellFormed (commit db (claim_next o now provider db))
unfolding claim_next
claim_next-IsWellFormed db v now skip keys provider none e = v
claim_next-IsWellFormed db v now skip keys provider (some next) e =
    let (m, t) = oldest-Eligible now skip keys db.jobs e in
    let q = eligible_queued now skip keys db.jobs next t in
    let a = eligible_alone now skip keys db.jobs next t in
    rw (claim-eq db v next now provider m q a) (claimed-IsWellFormed db v next now provider m q a)

-- DequeueEligible keeps the tables well formed, whatever filters it is given.
pub dequeue_eligible-IsWellFormed :
    (skip keys : List String) (now : ℕ) (provider : Option String) (db : Db)
    → IsWellFormed db
    → IsWellFormed (commit db (dequeue_eligible skip keys now provider db))
unfolding dequeue_eligible
dequeue_eligible-IsWellFormed skip keys now provider db v =
    claim_next-IsWellFormed db v now skip keys provider _ refl
