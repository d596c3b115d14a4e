-- ===== src/Scheduler/Recovery/Orphans.antt =====
-- What recoverOrphanedJobs of internal/scheduler/scheduler.go leaves in the table.
use senechal_gw.Prelude.{
  ℕ, suc, ◌<◌, String, ◌≡◌, refl, sym, ◌∙◌, subst, inl, inr, true, false, none, some, List, [], ◌∷◌,
  map, arith, is_empty, leb, str_append, select, count_p, find?, update_where, All, Bool-cases,
  if◌then◌else◌,
}
use senechal_gw.Prelude.Rows.{All-select, All-update}
use senechal_gw.Prelude.Picks.{
  find?-picked, select-update_picked, update_where-picked, map-update_picked, map-none,
  find?-update, update-update,
}
use senechal_gw.Queue.Table.{
  Job, Db, queued, running, dead, Result, ok, err, commit, has_id, status_eq,
}
use senechal_gw.Queue.Complete.{
  complete_with_result, update_job_for_recovery, recover_job, complete_job, reschedule, finish,
  transition_to, non_empty,
}
use senechal_gw.Queue.Reads.{find_jobs_by_status, has_status}
use senechal_gw.Queue.Invariant.Facts.{IsWellFormed, str_eq_refl}
use senechal_gw.Queue.Invariant.Ending.{
  IsLater, complete_with_result-IsWellFormed, update_job_for_recovery-IsWellFormed,
}
use senechal_gw.Scheduler.Recovery.{
  RecoveryEvent, dead_message, after_dead, recover_orphan, recover_each, recover_orphaned_jobs,
  also,
}

-- A job that ran goes back to the queue with another attempt, or is dead where it has none left.
pub recovered : ℕ → Job → Job
recovered now j =
    if status_eq j.status running
    then (if leb (suc j.attempt) j.max_attempts
        then record j {
          status = queued;
          attempt = suc j.attempt;
          next_retry_at = none;
          last_error = none;
        }
        else record j {
          status = dead;
          attempt = suc j.attempt;
          next_retry_at = none;
          last_error = some (dead_message j.max_attempts);
          completed_at = some now;
        })
    else j

recovered-stopped : (now : ℕ) (j : Job) → has_status running (recovered now j) ≡ false
unfolding recovered
recovered-stopped now j = ground arith

recovered-again : (now : ℕ) (j : Job) → recovered now (recovered now j) ≡ recovered now j
unfolding recovered
recovered-again now j = ground arith

recovered-others : (now : ℕ) (j : Job) → has_status running j ≡ false → recovered now j ≡ j
unfolding recovered
recovered-others now j h = rw h refl

recovered-id : (now : ℕ) (i : String) (j : Job) → has_id i (recovered now j) ≡ has_id i j
unfolding recovered
recovered-id now i j = ground arith

recovered-named :
    (now : ℕ) (j : Job) → is_empty j.id ≡ false → is_empty (recovered now j).id ≡ false
unfolding recovered
recovered-named now j h = ground arith

-- The facts about one orphan that its recovery needs.
record IsOrphan (j : Job) (js : List Job) (db : Db) : Type 0 where
  first : select (has_status running) db.jobs ≡ j ∷ js
  named : is_empty j.id ≡ false
  runs : status_eq j.status running ≡ true

found :
    (j : Job) (js : List Job) (db : Db)
    → IsWellFormed db
    → IsOrphan j js db
    → find? (has_id j.id) db.jobs ≡ some j
found j js db v o =
    find?-picked (has_status running) (has_id j.id) db.jobs o.first (str_eq_refl j.id)
      (v.unique_ids j.id)

reschedule-recovered :
    (now : ℕ) (j : Job)
    → status_eq j.status running ≡ true
    → leb (suc j.attempt) j.max_attempts ≡ true
    → reschedule queued (suc j.attempt) none none j ≡ recovered now j
unfolding reschedule recovered
reschedule-recovered now j r l = rw (r, l) refl

named_message : (n : ℕ) → non_empty (some (dead_message n)) ≡ some (dead_message n)
unfolding str_append
named_message n = refl

-- What the update of a dead orphan makes of its row.
abbrev lose : Job → Job → Job
lose j = reschedule dead (suc j.attempt) none (some (dead_message j.max_attempts))

abbrev end : ℕ → Job → Job → Job
end now j = finish dead now (some (dead_message j.max_attempts))

finish-recovered :
    (now : ℕ) (j : Job)
    → status_eq j.status running ≡ true
    → leb (suc j.attempt) j.max_attempts ≡ false
    → end now j (lose j j) ≡ recovered now j
unfolding reschedule finish recovered
finish-recovered now j r l = rw (r, l) refl

lose-id : (j x : Job) → has_id j.id (lose j x) ≡ has_id j.id x
unfolding reschedule
lose-id j x = refl

lose_same-id : (j : Job) → (lose j j).id ≡ j.id
unfolding reschedule
lose_same-id j = refl

-- The update of a dead orphan.
abbrev update_dead : ℕ → Job → Db → Result (Unit {0} × Db)
update_dead now j db =
    update_job_for_recovery j.id dead (suc j.attempt) none (dead_message j.max_attempts) now db

update-found :
    (now : ℕ) (j : Job) (db : Db)
    → find? (has_id j.id) db.jobs ≡ some j
    → (db' : Db) × (update_dead now j db ≡ ok (tt, db'))
      × (db'.jobs ≡ update_where (has_id j.id) (lose j) db.jobs)
unfolding update_job_for_recovery recover_job
update-found now j db f = (
  record db {
    jobs = update_where (has_id j.id) (lose j) db.jobs;
    transitions = transition_to j dead (some (dead_message j.max_attempts)) now db.transitions;
  },
  rw (f, named_message j.max_attempts) refl,
  refl,
)

completed-found :
    (now : ℕ) (j j' : Job) (db : Db)
    → is_empty j.id ≡ false
    → find? (has_id j.id) db.jobs ≡ some j'
    → (commit db
        (complete_with_result j.id dead none (some (dead_message j.max_attempts)) none now db)).jobs
      ≡ update_where (has_id j'.id) (finish dead now (some (dead_message j.max_attempts))) db.jobs
unfolding complete_with_result complete_job
completed-found now j j' db n f = rw (n, f) refl

recover_orphan-jobs :
    (j : Job) (js : List Job) (now : ℕ) (db : Db)
    → IsWellFormed db
    → IsOrphan j js db
    → (recover_orphan j now db).0.jobs ≡ update_where (has_id j.id) (recovered now) db.jobs
unfolding recover_orphan after_dead update_job_for_recovery recover_job
recover_orphan-jobs j js now db v o = elim (Bool-cases (leb (suc j.attempt) j.max_attempts)) [
  | inl l ↦
      rw (l, found j js db v o)
        (update_where-picked (has_status running) (has_id j.id) _ _ db.jobs o.first
          (str_eq_refl j.id) (reschedule-recovered now j o.runs l) (v.unique_ids j.id))
  | inr l ↦
      let f = found j js db v o in
      let (db', w, e) = update-found now j db f in
      let g = find?-update (has_id j.id) (lose j) (lose-id j) db.jobs f in
      let c = completed-found now j (lose j j) db' o.named (rw e g) in
      let u = update-update (has_id j.id) (end now j) (lose j) (lose-id j) db.jobs in
      let t =
        update_where-picked (has_status running) (has_id j.id) (λ x. end now j (lose j x))
          (recovered now) db.jobs o.first (str_eq_refl j.id) (finish-recovered now j o.runs l)
          (v.unique_ids j.id) in
      rw (l, w) (c ∙ rw (e, lose_same-id j) (u ∙ t))
]

orphan-IsLater :
    (j : Job) (js : List Job) (db : Db)
    → IsWellFormed db
    → IsOrphan j js db
    → IsLater j.id (suc j.attempt) db
orphan-IsLater j js db v o k e =
    let q : j ≡ k = ground (arith, found j js db v o, e) in
    subst (λ (x : Job). x.attempt < suc j.attempt) q (omega arith)

after_dead-IsWellFormed :
    (j : Job) (now : ℕ) (db : Db) (r : Result (Unit {0} × Db))
    → IsWellFormed db
    → IsWellFormed (commit db r)
    → IsWellFormed (after_dead j now db r).0
unfolding after_dead
after_dead-IsWellFormed j now db (err e) v w = v
after_dead-IsWellFormed j now db (ok (x, db')) v w =
    complete_with_result-IsWellFormed j.id dead none (some (dead_message j.max_attempts)) none now
      db' w

recover_orphan-IsWellFormed :
    (j : Job) (js : List Job) (now : ℕ) (db : Db)
    → IsWellFormed db
    → IsOrphan j js db
    → IsWellFormed (recover_orphan j now db).0
unfolding recover_orphan
recover_orphan-IsWellFormed j js now db v o =
    elim (Bool-cases (leb (suc j.attempt) j.max_attempts)) [
      | inl l ↦ rw l (
          update_job_for_recovery-IsWellFormed j.id queued (suc j.attempt) none "" now db v
            (λ e. cc) (orphan-IsLater j js db v o))
      | inr l ↦ rw l (
          after_dead-IsWellFormed j now db _ v (
            update_job_for_recovery-IsWellFormed j.id dead (suc j.attempt) none
              (dead_message j.max_attempts) now db v (λ e. cc) (orphan-IsLater j js db v o)))
    ]

abbrev pub IsNamed : Job → Type 0
IsNamed j = is_empty j.id ≡ false

-- What the recovery of a list of orphans leaves.
record Recovers (now : ℕ) (db db' : Db) : Type 0 where
  jobs : db'.jobs ≡ map (recovered now) db.jobs
  kept : IsWellFormed db'

also-db : (es : List RecoveryEvent) (r : Db × List RecoveryEvent) → (also es r).0 ≡ r.0
also-db es r = refl

recover_each-Recovers :
    (js : List Job) (now : ℕ) (db : Db)
    → IsWellFormed db
    → All IsNamed db.jobs
    → select (has_status running) db.jobs ≡ js
    → Recovers now db (recover_each js now db).0
unfolding recover_each
recover_each-Recovers [] now db v n e = record {
  jobs = sym (map-none (has_status running) (recovered now) (recovered-others now) db.jobs e);
  kept = v;
}
recover_each-Recovers (j ∷ js) now db v n e =
    let a = All-select IsNamed (has_status running) db.jobs n in
    let h = subst (All (λ x. IsNamed x × (has_status running x ≡ true))) e a in
    let o : IsOrphan j js db = record { first = e; named = h.0.0; runs = h.0.1 } in
    let db' = (recover_orphan j now db).0 in
    let w = recover_orphan-jobs j js now db v o in
    let r =
      recover_each-Recovers js now db' (recover_orphan-IsWellFormed j js now db v o)
        (rw w (
          All-update IsNamed IsNamed (has_id j.id) (recovered now)
            (λ x p q. recovered-named now x p) (λ x p q. p) db.jobs n))
        (rw w (
          select-update_picked (has_status running) (has_id j.id) (recovered now) db.jobs e
            (str_eq_refl j.id) (recovered-stopped now j) (v.unique_ids j.id))) in
    record {
      jobs =
          r.jobs
          ∙ rw w (
              map-update_picked (has_status running) (has_id j.id) (recovered now) db.jobs e
                (str_eq_refl j.id) (recovered-again now j) (v.unique_ids j.id));
      kept = r.kept;
    }

count_p-recovered :
    (now : ℕ) (jobs : List Job) → count_p (has_status running) (map (recovered now) jobs) ≡ 0
unfolding count_p
count_p-recovered now [] = refl
count_p-recovered now (j ∷ js) = rw (recovered-stopped now j) (count_p-recovered now js)

-- On well-formed tables whose jobs have non-empty ids, recoverOrphanedJobs makes of every running job a
-- queued one with another attempt where it has one left, and else a dead and completed one with the
-- message of the recovery; the other rows stay. No job is running then, and the tables are well formed.
pub recover_orphaned_jobs-recovers :
    (now : ℕ) (db : Db)
    → IsWellFormed db
    → All IsNamed db.jobs
    → ((recover_orphaned_jobs now db).0.jobs ≡ map (recovered now) db.jobs)
      × (count_p (has_status running) (recover_orphaned_jobs now db).0.jobs ≡ 0)
      × IsWellFormed (recover_orphaned_jobs now db).0
unfolding recover_orphaned_jobs find_jobs_by_status
recover_orphaned_jobs-recovers now db v n =
    let r = recover_each-Recovers (select (has_status running) db.jobs) now db v n refl in
    (r.jobs, rw r.jobs (count_p-recovered now db.jobs), r.kept)
