-- ===== src/Queue/Order.antt =====
-- Which job DequeueEligible claims, and when it finds none.
use senechal_gw.Prelude.{
  ℕ, String, ◌≡◌, refl, sym, ap, subst, inl, inr, Bool, true, false, Option, none, some, List, [],
  ◌∷◌, ◌++◌, arith, any, select, All, update_where, Bool-cases, Option-cases,
}
use senechal_gw.Prelude.Rows.{All-map, All-append}
use senechal_gw.Stamp.{stamp_le}
use senechal_gw.Stamp.Order.{stamp_le_total, stamp_le_trans}
use senechal_gw.Queue.Table.{Job, Db, Result, ok, queued, running, has_id, record_job_transition}
use senechal_gw.Queue.Dequeue.{
  oldest, is_eligible, start, snapshot_now, claim_next, dequeue_eligible,
}
use senechal_gw.Queue.Invariant.Facts.{IsWellFormed}
use senechal_gw.Queue.Invariant.Start.{
  claim-eq, claimed, oldest-Eligible, eligible_queued, eligible_alone,
}

-- `x` is the first row that passes, by created_at and then by rowid.
pub record IsFirst (p : Job → Bool) (xs : List Job) (x : Job) : Type 0 where
  pub before : List Job
  pub after : List Job
  pub split : xs ≡ before ++ x ∷ after
  pub passes : p x ≡ true
  pub newer : All (λ y. p y ≡ true → stamp_le y.created_at x.created_at ≡ false) before
  pub no_older : All (λ y. p y ≡ true → stamp_le x.created_at y.created_at ≡ true) after

oldest-none : (xs : List Job) → oldest xs ≡ none → xs ≡ []
unfolding oldest
oldest-none [] e = refl
oldest-none (x ∷ xs) e = elim (Option-cases (oldest xs)) [
  | inl n ↦ ground (arith, n, e)
  | inr (z, n) ↦ ground (arith, n, e)
]

select-none : (p : Job → Bool) (xs : List Job) → select p xs ≡ [] → any p xs ≡ false
unfolding select any
select-none p [] e = refl
select-none p (x ∷ xs) e = ground (arith, select-none p xs)

none_after :
    (p : Job → Bool) (t : ℕ) (xs : List Job)
    → any p xs ≡ false
    → All (λ y. p y ≡ true → stamp_le t y.created_at ≡ true) xs
unfolding any
none_after p t [] h = tt
none_after p t (x ∷ xs) h = (λ k. ground (arith, h, k), none_after p t xs (ground (arith, h)))

-- Whatever is no older than `z` is no older than a row that is no older than it.
lower :
    (p : Job → Bool) (s : ℕ) (xs : List Job) {z : Job}
    → stamp_le s z.created_at ≡ true
    → IsFirst p xs z
    → All (λ y. p y ≡ true → stamp_le s y.created_at ≡ true) xs
lower p s xs {z} l f =
    subst (All (λ y. p y ≡ true → stamp_le s y.created_at ≡ true)) (sym f.split) (
      All-append _ f.before (z ∷ f.after)
        (All-map _ _ (λ y h k. stamp_le_trans s z.created_at y.created_at l (turn y (h k))) f.before
          f.newer)
        (
          λ k. l,
          All-map _ _ (λ y h k. stamp_le_trans s z.created_at y.created_at l (h k)) f.after
              f.no_older,
        ))
  where
    turn :
        (y : Job)
        → stamp_le y.created_at z.created_at ≡ false
        → stamp_le z.created_at y.created_at ≡ true
    turn y h = ground (arith, stamp_le_total y.created_at z.created_at, h)

IsFirst-here :
    (p : Job → Bool) (y : Job) (ys : List Job)
    → p y ≡ true
    → All (λ z. p z ≡ true → stamp_le y.created_at z.created_at ≡ true) ys
    → IsFirst p (y ∷ ys) y
IsFirst-here p y ys t h = record {
  before = [];
  after = ys;
  split = refl;
  passes = t;
  newer = tt;
  no_older = h;
}

oldest-IsFirst :
    (p : Job → Bool) (xs : List Job) {x : Job} → oldest (select p xs) ≡ some x → IsFirst p xs x
unfolding select oldest
oldest-IsFirst p [] e = cc
oldest-IsFirst p (y ∷ ys) {x} e = elim (Bool-cases (p y)) [
  | inr t ↦
      let f : IsFirst p ys x = oldest-IsFirst p ys (rw (t, select) at e) in
      record {
        before = y ∷ f.before;
        after = f.after;
        split = ap (λ (l : List Job). y ∷ l) f.split;
        passes = f.passes;
        newer = (λ k. cc, f.newer);
        no_older = f.no_older;
      }
  | inl t ↦ elim (Option-cases (oldest (select p ys))) [
    | inl n ↦
        let s : y ≡ x = ground (arith, t, n, e) in
        subst (IsFirst p (y ∷ ys)) s (
          IsFirst-here p y ys t
            (none_after p y.created_at ys (select-none p ys (oldest-none (select p ys) n))))
    | inr (z, n) ↦ elim (Bool-cases (stamp_le y.created_at z.created_at)) [
      | inl l ↦
          let s : y ≡ x = ground (arith, t, n, l, e) in
          subst (IsFirst p (y ∷ ys)) s
            (IsFirst-here p y ys t (lower p y.created_at ys l (oldest-IsFirst p ys n)))
      | inr l ↦
          let s : z ≡ x = ground (arith, t, n, l, e) in
          let f : IsFirst p ys z = oldest-IsFirst p ys n in
          subst (IsFirst p (y ∷ ys)) s (record {
            before = y ∷ f.before;
            after = f.after;
            split = ap (λ (l : List Job). y ∷ l) f.split;
            passes = f.passes;
            newer = (λ k. l, f.newer);
            no_older = f.no_older;
          })
    ]
  ]
]

-- What DequeueEligible answers on tables `db`: nothing, where no job is eligible, and else the first
-- eligible job, set running in the tables by an update of its row alone.
pub data Dequeued (now : ℕ) (skip keys : List String) (provider : Option String) (db : Db)
    (r : Result (Option Job × Db)) : Type 0 where
  idle :
      any (is_eligible now skip keys db.jobs) db.jobs ≡ false
      → r ≡ ok (none, db)
      → Dequeued now skip keys provider db r
  claims :
      (next : Job) (db' : Db)
      → IsFirst (is_eligible now skip keys db.jobs) db.jobs next
      → r ≡ ok (some (start now (snapshot_now provider) next), db')
      → db'.jobs ≡ update_where (has_id next.id) (start now (snapshot_now provider)) db.jobs
      → db'.transitions
        ≡ record_job_transition next.id (some queued) running none now db.transitions
      → db'.log ≡ db.log
      → Dequeued now skip keys provider db r

claim_next-Dequeued :
    (now : ℕ) (skip keys : List String) (provider : Option String) (db : Db)
    → IsWellFormed db
    → (o : Option Job) → oldest (select (is_eligible now skip keys db.jobs) db.jobs) ≡ o
    → Dequeued now skip keys provider db (claim_next o now provider db)
unfolding claim_next claimed start
claim_next-Dequeued now skip keys provider db v none e =
    idle (select-none _ db.jobs (oldest-none _ e)) refl
claim_next-Dequeued now skip keys provider db v (some next) e =
    let (m, t) = oldest-Eligible now skip keys db.jobs e in
    let q = eligible_queued now skip keys db.jobs next t in
    let a = eligible_alone now skip keys db.jobs next t in
    claims next (claimed db v next now provider m q a) (oldest-IsFirst _ db.jobs e)
      (claim-eq db v next now provider m q a) refl refl refl

-- On well-formed tables DequeueEligible never fails. It answers nothing exactly as the tables stand
-- where no job is eligible, and else claims the eligible job that is first by the text of created_at
-- and then by rowid.
pub dequeue_eligible-Dequeued :
    (now : ℕ) (skip keys : List String) (provider : Option String) (db : Db)
    → IsWellFormed db
    → Dequeued now skip keys provider db (dequeue_eligible skip keys now provider db)
unfolding dequeue_eligible
dequeue_eligible-Dequeued now skip keys provider db v =
    claim_next-Dequeued now skip keys provider db v _ refl
