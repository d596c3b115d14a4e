-- ===== src/Queue/Dedupe.antt =====
-- What Enqueue drops: duplicates by dedupe key and redeliveries of a source event.
use mathlib.Core.List.{Memᴰ}
use senechal_gw.Prelude.{
  ℕ, String, ◌≡◌, ◌≢◌, refl, sym, ap, subst, ◌∙◌, ◌⊎◌, inl, inr, Bool, true, false, none, some,
  List, [], ◌∷◌, ◌++◌, arith, any, select, All, is_empty, trim_space, str_eq, eq_iff, Bool-cases,
  Option-cases,
}
use senechal_gw.Prelude.Rows.{All-select, All-of_mem}
use senechal_gw.Stamp.{stamp_le}
use senechal_gw.Queue.Table.{
  Job, Db, Result, ok, err, ◌>>◌, reject_if, dedupe_drop, source_event_conflict, plugin_is_empty,
  command_is_empty, submitted_by_is_empty, queued, record_job_transition,
}
use senechal_gw.Queue.Enqueue.{
  Queue, EnqueueRequest, newest, holds_key, find_outstanding, dedupe, has_source, is_ignored,
  new_job, insert_or_ignore, enqueue,
}
use senechal_gw.Queue.Invariant.Facts.{str_eq_refl}

-- The request passes the checks for empty fields.
pub record IsComplete (req : EnqueueRequest) : Type 0 where
  pub plugin : is_empty req.plugin ≡ false
  pub command : is_empty req.command ≡ false
  pub submitted_by : is_empty req.submitted_by ≡ false

All-newest : (P : Job → Type 0) (xs : List Job) {x : Job} → All P xs → newest xs ≡ some x → P x
unfolding newest
All-newest P [] h e = cc
All-newest P (y ∷ ys) {x} h e = elim (Option-cases (newest ys)) [
  | inl n ↦ let s : y ≡ x = ground (arith, n, e) in subst P s h.0
  | inr (z, n) ↦ elim (Bool-cases (stamp_le y.created_at z.created_at)) [
    | inl t ↦ let s : z ≡ x = ground (arith, n, t, e) in subst P s (All-newest P ys h.1 n)
    | inr t ↦ let s : y ≡ x = ground (arith, n, t, e) in subst P s h.0
  ]
]

newest_some : (xs : List Job) → xs ≢ [] → newest xs ≢ none
unfolding newest
newest_some [] h e = h refl
newest_some (x ∷ xs) h e = ground arith

select_some : (p : Job → Bool) (xs : List Job) → any p xs ≡ true → select p xs ≢ []
unfolding select any
select_some p [] h e = cc
select_some p (x ∷ xs) h e = ground (arith, select_some p xs)

found_outstanding :
    (plugin command key : String) (db : Db)
    → any (holds_key plugin command key) db.jobs ≡ true
    → (j : Job) × (find_outstanding plugin command key db ≡ some j)
      × Memᴰ j db.jobs
      × (holds_key plugin command key j ≡ true)
unfolding find_outstanding
found_outstanding plugin command key db h =
    elim (Option-cases (newest (select (holds_key plugin command key) db.jobs))) [
      | inl n ↦ absurd (newest_some _ (select_some _ db.jobs h) n)
      | inr (j, n) ↦
          let held =
            All-newest (λ x. Memᴰ x db.jobs × (holds_key plugin command key x ≡ true)) _
              (All-select (λ x. Memᴰ x db.jobs) (holds_key plugin command key) db.jobs
                (All-of_mem (λ x. Memᴰ x db.jobs) db.jobs (λ x m. m)))
              n in
          (j, n, held.0, held.1)
    ]

-- A complete request with a TTL of its own, whose trimmed key is not empty and is held by a queued or
-- running job of its plugin and command, is dropped: the error names the key and such a job.
pub enqueue-drops_outstanding :
    (id : String) (q : Queue) (req : EnqueueRequest) (now : ℕ) (db : Db) (raw : String) (ttl : ℕ)
    → IsComplete req
    → req.dedupe_key ≡ some raw
    → req.dedupe_ttl ≡ some ttl
    → is_empty (trim_space raw) ≡ false
    → any (holds_key req.plugin req.command (trim_space raw)) db.jobs ≡ true
    → (j : Job) × Memᴰ j db.jobs
      × (holds_key req.plugin req.command (trim_space raw) j ≡ true)
      × (enqueue id q req now db ≡ err (dedupe_drop (trim_space raw) j.id))
unfolding enqueue dedupe
enqueue-drops_outstanding id q req now db raw ttl c k t n h =
    let (j, e, m, held) = found_outstanding req.plugin req.command (trim_space raw) db h in
    (j, m, held, ground (arith, c, k, t, n, e))

-- The row that a request inserts shares its source-event identity.
new_job-has_source :
    (id : String) (q : Queue) (req : EnqueueRequest) (now : ℕ) (parent source : String)
    → req.parent_job_id ≡ some parent
    → req.source_event_id ≡ some source
    → has_source req.parent_job_id req.source_event_id req.plugin req.command (new_job id q req now)
      ≡ true
unfolding has_source new_job
new_job-has_source id q req now parent source p s =
    ground (
      arith,
      str_eq_refl parent,
      str_eq_refl source,
      str_eq_refl req.plugin,
      str_eq_refl req.command,
    )

any-append_last :
    (p : Job → Bool) (xs : List Job) (y : Job) → p y ≡ true → any p (xs ++ y ∷ []) ≡ true
unfolding any
any-append_last p [] y h = ground arith
any-append_last p (x ∷ xs) y h = ground (arith, any-append_last p xs y h)

-- The tables after an insertion.
abbrev pub inserted : String → Queue → EnqueueRequest → ℕ → Db → Db
inserted id q req now db = record db {
  jobs = db.jobs ++ new_job id q req now ∷ [];
  transitions = record_job_transition id none queued none now db.transitions;
}

-- After an insertion or a conflict the row of the identity is there.
has_source-after :
    (id : String) (q : Queue) (req : EnqueueRequest) (now : ℕ) (db : Db) (parent source : String)
    {r : String × Db}
    → req.parent_job_id ≡ some parent
    → req.source_event_id ≡ some source
    → is_empty (trim_space source) ≡ false
    → insert_or_ignore id q req now db ≡ ok r
    → any (has_source req.parent_job_id req.source_event_id req.plugin req.command) r.1.jobs ≡ true
unfolding insert_or_ignore
has_source-after id q req now db parent source {r} p s n e =
    elim (Bool-cases (is_ignored id req db)) [
      | inl t ↦ ground arith
      | inr t ↦
          let eq : inserted id q req now db ≡ r.1 = ground (arith, t, e) in
          subst
            (λ d.
              any (has_source req.parent_job_id req.source_event_id req.plugin req.command) d.jobs
              ≡ true)
            eq (any-append_last _ db.jobs _ (new_job-has_source id q req now parent source p s))
    ]

without_key :
    (id : String) (q : Queue) (req : EnqueueRequest) (now : ℕ) (db : Db)
    → IsComplete req
    → req.dedupe_key ≡ none
    → enqueue id q req now db ≡ insert_or_ignore id q req now db
unfolding enqueue dedupe
without_key id q req now db c k = ground (arith, c, k)

conflict_of_source :
    (id : String) (q : Queue) (req : EnqueueRequest) (now : ℕ) (db : Db) (parent source : String)
    → req.parent_job_id ≡ some parent
    → req.source_event_id ≡ some source
    → is_empty (trim_space source) ≡ false
    → any (has_source req.parent_job_id req.source_event_id req.plugin req.command) db.jobs ≡ true
    → insert_or_ignore id q req now db
      ≡ err (source_event_conflict parent source req.plugin req.command)
unfolding insert_or_ignore is_ignored
conflict_of_source id q req now db parent source p s n h = ground (arith, p, s, n, h)

-- A source event that was delivered once is refused when it is delivered again: where a complete
-- request without dedupe key, with a parent and a source event that is not blank, was accepted, the
-- same request meets a conflict on the tables that the first left, whatever the new id, queue and time.
pub enqueue-redelivery :
    (id id' : String) (q q' : Queue) (req : EnqueueRequest) (now now' : ℕ) (db : Db)
    (parent source : String) (r : String × Db)
    → IsComplete req
    → req.dedupe_key ≡ none
    → req.parent_job_id ≡ some parent
    → req.source_event_id ≡ some source
    → is_empty (trim_space source) ≡ false
    → enqueue id q req now db ≡ ok r
    → enqueue id' q' req now' r.1 ≡ err (source_event_conflict parent source req.plugin req.command)
enqueue-redelivery id id' q q' req now now' db parent source r c k p s n e =
    without_key id' q' req now' r.1 c k
    ∙ conflict_of_source id' q' req now' r.1 parent source p s n (
        has_source-after id q req now db parent source p s n
          (sym (without_key id q req now db c k) ∙ e))

-- A source event id that is blank but not NULL stands in the index, and not in the check for a
-- conflict: where its identity is there already, the request is answered by the new id, and no row is
-- inserted.
pub enqueue-blank_source :
    (id : String) (q : Queue) (req : EnqueueRequest) (now : ℕ) (db : Db) (source : String)
    → IsComplete req
    → req.dedupe_key ≡ none
    → req.source_event_id ≡ some source
    → is_empty (trim_space source) ≡ true
    → any (has_source req.parent_job_id req.source_event_id req.plugin req.command) db.jobs ≡ true
    → enqueue id q req now db ≡ ok (id, db)
unfolding insert_or_ignore is_ignored
enqueue-blank_source id q req now db source c k s n h =
    without_key id q req now db c k ∙ lost id q req now db source s n h
  where
    lost :
        (id : String) (q : Queue) (req : EnqueueRequest) (now : ℕ) (db : Db) (source : String)
        → req.source_event_id ≡ some source
        → is_empty (trim_space source) ≡ true
        → any (has_source req.parent_job_id req.source_event_id req.plugin req.command) db.jobs
          ≡ true
        → insert_or_ignore id q req now db ≡ ok (id, db)
    lost id q req now db source s n h = ground (arith, s, n, h)

select-append_last :
    (p : Job → Bool) (xs : List Job) (y : Job) → p y ≡ false → select p (xs ++ y ∷ []) ≡ select p xs
unfolding select
select-append_last p [] y h = ground arith
select-append_last p (x ∷ xs) y h = ground (arith, select-append_last p xs y h)

new_job-unseen :
    (id : String) (q : Queue) (req : EnqueueRequest) (now : ℕ) (raw key : String)
    → req.dedupe_key ≡ some raw
    → raw ≢ key
    → holds_key req.plugin req.command key (new_job id q req now) ≡ false
unfolding holds_key new_job
new_job-unseen id q req now raw key k n = elim (Bool-cases (str_eq raw key)) [
  | inl e ↦ absurd (n ((eq_iff raw key).0 e))
  | inr e ↦ ground (arith, k, e)
]

inserted-unseen :
    (id : String) (q : Queue) (req : EnqueueRequest) (now : ℕ) (db : Db) (raw key : String)
    → req.dedupe_key ≡ some raw
    → raw ≢ key
    → find_outstanding req.plugin req.command key (inserted id q req now db)
      ≡ find_outstanding req.plugin req.command key db
unfolding find_outstanding
inserted-unseen id q req now db raw key k n =
    ap newest (select-append_last _ db.jobs _ (new_job-unseen id q req now raw key k n))

-- A check that is followed by success has passed.
then-ok : {A : Type 0} (m : Result (Unit {0})) (n : Result A) {a : A} → (m >> n) ≡ ok a → n ≡ ok a
then-ok (ok u) n h = h
then-ok (err e) n h = cc

insert-tables :
    (id : String) (q : Queue) (req : EnqueueRequest) (now : ℕ) (db : Db) {r : String × Db}
    → insert_or_ignore id q req now db ≡ ok r
    → (r.1 ≡ db) ⊎ (r.1 ≡ inserted id q req now db)
unfolding insert_or_ignore
insert-tables id q req now db e = elim (Bool-cases (is_ignored id req db)) [
  | inl t ↦ inl (ground (arith, t, e))
  | inr t ↦ inr (ground (arith, t, e))
]

ok_tables :
    (id : String) (q : Queue) (req : EnqueueRequest) (now : ℕ) (db : Db) {r : String × Db}
    → enqueue id q req now db ≡ ok r
    → (r.1 ≡ db) ⊎ (r.1 ≡ inserted id q req now db)
unfolding enqueue
ok_tables id q req now db e = insert-tables id q req now db (
    then-ok (dedupe req.dedupe_key q req now db) _ (
      then-ok (reject_if (is_empty req.submitted_by) submitted_by_is_empty) _ (
        then-ok (reject_if (is_empty req.command) command_is_empty) _
          (then-ok (reject_if (is_empty req.plugin) plugin_is_empty) _ e))))

-- A job whose key has blanks around it is not seen by the lookup that Enqueue makes for the same
-- key: the lookup trims the key and the row holds it as given. So it drops no later duplicate.
pub enqueue-padded_key :
    (id : String) (q : Queue) (req : EnqueueRequest) (now : ℕ) (db : Db) (raw : String)
    (r : String × Db)
    → req.dedupe_key ≡ some raw
    → raw ≢ trim_space raw
    → enqueue id q req now db ≡ ok r
    → find_outstanding req.plugin req.command (trim_space raw) r.1
      ≡ find_outstanding req.plugin req.command (trim_space raw) db
enqueue-padded_key id q req now db raw r k n e = elim (ok_tables id q req now db e) [
  | inl s ↦ rw s
  | inr s ↦ rw s (inserted-unseen id q req now db raw (trim_space raw) k n)
]
