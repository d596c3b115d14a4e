-- ===== src/Queue/Table.antt =====
-- The tables of internal/storage/schema.sql that internal/queue uses, and the rows that it appends.
-- A table is the list of its rows in the order of their rowid. A nullable column is an `Option`, a
-- time column the time that its text stands for (Stamp).
use senechal_gw.Prelude.{
  ◌⊎◌, inl, inr, ℕ, String, ◌≡◌, refl, Bool, true, false, not, ◌&&◌, Option, none, some, List, [],
  ◌∷◌, ◌++◌, any, str_eq, is_empty, trim_space, ◌==◌, if◌then◌else◌,
}

-- types.go: Status
pub data Status : Type 0 where
  queued running succeeded skipped failed timed_out dead : Status

-- types.go: Job, and the columns of job_queue
pub record Job : Type 0 where
  pub id : String
  pub plugin : String
  pub command : String
  pub payload : Option String
  pub status : Status
  pub attempt : ℕ
  pub max_attempts : ℕ
  pub submitted_by : String
  pub dedupe_key : Option String
  pub created_at : ℕ
  pub started_at : Option ℕ
  pub completed_at : Option ℕ
  pub next_retry_at : Option ℕ
  pub last_error : Option String
  pub parent_job_id : Option String
  pub source_event_id : Option String
  pub event_context_id : Option String
  pub enqueued_config_snapshot_id : Option String
  pub started_config_snapshot_id : Option String

-- types.go: JobTransition, without its id, which is its place in the list
pub record JobTransition : Type 0 where
  pub job_id : String
  pub from_status : Option Status
  pub to_status : Status
  pub reason : Option String
  pub created_at : ℕ

-- types.go: JobAttempt
pub record JobAttempt : Type 0 where
  pub job_id : String
  pub attempt : ℕ
  pub created_at : ℕ

-- The columns of job_log. The id is the text "jobID-attempt", which tells the two apart, as an
-- attempt is digits.
pub record LogRow : Type 0 where
  pub job_id : String
  pub attempt : ℕ
  pub plugin : String
  pub command : String
  pub status : Status
  pub result : Option String
  pub submitted_by : String
  pub created_at : ℕ
  pub completed_at : ℕ
  pub last_error : Option String
  pub stderr : Option (List ℕ)
  pub parent_job_id : Option String
  pub source_event_id : Option String
  pub event_context_id : Option String
  pub enqueued_config_snapshot_id : Option String
  pub started_config_snapshot_id : Option String

pub record Db : Type 0 where
  pub jobs : List Job
  pub transitions : List JobTransition
  pub attempts : List JobAttempt
  pub log : List LogRow

abbrev pub empty : Db
empty = record { jobs = []; transitions = []; attempts = []; log = [] }

-- The errors that the code returns. A failure of SQLite itself is not modelled.
pub data Error : Type 0 where
  plugin_is_empty command_is_empty submitted_by_is_empty job_id_is_empty : Error
  schedule_id_is_empty : Error
  dedupe_drop : String → String → Error
  source_event_conflict : String → String → String → String → Error
  job_not_found load_job_for_completion : Error
  invalid_terminal_status : Status → Error
  unique_attempt : String → ℕ → Error
  selected_but_updated : ℕ → ℕ → Error

-- What an operation returns.
pub data Result {ℓ} (A : Type ℓ) : Type ℓ where
  err : Error → Result A
  ok : A → Result A

-- if test { return err }
abbrev pub reject_if : Bool → Error → Result (Unit {0})
reject_if false e = ok tt
reject_if true e = err e

-- A transaction that returns an error is rolled back.
abbrev pub commit {ℓ} : {A : Type ℓ} → Db → Result (A × Db) → Db
commit before (err e) = before
commit before (ok (a, after)) = after

infixl 5 ◌>>=◌ ◌>>◌
abbrev pub ◌>>=◌ {ℓ κ} : {A : Type ℓ} {B : Type κ} → Result A → (A → Result B) → Result B
err e >>= rest = err e
ok a >>= rest = rest a

abbrev pub ◌>>◌ {ℓ} : {B : Type ℓ} → Result (Unit {0}) → Result B → Result B
check >> rest = check >>= λ _. rest

abbrev pub status_eq : Status → Status → Bool
status_eq queued queued = true
status_eq running running = true
status_eq succeeded succeeded = true
status_eq skipped skipped = true
status_eq failed failed = true
status_eq timed_out timed_out = true
status_eq dead dead = true
status_eq _ _ = false

-- status IN ('queued', 'running')
abbrev pub is_outstanding : Status → Bool
is_outstanding queued = true
is_outstanding running = true
is_outstanding _ = false

-- status IN ('succeeded', 'skipped', 'failed', 'timed_out', 'dead')
abbrev pub is_terminal : Status → Bool
is_terminal s = not (is_outstanding s)

-- A comparison of a nullable column with a value is not true at NULL.
abbrev pub null_eq : Option String → String → Bool
null_eq none s = false
null_eq (some t) s = str_eq t s

-- Two nullable columns, compared by `=` or by a UNIQUE index: NULL equals nothing.
abbrev pub both_eq : Option String → Option String → Bool
both_eq none t = false
both_eq (some s) none = false
both_eq (some s) (some t) = str_eq s t

abbrev pub has_id : String → Job → Bool
has_id i j = str_eq j.id i

abbrev pub is_target : String → String → Job → Bool
is_target plugin command j = str_eq j.plugin plugin && str_eq j.command command

-- A text, or NULL where it is blank: the pattern of reasonVal and of the snapshot ids.
abbrev pub non_blank : String → Option String
non_blank s = if is_empty (trim_space s) then none else some s

abbrev pub blank_to_null : Option String → Option String
blank_to_null none = none
blank_to_null (some s) = non_blank s

-- recordJobTransition
unfoldable pub record_job_transition :
    String → Option Status → Status → Option String → ℕ → List JobTransition → List JobTransition
record_job_transition job_id from to reason created_at ts =
    ts
    ++ record {
      job_id = job_id;
      from_status = from;
      to_status = to;
      reason = blank_to_null reason;
      created_at = created_at;
    }
      ∷ []

abbrev pub is_attempt : String → ℕ → JobAttempt → Bool
is_attempt job_id n a = str_eq a.job_id job_id && a.attempt == n

-- recordJobAttempt, with the constraint UNIQUE(job_id, attempt) of the table
unfoldable pub record_job_attempt : String → ℕ → ℕ → List JobAttempt → Result (List JobAttempt)
record_job_attempt job_id attempt created_at facts = do
  reject_if (any (is_attempt job_id attempt) facts) (unique_attempt job_id attempt)
  ok (facts ++ record { job_id = job_id; attempt = attempt; created_at = created_at } ∷ [])

-- A check that is followed by success has passed.
pub reject-ok :
    {A : Type 0} (b : Bool) (e : Error) (m : Result A) {a : A}
    → (reject_if b e >> m) ≡ ok a
    → (b ≡ false) × (m ≡ ok a)
reject-ok true e m h = cc
reject-ok false e m h = (refl, h)

pub Result-cases {ℓ} :
    {A : Type ℓ} (r : Result A) → ((e : Error) × (r ≡ err e)) ⊎ ((a : A) × (r ≡ ok a))
Result-cases (err e) = inl (e, refl)
Result-cases (ok a) = inr (a, refl)
