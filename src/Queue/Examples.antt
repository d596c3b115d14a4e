-- ===== src/Queue/Examples.antt =====
-- Runs of internal/queue on small tables, and instances of the theorems about it.
use mathlib.Core.List.{Memᴰ}
use senechal_gw.Prelude.{
  ℕ, String, ◌≡◌, ◌≢◌, ◌⊎◌, refl, true, none, some, [], ◌∷◌, arith, any, count_p, select,
  trim_space, eq_iff,
}
use senechal_gw.Queue.Table.{
  Job, Db, ok, err, dedupe_drop, source_event_conflict, empty, commit, is_outstanding,
}
use senechal_gw.Queue.Enqueue.{
  Queue, EnqueueRequest, holds_key, find_outstanding, enqueue, is_ignored, newest, new_job,
  find_recent_succeeded, latest_completed,
}
use senechal_gw.Queue.Dequeue.{dequeue_eligible}
use senechal_gw.Queue.Complete.{cancel_outstanding_jobs, is_outstanding_for}
use senechal_gw.Queue.Prune.{prune_job_queue}
use senechal_gw.Queue.Reads.Metrics.{IsConsistent, metrics-IsConsistent}
use senechal_gw.Queue.Invariant.Facts.{IsSafe, IsWellFormed}
use senechal_gw.Queue.Invariant.Cancellation.{Cancels, cancel_outstanding_jobs-Cancels}
use senechal_gw.Queue.Invariant.Pruning.{prune_job_queue-keeps_outstanding}
use senechal_gw.Queue.Order.{Dequeued, dequeue_eligible-Dequeued}
use senechal_gw.Queue.Dedupe.{
  IsComplete, enqueue-drops_outstanding, enqueue-redelivery, enqueue-padded_key,
}
use senechal_gw.Queue.Prune.{prune_job_transitions}
use senechal_gw.Queue.History.{
  Reach, here, then, enqueues, dequeues, prunes_transitions, untrimmed-IsWellFormed,
  Reach-IsWellFormed,
}

abbrev service : Queue
service = record { dedupe_ttl = 0; config_snapshot_id_provider = some "s1" }

abbrev request : EnqueueRequest
request = record {
  plugin = "echo";
  command = "poll";
  payload = "{}";
  max_attempts = 0;
  submitted_by = "ductile";
  dedupe_key = some "k";
  dedupe_ttl = some 5;
  parent_job_id = none;
  event_context_id = none;
  source_event_id = none;
  enqueued_config_snapshot_id = "";
}

abbrev delivery : EnqueueRequest
delivery = record request {
  dedupe_key = none;
  parent_job_id = some "p";
  source_event_id = some "e";
}

abbrev padded : EnqueueRequest
padded = record request { dedupe_key = some " k" }

abbrev blank : EnqueueRequest
blank = record delivery { source_event_id = some " " }

abbrev one : Db
one = commit empty (enqueue "a" service request 1000 empty)

abbrev delivered : Db
delivered = commit empty (enqueue "a" service delivery 1000 empty)

abbrev lost : Db
lost = commit empty (enqueue "a" service blank 1000 empty)

one_is_queued : count_p (is_outstanding_for "echo" "poll") one.jobs ≡ 1
unfolding enqueue count_p is_outstanding_for any select trim_space find_outstanding newest
    find_recent_succeeded latest_completed is_ignored new_job
one_is_queued = refl

request-IsComplete : IsComplete request
request-IsComplete = record { plugin = refl; command = refl; submitted_by = refl }

delivery-IsComplete : IsComplete delivery
delivery-IsComplete = record { plugin = refl; command = refl; submitted_by = refl }

blank-IsComplete : IsComplete blank
blank-IsComplete = record { plugin = refl; command = refl; submitted_by = refl }

abbrev trimmed : Db
trimmed = prune_job_transitions 500 3000 (commit one (dequeue_eligible [] [] 2000 none one))

history : Reach true empty trimmed
unfolding any
history =
    then (then (then here (enqueues "a" service request 1000 refl)) (dequeues [] [] 2000 none))
      (prunes_transitions 500 3000 refl)

one-IsWellFormed : IsWellFormed one
unfolding any
one-IsWellFormed = untrimmed-IsWellFormed (then here (enqueues "a" service request 1000 refl))

Reach-IsWellFormed_example : IsSafe trimmed × ((true ≡ true) ⊎ IsWellFormed trimmed)
Reach-IsWellFormed_example = Reach-IsWellFormed history

dequeue_eligible-Dequeued_example :
    Dequeued 2000 ("slow" ∷ []) [] none one (dequeue_eligible ("slow" ∷ []) [] 2000 none one)
dequeue_eligible-Dequeued_example =
    dequeue_eligible-Dequeued 2000 ("slow" ∷ []) [] none one one-IsWellFormed

cancel_outstanding_jobs-Cancels_example :
    (r : ℕ × Db) × (cancel_outstanding_jobs "echo" "poll" "" 3000 one ≡ ok r)
    × Cancels "echo" "poll" one r
cancel_outstanding_jobs-Cancels_example =
    cancel_outstanding_jobs-Cancels "echo" "poll" "" 3000 one one-IsWellFormed refl refl

prune_job_queue-keeps_outstanding_example :
    select (λ j. is_outstanding j.status) (prune_job_queue 10 5000 one).jobs
    ≡ select (λ j. is_outstanding j.status) one.jobs
prune_job_queue-keeps_outstanding_example = prune_job_queue-keeps_outstanding 10 5000 one

enqueue-drops_outstanding_example :
    (j : Job) × Memᴰ j one.jobs
    × (holds_key "echo" "poll" (trim_space "k") j ≡ true)
    × (enqueue "b" service request 2000 one ≡ err (dedupe_drop (trim_space "k") j.id))
unfolding enqueue any select trim_space find_outstanding holds_key newest find_recent_succeeded
    latest_completed is_ignored new_job
enqueue-drops_outstanding_example =
    enqueue-drops_outstanding "b" service request 2000 one "k" 5 request-IsComplete refl refl refl
      refl

enqueue-redelivery_example :
    enqueue "b" service delivery 2000 delivered ≡ err (source_event_conflict "p" "e" "echo" "poll")
unfolding enqueue any trim_space is_ignored
enqueue-redelivery_example =
    enqueue-redelivery "a" "b" service service delivery 1000 2000 empty "p" "e" ("a", delivered)
      delivery-IsComplete refl refl refl refl refl

padded_ne : ◌≢◌ {A = String} " k" (trim_space " k")
unfolding trim_space
padded_ne e = ground (arith, eq_iff " k" "k", e)

enqueue-padded_key_example :
    find_outstanding "echo" "poll"
      (trim_space " k")
      (commit empty (enqueue "a" service padded 1000 empty))
    ≡ find_outstanding "echo" "poll" (trim_space " k") empty
unfolding enqueue any select trim_space find_outstanding newest find_recent_succeeded
    latest_completed is_ignored
enqueue-padded_key_example =
    enqueue-padded_key "a" service padded 1000 empty " k"
      ("a", commit empty (enqueue "a" service padded 1000 empty)) refl padded_ne refl

metrics-IsConsistent_example : IsConsistent 2000 one
metrics-IsConsistent_example = metrics-IsConsistent 2000 one
