-- ===== src/Scheduler/Recovery/Missed.antt =====
-- countMissedRuns of internal/scheduler/scheduler.go counts the due times that have passed.
use native.Mathlib.Nat.{le-div_iff_mul-le}
use senechal_gw.Prelude.{ℕ, zero, suc, ◌+◌, ◌-◌, ◌*◌, ◌/◌, ◌≤◌, ◌<◌, ◌↔◌, arith}
use senechal_gw.Scheduler.Recovery.{count_missed_runs}

le-div : (k n d : ℕ) → 0 < d → (k ≤ n / d) ↔ (k * d ≤ n)
le-div k n d p = le-div_iff_mul-le p

-- With a positive interval, exactly the first `count_missed_runs` multiples of the interval after the
-- last run have passed: the `k`-th due time is at most now where `k` is at most the count, for k > 0.
pub count_missed_runs-counts :
    (last now interval k : ℕ)
    → 0 < interval
    → 0 < k
    → (k ≤ count_missed_runs last now interval) ↔ (last + k * interval ≤ now)
unfolding count_missed_runs
count_missed_runs-counts last now interval zero p q = elim q [ ]
count_missed_runs-counts last now interval (suc k) p q = (
  λ h. ground (arith, h, le-div k (now - (last + interval)) interval),
  λ h. ground (arith, h, le-div k (now - (last + interval)) interval),
)
