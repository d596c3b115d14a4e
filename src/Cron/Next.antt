-- ===== src/Cron/Next.antt =====
-- NextAfter of internal/scheduleexpr/cron.go. A time is a number of nanoseconds since the year 0. Its
-- location, and the date five years later in it, are those of Go's time package and arguments.
use senechal_gw.Prelude.{ℕ, zero, suc, ◌-◌, ◌*◌, ◌/◌, Bool, true, false, Option, none, some}
use senechal_gw.Cron.{CronExpression, LocalTime, matches}

abbrev pub minute_length : ℕ
minute_length = 60000000000

-- The location of a time: what is read at a minute, by the number of the minute, and the last minute
-- that is not after the date five years after a minute (AddDate).
pub record Location : Type 0 where
  pub clock : ℕ → LocalTime
  pub five_years_after : ℕ → ℕ

abbrev pub matches_at : CronExpression → Location → ℕ → Bool
matches_at c l m = matches c (l.clock m)

-- The loop over the candidates: as many rounds as there are minutes up to the deadline.
unfoldable pub search_from : ℕ → CronExpression → Location → ℕ → Option ℕ
search_from zero c l m = none
search_from (suc rounds) c l m = elim (matches_at c l m) [
  | true ↦ some m
  | false ↦ search_from rounds c l (suc m)
]

unfoldable pub next_minute : CronExpression → Location → ℕ → Option ℕ
unfolding search_from
next_minute c l from =
    let candidate = suc from in
    search_from (suc (l.five_years_after candidate) - candidate) c l candidate

abbrev pub at_minute : Option ℕ → Option ℕ
at_minute none = none
at_minute (some m) = some (m * minute_length)

-- NextAfter: none is the error.
unfoldable pub next_after : CronExpression → Location → ℕ → Option ℕ
unfolding next_minute
next_after c l from = at_minute (next_minute c l (from / minute_length))
