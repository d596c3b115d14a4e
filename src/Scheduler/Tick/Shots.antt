-- ===== src/Scheduler/Tick/Shots.antt =====
-- processSchedule of internal/scheduler/scheduler.go: the timing of a schedule with a time or a delay.
use senechal_gw.Prelude.{
  ℕ, ◌+◌, ◌≡◌, ◌≢◌, ap, Bool, true, false, ◌||◌, Option, none, some, arith, ltb, if◌then◌else◌,
}
use senechal_gw.Config.{ScheduleConfig}
use senechal_gw.Cron.{CronExpression}
use senechal_gw.Cron.Parse.{Parse, parsed, invalid, panics, parse_cron}
use senechal_gw.Scheduler.Interval.{Interval, interval, invalid_interval, parse_interval}
use senechal_gw.Scheduler.Tick.{Scheduler}
use senechal_gw.Scheduler.Tick.Checks.{
  Timing, Timed, timed, bad_schedule, out_of_slice, timing_of, recurring, with_every, with_cron,
  at_time, bad_after, has_text,
}
use senechal_gw.Scheduler.Tick.Fire.{is_some}

-- The schedule has a time of its own, or a delay.
abbrev pub is_one_shot : ScheduleConfig → Bool
is_one_shot x = has_text x.at || ltb 0 x.after

-- A timing that was read keeps the time that was given with it.
abbrev Keeps : Option ℕ → Timed → Type 0
Keeps one m = (x : Timing) → m ≡ timed x → x.one_shot ≡ one

Keeps-if :
    (one : Option ℕ) (b : Bool) (m n : Timed)
    → Keeps one m
    → Keeps one n
    → Keeps one (if b then m else n)
Keeps-if one true m n h k = h
Keeps-if one false m n h k = k

with_every-Keeps : (i : Interval) (one : Option ℕ) → Keeps one (with_every i one)
with_every-Keeps (interval d) one x h = ground (arith, h)
with_every-Keeps invalid_interval one x h = absurd (ground (arith, h))

with_cron-Keeps : (p : Parse CronExpression) (one : Option ℕ) → Keeps one (with_cron p one)
with_cron-Keeps (parsed c) one x h = ground (arith, h)
with_cron-Keeps (invalid e) one x h = absurd (ground (arith, h))
with_cron-Keeps panics one x h = absurd (ground (arith, h))

recurring-Keeps :
    (s : Scheduler) (x : ScheduleConfig) (one : Option ℕ) → Keeps one (recurring s x one)
unfolding recurring
recurring-Keeps s x one =
    Keeps-if one (has_text x.every) _ _
      (Keeps-if one (has_text x.cron) _ _ (λ y h. absurd (ground (arith, h)))
        (with_every-Keeps (parse_interval s.durations x.every) one))
      (Keeps-if one (has_text x.cron) _ _
        (with_cron-Keeps (parse_cron s.durations.to_lower x.cron) one) (λ y h. ground (arith, h)))

bad_after-not : (m : Timed) (x : Timing) → bad_after m ≢ timed x
bad_after-not (timed y) x h = cc
bad_after-not bad_schedule x h = cc
bad_after-not out_of_slice x h = cc

-- A timing that was read has a time.
abbrev Times : Timed → Type 0
Times m = (y : Timing) → m ≡ timed y → is_some y.one_shot ≡ true

Times-if :
    (a b : Bool) (m n o : Timed)
    → (a || b) ≡ true
    → Times m
    → Times n
    → Times (if a then m else if b then n else o)
Times-if true b m n o h j k = j
Times-if false true m n o h j k = k
Times-if false false m n o h j k = absurd (ground (arith, h))

recurring-Times : (s : Scheduler) (x : ScheduleConfig) (t : ℕ) → Times (recurring s x (some t))
recurring-Times s x t y h = ap is_some (recurring-Keeps s x (some t) y h)

at_time-Times :
    (s : Scheduler) (x : ScheduleConfig) (o : Option ℕ)
    → Times (at_time o (bad_after (recurring s x none)) (recurring s x))
at_time-Times s x none y h = absurd (bad_after-not (recurring s x none) y h)
at_time-Times s x (some t) y h = recurring-Times s x t y h

pub timing_of-one_shot :
    (s : Scheduler) (x : ScheduleConfig) (now : ℕ) (y : Timing)
    → is_one_shot x ≡ true
    → timing_of s x now ≡ timed y
    → is_some y.one_shot ≡ true
unfolding timing_of
timing_of-one_shot s x now y one h =
    Times-if (has_text x.at) (ltb 0 x.after) _ _ _ one (at_time-Times s x (s.parse_rfc3339 x.at))
      (recurring-Times s x (now + x.after)) y h
