-- ===== src/Scheduler/Interval.antt =====
-- ParseInterval of internal/config/loader.go and calculateJitteredInterval of
-- internal/scheduler/scheduler.go. strings.ToLower, time.ParseDuration and the product of a float64 text
-- and a duration are arguments. A duration of 0 stands for 0 and below.
use senechal_gw.Prelude.{
  ℕ, zero, suc, ◌+◌, ◌*◌, ◌%◌, ◌≡◌, ◌<◌, arith, String, Option, none, some, is_empty, trim_space,
  has_suffix, ◌==◌, str_eq, if◌then◌else◌,
}

pub record Durations : Type 0 where
  pub to_lower : String → String
  pub parse_duration : String → Option ℕ
  -- The text times the duration, cut to a whole number.
  pub scaled : String → ℕ → Option ℕ

abbrev pub hour : ℕ
hour = 3600000000000

pub data Interval : Type 0 where
  interval : ℕ → Interval
  invalid_interval : Interval

-- The text without its last character.
unfoldable pub init : String → String
init String.[] = String.[]
init (String.◌∷◌ c s) = let rest = init s in if is_empty s then String.[] else String.◌∷◌ c rest

abbrev pub positive : Option ℕ → Interval
positive (some (suc n)) = interval (suc n)
positive _ = invalid_interval

-- ParseInterval
unfoldable pub parse_interval : Durations → String → Interval
unfolding init
parse_interval l text =
    let s = trim_space (l.to_lower text) in
    if is_empty s
    then invalid_interval
    else if str_eq s "hourly"
    then interval hour
    else if str_eq s "daily"
    then interval (24 * hour)
    else if str_eq s "weekly"
    then interval (7 * (24 * hour))
    else if str_eq s "monthly"
    then interval (30 * (24 * hour))
    else if has_suffix s "d"
    then positive (l.scaled (init s) (24 * hour))
    else if has_suffix s "w"
    then positive (l.scaled (init s) (7 * (24 * hour)))
    else positive (l.parse_duration s)

-- calculateJitteredInterval; `draw` is the random number.
unfoldable pub calculate_jittered_interval : ℕ → ℕ → ℕ → ℕ
calculate_jittered_interval base jitter draw = if 0 == jitter then base else base + draw % jitter

positive-interval : (o : Option ℕ) (d : ℕ) → positive o ≡ interval d → 0 < d
positive-interval none d h = absurd (ground (arith, h))
positive-interval (some zero) d h = absurd (ground (arith, h))
positive-interval (some (suc n)) d h = ground (arith, h)

-- An interval that is accepted is positive.
pub parse_interval-positive :
    (l : Durations) (text : String) (d : ℕ) → parse_interval l text ≡ interval d → 0 < d
unfolding parse_interval
parse_interval-positive l text d h =
    let s = trim_space (l.to_lower text) in
    ground (
      arith,
      h,
      positive-interval (l.scaled (init s) (24 * hour)) d,
      positive-interval (l.scaled (init s) (7 * (24 * hour))) d,
      positive-interval (l.parse_duration s) d,
    )
