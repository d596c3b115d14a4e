-- ===== src/Scheduler/Window.antt =====
-- scheduleConstraintsAllowAt and what it calls, of internal/scheduler/scheduler.go. time.LoadLocation and
-- strings.ToLower are arguments.
use Prim.Native.Char.{code}
use senechal_gw.Prelude.{
  ℕ, ◌+◌, ◌-◌, ◌*◌, ◌/◌, ◌%◌, ◌≡◌, ◌<◌, arith, String, Bool, false, ◌&&◌, ◌||◌, Option, none, some,
  List, [], ◌∷◌, is_empty, trim_space, split, ltb, leb, ◌==◌, str_eq, if◌then◌else◌,
}
use senechal_gw.Config.{DayToken, whole, named, other, ScheduleConfig}
use senechal_gw.Cron.Next.{Location, minute_length}
use senechal_gw.Cron.Parse.{is_digit}

-- parseWeekdayIntConstraint
unfoldable pub parse_weekday_int : ℕ → Option ℕ
parse_weekday_int v = if v == 7 then some 0 else if ltb 6 v then none else some v

abbrev pub is_one_of : String → List String → Bool
is_one_of s [] = false
is_one_of s (t ∷ ts) = str_eq s t || is_one_of s ts

-- parseWeekdayStringConstraint
unfoldable pub parse_weekday_string : (String → String) → String → Option ℕ
parse_weekday_string to_lower raw =
    let s = to_lower (trim_space raw) in
    if is_one_of s ("sun" ∷ "sunday" ∷ [])
    then some 0
    else if is_one_of s ("mon" ∷ "monday" ∷ [])
    then some 1
    else if is_one_of s ("tue" ∷ "tues" ∷ "tuesday" ∷ [])
    then some 2
    else if is_one_of s ("wed" ∷ "wednesday" ∷ [])
    then some 3
    else if is_one_of s ("thu" ∷ "thurs" ∷ "thursday" ∷ [])
    then some 4
    else if is_one_of s ("fri" ∷ "friday" ∷ [])
    then some 5
    else if is_one_of s ("sat" ∷ "saturday" ∷ [])
    then some 6
    else none

-- parseWeekdayConstraint
unfoldable pub parse_weekday : (String → String) → DayToken → Option ℕ
unfolding parse_weekday_int parse_weekday_string
parse_weekday to_lower (whole v) = parse_weekday_int v
parse_weekday to_lower (named s) = parse_weekday_string to_lower s
parse_weekday to_lower other = none

-- The two digits after the colon, and nothing more.
unfoldable pub clock_minutes : ℕ → String → Option ℕ
clock_minutes hour (String.◌∷◌ a (String.◌∷◌ b String.[])) =
    let minute = (code a - b'0') * 10 + (code b - b'0') in
    if is_digit (code a) && is_digit (code b) && ltb minute 60 && ltb hour 24
    then some (hour * 60 + minute)
    else none
clock_minutes hour _ = none

unfoldable pub after_hour : ℕ → String → Option ℕ
unfolding clock_minutes
after_hour hour String.[] = none
after_hour hour (String.◌∷◌ c s) = if code c == b':' then clock_minutes hour s else none

-- time.Parse with the layout 15:04: an hour of one or two digits.
unfoldable pub parse_clock : String → Option ℕ
unfolding after_hour
parse_clock (String.◌∷◌ a (String.◌∷◌ b s)) =
    if is_digit (code a)
    then (if is_digit (code b)
        then after_hour ((code a - b'0') * 10 + (code b - b'0')) s
        else after_hour (code a - b'0') (String.◌∷◌ b s))
    else none
parse_clock _ = none

-- parseClockConstraint
unfoldable pub parse_clock_constraint : String → Option ℕ
unfolding parse_clock
parse_clock_constraint raw = parse_clock (trim_space raw)

-- The answers of scheduleConstraintsAllowAt.
pub data Constraint : Type 0 where
  allows : Constraint
  forbids : String → Constraint
  malformed : Constraint

-- The loop over not_on: the first token that is malformed or the day ends it.
unfoldable pub check_days : (String → String) → ℕ → List DayToken → Constraint
unfolding parse_weekday
check_days to_lower day [] = allows
check_days to_lower day (t ∷ ts) =
    let later = check_days to_lower day ts in
    elim (parse_weekday to_lower t) [
      | none ↦ malformed
      | some d ↦ if d == day then forbids "outside_day_constraint" else later
    ]

-- The last tests of scheduleConstraintsAllowAt, on minutes of the day: a window goes over midnight where
-- its start is after its end, and its ends are not equal.
unfoldable pub check_minutes : ℕ → ℕ → ℕ → Constraint
check_minutes start end now =
    if start == end
    then malformed
    else if ltb start end
    then (if ltb now start || leb end now then forbids "outside_time_window" else allows)
    else if leb start now || ltb now end
    then allows
    else forbids "outside_time_window"

abbrev pub check_clocks : Option ℕ → Option ℕ → ℕ → Constraint
check_clocks (some start) (some end) now = check_minutes start end now
check_clocks _ _ now = malformed

abbrev pub check_parts : List String → ℕ → Constraint
check_parts (a ∷ b ∷ []) now =
    check_clocks (parse_clock_constraint a) (parse_clock_constraint b) now
check_parts _ now = malformed

unfoldable pub check_window : String → ℕ → Constraint
unfolding check_minutes parse_clock_constraint
check_window only_between now =
    let window = trim_space only_between in
    if is_empty window then allows else check_parts (split b'-' window) now

abbrev pub then_window : Constraint → Constraint → Constraint
then_window allows w = w
then_window c w = c

-- UTC where the schedule names no zone.
abbrev pub zone_of : (String → Option Location) → Location → String → Option Location
zone_of load default timezone =
    let tz = trim_space timezone in if is_empty tz then some default else load tz

abbrev pub constraints_in : (String → String) → ScheduleConfig → ℕ → Option Location → Constraint
constraints_in to_lower s now none = malformed
constraints_in to_lower s now (some l) =
    let local = l.clock (now / minute_length) in
    then_window (check_days to_lower local.weekday s.not_on)
      (check_window s.only_between (local.hour * 60 + local.minute))

-- scheduleConstraintsAllowAt
unfoldable pub schedule_constraints_allow_at :
    (String → String) → (String → Option Location) → Location → ScheduleConfig → ℕ → Constraint
unfolding check_days check_window
schedule_constraints_allow_at to_lower load utc s now =
    constraints_in to_lower s now (zone_of load utc s.timezone)

-- A window with equal ends is malformed. Any other one allows a minute of the day exactly where the
-- minute comes before the end, both counted from the start around midnight.
pub check_minutes-cyclic :
    (start end now : ℕ)
    → start < 1440
    → end < 1440
    → now < 1440
    → check_minutes start end now ≡ (
        if start == end
        then malformed
        else if ltb ((now + 1440 - start) % 1440) ((end + 1440 - start) % 1440)
        then allows
        else forbids "outside_time_window")
unfolding check_minutes
check_minutes-cyclic start end now a b c = ground (arith, a, b, c)
