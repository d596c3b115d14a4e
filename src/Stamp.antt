-- ===== src/Stamp.antt =====
-- The time columns of the database. internal/queue/queue.go writes each time as RFC3339Nano text
-- in UTC, and SQLite compares the texts byte by byte. A time is a number of nanoseconds since the
-- start of the year 0, in the years 0 to 9999, and a text a list of bytes. Go drops the zeros at
-- the end of the fraction, and the whole fraction if it is 0.
pub mod Order
mod Examples
use senechal_gw.Prelude.{
  ℕ, zero, suc, ◌+◌, ◌-◌, ◌*◌, ◌/◌, ◌%◌, ◌^◌, Bool, true, false, not, List, [], ◌∷◌, ◌++◌, ltb, leb,
  ◌==◌, if◌then◌else◌,
}

abbrev pub giga : ℕ
giga = 1000000000

pub record Date : Type 0 where
  pub year : ℕ
  pub month : ℕ
  pub day : ℕ

-- The days of the years of an era of 400 before the year, as years go from March.
abbrev days_before_year : ℕ → ℕ
days_before_year year = 365 * year + year / 4 - year / 100

-- The Gregorian date of a day, counted from the start of the year 0. Years go from March and begin
-- 306 days in front of a January, eras of 400 years have 146097 days, and the first era is one
-- before the year 0.
unfoldable pub date_of : ℕ → Date
date_of days =
    let shifted = days + 146037 in
    let in_era = shifted % 146097 in
    let year = (in_era + in_era / 36524 - in_era / 1460 - in_era / 146096) / 365 in
    let in_year = in_era - days_before_year year in
    let month = (5 * in_year + 2) / 153 in
    let is_next = leb 10 month in
    record {
      year = 400 * (shifted / 146097) + year + (if is_next then 1 else 0) - 400;
      month = if is_next then month - 9 else month + 3;
      day = in_year - (153 * month + 2) / 5 + 1;
    }

-- A number of `k` digits.
unfoldable pub digits : ℕ → ℕ → List ℕ
digits zero n = []
digits (suc k) n = (b'0' + n / 10 ^ k) ∷ digits k (n % 10 ^ k)

-- The 19 bytes of a second: the date, a `T` and the time of the day.
unfoldable pub second_text : ℕ → List ℕ
unfolding date_of digits
second_text s =
    let d = date_of (s / 86400) in
    let of_day = s % 86400 in
    digits 4 d.year
    ++ (b'-' ∷ digits 2 d.month)
    ++ (b'-' ∷ digits 2 d.day)
    ++ (b'T' ∷ digits 2 (of_day / 3600))
    ++ (b':' ∷ digits 2 (of_day / 60 % 60))
    ++ (b':' ∷ digits 2 (of_day % 60))

-- The digits of a fraction of `k` digits, up to the last that is not 0, and the `Z` of UTC.
unfoldable pub fraction : ℕ → ℕ → List ℕ
fraction zero n = b'Z' ∷ []
fraction (suc k) n =
    let rest = fraction k (n % 10 ^ k) in if n == 0 then b'Z' ∷ [] else (b'0' + n / 10 ^ k) ∷ rest

-- What stands behind the seconds.
unfoldable pub after_second : ℕ → List ℕ
unfolding fraction
after_second nano = if nano == 0 then b'Z' ∷ [] else b'.' ∷ fraction 9 nano

-- t.UTC().Format(time.RFC3339Nano)
unfoldable pub format : ℕ → List ℕ
unfolding second_text after_second
format t = second_text (t / giga) ++ after_second (t % giga)

-- SQLite's BINARY collation.
unfoldable pub lex_le : List ℕ → List ℕ → Bool
lex_le [] ys = true
lex_le (x ∷ xs) [] = false
lex_le (x ∷ xs) (y ∷ ys) = let rest = lex_le xs ys in if x == y then rest else ltb x y

-- a <= b on two columns
unfoldable pub stamp_le : ℕ → ℕ → Bool
unfolding format lex_le
stamp_le a b = lex_le (format a) (format b)

-- a < b on two columns
abbrev pub stamp_lt : ℕ → ℕ → Bool
stamp_lt a b = not (stamp_le b a)
