-- ===== src/Cron/Examples.antt =====
-- Runs of the cron expressions and instances of their theorems.
use senechal_gw.Prelude.{
  ℕ, suc, ◌+◌, ◌*◌, ◌/◌, ◌%◌, ◌≤◌, ◌<◌, ◌↔◌, ◌≡◌, refl, arith, String, Bool, none, some, List, [],
  ◌∷◌, length, true, false, split, trim_space, contains, replicate, ◌++◌,
}
use senechal_gw.Cron.{CronField, CronExpression, matches, is_set, field_matches}
use senechal_gw.Cron.Parse.{
  parse_cron, parse_cron_field, words, parsed, panics, invalid, minutes, weekdays, descending_range,
  mark, mark_range, int_limit, cron_field, all_values,
}
use senechal_gw.Cron.Next.{Location, minute_length, matches_at, next_after}
use senechal_gw.Cron.Marks.{is_marked, mark_range-marks, mark-panics}
use senechal_gw.Cron.Least.{IsNext, next_after-IsNext}
use senechal_gw.Cron.Print.{print_values, is_value, is_weekdays}
use senechal_gw.Cron.Reads.{parse_cron_field-print_values}

abbrev ascii : String → String
ascii s = s

-- The next step has no int.
step_overflow : parse_cron ascii "1/9223372036854775807 * * * *" ≡ panics
unfolding parse_cron trim_space split contains
step_overflow = refl

-- Friday to Sunday, with Sunday as 7.
friday_to_sunday : parse_cron_field ascii weekdays "5-7" ≡ invalid descending_range
unfolding parse_cron_field trim_space split contains
friday_to_sunday = refl

words_run : words " a  bc d " ≡ "a" ∷ "bc" ∷ "d" ∷ []
unfolding words
words_run = refl

abbrev week : List Bool
week = replicate 8 false

abbrev every_other : List Bool
every_other = false ∷ true ∷ false ∷ true ∷ false ∷ true ∷ false ∷ false ∷ []

marked_run : mark_range weekdays 2 week (1, 6) ≡ parsed every_other
unfolding mark_range
marked_run = refl

mark_range-marks_example :
    (1 ≤ 6)
    × (length every_other ≡ length week)
    × ((v : ℕ) → is_set every_other v ≡ is_marked weekdays 2 week (1, 6) v)
mark_range-marks_example =
    mark_range-marks weekdays 1 6 2 week every_other marked_run (omega arith) (omega arith)

mark-panics_example :
    (mark 1 1 9223372036854775807 week ≡ panics) ↔ (int_limit ≤ 1 + 9223372036854775807)
mark-panics_example =
    mark-panics 1 1 9223372036854775807 week (omega arith) (omega arith) (omega arith)

abbrev weekday_list : List ℕ
weekday_list = 3 ∷ []

parse_cron_field-print_values_example :
    (f : CronField) × (parse_cron_field ascii weekdays (print_values (1 ∷ weekday_list)) ≡ parsed f)
    × (f.any ≡ false)
    × ((u : ℕ) → field_matches f u ≡ is_value u (1 ∷ weekday_list))
parse_cron_field-print_values_example =
    parse_cron_field-print_values ascii weekdays 1 weekday_list (λ s h. refl) is_weekdays
      (
        record { lo = omega arith; hi = omega arith },
        (record { lo = omega arith; hi = omega arith }, tt),
      )

abbrev star : ℕ → ℕ → CronField
star lo hi =
    cron_field (record { min = lo; max = hi; names = []; dow = false }) true
      (all_values (record { min = lo; max = hi; names = []; dow = false }))

abbrev half_past : CronExpression
half_past = record {
  minute = cron_field minutes false (replicate 30 false ++ true ∷ replicate 29 false);
  hour = star 0 23;
  dom = star 1 31;
  month = star 1 12;
  dow = star 0 7;
}

abbrev utc : Location
utc = record {
  clock = λ m. record { minute = m % 60; hour = m / 60 % 24; day = 1; month = 1; weekday = 0 };
  five_years_after = λ m. m + 2628000;
}

next_run : next_after half_past utc 0 ≡ some (30 * minute_length)
unfolding next_after matches
next_run = refl

next_after-IsNext_example :
    ((t : ℕ)
      → next_after half_past utc 0 ≡ some t
      → (m : ℕ) × (t ≡ m * minute_length) × IsNext half_past utc (0 / minute_length) m)
    × (next_after half_past utc 0 ≡ none
        → (m : ℕ) → 0 / minute_length < m
        → m ≤ utc.five_years_after (suc (0 / minute_length))
        → matches_at half_past utc m ≡ false)
next_after-IsNext_example = next_after-IsNext half_past utc 0
