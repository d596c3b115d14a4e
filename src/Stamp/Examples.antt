-- ===== src/Stamp/Examples.antt =====
-- Texts of times of internal/queue/queue.go.
use senechal_gw.Prelude.{ℕ, ◌+◌, ◌*◌, ◌≡◌, refl, [], ◌∷◌}
use senechal_gw.Stamp.{date_of, giga, format}

-- The 29th of February 2024, 739310 days after the start of the year 0.
leap_day_run : date_of 739310 ≡ record { year = 2024; month = 2; day = 29 }
unfolding date_of
leap_day_run = refl

first_day_run : date_of 0 ≡ record { year = 0; month = 1; day = 1 }
unfolding date_of
first_day_run = refl

last_day_run : date_of 719527 ≡ record { year = 1969; month = 12; day = 31 }
unfolding date_of
last_day_run = refl

-- The start of 1970, in nanoseconds.
abbrev unix : ℕ
unix = 719528 * 86400 * giga

-- 1970-01-01T00:01:05.25Z
format_run :
    format (unix + 65250000000)
    ≡ b'1' ∷ b'9' ∷ b'7' ∷ b'0' ∷ b'-' ∷ b'0' ∷ b'1' ∷ b'-' ∷ b'0' ∷ b'1' ∷ b'T' ∷ b'0' ∷ b'0'
      ∷ b':' ∷ b'0' ∷ b'1' ∷ b':' ∷ b'0' ∷ b'5' ∷ b'.' ∷ b'2' ∷ b'5' ∷ b'Z' ∷ []
unfolding format
format_run = refl
