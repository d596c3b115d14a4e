-- ===== src/Cron.antt =====
-- internal/scheduleexpr/cron.go: cron expressions of five fields. Parsing is in Parse, the search for
-- the next time in Next; the other modules hold what they guarantee.
pub mod Parse
pub mod Next
pub mod Marks
pub mod Least
pub mod Print
pub mod Reads
mod Examples
use senechal_gw.Prelude.{
  ℕ, zero, suc, Bool, true, false, not, ◌&&◌, ◌||◌, List, [], ◌∷◌, ltb, leb, if◌then◌else◌,
}

-- cronField
pub record CronField : Type 0 where
  pub allowed : List Bool
  pub any : Bool
  pub min : ℕ
  pub max : ℕ

-- CronExpression
pub record CronExpression : Type 0 where
  pub minute : CronField
  pub hour : CronField
  pub dom : CronField
  pub month : CronField
  pub dow : CronField

-- allowed[v], and false where the slice ends before v
abbrev pub is_set : List Bool → ℕ → Bool
is_set [] v = false
is_set (b ∷ bs) zero = b
is_set (b ∷ bs) (suc v) = is_set bs v

-- cronField.matches
unfoldable pub field_matches : CronField → ℕ → Bool
field_matches f v = if ltb v f.min || ltb f.max v then false else is_set f.allowed v

-- What time.Time tells of a time in its location. Sunday is 0.
pub record LocalTime : Type 0 where
  pub minute : ℕ
  pub hour : ℕ
  pub day : ℕ
  pub month : ℕ
  pub weekday : ℕ

-- Matches
unfoldable pub matches : CronExpression → LocalTime → Bool
unfolding field_matches
matches c t =
    if not (field_matches c.minute t.minute)
      || not (field_matches c.hour t.hour)
      || not (field_matches c.month t.month)
    then false
    else let dom_match = field_matches c.dom t.day in
      let dow_match = field_matches c.dow t.weekday in
      if c.dom.any && c.dow.any
      then true
      else if c.dom.any
      then dow_match
      else if c.dow.any
      then dom_match
      else dom_match || dow_match
