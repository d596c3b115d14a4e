-- ===== src/Config.antt =====
-- The parts of internal/config/types.go that the scheduler and the dispatcher read. A count or a
-- duration of 0 stands for 0 and below.
use senechal_gw.Prelude.{ℕ, String, Bool, Option, List, map, is_empty, trim_space, if◌then◌else◌}

pub record CircuitBreakerConfig : Type 0 where
  pub threshold : ℕ
  pub reset_after : ℕ

pub record RetryConfig : Type 0 where
  pub max_attempts : ℕ
  pub backoff_base : ℕ

pub record TimeoutsConfig : Type 0 where
  pub poll : ℕ
  pub handle : ℕ
  pub health : ℕ
  pub init : ℕ

pub record PluginConf : Type 0 where
  pub circuit_breaker : Option CircuitBreakerConfig
  pub max_outstanding_polls : ℕ
  pub retry : Option RetryConfig
  pub timeouts : Option TimeoutsConfig
  pub notify_on_complete : Option Bool

-- DefaultPluginConf: 3 failures, 30 minutes, 4 attempts, 30 seconds
abbrev pub default_threshold : ℕ
default_threshold = 3

abbrev pub default_reset_after : ℕ
default_reset_after = 1800000000000

abbrev pub default_max_attempts : ℕ
default_max_attempts = 4

abbrev pub default_backoff_base : ℕ
default_backoff_base = 30000000000

-- A token of not_on, by its Go type. A float64 that is no whole number, a number that is no int from 0 to
-- 7 and a value of another type are told apart no further.
pub data DayToken : Type 0 where
  whole : ℕ → DayToken
  named : String → DayToken
  other : DayToken

-- ScheduleConfig. The payload is the text of its JSON, none for an empty one.
pub record ScheduleConfig : Type 0 where
  pub id : String
  pub every : String
  pub cron : String
  pub at : String
  pub after : ℕ
  pub jitter : ℕ
  pub catch_up : String
  pub if_running : String
  pub only_between : String
  pub timezone : String
  pub not_on : List DayToken
  pub command : String
  pub payload : Option String

-- The plugin of a name: the fields of PluginConf that are read of a plugin that is scheduled.
pub record Plugin : Type 0 where
  pub name : String
  pub enabled : Bool
  pub conf : PluginConf
  pub schedules : List ScheduleConfig

abbrev pub or_text : String → String → String
or_text s d = if is_empty (trim_space s) then d else s

-- applyDefaults, after the id of NormalizedSchedules
abbrev pub with_defaults : ScheduleConfig → ScheduleConfig
with_defaults s = record s {
  id = or_text s.id "default";
  command = or_text s.command "poll";
  catch_up = or_text s.catch_up "skip";
  if_running = or_text s.if_running "skip";
}

-- NormalizedSchedules
unfoldable pub normalized_schedules : Plugin → List ScheduleConfig
normalized_schedules p = map with_defaults p.schedules
