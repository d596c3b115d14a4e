-- ===== src/Dispatch/Retry.antt =====
-- decideRetryPolicy and effectiveMaxAttempts of internal/dispatch/retry_policy.go.
use senechal_gw.Prelude.{
  ℕ, ◌<◌, String, Bool, true, false, not, ◌&&◌, Option, none, some, is_empty, trim_space, arith,
  leb, ltb, ◌==◌, str_eq, if◌then◌else◌,
}
use senechal_gw.Config.{PluginConf, RetryConfig, default_max_attempts}
use senechal_gw.Queue.Table.{Job}

pub record RetryDecision : Type 0 where
  pub retryable : Bool
  pub reason : String
  pub attempts_exhausted : Bool

abbrev pub retry_max_attempts : Option RetryConfig → ℕ
retry_max_attempts none = default_max_attempts
retry_max_attempts (some r) = if ltb 0 r.max_attempts then r.max_attempts else default_max_attempts

-- effectiveMaxAttempts; a nil job is none
unfoldable pub effective_max_attempts : Option Job → PluginConf → ℕ
effective_max_attempts none conf = retry_max_attempts conf.retry
effective_max_attempts (some j) conf =
    if ltb 0 j.max_attempts then j.max_attempts else retry_max_attempts conf.retry

abbrev pub reason_of : String → String
reason_of default_reason =
    let reason = trim_space default_reason in if is_empty reason then "plugin_error" else reason

-- resp != nil && resp.Status == "error" && compat.Retry != nil && !*compat.Retry
abbrev pub says_no_retry : Option String → Option Bool → Bool
says_no_retry none retry = false
says_no_retry (some status) none = false
says_no_retry (some status) (some retry) = str_eq status "error" && not retry

abbrev pub is_exhausted : Option Job → PluginConf → Bool
is_exhausted none conf = false
is_exhausted (some j) conf =
    let max_attempts = effective_max_attempts (some j) conf in
    ltb 0 max_attempts && leb max_attempts j.attempt

-- decideRetryPolicy; the response is given by its status, and `retry` is the field of the answer
unfoldable pub decide_retry_policy :
    Option String → Option Bool → ℕ → Option Job → PluginConf → String → RetryDecision
unfolding effective_max_attempts
decide_retry_policy resp retry exit_code job conf default_reason =
    if exit_code == 78
    then record { retryable = false; reason = "exit_code_78"; attempts_exhausted = false }
    else if says_no_retry resp retry
    then record { retryable = false; reason = "plugin_retry_false"; attempts_exhausted = false }
    else record {
      retryable = true;
      reason = reason_of default_reason;
      attempts_exhausted = is_exhausted job conf;
    }

-- effectiveMaxAttempts is never 0: there is always a bound on the attempts.
pub effective_max_attempts-pos :
    (job : Option Job) (conf : PluginConf) → 0 < effective_max_attempts job conf
unfolding effective_max_attempts
effective_max_attempts-pos none conf = ground arith
effective_max_attempts-pos (some j) conf = ground arith
