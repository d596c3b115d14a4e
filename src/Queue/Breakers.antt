-- ===== src/Queue/Breakers.antt =====
-- The circuit breakers of internal/queue: the tables circuit_breakers and
-- circuit_breaker_transitions with GetCircuitBreaker, UpsertCircuitBreaker,
-- RecordCircuitBreakerTransition and ResetCircuitBreaker. A failure of SQLite is not modelled, and
-- the checks for an empty state or reason are about values that no constant here has.
use senechal_gw.Prelude.{
  ℕ, String, Bool, ◌&&◌, Option, none, some, List, [], ◌∷◌, ◌++◌, is_empty, trim_space, str_eq,
  if◌then◌else◌,
}
use senechal_gw.Queue.Table.{Result, ok, ◌>>=◌, ◌>>◌, reject_if, plugin_is_empty, command_is_empty}

-- types.go: CircuitState
pub data CircuitState : Type 0 where
  circuit_closed circuit_open circuit_half_open : CircuitState

-- types.go: CircuitBreaker
pub record CircuitBreaker : Type 0 where
  pub plugin : String
  pub command : String
  pub state : CircuitState
  pub failure_count : ℕ
  pub opened_at : Option ℕ
  pub last_failure : Option ℕ
  pub last_job_id : Option String
  pub updated_at : ℕ

-- types.go: CircuitBreakerTransitionReason
pub data TransitionReason : Type 0 where
  failure_threshold success cooldown_elapsed manual_reset : TransitionReason

-- types.go: CircuitBreakerTransition, without its uuid
pub record CircuitBreakerTransition : Type 0 where
  pub plugin : String
  pub command : String
  pub from_state : Option CircuitState
  pub to_state : CircuitState
  pub failure_count : ℕ
  pub reason : TransitionReason
  pub job_id : Option String
  pub created_at : ℕ

pub record Breakers : Type 0 where
  pub rows : List CircuitBreaker
  pub transitions : List CircuitBreakerTransition

unfoldable pub is_breaker_of : String → String → CircuitBreaker → Bool
is_breaker_of plugin command cb = str_eq cb.plugin plugin && str_eq cb.command command

-- GetCircuitBreaker, after its checks
unfoldable pub find_breaker : String → String → List CircuitBreaker → Option CircuitBreaker
find_breaker plugin command [] = none
find_breaker plugin command (cb ∷ rest) =
    let later = find_breaker plugin command rest in
    if is_breaker_of plugin command cb then some cb else later

-- GetCircuitBreaker
unfoldable pub get_circuit_breaker : String → String → Breakers → Result (Option CircuitBreaker)
get_circuit_breaker plugin command s = do
  reject_if (is_empty plugin) plugin_is_empty
  reject_if (is_empty command) command_is_empty
  ok (find_breaker plugin command s.rows)

-- INSERT … ON CONFLICT(plugin, command) DO UPDATE
unfoldable pub put_breaker : CircuitBreaker → List CircuitBreaker → List CircuitBreaker
put_breaker cb [] = cb ∷ []
put_breaker cb (x ∷ xs) =
    let rest = put_breaker cb xs in
    if is_breaker_of cb.plugin cb.command x then cb ∷ xs else x ∷ rest

-- UpsertCircuitBreaker
unfoldable pub upsert_circuit_breaker : CircuitBreaker → ℕ → Breakers → Result Breakers
upsert_circuit_breaker cb now s = do
  reject_if (is_empty cb.plugin) plugin_is_empty
  reject_if (is_empty cb.command) command_is_empty
  ok (record s { rows = put_breaker (record cb { updated_at = now }) s.rows })

abbrev pub trim_to_null : Option String → Option String
trim_to_null none = none
trim_to_null (some s) = let t = trim_space s in if is_empty t then none else some t

-- RecordCircuitBreakerTransition
unfoldable pub record_circuit_breaker_transition :
    CircuitBreakerTransition → Breakers → Result Breakers
record_circuit_breaker_transition t s = do
  reject_if (is_empty t.plugin) plugin_is_empty
  reject_if (is_empty t.command) command_is_empty
  ok (record s { transitions = s.transitions ++ record t { job_id = trim_to_null t.job_id } ∷ [] })

unfoldable pub state_of : Option CircuitBreaker → Option CircuitState
state_of none = none
state_of (some cb) = some cb.state

-- ResetCircuitBreaker
unfoldable pub reset_circuit_breaker : String → String → ℕ → Breakers → Result Breakers
unfolding state_of
reset_circuit_breaker plugin command now s = do
  previous ← get_circuit_breaker plugin command s
  s' ←
      upsert_circuit_breaker
        (record {
          plugin = plugin;
          command = command;
          state = circuit_closed;
          failure_count = 0;
          opened_at = none;
          last_failure = none;
          last_job_id = none;
          updated_at = now;
        })
        now s
  record_circuit_breaker_transition
      (record {
        plugin = plugin;
        command = command;
        from_state = state_of previous;
        to_state = circuit_closed;
        failure_count = 0;
        reason = manual_reset;
        job_id = none;
        created_at = now;
      })
      s'
