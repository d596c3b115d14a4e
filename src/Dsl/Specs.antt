-- ===== src/Dsl/Specs.antt =====
-- internal/router/dsl: PipelineSpec and StepSpec of types.go, and the checks of compiler.go on the
-- baggage and the relay of a step.
use Prim.Native.Char.{code}
use senechal_gw.Prelude.{
  ℕ, String, Bool, true, false, not, ◌&&◌, ◌||◌, Option, none, some, List, [], ◌∷◌, is_empty,
  trim_space, split, has_prefix, str_eq, leb, ◌==◌, if◌then◌else◌,
}
use senechal_gw.Conditions.{Condition}
use senechal_gw.Conditions.Eval.{dot}
use senechal_gw.Conditions.Validate.{Problem}
use senechal_gw.Baggage.{BaggageBulkSpec, Mapping, BaggageSpec}
use senechal_gw.Dsl.{ℤ, Texts, RelaySpec}

-- The fields of a StepSpec but the steps below it.
pub record StepHead : Type 0 where
  pub id : String
  pub uses : String
  pub call : String
  pub relay : Option RelaySpec
  pub condition : Option Condition
  pub with_map : Texts
  pub baggage : Option BaggageSpec

mutual
  -- A step with its `steps` and its `split`.
  pub data StepSpec : Type 0 where
    step : StepHead → StepSpecs → StepSpecs → StepSpec

  pub data StepSpecs : Type 0 where
    no_steps : StepSpecs
    step_then : StepSpec → StepSpecs → StepSpecs

-- An int of the configuration: those below 0 are refused.
pub data Limit : Type 0 where
  below_zero : Limit
  at_most : ℕ → Limit

pub record PipelineSpec : Type 0 where
  pub name : String
  pub on : String
  pub on_hook : String
  pub from_plugin : String
  pub condition : Option Condition
  pub max_depth : Option Limit
  pub steps : StepSpecs
  pub execution_mode : String
  pub timeout : ℤ

-- The errors of the compilation, without the place in the specification.
pub data DslError : Type 0 where
  trigger_is_required triggers_are_exclusive steps_must_be_non_empty max_depth_is_negative :
      DslError
  not_one_mode with_is_for_uses baggage_is_for_uses out_of_ids empty_node_set : DslError
  path_is_empty segment_is_empty bad_segment : DslError
  expression_is_empty from_is_empty from_is_not_payload : DslError
  relay_to_is_required relay_event_is_required with_key_is_empty : DslError
  bad_condition : Problem → DslError
  duplicate_step unknown_node : String → DslError
  graph_cycle graph_out_of_fuel : DslError

pub data Built (A : Type 0) : Type 0 where
  built : A → Built A
  failed : DslError → Built A

infixl 20 ◌>>=◌
abbrev pub ◌>>=◌ : {A B : Type 0} → Built A → (A → Built B) → Built B
built a >>= f = f a
failed e >>= f = failed e

abbrev pub fail_if : Bool → DslError → Built (Unit {0})
fail_if b e = if b then failed e else built tt

abbrev pub blank : String → Bool
blank s = is_empty (trim_space s)

abbrev is_letter : ℕ → Bool
is_letter c = c == b'_' || (leb b'a' c && leb c b'z') || (leb b'A' c && leb c b'Z')

abbrev is_digit : ℕ → Bool
is_digit c = leb b'0' c && leb c b'9'

-- The characters of a part after its first.
unfoldable pub is_word : String → Bool
is_word String.[] = true
is_word (String.◌∷◌ c s) = (is_letter (code c) || is_digit (code c)) && is_word s

unfoldable pub check_part : String → Built (Unit {0})
unfolding is_word
check_part String.[] = failed segment_is_empty
check_part (String.◌∷◌ c s) = fail_if (not (is_letter (code c) && is_word s)) bad_segment

unfoldable pub check_parts : List String → Built (Unit {0})
unfolding check_part
check_parts [] = built tt
check_parts (p ∷ ps) = do here ← check_part p; check_parts ps

-- validateBaggagePath
unfoldable pub validate_baggage_path : String → Built (Unit {0})
unfolding check_parts
validate_baggage_path path = do
  named ← fail_if (blank path) path_is_empty
  check_parts (split dot (trim_space path))

-- isPayloadPath
unfoldable pub is_payload_path : String → Bool
is_payload_path expr = str_eq (trim_space expr) "payload" || has_prefix (trim_space expr) "payload."

-- Empty
abbrev no_claims : List Mapping → Option BaggageBulkSpec → Bool
no_claims [] none = true
no_claims [] (some b) = false
no_claims (m ∷ ms) o = false

abbrev pub is_empty_baggage : BaggageSpec → Bool
is_empty_baggage spec = no_claims spec.mappings spec.bulk

unfoldable pub check_mappings : List Mapping → Built (Unit {0})
unfolding validate_baggage_path
check_mappings [] = built tt
check_mappings (m ∷ ms) = do
  path ← validate_baggage_path m.path
  expr ← fail_if (blank m.expr) expression_is_empty
  check_mappings ms

unfoldable pub check_bulk : Option BaggageBulkSpec → Built (Unit {0})
unfolding is_payload_path validate_baggage_path
check_bulk none = built tt
check_bulk (some bulk) = do
  named ← fail_if (blank bulk.from) from_is_empty
  path ← fail_if (not (is_payload_path bulk.from)) from_is_not_payload
  if blank bulk.namespace then built tt else validate_baggage_path bulk.namespace

-- validateBaggageSpec
unfoldable pub validate_baggage_spec : BaggageSpec → Built (Unit {0})
unfolding check_mappings check_bulk
validate_baggage_spec spec = do mappings ← check_mappings spec.mappings; check_bulk spec.bulk

-- A baggage that is there and not empty is checked.
unfoldable pub check_baggage : Option BaggageSpec → Built (Unit {0})
unfolding validate_baggage_spec
check_baggage none = built tt
check_baggage (some spec) = if is_empty_baggage spec then built tt else validate_baggage_spec spec

unfoldable pub check_with : Texts → Built (Unit {0})
check_with [] = built tt
check_with ((key, expr) ∷ rest) = do
  named ← fail_if (blank key) with_key_is_empty
  written ← fail_if (blank expr) expression_is_empty
  check_with rest

-- validateRelaySpec
unfoldable pub validate_relay_spec : RelaySpec → Built (Unit {0})
unfolding check_with check_baggage
validate_relay_spec spec = do
  to ← fail_if (blank spec.to) relay_to_is_required
  event ← fail_if (blank spec.event) relay_event_is_required
  baggage ← check_baggage spec.baggage
  check_with spec.with_map
