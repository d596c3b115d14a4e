-- ===== src/Dsl/Examples.antt =====
-- Instances of the theorems about the compiler of pipelines, and runs of it.
use senechal_gw.Prelude.{
  ℕ, String, ◌≡◌, ◌≢◌, refl, Bool, true, false, Option, none, some, List, [], ◌∷◌, map, count_p,
  any, find?, trim_space, str_eq, select, split, str_append, decimal, has_prefix,
}
use senechal_gw.Conditions.{null, Condition, condition, no_conditions, no_negation}
use senechal_gw.Conditions.Eval.{Library}
use senechal_gw.Router.{CompiledRoute}
use senechal_gw.Router.Resolve.{out_of_fuel, rejected, resolve_compiled_route}
use senechal_gw.Dsl.{pos, negsuc, Pipeline}
use senechal_gw.Dsl.Specs.{
  StepHead, StepSpec, step, StepSpecs, no_steps, step_then, PipelineSpec, Built, built, failed,
  is_payload_path,
}
use senechal_gw.Dsl.Compile.{timeout_of, compile_pipeline}
use senechal_gw.Dsl.Routes.{build_compiled_routes}
use senechal_gw.Dsl.Calls.{
  accepted, call_cycle, unknown_pipeline, validate_pipeline_calls, from_name,
}
use senechal_gw.Dsl.Calls.Ranked.{IsAcyclic, validate_pipeline_calls-accepts}
use senechal_gw.Dsl.Sound.Compiled.{IsSound, compile_pipeline-IsSound}
use senechal_gw.Dsl.Resolved.{router_of, routes-end}
use senechal_gw.Conditions.Validate.{check_atomic, check_node}

abbrev plain : Library
plain = record { to_lower = λ s. s; compiles = λ p. true; matches = λ p t. str_eq p t }

abbrev head : String → String → String → Option Condition → StepHead
head id uses_name call_name c = record {
  id = id;
  uses = uses_name;
  call = call_name;
  relay = none;
  condition = c;
  with_map = [];
  baggage = none;
}

abbrev use_of : String → String → Option Condition → StepSpec
use_of id plugin c = step (head id plugin "" c) no_steps no_steps

abbrev call_of : String → StepSpec
call_of name = step (head "" "" name none) no_steps no_steps

abbrev spec_of : String → StepSpecs → PipelineSpec
spec_of name steps = record {
  name = name;
  on = "order.created";
  on_hook = "";
  from_plugin = "";
  condition = none;
  max_depth = none;
  steps = steps;
  execution_mode = "";
  timeout = pos 0;
}

abbrev is_big : Condition
is_big = condition "payload.total" "exists" null no_conditions no_conditions no_negation

-- A step with a condition, then two branches, one of which calls the other pipeline.
abbrev orders : PipelineSpec
orders = spec_of "orders" (
    step_then (use_of "check" "checker" (some is_big)) (
      step_then
        (step (head "" "" "" none) no_steps
          (step_then (use_of "" "mailer" none) (step_then (call_of " notes ") no_steps)))
        no_steps))

abbrev notes : PipelineSpec
notes = spec_of "notes" (step_then (use_of "" "writer" none) no_steps)

abbrev none_compiled : Pipeline
none_compiled = record {
  name = "";
  trigger = "";
  is_hook = false;
  from_plugin = "";
  execution_mode = "";
  timeout = pos 0;
  condition = none;
  author_max_depth = none;
  nodes = [];
  edges = [];
  entry_node_ids = [];
  terminal_node_ids = [];
  terminal_exits = [];
  called_pipelines = [];
  max_route_depth = 0;
  compiled_routes = [];
}

abbrev compiled : Built Pipeline → Pipeline
compiled (built p) = p
compiled (failed e) = none_compiled

compiled_orders : Pipeline
unfolding compile_pipeline
compiled_orders = compiled (compile_pipeline plain orders)

compiled_notes : Pipeline
unfolding compile_pipeline
compiled_notes = compiled (compile_pipeline plain notes)

orders-compiles : compile_pipeline plain orders ≡ built compiled_orders
unfolding compiled_orders compile_pipeline trim_space check_node check_atomic split any str_append
    decimal select count_p
orders-compiles = refl

notes-compiles : compile_pipeline plain notes ≡ built compiled_notes
unfolding compiled_notes compile_pipeline trim_space any select count_p
notes-compiles = refl

abbrev route_ids : Pipeline → List String
route_ids p = map (λ r. r.id) (build_compiled_routes p)

orders_routes :
    route_ids compiled_orders
    ≡ "edge:check->step_1" ∷ "edge:check->step_2" ∷ "edge:check__switch->check"
      ∷ "edge:check__switch->step_1" ∷ "edge:check__switch->step_2" ∷ "entry:check__switch"
      ∷ "terminal:step_1" ∷ "terminal:step_2" ∷ []
unfolding compiled_orders compile_pipeline build_compiled_routes trim_space check_node check_atomic
    split any str_append decimal select count_p find?
orders_routes = refl

compile_pipeline-IsSound_example : IsSound compiled_orders
compile_pipeline-IsSound_example =
    compile_pipeline-IsSound plain orders compiled_orders orders-compiles

abbrev both : List Pipeline
both = compiled_orders ∷ compiled_notes ∷ []

both-accepted : validate_pipeline_calls both ≡ accepted tt
unfolding validate_pipeline_calls compiled_orders compiled_notes compile_pipeline trim_space
    check_node check_atomic split any str_append decimal select count_p find?
both-accepted = refl

validate_pipeline_calls-accepts_example : IsAcyclic both
validate_pipeline_calls-accepts_example = (validate_pipeline_calls-accepts both).1.0 both-accepted

routes-end_example :
    (fuel : ℕ) × ((req : _) (root_hook : Bool) (route : CompiledRoute)
      → resolve_compiled_route fuel (router_of both) req root_hook route ≢ rejected out_of_fuel)
routes-end_example =
    routes-end both
      (
        compile_pipeline-IsSound plain orders compiled_orders orders-compiles,
        (compile_pipeline-IsSound plain notes compiled_notes notes-compiles, tt),
      )
      both-accepted

abbrev caller : String → String → Pipeline
caller name called = record none_compiled { name = name; called_pipelines = called ∷ [] }

a_cycle :
    validate_pipeline_calls (caller "b" "a" ∷ caller "a" "b" ∷ [])
    ≡ call_cycle ("a" ∷ "b" ∷ "a" ∷ [])
unfolding validate_pipeline_calls any find? from_name
a_cycle = refl

an_unknown_call : validate_pipeline_calls (caller "a" "b" ∷ []) ≡ unknown_pipeline "a" "b"
unfolding validate_pipeline_calls any
an_unknown_call = refl

-- The condition of a step that holds steps is checked, and then left out.
abbrev grouped : PipelineSpec
grouped = spec_of "grouped" (
    step_then
      (step (head "" "" "" (some is_big)) (step_then (use_of "only" "writer" none) no_steps)
        no_steps)
      no_steps)

ids_of : Built Pipeline → List String
ids_of p = map (λ n. n.id) (compiled p).nodes

grouped-has_no_switch : ids_of (compile_pipeline plain grouped) ≡ "only" ∷ []
unfolding ids_of compile_pipeline trim_space check_node check_atomic split any select count_p
grouped-has_no_switch = refl

-- A bulk import may name the payload or a path below it.
payload_path_run :
    map is_payload_path ("payload.metrics" ∷ " payload" ∷ "pay" ∷ "payloads" ∷ [])
    ≡ true ∷ true ∷ false ∷ false ∷ []
unfolding is_payload_path trim_space has_prefix
payload_path_run = refl

-- A timeout below 0 is kept, and 0 is the default.
timeout_run :
    map timeout_of (negsuc 4 ∷ pos 0 ∷ pos 7 ∷ []) ≡ negsuc 4 ∷ pos 30000000000 ∷ pos 7 ∷ []
timeout_run = refl
