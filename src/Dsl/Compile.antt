-- ===== src/Dsl/Compile.antt =====
-- compilePipeline of internal/router/dsl/compiler.go.
use Prim.Native.String.{compare}
use text.Mathlib.Text.{is_lt}
use senechal_gw.Prelude.{
  ℕ, zero, suc, String, Bool, not, ◌&&◌, Option, none, some, List, [], ◌∷◌, map, trim_space,
  is_empty, str_eq, if◌then◌else◌,
}
use senechal_gw.Conditions.Eval.{Library}
use senechal_gw.Dsl.{ℤ, pos, negsuc, Edge, TerminalExit, Pipeline}
use senechal_gw.Dsl.Specs.{
  Limit, below_zero, at_most, PipelineSpec, trigger_is_required, triggers_are_exclusive,
  steps_must_be_non_empty, max_depth_is_negative, Built, built, failed, ◌>>=◌, fail_if, blank,
}
use senechal_gw.Dsl.Builder.{CompileExit, CompileBuilder, sorted_unique, sorted_compile_exits}
use senechal_gw.Dsl.Steps.{Ends, has_steps, check_condition, compile_steps}
use senechal_gw.Dsl.Dag.{validate_pipeline_dag}

abbrev pub edge_lt : Edge → Edge → Bool
edge_lt x y =
    if str_eq x.from y.from
    then if str_eq x.to y.to
      then is_lt (compare x.event_type y.event_type)
      else is_lt (compare x.to y.to)
    else is_lt (compare x.from y.from)

unfoldable pub insert_edge : Edge → List Edge → List Edge
insert_edge x [] = x ∷ []
insert_edge x (y ∷ ys) = let rest = insert_edge x ys in if edge_lt y x then y ∷ rest else x ∷ y ∷ ys

-- sortEdges
unfoldable pub sort_edges : List Edge → List Edge
unfolding insert_edge
sort_edges [] = []
sort_edges (x ∷ xs) = insert_edge x (sort_edges xs)

abbrev pub exit_for : CompileExit → TerminalExit
exit_for x = record { step_id = x.node_id; event_type = x.event_type }

-- sortedTerminalExits
unfoldable pub sorted_terminal_exits : List CompileExit → List TerminalExit
unfolding sorted_compile_exits
sorted_terminal_exits xs = map exit_for (sorted_compile_exits xs)

-- terminalNodeIDs
unfoldable pub terminal_node_ids_of : List CompileExit → List String
unfolding sorted_unique
terminal_node_ids_of xs = sorted_unique (map (λ x. x.node_id) xs)

abbrev pub depth_of : Option Limit → Built (Option ℕ)
depth_of none = built none
depth_of (some below_zero) = failed max_depth_is_negative
depth_of (some (at_most n)) = built (some n)

-- 30 seconds
abbrev pub default_timeout : ℕ
default_timeout = 30000000000

abbrev pub timeout_of : ℤ → ℤ
timeout_of (pos zero) = pos default_timeout
timeout_of (pos (suc n)) = pos (suc n)
timeout_of (negsuc n) = negsuc n

abbrev pub new_builder : CompileBuilder
new_builder = record { nodes = []; edges = []; next_auto = 0; called = [] }

-- The pipeline of a specification and of what its steps are compiled to.
unfoldable pub pipeline_of : PipelineSpec → Option ℕ → Ends → CompileBuilder → Pipeline
unfolding sorted_unique sorted_terminal_exits terminal_node_ids_of sort_edges
pipeline_of spec depth ends b = record {
  name = trim_space spec.name;
  trigger = if blank spec.on_hook then trim_space spec.on else trim_space spec.on_hook;
  is_hook = not (blank spec.on_hook);
  from_plugin = trim_space spec.from_plugin;
  execution_mode = if is_empty spec.execution_mode then "async" else spec.execution_mode;
  timeout = timeout_of spec.timeout;
  condition = spec.condition;
  author_max_depth = depth;
  nodes = b.nodes;
  edges = sort_edges b.edges;
  entry_node_ids = sorted_unique ends.entry;
  terminal_node_ids = terminal_node_ids_of ends.terminal;
  terminal_exits = sorted_terminal_exits ends.terminal;
  called_pipelines = sorted_unique b.called;
  max_route_depth = 0;
  compiled_routes = [];
}

-- compilePipeline
unfoldable pub compile_pipeline : Library → PipelineSpec → Built Pipeline
unfolding compile_steps pipeline_of validate_pipeline_dag check_condition
compile_pipeline l spec = do
  triggered ← fail_if (blank spec.on && blank spec.on_hook) trigger_is_required
  one ← fail_if (not (blank spec.on) && not (blank spec.on_hook)) triggers_are_exclusive
  some_steps ← fail_if (not (has_steps spec.steps)) steps_must_be_non_empty
  holds ← check_condition l spec.condition
  depth ← depth_of spec.max_depth
  (ends, b) ← compile_steps l spec.steps new_builder
  let p = pipeline_of spec depth ends b
  graph ← validate_pipeline_dag p
  built p
