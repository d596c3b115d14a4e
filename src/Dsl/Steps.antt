-- ===== src/Dsl/Steps.antt =====
-- compileSteps and compileStep of internal/router/dsl/compiler.go: the nodes and the edges of a
-- pipeline from its steps.
use senechal_gw.Prelude.{
  ℕ, ◌+◌, String, Bool, true, false, not, ◌&&◌, ◌||◌, Option, none, some, List, [], ◌∷◌, ◌++◌, map,
  trim_space, str_append, ◌==◌, if◌then◌else◌,
}
use senechal_gw.Conditions.{Condition}
use senechal_gw.Conditions.Eval.{Library}
use senechal_gw.Conditions.Validate.{Validation, valid, invalid, one_if, validate_root}
use senechal_gw.Baggage.{BaggageSpec}
use senechal_gw.Dsl.{RelaySpec, uses, call, relay, switch, Node, Edge}
use senechal_gw.Dsl.Specs.{
  StepHead, StepSpec, step, StepSpecs, no_steps, step_then, steps_must_be_non_empty, not_one_mode,
  with_is_for_uses, baggage_is_for_uses, empty_node_set, bad_condition, Built, built, failed, ◌>>=◌,
  fail_if, blank, is_empty_baggage, validate_baggage_spec, validate_relay_spec,
}
use senechal_gw.Dsl.Builder.{
  CompileExit, CompileBuilder, alloc_node_id, add_node, add_edges, sorted_unique,
  sorted_compile_exits,
}

-- What compileStep answers.
pub record Ends : Type 0 where
  pub entry : List String
  pub terminal : List CompileExit

abbrev pub has_steps : StepSpecs → Bool
has_steps no_steps = false
has_steps (step_then s ss) = true

abbrev pub is_relay : Option RelaySpec → Bool
is_relay none = false
is_relay (some r) = true

abbrev pub mode_count : StepHead → Bool → Bool → ℕ
mode_count h steps split =
    one_if (not (blank h.uses))
    + one_if (not (blank h.call))
    + one_if (is_relay h.relay)
    + one_if steps
    + one_if split

unfoldable pub check_step_baggage : String → Option BaggageSpec → Built (Unit {0})
unfolding validate_baggage_spec
check_step_baggage plugin none = built tt
check_step_baggage plugin (some spec) =
    if is_empty_baggage spec
    then built tt
    else if blank plugin
    then failed baggage_is_for_uses
    else validate_baggage_spec spec

abbrev condition_of : Validation → Built (Unit {0})
condition_of (valid n) = built tt
condition_of (invalid p) = failed (bad_condition p)

unfoldable pub check_condition : Library → Option Condition → Built (Unit {0})
unfolding validate_root
check_condition l none = built tt
check_condition l (some c) = condition_of (validate_root l c)

abbrev is_nil : {A : Type 0} → List A → Bool
is_nil [] = true
is_nil (x ∷ xs) = false

-- The checks of compileStep in front of its switch.
unfoldable pub check_step : Library → StepHead → Bool → Bool → Built (Unit {0})
unfolding check_step_baggage check_condition
check_step l h steps split = do
  one ← fail_if (not (mode_count h steps split == 1)) not_one_mode
  withs ← fail_if (not (is_nil h.with_map) && blank h.uses) with_is_for_uses
  baggage ← check_step_baggage h.uses h.baggage
  check_condition l h.condition

abbrev pub single : String → Ends
single id = record { entry = id ∷ []; terminal = (record { node_id = id; event_type = "" }) ∷ [] }

abbrev pub switch_node : String → Condition → Node
switch_node id c = record {
  id = id;
  kind = switch;
  uses = "core.switch";
  call = "";
  relay = none;
  condition = some c;
  with_map = [];
  baggage = none;
}

abbrev pub switch_edge : String → String → Edge
switch_edge id to = record { from = id; to = to; event_type = "ductile.switch.true" }

abbrev pub switch_exit : String → CompileExit
switch_exit id = record { node_id = id; event_type = "ductile.switch.false" }

-- wrapConditionalStep
unfoldable pub wrap_conditional_step :
    String → Option Condition → Ends → CompileBuilder → Built (Ends × CompileBuilder)
unfolding alloc_node_id sorted_compile_exits
wrap_conditional_step step_id none ends b = built (ends, b)
wrap_conditional_step step_id (some c) ends b = do
  (id, b1) ← alloc_node_id (str_append step_id "__switch") b
  let b2 = add_node (switch_node id c) b1
  let b3 = record b2 { edges = b2.edges ++ map (switch_edge id) ends.entry }
  built (
    record {
      entry = id ∷ [];
      terminal = sorted_compile_exits (ends.terminal ++ (switch_exit id ∷ []));
    },
    b3,
  )

abbrev pub uses_node : StepHead → String → Node
uses_node h id = record {
  id = id;
  kind = uses;
  uses = trim_space h.uses;
  call = "";
  relay = none;
  condition = none;
  with_map = h.with_map;
  baggage = h.baggage;
}

abbrev pub call_node : StepHead → String → Node
call_node h id = record {
  id = id;
  kind = call;
  uses = "";
  call = trim_space h.call;
  relay = none;
  condition = none;
  with_map = [];
  baggage = none;
}

abbrev pub relay_node : RelaySpec → String → Node
relay_node r id = record {
  id = id;
  kind = relay;
  uses = "";
  call = "";
  relay = some r;
  condition = none;
  with_map = [];
  baggage = none;
}

-- A step of one node, with the names that it calls.
unfoldable pub compile_node :
    StepHead → (String → Node) → List String → CompileBuilder → Built (Ends × CompileBuilder)
unfolding alloc_node_id wrap_conditional_step
compile_node h node calls b = do
  (id, b1) ← alloc_node_id h.id b
  let b2 = add_node (node id) b1
  wrap_conditional_step id h.condition (single id) (record b2 { called = calls ++ b2.called })

-- The cases of the switch of compileStep.
pub data Mode : Type 0 where
  of_uses of_call of_steps of_split : Mode
  of_relay : RelaySpec → Mode

abbrev pub mode_below : Option RelaySpec → Bool → Mode
mode_below (some r) steps = of_relay r
mode_below none steps = if steps then of_steps else of_split

abbrev pub mode_of : StepHead → Bool → Mode
mode_of h steps =
    if not (blank h.uses)
    then of_uses
    else if not (blank h.call)
    then of_call
    else mode_below h.relay steps

abbrev pub guarded : {A : Type 0} → Bool → Built A → Built A
guarded b x = if b then x else failed steps_must_be_non_empty

unfoldable pub sort_split : Ends × CompileBuilder → Built (Ends × CompileBuilder)
unfolding sorted_unique sorted_compile_exits
sort_split (e, b) =
    built (record { entry = sorted_unique e.entry; terminal = sorted_compile_exits e.terminal }, b)

abbrev pub check_ends : Ends → Built (Unit {0})
check_ends e = fail_if (is_nil e.entry || is_nil e.terminal) empty_node_set

abbrev pub no_ends : Ends
no_ends = record { entry = []; terminal = [] }

-- The switch of compileStep, with what its two loops answer.
unfoldable pub by_mode :
    StepHead
    → Mode
    → CompileBuilder
    → Built (Ends × CompileBuilder)
    → Built (Ends × CompileBuilder)
    → Built (Ends × CompileBuilder)
unfolding compile_node validate_relay_spec sort_split
by_mode h of_uses b each split = compile_node h (uses_node h) [] b
by_mode h of_call b each split = compile_node h (call_node h) (trim_space h.call ∷ []) b
by_mode h (of_relay r) b each split = do
  valid_relay ← validate_relay_spec r
  compile_node h (relay_node r) [] b
by_mode h of_steps b each split = each
by_mode h of_split b each split = do found ← split; sort_split found

-- compileStep; the loops of compileSteps and over the branches of a split.
unfoldable mutual
  unfolding check_step by_mode add_edges

  pub compile_step : Library → StepSpec → CompileBuilder → Built (Ends × CompileBuilder)
  compile_step l (step h steps split) b = do
    checked ← check_step l h (has_steps steps) (has_steps split)
    by_mode h (mode_of h (has_steps steps)) b (compile_each l steps true no_ends b)
        (compile_split l split no_ends b)

  pub compile_each :
      Library → StepSpecs → Bool → Ends → CompileBuilder → Built (Ends × CompileBuilder)
  compile_each l no_steps first e b = built (e, b)
  compile_each l (step_then s ss) first e b = do
    (here, b1) ← compile_step l s b
    nodes ← check_ends here
    let entry = if first then e.entry ++ here.entry else e.entry
    compile_each l ss false (record { entry = entry; terminal = here.terminal })
        (add_edges e.terminal here.entry b1)

  pub compile_split : Library → StepSpecs → Ends → CompileBuilder → Built (Ends × CompileBuilder)
  compile_split l no_steps e b = built (e, b)
  compile_split l (step_then s ss) e b = do
    (here, b1) ← compile_step l s b
    compile_split l ss
        (record { entry = e.entry ++ here.entry; terminal = e.terminal ++ here.terminal }) b1

-- compileSteps
unfoldable pub compile_steps : Library → StepSpecs → CompileBuilder → Built (Ends × CompileBuilder)
unfolding compile_each
compile_steps l steps b = guarded (has_steps steps) (compile_each l steps true no_ends b)
