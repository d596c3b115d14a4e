-- ===== src/Router/Examples.antt =====
-- Instances of the theorems about the router.
use senechal_gw.Prelude.{
  ◌≤◌, ◌≡◌, refl, false, none, [], ◌∷◌, arith, All, count_p, find?, select, trim_space, str_append,
}
use senechal_gw.Conditions.{no_fields}
use senechal_gw.Router.{
  Event, CompiledRoute, Router, Pipeline, transition_index, entry_routes_for_pipeline,
  compiled_route_key,
}
use senechal_gw.Router.Resolve.{
  Request, routed, collect, resolve_compiled_route, dedupe_dispatches, dispatch_of,
  matches_compiled_route_source,
}
use senechal_gw.Router.Next.{transitions, bare_request}
use senechal_gw.Router.Depth.{IsFor, IsWithin, resolve_compiled_route-IsFor, transitions-IsWithin}
use senechal_gw.Router.Unique.{has_key, dedupe_dispatches-keeps_first}

abbrev event : Event
event = record {
  type = "done";
  payload = no_fields;
  dedupe_key = "";
  source = "";
  timestamp = 0;
  event_id = "e1";
}

-- A transition from the step a to the step b.
abbrev step : CompiledRoute
step = record {
  id = "r1";
  pipeline = "p";
  source = record {
    trigger = "";
    pipeline = "p";
    step_id = "a";
    hook_signal = "";
    source_plugin = "";
    event_type = "";
    depth_lt = 0;
    condition = none;
  };
  destination = record {
    kind = "uses";
    step_id = "b";
    plugin = "echo";
    command = "handle";
    call_pipeline = "";
  };
}

abbrev router : Router
router = record { pipelines = record { name = "p"; compiled_routes = step ∷ [] } ∷ [] }

abbrev request : Request
request = record (bare_request event) {
  source_pipeline = "p";
  source_step_id = "a";
  source_pipeline_instance_id = "i";
  source_depth = 1;
  source_max_depth = 2;
}

transitions-IsWithin_example : All (IsWithin request) (dispatch_of step request false ∷ [])
unfolding transitions collect select transition_index compiled_route_key str_append
    matches_compiled_route_source trim_space resolve_compiled_route
transitions-IsWithin_example =
    transitions-IsWithin 1 router request (dispatch_of step request false ∷ []) (omega arith) refl

resolve_compiled_route-IsFor_example : All (IsFor request) (dispatch_of step request false ∷ [])
unfolding resolve_compiled_route
resolve_compiled_route-IsFor_example =
    resolve_compiled_route-IsFor 1 router request false step (dispatch_of step request false ∷ [])
      refl

dedupe_dispatches-keeps_first_example :
    (count_p (has_key "k") (dedupe_dispatches (dispatch_of step request false ∷ [])) ≤ 1)
    × (find? (has_key "k") (dedupe_dispatches (dispatch_of step request false ∷ []))
        ≡ find? (has_key "k") (dispatch_of step request false ∷ []))
dedupe_dispatches-keeps_first_example =
    dedupe_dispatches-keeps_first "k" (dispatch_of step request false ∷ [])

-- A pipeline that starts with the plugin echo, and a route that calls it.
abbrev entry : CompiledRoute
entry = record step {
  id = "r2";
  pipeline = "inner";
  source = record step.source { trigger = "done"; pipeline = ""; step_id = "" };
}

abbrev call : CompiledRoute
call = record step {
  id = "r3";
  destination = record step.destination { kind = "call"; call_pipeline = " inner " };
}

abbrev inner : Pipeline
inner = record { name = "inner"; compiled_routes = entry ∷ [] }

abbrev calling_router : Router
calling_router = record { pipelines = inner ∷ [] }

one_dispatch :
    resolve_compiled_route 2 calling_router request false call
    ≡ routed (dispatch_of entry request false ∷ [])
unfolding resolve_compiled_route trim_space entry_routes_for_pipeline find? select
one_dispatch = refl
