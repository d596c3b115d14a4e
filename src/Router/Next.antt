-- ===== src/Router/Next.antt =====
-- Next, NextHook and GetEntryDispatches of internal/router/engine.go. The context of the calls is not
-- cancelled.
use senechal_gw.Prelude.{
  ℕ, String, Bool, true, false, not, ◌&&◌, Option, none, some, List, [], ◌++◌, select, find?,
  is_empty, trim_space, if◌then◌else◌,
}
use senechal_gw.Conditions.{Condition, Fields, no_fields, Scope}
use senechal_gw.Conditions.Eval.{Library, Answer, answer, failure, eval}
use senechal_gw.Router.{
  Event, CompiledRoute, Router, Pipeline, trigger_index, hook_index, transition_index, is_named,
  entry_routes_for_pipeline,
}
use senechal_gw.Router.Resolve.{
  Request, Dispatch, event_type_is_required, signal_is_required, pipeline_not_found,
  condition_failed, Routed, routed, rejected, ◌>>=◌, collect, resolve_compiled_route,
  dedupe_dispatches, matches_compiled_route_source, source_plugin_matches,
}

-- The transitions of the current step.
unfoldable pub transitions : ℕ → Router → Request → Routed (List Dispatch)
transitions fuel r req =
    if not (is_empty req.source_pipeline) && not (is_empty req.source_step_id)
    then collect (resolve_compiled_route fuel r req false) (
        select (λ route. matches_compiled_route_source route.source req true)
          (transition_index r req.source_pipeline req.source_step_id))
    else routed []

-- The predicate of a route; without one the answer is true.
unfoldable pub eval_if : Library → Option Condition → Scope → Answer Bool
eval_if l none scope = answer true
eval_if l (some c) scope = eval l c scope

unfoldable pub when_true : String → Answer Bool → Routed (List Dispatch) → Routed (List Dispatch)
when_true pipeline (failure e) ds = rejected (condition_failed pipeline e)
when_true pipeline (answer b) ds = if b then ds else routed []

abbrev pub scope_of : Fields → Fields → Scope
scope_of payload context = record { payload = payload; context = context; config = no_fields }

-- A root trigger: `uuid` gives each pipeline its instance, which its routes share.
unfoldable pub start_pipeline :
    ℕ → Library → Router → Request → (String → String) → CompiledRoute → Routed (List Dispatch)
unfolding eval_if when_true
start_pipeline fuel l r req uuid route =
    if not (source_plugin_matches route.source.source_plugin req.source_plugin)
    then routed []
    else when_true route.pipeline
        (eval_if l route.source.condition (scope_of req.event.payload req.source_context))
        (resolve_compiled_route fuel r
          (record req { source_pipeline_instance_id = uuid route.pipeline }) false route)

-- Next
unfoldable pub next_dispatches :
    ℕ → Library → Router → Request → (String → String) → Routed (List Dispatch)
unfolding transitions start_pipeline
next_dispatches fuel l r req uuid =
    let event_type = trim_space req.event.type in
    if is_empty event_type then rejected event_type_is_required else (do
      inner ← transitions fuel r req
      roots ← collect (start_pipeline fuel l r req uuid) (trigger_index r event_type)
      routed (dedupe_dispatches (inner ++ roots)))

abbrev pub hook_event : String → Fields → Event
hook_event signal payload = record {
  type = signal;
  payload = payload;
  dedupe_key = "";
  source = "";
  timestamp = 0;
  event_id = "";
}

abbrev pub bare_request : Event → Request
bare_request event = record {
  source_plugin = "";
  source_job_id = "";
  source_context_id = "";
  source_pipeline = "";
  source_step_id = "";
  source_pipeline_instance_id = "";
  source_depth = 0;
  source_max_depth = 0;
  source_event_id = "";
  source_context = no_fields;
  event = event;
}

unfoldable pub start_hook : ℕ → Library → Router → Request → CompiledRoute → Routed (List Dispatch)
unfolding eval_if when_true
start_hook fuel l r req route =
    if not (source_plugin_matches route.source.source_plugin req.source_plugin)
    then routed []
    else when_true route.pipeline
        (eval_if l route.source.condition (scope_of req.event.payload req.source_context))
        (resolve_compiled_route fuel r req true route)

-- NextHook
unfoldable pub next_hook :
    ℕ → Library → Router → String → String → Fields → Fields → Routed (List Dispatch)
unfolding start_hook
next_hook fuel l r plugin signal payload context =
    let name = trim_space signal in
    let req = record (bare_request (hook_event name payload)) {
      source_plugin = plugin;
      source_context = context;
    } in
    if is_empty name then rejected signal_is_required else (do
      found ← collect (start_hook fuel l r req) (hook_index r name)
      routed (dedupe_dispatches found))

unfoldable pub entry_dispatches :
    ℕ → Router → Event → Option Pipeline → String → Routed (List Dispatch)
entry_dispatches fuel r event none name = rejected (pipeline_not_found name)
entry_dispatches fuel r event (some p) name =
    collect (resolve_compiled_route fuel r (bare_request event) false)
      (entry_routes_for_pipeline r p.name)

-- GetEntryDispatches
unfoldable pub get_entry_dispatches : ℕ → Router → String → Event → Routed (List Dispatch)
unfolding entry_dispatches
get_entry_dispatches fuel r name event =
    entry_dispatches fuel r event (find? (is_named name) r.pipelines) name
