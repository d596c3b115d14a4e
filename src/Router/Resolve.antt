-- ===== src/Router/Resolve.antt =====
-- resolveCompiledRoute, dedupeDispatches and matchesCompiledRouteSource of internal/router/engine.go.
use Prim.Native.Char.{nul}
use senechal_gw.Prelude.{
  ℕ, zero, suc, String, Bool, false, not, ◌&&◌, ◌||◌, List, [], ◌∷◌, ◌++◌, any, is_empty,
  trim_space, str_append, str_eq, ltb, leb, ◌==◌, if◌then◌else◌,
}
use senechal_gw.Conditions.{Fields}
use senechal_gw.Conditions.Eval.{EvalError}
use senechal_gw.Router.{
  Event, CompiledRouteSource, CompiledRoute, Router, entry_routes_for_pipeline,
}

-- Request
pub record Request : Type 0 where
  pub source_plugin : String
  pub source_job_id : String
  pub source_context_id : String
  pub source_pipeline : String
  pub source_step_id : String
  pub source_pipeline_instance_id : String
  pub source_depth : ℕ
  pub source_max_depth : ℕ
  pub source_event_id : String
  pub source_context : Fields
  pub event : Event

-- Dispatch
pub record Dispatch : Type 0 where
  pub plugin : String
  pub command : String
  pub event : Event
  pub pipeline_name : String
  pub step_id : String
  pub pipeline_instance_id : String
  pub route_depth : ℕ
  pub route_max_depth : ℕ
  pub parent_job_id : String
  pub parent_context_id : String
  pub source_event_id : String

pub data RouteError : Type 0 where
  event_type_is_required signal_is_required out_of_fuel : RouteError
  pipeline_not_found : String → RouteError
  empty_call_target : String → RouteError
  no_entry_routes : String → String → RouteError
  unsupported_kind : String → RouteError
  condition_failed : String → EvalError → RouteError

pub data Routed (A : Type 0) : Type 0 where
  routed : A → Routed A
  rejected : RouteError → Routed A

infixl 20 ◌>>=◌
abbrev pub ◌>>=◌ : {A B : Type 0} → Routed A → (A → Routed B) → Routed B
routed a >>= f = f a
rejected e >>= f = rejected e

-- The loops over routes: the answers one after the other, or the first error.
unfoldable pub collect :
    (CompiledRoute → Routed (List Dispatch)) → List CompiledRoute → Routed (List Dispatch)
collect f [] = routed []
collect f (r ∷ rs) = do here ← f r; rest ← collect f rs; routed (here ++ rest)

-- The dispatch of a route to a plugin. cloneEvent copies the event, which is a value here.
unfoldable pub dispatch_of : CompiledRoute → Request → Bool → Dispatch
dispatch_of route req root_hook = record {
  plugin = route.destination.plugin;
  command = route.destination.command;
  event = req.event;
  pipeline_name = if root_hook then "" else route.pipeline;
  step_id = if root_hook then "" else route.destination.step_id;
  pipeline_instance_id = req.source_pipeline_instance_id;
  route_depth = suc req.source_depth;
  route_max_depth =
      if 0 == req.source_max_depth then route.source.depth_lt else req.source_max_depth;
  parent_job_id = req.source_job_id;
  parent_context_id = req.source_context_id;
  source_event_id = req.source_event_id;
}

unfoldable pub resolve_entries :
    (CompiledRoute → Routed (List Dispatch))
    → String
    → String
    → List CompiledRoute
    → Routed (List Dispatch)
unfolding collect
resolve_entries f id called [] = rejected (no_entry_routes id called)
resolve_entries f id called (e ∷ es) = collect f (e ∷ es)

-- resolveCompiledRoute; the fuel bounds the calls of pipelines by pipelines.
unfoldable pub resolve_compiled_route :
    ℕ → Router → Request → Bool → CompiledRoute → Routed (List Dispatch)
unfolding resolve_entries dispatch_of
resolve_compiled_route zero r req root_hook route = rejected out_of_fuel
resolve_compiled_route (suc fuel) r req root_hook route =
    let called = trim_space route.destination.call_pipeline in
    let entries =
      resolve_entries (resolve_compiled_route fuel r req root_hook) route.id called
        (entry_routes_for_pipeline r called) in
    if str_eq route.destination.kind "uses"
    then routed (dispatch_of route req root_hook ∷ [])
    else if str_eq route.destination.kind "call"
    then (if is_empty called then rejected (empty_call_target route.id) else entries)
    else if str_eq route.destination.kind "terminal"
    then routed []
    else rejected (unsupported_kind route.destination.kind)

-- The key of dedupeDispatches.
unfoldable pub dispatch_key : Dispatch → String
dispatch_key d = str_append d.pipeline_name (
    String.◌∷◌ nul (
      str_append d.step_id (
        String.◌∷◌ nul (
          str_append d.pipeline_instance_id (
            String.◌∷◌ nul (
              str_append d.plugin
                (String.◌∷◌ nul (str_append d.command (String.◌∷◌ nul d.source_event_id)))))))))

-- The loop of dedupeDispatches with the keys that it has seen.
unfoldable pub dedupe_from : List String → List Dispatch → List Dispatch
dedupe_from seen [] = []
dedupe_from seen (d ∷ ds) =
    let rest_seen = dedupe_from seen ds in
    let rest_new = dedupe_from (dispatch_key d ∷ seen) ds in
    if any (str_eq (dispatch_key d)) seen then rest_seen else d ∷ rest_new

-- dedupeDispatches
unfoldable pub dedupe_dispatches : List Dispatch → List Dispatch
unfolding dedupe_from
dedupe_dispatches ds = dedupe_from [] ds

abbrev pub same_trimmed : String → String → Bool
same_trimmed a b = str_eq (trim_space a) (trim_space b)

-- matchesCompiledRouteSource; the flag is compiledRouteMatchRequireInstance
unfoldable pub matches_compiled_route_source : CompiledRouteSource → Request → Bool → Bool
matches_compiled_route_source source req require_instance =
    if not (is_empty source.trigger)
    then same_trimmed source.trigger req.event.type
    else if not (is_empty source.hook_signal)
    then same_trimmed source.hook_signal req.event.type
    else if not (is_empty source.pipeline) && not (is_empty source.step_id)
    then (let max_depth =
          if 0 == req.source_max_depth then source.depth_lt else req.source_max_depth in
        same_trimmed source.pipeline req.source_pipeline
        && same_trimmed source.step_id req.source_step_id
        && (is_empty source.event_type || same_trimmed source.event_type req.event.type)
        && not (require_instance && is_empty (trim_space req.source_pipeline_instance_id))
        && not (ltb 0 max_depth && leb max_depth req.source_depth))
    else false

-- sourcePluginMatches
unfoldable pub source_plugin_matches : String → String → Bool
source_plugin_matches want have = is_empty (trim_space want) || same_trimmed want have
