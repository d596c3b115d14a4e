-- ===== src/Router.antt =====
-- The engine of internal/router/engine.go over the compiled routes of internal/router/dsl/types.go.
-- The indexes are here, the resolution of a route in Resolve, the answers in Next; Depth, Unique and
-- Total are about them.
pub mod Resolve
pub mod Next
pub mod Depth
pub mod Unique
pub mod Total
mod Examples
use Prim.Native.Char.{nul}
use Prim.Native.Nat.{compare as compare_ℕ, Ordering}
use Prim.Native.String.{compare}
use text.Mathlib.Text.{is_lt}
use senechal_gw.Prelude.{
  ℕ, zero, suc, String, Bool, true, false, not, ◌&&◌, ◌||◌, Option, none, some, List, [], ◌∷◌, ◌++◌,
  select, find?, is_empty, str_append, str_eq, ltb, ◌==◌, if◌then◌else◌,
}
use senechal_gw.Conditions.{Condition, Fields}

-- protocol.Event; the time is a number of nanoseconds
pub record Event : Type 0 where
  pub type : String
  pub payload : Fields
  pub dedupe_key : String
  pub source : String
  pub timestamp : ℕ
  pub event_id : String

-- A depth of 0 stands for 0 and below: no limit.
pub record CompiledRouteSource : Type 0 where
  pub trigger : String
  pub pipeline : String
  pub step_id : String
  pub hook_signal : String
  pub source_plugin : String
  pub event_type : String
  pub depth_lt : ℕ
  pub condition : Option Condition

pub record CompiledRouteDestination : Type 0 where
  pub kind : String
  pub step_id : String
  pub plugin : String
  pub command : String
  pub call_pipeline : String

pub record CompiledRoute : Type 0 where
  pub id : String
  pub pipeline : String
  pub source : CompiledRouteSource
  pub destination : CompiledRouteDestination

-- dsl.Pipeline, as far as the engine reads it to route
pub record Pipeline : Type 0 where
  pub name : String
  pub compiled_routes : List CompiledRoute

-- The pipelines of dsl.Set; their names are distinct. Their routes are those after New.
pub record Router : Type 0 where
  pub pipelines : List Pipeline

-- The keys of SortCompiledRoutes, in their order; DepthLT comes after the first eight.
abbrev source_keys : CompiledRoute → List String
source_keys r =
    r.id ∷ r.pipeline ∷ r.source.trigger ∷ r.source.hook_signal ∷ r.source.source_plugin
    ∷ r.source.pipeline ∷ r.source.step_id ∷ r.source.event_type ∷ []

abbrev destination_keys : CompiledRoute → List String
destination_keys r =
    r.destination.kind ∷ r.destination.step_id ∷ r.destination.plugin ∷ r.destination.command
    ∷ r.destination.call_pipeline ∷ []

abbrev first : Ordering → Ordering → Ordering
first Ordering.lt o = Ordering.lt
first Ordering.eq o = o
first Ordering.gt o = Ordering.gt

unfoldable pub compare_keys : List String → List String → Ordering
compare_keys [] ys = Ordering.eq
compare_keys (x ∷ xs) [] = Ordering.eq
compare_keys (x ∷ xs) (y ∷ ys) = first (compare x y) (compare_keys xs ys)

-- The test of SortCompiledRoutes.
unfoldable pub route_lt : CompiledRoute → CompiledRoute → Bool
unfolding compare_keys
route_lt a b = is_lt (
    first (compare_keys (source_keys a) (source_keys b)) (
      first (compare_ℕ a.source.depth_lt b.source.depth_lt)
        (compare_keys (destination_keys a) (destination_keys b))))

unfoldable pub insert_route : CompiledRoute → List CompiledRoute → List CompiledRoute
unfolding route_lt
insert_route x [] = x ∷ []
insert_route x (y ∷ ys) =
    let rest = insert_route x ys in if route_lt y x then y ∷ rest else x ∷ y ∷ ys

-- SortCompiledRoutes; routes that no key tells apart are in the order of the pipelines.
unfoldable pub sort_compiled_routes : List CompiledRoute → List CompiledRoute
unfolding insert_route
sort_compiled_routes [] = []
sort_compiled_routes (x ∷ xs) = insert_route x (sort_compiled_routes xs)

unfoldable pub all_routes : List Pipeline → List CompiledRoute
all_routes [] = []
all_routes (p ∷ ps) = p.compiled_routes ++ all_routes ps

-- The cases of New, and the key of each index.
abbrev pub is_triggered_by : String → CompiledRoute → Bool
is_triggered_by event_type r = not (is_empty r.source.trigger) && str_eq r.source.trigger event_type

abbrev pub is_hooked_by : String → CompiledRoute → Bool
is_hooked_by signal r =
    is_empty r.source.trigger
    && not (is_empty r.source.hook_signal)
    && str_eq r.source.hook_signal signal

-- compiledRouteKey
unfoldable pub compiled_route_key : String → String → String
compiled_route_key pipeline step_id = str_append pipeline (String.◌∷◌ nul step_id)

abbrev pub follows : String → String → CompiledRoute → Bool
follows pipeline step_id r =
    is_empty r.source.trigger
    && is_empty r.source.hook_signal
    && not (is_empty r.source.pipeline)
    && not (is_empty r.source.step_id)
    && str_eq (compiled_route_key r.source.pipeline r.source.step_id)
        (compiled_route_key pipeline step_id)

-- triggerIndex, hookIndex and transitionIndex of New
unfoldable pub trigger_index : Router → String → List CompiledRoute
unfolding sort_compiled_routes all_routes
trigger_index r event_type =
    sort_compiled_routes (select (is_triggered_by event_type) (all_routes r.pipelines))

unfoldable pub hook_index : Router → String → List CompiledRoute
unfolding sort_compiled_routes all_routes
hook_index r signal = sort_compiled_routes (select (is_hooked_by signal) (all_routes r.pipelines))

unfoldable pub transition_index : Router → String → String → List CompiledRoute
unfolding sort_compiled_routes all_routes
transition_index r pipeline step_id =
    sort_compiled_routes (select (follows pipeline step_id) (all_routes r.pipelines))

abbrev pub is_named : String → Pipeline → Bool
is_named name p = str_eq p.name name

abbrev pub is_entry_of : String → CompiledRoute → Bool
is_entry_of name r =
    str_eq r.pipeline name
    && (not (is_empty r.source.trigger) || not (is_empty r.source.hook_signal))

unfoldable pub entries_of : String → Option Pipeline → List CompiledRoute
entries_of name none = []
entries_of name (some p) = select (is_entry_of name) p.compiled_routes

-- entryRoutesForPipeline
unfoldable pub entry_routes_for_pipeline : Router → String → List CompiledRoute
unfolding entries_of
entry_routes_for_pipeline r name = entries_of name (find? (is_named name) r.pipelines)
