-- ===== src/Dsl/Routes.antt =====
-- BuildCompiledRoutes of internal/router/dsl/compiler.go: the routes of a compiled pipeline.
use senechal_gw.Prelude.{
  ℕ, String, Option, none, some, List, [], ◌∷◌, ◌++◌, map, find?, str_append, ltb, if◌then◌else◌,
}
use senechal_gw.Router.{
  CompiledRouteSource, CompiledRouteDestination, CompiledRoute, sort_compiled_routes,
}
use senechal_gw.Dsl.{uses, call, relay, switch, Node, Edge, TerminalExit, Pipeline, has_id}
use senechal_gw.Dsl.Specs.{blank}

abbrev pub to_plugin : String → String → CompiledRouteDestination
to_plugin id name = record {
  kind = "uses";
  step_id = id;
  plugin = name;
  command = "handle";
  call_pipeline = "";
}

-- routeDestinationForNode
abbrev pub route_destination_for_node : Node → CompiledRouteDestination
route_destination_for_node n = elim n.kind [
  | call ↦ record {
    kind = "call";
    step_id = n.id;
    plugin = "";
    command = "";
    call_pipeline = n.call;
  }
  | switch ↦ to_plugin n.id "core.switch"
  | relay ↦ to_plugin n.id "core.relay"
  | uses ↦ to_plugin n.id n.uses
]

-- withRouteDepth
abbrev pub with_route_depth : CompiledRouteSource → ℕ → CompiledRouteSource
with_route_depth source depth = if ltb 0 depth then record source { depth_lt = depth } else source

abbrev pub entry_source : Pipeline → CompiledRouteSource
entry_source p = record {
  trigger = if p.is_hook then "" else p.trigger;
  pipeline = "";
  step_id = "";
  hook_signal = if p.is_hook then p.trigger else "";
  source_plugin = p.from_plugin;
  event_type = "";
  depth_lt = 0;
  condition = p.condition;
}

abbrev pub step_source : Pipeline → String → String → CompiledRouteSource
step_source p step_id event_type = record {
  trigger = "";
  pipeline = p.name;
  step_id = step_id;
  hook_signal = "";
  source_plugin = "";
  event_type = event_type;
  depth_lt = 0;
  condition = none;
}

abbrev pub route_to :
    Pipeline → String → CompiledRouteSource → CompiledRouteDestination → CompiledRoute
route_to p id source destination = record {
  id = id;
  pipeline = p.name;
  source = with_route_depth source p.max_route_depth;
  destination = destination;
}

-- A route to a node that is there.
abbrev pub route_for : Pipeline → String → CompiledRouteSource → Option Node → List CompiledRoute
route_for p id source none = []
route_for p id source (some n) = route_to p id source (route_destination_for_node n) ∷ []

unfoldable pub entry_routes : Pipeline → List String → List CompiledRoute
entry_routes p [] = []
entry_routes p (id ∷ ids) =
    route_for p (str_append "entry:" id) (entry_source p) (find? (has_id id) p.nodes)
    ++ entry_routes p ids

abbrev pub edge_id : Edge → String
edge_id e = str_append "edge:" (str_append e.from (str_append "->" e.to))

unfoldable pub edge_routes : Pipeline → List Edge → List CompiledRoute
edge_routes p [] = []
edge_routes p (e ∷ es) =
    route_for p (edge_id e) (step_source p e.from e.event_type) (find? (has_id e.to) p.nodes)
    ++ edge_routes p es

-- terminalRouteID
abbrev pub terminal_route_id : TerminalExit → String
terminal_route_id x =
    if blank x.event_type
    then str_append "terminal:" x.step_id
    else str_append "terminal:" (str_append x.step_id (str_append "@" x.event_type))

abbrev pub terminal_destination : CompiledRouteDestination
terminal_destination = record {
  kind = "terminal";
  step_id = "";
  plugin = "";
  command = "";
  call_pipeline = "";
}

abbrev pub terminal_route : Pipeline → TerminalExit → CompiledRoute
terminal_route p x =
    route_to p (terminal_route_id x) (step_source p x.step_id x.event_type) terminal_destination

abbrev pub exit_of : String → TerminalExit
exit_of id = record { step_id = id; event_type = "" }

-- Without exits the last nodes are taken.
abbrev pub exits_or : List TerminalExit → List String → List TerminalExit
exits_or [] ids = map exit_of ids
exits_or (x ∷ xs) ids = x ∷ xs

abbrev pub terminal_routes : Pipeline → List CompiledRoute
terminal_routes p = map (terminal_route p) (exits_or p.terminal_exits p.terminal_node_ids)

-- BuildCompiledRoutes
unfoldable pub build_compiled_routes : Pipeline → List CompiledRoute
unfolding entry_routes edge_routes sort_compiled_routes
build_compiled_routes p =
    sort_compiled_routes
      (entry_routes p p.entry_node_ids ++ (edge_routes p p.edges ++ terminal_routes p))
