-- ===== src/Dsl.antt =====
-- internal/router/dsl/types.go: the pipelines as they are written and as they are compiled. The
-- compilation of the steps is in Builder and Steps, the routes in Routes, the checks of the calls in Calls.
pub mod Specs
pub mod Builder
pub mod Steps
pub mod Dag
pub mod Routes
pub mod Compile
mod Trim
mod Digits
pub mod Ids
pub mod Sound
pub mod Calls
pub mod Resolved
mod Examples
use senechal_gw.Prelude.{ℕ, String, Bool, Option, none, some, List, [], ◌∷◌, str_eq}
use senechal_gw.Conditions.{Condition}
use senechal_gw.Baggage.{BaggageSpec}
use senechal_gw.Router.{CompiledRoute}

-- A map from strings to strings; it is read in the order of the list.
abbrev pub Texts : Type 0
Texts = List (String × String)

pub record RelaySpec : Type 0 where
  pub to : String
  pub event : String
  pub dedupe_key : String
  pub with_map : Texts
  pub baggage : Option BaggageSpec

-- NodeKind
pub data NodeKind : Type 0 where
  uses call relay switch : NodeKind

pub record Node : Type 0 where
  pub id : String
  pub kind : NodeKind
  pub uses : String
  pub call : String
  pub relay : Option RelaySpec
  pub condition : Option Condition
  pub with_map : Texts
  pub baggage : Option BaggageSpec

pub record Edge : Type 0 where
  pub from : String
  pub to : String
  pub event_type : String

pub record TerminalExit : Type 0 where
  pub step_id : String
  pub event_type : String

-- An int64; a time.Duration is a number of nanoseconds.
pub data ℤ : Type 0 where
  pos negsuc : ℕ → ℤ

-- Pipeline. The nodes are listed in the order in which they were added.
pub record Pipeline : Type 0 where
  pub name : String
  pub trigger : String
  pub is_hook : Bool
  pub from_plugin : String
  pub execution_mode : String
  pub timeout : ℤ
  pub condition : Option Condition
  pub author_max_depth : Option ℕ
  pub nodes : List Node
  pub edges : List Edge
  pub entry_node_ids : List String
  pub terminal_node_ids : List String
  pub terminal_exits : List TerminalExit
  pub called_pipelines : List String
  pub max_route_depth : ℕ
  pub compiled_routes : List CompiledRoute

abbrev pub is_called : String → Pipeline → Bool
is_called name p = str_eq p.name name

abbrev pub has_id : String → Node → Bool
has_id id n = str_eq n.id id
