-- ===== src/Dsl/Builder.antt =====
-- compileBuilder of internal/router/dsl/compiler.go: the nodes and the edges that are made so far, the
-- names of new nodes, and the lists in order.
use Prim.Native.String.{compare}
use text.Mathlib.Text.{is_lt}
use senechal_gw.Prelude.{
  ℕ, zero, suc, String, Bool, ◌&&◌, List, [], ◌∷◌, ◌++◌, map, length, any, trim_space, decimal,
  str_append, str_eq, if◌then◌else◌,
}
use senechal_gw.Dsl.{Node, Edge, has_id}
use senechal_gw.Dsl.Specs.{out_of_ids, duplicate_step, Built, built, failed, blank}

pub record CompileExit : Type 0 where
  pub node_id : String
  pub event_type : String

-- compileBuilder, with the nodes and the edges of its pipeline
pub record CompileBuilder : Type 0 where
  pub nodes : List Node
  pub edges : List Edge
  pub next_auto : ℕ
  pub called : List String

abbrev pub exists_id : String → CompileBuilder → Bool
exists_id id b = any (has_id id) b.nodes

-- The loop for a name that is free; the nodes that are there bound its rounds.
unfoldable pub auto_id : ℕ → CompileBuilder → Built (String × CompileBuilder)
auto_id zero b = failed out_of_ids
auto_id (suc fuel) b =
    let b' = record b { next_auto = suc b.next_auto } in
    let candidate = str_append "step_" (decimal b'.next_auto) in
    let rest = auto_id fuel b' in if exists_id candidate b then rest else built (candidate, b')

-- allocNodeID
unfoldable pub alloc_node_id : String → CompileBuilder → Built (String × CompileBuilder)
unfolding auto_id
alloc_node_id preferred b =
    if blank preferred
    then auto_id (suc (length b.nodes)) b
    else if exists_id (trim_space preferred) b
    then failed (duplicate_step (trim_space preferred))
    else built (trim_space preferred, b)

abbrev pub add_node : Node → CompileBuilder → CompileBuilder
add_node n b = record b { nodes = b.nodes ++ (n ∷ []) }

abbrev pub edge_from : CompileExit → String → Edge
edge_from x to = record { from = x.node_id; to = to; event_type = x.event_type }

unfoldable pub edges_between : List CompileExit → List String → List Edge
edges_between [] to = []
edges_between (x ∷ xs) to = map (edge_from x) to ++ edges_between xs to

-- addEdges
unfoldable pub add_edges : List CompileExit → List String → CompileBuilder → CompileBuilder
unfolding edges_between
add_edges from to b = record b { edges = b.edges ++ edges_between from to }

-- A text into a list in order, where it is not there yet.
unfoldable pub insert_unique : String → List String → List String
insert_unique x [] = x ∷ []
insert_unique x (y ∷ ys) =
    let rest = insert_unique x ys in
    if str_eq x y then y ∷ ys else if is_lt (compare y x) then y ∷ rest else x ∷ y ∷ ys

-- sortedUnique and sortedMapKeys
unfoldable pub sorted_unique : List String → List String
unfolding insert_unique
sorted_unique [] = []
sorted_unique (x ∷ xs) = insert_unique x (sorted_unique xs)

abbrev pub same_exit : CompileExit → CompileExit → Bool
same_exit x y = str_eq x.node_id y.node_id && str_eq x.event_type y.event_type

abbrev pub exit_lt : CompileExit → CompileExit → Bool
exit_lt x y =
    if str_eq x.node_id y.node_id
    then is_lt (compare x.event_type y.event_type)
    else is_lt (compare x.node_id y.node_id)

unfoldable pub insert_exit : CompileExit → List CompileExit → List CompileExit
insert_exit x [] = x ∷ []
insert_exit x (y ∷ ys) =
    let rest = insert_exit x ys in
    if same_exit x y then y ∷ ys else if exit_lt y x then y ∷ rest else x ∷ y ∷ ys

-- sortedCompileExits
unfoldable pub sorted_compile_exits : List CompileExit → List CompileExit
unfolding insert_exit
sorted_compile_exits [] = []
sorted_compile_exits (x ∷ xs) = insert_exit x (sorted_compile_exits xs)
