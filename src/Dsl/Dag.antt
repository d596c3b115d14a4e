-- ===== src/Dsl/Dag.antt =====
-- validatePipelineDAG of internal/router/dsl/compiler.go: the nodes of a pipeline are taken off its
-- graph, those without an edge into them first. That the fuel is enough is in Ends.
pub mod Ends
use senechal_gw.Prelude.{
  ℕ, zero, suc, String, Bool, true, false, ◌&&◌, List, [], ◌∷◌, ◌++◌, map, length, any, select,
  str_eq, ◌==◌, count_p, if◌then◌else◌,
}
use senechal_gw.Dsl.{Node, Edge, Pipeline, has_id}
use senechal_gw.Dsl.Specs.{
  Built, built, failed, ◌>>=◌, unknown_node, graph_cycle, graph_out_of_fuel,
}

unfoldable pub check_edges : List Node → List Edge → Built (Unit {0})
check_edges nodes [] = built tt
check_edges nodes (e ∷ es) =
    let rest = check_edges nodes es in
    if any (has_id e.from) nodes
    then (if any (has_id e.to) nodes then rest else failed (unknown_node e.to))
    else failed (unknown_node e.from)

-- The number of edges into a node that are left.
pub record Degree : Type 0 where
  pub id : String
  pub edges : ℕ

abbrev pub leads_to : String → Edge → Bool
leads_to id e = str_eq e.to id

abbrev pub leads_from : String → Edge → Bool
leads_from id e = str_eq e.from id

abbrev pub degree_of : List Edge → Node → Degree
degree_of es n = record { id = n.id; edges = count_p (leads_to n.id) es }

abbrev pub next_of : List Edge → String → List String
next_of es id = map (λ e. e.to) (select (leads_from id) es)

-- The in-degrees and the queue. A degree that is 0 goes below, and is never 0 again.
pub record Graph : Type 0 where
  pub degrees : List Degree
  pub queue : List String

abbrev pub one_less : ℕ → ℕ
one_less zero = 0
one_less (suc n) = n

-- One edge less into a node, and whether that was the last one.
unfoldable pub lower : String → List Degree → List Degree
lower id [] = []
lower id (d ∷ ds) =
    let rest = lower id ds in
    if str_eq d.id id then record d { edges = one_less d.edges } ∷ ds else d ∷ rest

unfoldable pub is_last : String → List Degree → Bool
is_last id [] = false
is_last id (d ∷ ds) = let rest = is_last id ds in if str_eq d.id id then d.edges == 1 else rest

abbrev pub push_if : Bool → String → List String → List String
push_if b id queue = if b then queue ++ (id ∷ []) else queue

-- The loop over the edges of a node that is taken off.
unfoldable pub release : List String → Graph → Graph
unfolding lower is_last
release [] g = g
release (id ∷ ids) g =
    release ids
      (record { degrees = lower id g.degrees; queue = push_if (is_last id g.degrees) id g.queue })

-- The loop over the queue, with the number of nodes that it has taken off.
unfoldable pub drain : ℕ → List Edge → ℕ → List Degree → List String → Built ℕ
unfolding release
drain fuel es visited ds [] = built visited
drain zero es visited ds (n ∷ queue) = failed graph_out_of_fuel
drain (suc fuel) es visited ds (n ∷ queue) =
    let g = release (next_of es n) (record { degrees = ds; queue = queue }) in
    drain fuel es (suc visited) g.degrees g.queue

abbrev pub is_free : Degree → Bool
is_free d = d.edges == 0

unfoldable pub free_ids : List Degree → List String
free_ids ds = map (λ d. d.id) (select is_free ds)

abbrev pub all_taken : ℕ → ℕ → Built (Unit {0})
all_taken visited n = if visited == n then built tt else failed graph_cycle

-- validatePipelineDAG; the nodes bound the rounds of the queue. The code fills its first queue in any
-- order, which does not change how many nodes are taken off.
unfoldable pub validate_pipeline_dag : Pipeline → Built (Unit {0})
unfolding check_edges drain free_ids
validate_pipeline_dag p = do
  edges ← check_edges p.nodes p.edges
  let degrees = map (degree_of p.edges) p.nodes
  visited ← drain (length p.nodes) p.edges 0 degrees (free_ids degrees)
  all_taken visited (length p.nodes)
