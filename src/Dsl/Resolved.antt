-- ===== src/Dsl/Resolved.antt =====
-- The compiler of internal/router/dsl/compiler.go and the engine of internal/router/engine.go together:
-- the routes of pipelines whose calls are accepted are resolved without end.
use senechal_gw.Prelude.{
  ℕ, suc, ◌<◌, ◌≤◌, String, ◌≡◌, ◌≢◌, refl, sym, subst, inl, inr, Bool, true, Option, none, some,
  List, [], ◌∷◌, ◌++◌, map, arith, All, any, find?, trim_space, str_eq, eq_iff, Bool-cases,
}
use senechal_gw.Prelude.Rows.{All-map, All-append, All-select, All-find?}
use senechal_gw.Router.{
  CompiledRouteSource, CompiledRoute, Router, route_lt, insert_route, sort_compiled_routes,
  is_named, is_entry_of, entries_of, entry_routes_for_pipeline,
}
use senechal_gw.Router.{Pipeline as EnginePipeline}
use senechal_gw.Router.Resolve.{Request, out_of_fuel, rejected, resolve_compiled_route}
use senechal_gw.Router.Total.{calls, IsRanked, resolve_compiled_route-ends}
use senechal_gw.Dsl.{
  NodeKind, uses, call, relay, switch, Node, Edge, TerminalExit, Pipeline, is_called, has_id,
}
use senechal_gw.Dsl.Routes.{
  route_destination_for_node, entry_source, step_source, route_to, route_for, entry_routes,
  edge_routes, terminal_route, exits_or, terminal_routes, build_compiled_routes,
}
use senechal_gw.Dsl.Calls.{accepted, validate_pipeline_calls}
use senechal_gw.Dsl.Calls.Ranked.{Descends, accepted-rank}
use senechal_gw.Dsl.Sound.{Listed}
use senechal_gw.Dsl.Sound.Compiled.{IsSound}

-- What the engine reads of a compiled pipeline, and its router.
abbrev pub engine_pipeline : Pipeline → EnginePipeline
engine_pipeline p = record { name = p.name; compiled_routes = build_compiled_routes p }

abbrev pub router_of : List Pipeline → Router
router_of ps = record { pipelines = map engine_pipeline ps }

module _ (P : CompiledRoute → Type 0) where
  insert_route-All :
      (x : CompiledRoute) (ys : List CompiledRoute) → P x → All P ys → All P (insert_route x ys)
  unfolding insert_route
  insert_route-All x [] p a = (p, tt)
  insert_route-All x (y ∷ ys) p a = elim (Bool-cases (route_lt y x)) [
    | inl e ↦ rw e (a.0, insert_route-All x ys p a.1)
    | inr e ↦ rw e (p, a)
  ]

  sort_compiled_routes-All : (xs : List CompiledRoute) → All P xs → All P (sort_compiled_routes xs)
  unfolding sort_compiled_routes
  sort_compiled_routes-All [] a = tt
  sort_compiled_routes-All (x ∷ xs) a =
      insert_route-All x (sort_compiled_routes xs) a.0 (sort_compiled_routes-All xs a.1)

All-is_in :
    (P : String → Type 0) (c : String) (xs : List String)
    → All P xs
    → any (str_eq c) xs ≡ true
    → P c
unfolding any
All-is_in P c [] a h = cc
All-is_in P c (x ∷ xs) a h = elim (Bool-cases (str_eq c x)) [
  | inl e ↦ let s : c ≡ x = (eq_iff c x).0 e in subst P (sym s) a.0
  | inr e ↦ All-is_in P c xs a.1 (rw (e, any) at h)
]

module _ (rank : String → ℕ) (p : Pipeline) where
  abbrev IsBelow : CompiledRoute → Type 0
  IsBelow r = calls rank r ≤ rank p.name

  abbrev IsLower : Node → Type 0
  IsLower n = n.kind ≡ call → rank (trim_space n.call) < rank p.name

  node-IsBelow :
      (id : String) (s : CompiledRouteSource) (n : Node)
      → IsLower n
      → IsBelow (route_to p id s (route_destination_for_node n))
  node-IsBelow id s n h = of_kind n.kind refl
    where
      of_kind :
          (k : NodeKind) → n.kind ≡ k → IsBelow (route_to p id s (route_destination_for_node n))
      of_kind uses e = rw e (omega arith)
      of_kind call e = let l = h e in rw e (omega (arith, l))
      of_kind relay e = rw e (omega arith)
      of_kind switch e = rw e (omega arith)

  found-IsBelow :
      (id : String) (s : CompiledRouteSource) (to : String) (o : Option Node)
      → find? (has_id to) p.nodes ≡ o
      → All IsLower p.nodes
      → All IsBelow (route_for p id s o)
  found-IsBelow id s to none e a = tt
  found-IsBelow id s to (some n) e a =
      (node-IsBelow id s n (All-find? IsLower (has_id to) p.nodes a e).0, tt)

  entries-IsBelow : (ids : List String) → All IsLower p.nodes → All IsBelow (entry_routes p ids)
  unfolding entry_routes
  entries-IsBelow [] a = tt
  entries-IsBelow (id ∷ ids) a =
      All-append IsBelow _ (entry_routes p ids)
        (found-IsBelow _ (entry_source p) id (find? (has_id id) p.nodes) refl a)
        (entries-IsBelow ids a)

  edges-IsBelow : (es : List Edge) → All IsLower p.nodes → All IsBelow (edge_routes p es)
  unfolding edge_routes
  edges-IsBelow [] a = tt
  edges-IsBelow (e ∷ es) a =
      All-append IsBelow _ (edge_routes p es)
        (found-IsBelow _ (step_source p e.from e.event_type) e.to (find? (has_id e.to) p.nodes) refl
          a)
        (edges-IsBelow es a)

  exits-IsBelow : (xs : List TerminalExit) → All IsBelow (map (terminal_route p) xs)
  exits-IsBelow [] = tt
  exits-IsBelow (x ∷ xs) = (omega arith, exits-IsBelow xs)

  build-IsBelow : All IsLower p.nodes → All IsBelow (build_compiled_routes p)
  unfolding build_compiled_routes
  build-IsBelow a = sort_compiled_routes-All IsBelow _ (
      All-append IsBelow (entry_routes p p.entry_node_ids)
        (edge_routes p p.edges ++ terminal_routes p) (entries-IsBelow p.entry_node_ids a)
        (All-append IsBelow (edge_routes p p.edges) (terminal_routes p) (edges-IsBelow p.edges a)
          (exits-IsBelow (exits_or p.terminal_exits p.terminal_node_ids))))

  sound-IsLower :
      IsSound p → All (λ c. rank c < rank p.name) p.called_pipelines → All IsLower p.nodes
  sound-IsLower s d =
      All-map (Listed p.called_pipelines) IsLower
        (λ n f k.
          let (t, i) = f k in
          rw t (All-is_in (λ c. rank c < rank p.name) n.call p.called_pipelines d i))
        p.nodes s.1

find?-engine :
    (name : String) (ps : List Pipeline)
    → find? (is_named name) (map engine_pipeline ps)
      ≡ (elim (find? (is_called name) ps) [ none ↦ none | some p ↦ some (engine_pipeline p) ])
unfolding find?
find?-engine name [] = refl
find?-engine name (p ∷ ps) = elim (Bool-cases (str_eq p.name name)) [
  | inl e ↦ rw e refl
  | inr e ↦ rw e (find?-engine name ps)
]

router_of-IsRanked :
    (rank : String → ℕ) (ps : List Pipeline)
    → All IsSound ps
    → Descends ps rank
    → IsRanked rank (router_of ps)
unfolding entry_routes_for_pipeline entries_of
router_of-IsRanked rank ps s d name =
    rw (find?-engine name ps) (of_found (find? (is_called name) ps) refl)
  where
    of_found :
        (o : Option Pipeline)
        → find? (is_called name) ps ≡ o
        → All
            (λ e. calls rank e ≤ rank name)
            (entries_of name (elim o [ none ↦ none | some p ↦ some (engine_pipeline p) ]))
    of_found none e = tt
    of_found (some p) e =
        let (sound, named) = All-find? IsSound (is_called name) ps s e in
        let same : p.name ≡ name = (eq_iff p.name name).0 named in
        let lower =
          subst (λ n. All (λ c. rank c < rank n) p.called_pipelines) (sym same) (d name p e) in
        let below = build-IsBelow rank p (sound-IsLower rank p sound lower) in
        All-map _ (λ r. calls rank r ≤ rank name) (λ r x. rw (← same) x.0) _
          (All-select (IsBelow rank p) (is_entry_of name) (build_compiled_routes p) below)

-- The routes of sound pipelines whose calls validatePipelineCalls accepts are all resolved within one
-- bound on the calls of pipelines by pipelines, whatever the route and the request.
pub routes-end :
    (ps : List Pipeline)
    → All IsSound ps
    → validate_pipeline_calls ps ≡ accepted tt
    → (fuel : ℕ) × ((req : Request) (root_hook : Bool) (route : CompiledRoute)
        → resolve_compiled_route fuel (router_of ps) req root_hook route ≢ rejected out_of_fuel)
routes-end ps s h =
    let (rank, d, (k, bound)) = accepted-rank ps h in
    (
      suc (suc k),
      λ req root_hook route.
          resolve_compiled_route-ends (suc (suc k)) rank (router_of ps) req root_hook route
            (router_of-IsRanked rank ps s d)
            (ground (arith, bound (trim_space route.destination.call_pipeline))),
    )
