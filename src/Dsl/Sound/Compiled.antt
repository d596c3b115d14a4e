-- ===== src/Dsl/Sound/Compiled.antt =====
-- compilePipeline of internal/router/dsl/compiler.go: the pipeline that it answers.
use Prim.Native.String.{compare}
use text.Mathlib.Text.{is_lt}
use senechal_gw.Prelude.{
  ℕ, ◌≤◌, String, ◌≡◌, subst, inl, inr, Bool, true, false, not, ◌&&◌, Option, List, [], ◌∷◌, map,
  arith, All, any, count_p, str_eq, eq_iff, Bool-cases,
}
use senechal_gw.Prelude.Rows.{All-map}
use senechal_gw.Conditions.Eval.{Library}
use senechal_gw.Dsl.{Edge, Pipeline, has_id}
use senechal_gw.Dsl.Specs.{
  PipelineSpec, StepSpecs, Built, built, fail_if, blank, trigger_is_required,
  triggers_are_exclusive, steps_must_be_non_empty,
}
use senechal_gw.Dsl.Builder.{CompileBuilder, insert_unique, sorted_unique, sorted_compile_exits}
use senechal_gw.Dsl.Steps.{Ends, has_steps, no_ends, guarded, check_condition, compile_steps}
use senechal_gw.Dsl.Dag.{validate_pipeline_dag}
use senechal_gw.Dsl.Compile.{
  exit_for, sorted_terminal_exits, terminal_node_ids_of, new_builder, edge_lt, insert_edge,
  sort_edges, pipeline_of, compile_pipeline, depth_of,
}
use senechal_gw.Dsl.Sound.{bind-built, then-built, Listed, IsThere, Joined, Sound, Holds, Leaves}
use senechal_gw.Dsl.Sound.Parts.{sorted_compile_exits-All, sorted_unique-All}
use senechal_gw.Dsl.Sound.Whole.{each-Leaves}

-- The ids of the nodes are distinct, every call is listed, and the ends of the edges, the entries and
-- the exits are nodes.
abbrev pub IsSound : Pipeline → Type 0
IsSound p =
    ((id : String) → count_p (has_id id) p.nodes ≤ 1)
    × All (Listed p.called_pipelines) p.nodes
    × All (Joined p.nodes) p.edges
    × All (IsThere p.nodes) p.entry_node_ids
    × All (IsThere p.nodes) p.terminal_node_ids
    × All (λ x. IsThere p.nodes x.step_id) p.terminal_exits

module _ (P : Edge → Type 0) where
  insert_edge-All : (x : Edge) (ys : List Edge) → P x → All P ys → All P (insert_edge x ys)
  unfolding insert_edge
  insert_edge-All x [] p a = (p, tt)
  insert_edge-All x (y ∷ ys) p a = elim (Bool-cases (edge_lt y x)) [
    | inl e ↦ rw e (a.0, insert_edge-All x ys p a.1)
    | inr e ↦ rw e (p, a)
  ]

  sort_edges-All : (xs : List Edge) → All P xs → All P (sort_edges xs)
  unfolding sort_edges
  sort_edges-All [] a = tt
  sort_edges-All (x ∷ xs) a = insert_edge-All x (sort_edges xs) a.0 (sort_edges-All xs a.1)

insert_unique-is_in :
    (c x : String) (ys : List String)
    → any (str_eq c) (x ∷ ys) ≡ true
    → any (str_eq c) (insert_unique x ys) ≡ true
unfolding insert_unique any
insert_unique-is_in c x [] h = h
insert_unique-is_in c x (y ∷ ys) h = elim (Bool-cases (str_eq x y)) [
  | inl e ↦
      let s : x ≡ y = (eq_iff x y).0 e in
      let h2 : any (str_eq c) (y ∷ y ∷ ys) ≡ true =
        subst (λ z. any (str_eq c) (z ∷ y ∷ ys) ≡ true) s h in
      rw e (ground (arith, h2))
  | inr e ↦ elim (Bool-cases (is_lt (compare y x))) [
    | inl f ↦ rw (e, f) (ground (arith, insert_unique-is_in c x ys, h))
    | inr f ↦ rw (e, f) h
  ]
]

sorted_unique-is_in :
    (c : String) (xs : List String)
    → any (str_eq c) xs ≡ true
    → any (str_eq c) (sorted_unique xs) ≡ true
unfolding sorted_unique any
sorted_unique-is_in c [] h = h
sorted_unique-is_in c (x ∷ xs) h =
    insert_unique-is_in c x (sorted_unique xs) (ground (arith, h, sorted_unique-is_in c xs))

map-All {ℓ κ} :
    {A B : Type ℓ} (P : B → Type κ) (f : A → B) (xs : List A)
    → All (λ x. P (f x)) xs
    → All P (map f xs)
map-All P f [] a = tt
map-All P f (x ∷ xs) a = (a.0, map-All P f xs a.1)

guarded-built : {A : Type 0} (c : Bool) (x : Built A) (a : A) → guarded c x ≡ built a → x ≡ built a
guarded-built true x a h = h
guarded-built false x a h = cc

compile_steps-Leaves :
    (l : Library) (ts : StepSpecs) (e : Ends) (b : CompileBuilder)
    → compile_steps l ts new_builder ≡ built (e, b)
    → Leaves new_builder e b
unfolding compile_steps count_p
compile_steps-Leaves l ts e b h =
    each-Leaves l ts true no_ends new_builder e b ((λ id. omega arith), tt, tt) (tt, tt)
      (guarded-built (has_steps ts) _ (e, b) h)

pipeline_of-IsSound :
    (spec : PipelineSpec) (depth : Option ℕ) (e : Ends) (b : CompileBuilder)
    → Sound b
    → Holds b e
    → IsSound (pipeline_of spec depth e b)
unfolding pipeline_of sorted_terminal_exits terminal_node_ids_of
pipeline_of-IsSound spec depth e b (d, l, j) h = (
  d,
  All-map (Listed b.called) (Listed (sorted_unique b.called))
      (λ n f k. let (t, i) = f k in (t, sorted_unique-is_in n.call b.called i)) b.nodes l,
  sort_edges-All (Joined b.nodes) b.edges j,
  sorted_unique-All (IsThere b.nodes) e.entry h.0,
  sorted_unique-All (IsThere b.nodes) (map (λ x. x.node_id) e.terminal)
      (map-All (IsThere b.nodes) (λ x. x.node_id) e.terminal h.1),
  map-All (λ x. IsThere b.nodes x.step_id) exit_for (sorted_compile_exits e.terminal)
      (sorted_compile_exits-All (λ x. IsThere b.nodes x.node_id) e.terminal h.1),
)

-- In a pipeline that compilePipeline answers the ids of the nodes are distinct, the pipelines that the
-- nodes call are listed by their trimmed names, and the ends of the edges, the entries and the exits
-- are nodes.
pub compile_pipeline-IsSound :
    (l : Library) (spec : PipelineSpec) (p : Pipeline)
    → compile_pipeline l spec ≡ built p
    → IsSound p
unfolding compile_pipeline
compile_pipeline-IsSound l spec p h =
    let h1 = then-built (fail_if (blank spec.on && blank spec.on_hook) trigger_is_required) _ p h in
    let h2 =
      then-built (fail_if (not (blank spec.on) && not (blank spec.on_hook)) triggers_are_exclusive)
        _ p h1 in
    let h3 = then-built (fail_if (not (has_steps spec.steps)) steps_must_be_non_empty) _ p h2 in
    let h4 = then-built (check_condition l spec.condition) _ p h3 in
    let (depth, a5, h5) = bind-built (depth_of spec.max_depth) _ p h4 in
    let ((e, b), a6, h6) = bind-built (compile_steps l spec.steps new_builder) _ p h5 in
    let h7 = then-built (validate_pipeline_dag (pipeline_of spec depth e b)) _ p h6 in
    let (s, g, o) = compile_steps-Leaves l spec.steps e b a6 in
    let q : pipeline_of spec depth e b ≡ p = cc in rw (← q) (pipeline_of-IsSound spec depth e b s o)
