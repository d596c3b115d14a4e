-- ===== src/Dsl/Dag/Ends.antt =====
-- validatePipelineDAG of internal/router/dsl/compiler.go ends: a node enters the queue when its last
-- edge goes, which is once.
use senechal_gw.Prelude.{
  ℕ, zero, suc, ◌+◌, ◌≤◌, String, ◌≡◌, ◌≢◌, refl, inl, inr, Bool, true, false, not, List, [], ◌∷◌,
  map, arith, length, length-append, any, count_p, select, str_eq, ◌==◌, Bool-cases, if◌then◌else◌,
}
use senechal_gw.Dsl.{Node, Edge, Pipeline, has_id}
use senechal_gw.Dsl.Specs.{Built, built, failed, ◌>>=◌, graph_cycle, graph_out_of_fuel}
use senechal_gw.Dsl.Dag.{
  check_edges, Degree, degree_of, next_of, Graph, one_less, lower, is_last, push_if, release, drain,
  is_free, free_ids, validate_pipeline_dag,
}

abbrev is_held : Degree → Bool
is_held d = not (is_free d)

abbrev one_if : Bool → ℕ
one_if b = if b then 1 else 0

-- What is still to come: the queue, and the nodes with an edge into them.
abbrev waiting : Graph → ℕ
waiting g = length g.queue + count_p is_held g.degrees

lower-held :
    (id : String) (ds : List Degree)
    → one_if (is_last id ds) + count_p is_held (lower id ds) ≤ count_p is_held ds
unfolding lower is_last count_p
lower-held id [] = omega arith
lower-held id (d ∷ ds) = elim (Bool-cases (str_eq d.id id)) [
  | inl e ↦ rw e (of_edges d.edges)
  | inr e ↦ rw e (ground (arith, lower-held id ds))
]
  where
    of_edges :
        (k : ℕ)
        → one_if (k == 1)
            + (if not (one_less k == 0) then suc (count_p is_held ds) else count_p is_held ds)
          ≤ (if not (k == 0) then suc (count_p is_held ds) else count_p is_held ds)
    of_edges zero = ground arith
    of_edges (suc k) = ground arith

push-length :
    (b : Bool) (id : String) (q : List String) → length (push_if b id q) ≡ length q + one_if b
push-length false id q = omega arith
push-length true id q = omega (arith, length-append q (id ∷ []))

release-waiting : (ids : List String) (g : Graph) → waiting (release ids g) ≤ waiting g
unfolding release
release-waiting [] g = omega arith
release-waiting (id ∷ ids) g =
    let q = push_if (is_last id g.degrees) id g.queue in
    let rest = release-waiting ids (record { degrees = lower id g.degrees; queue = q }) in
    omega (arith, rest, push-length (is_last id g.degrees) id g.queue, lower-held id g.degrees)

drain-Ends :
    (fuel : ℕ) (es : List Edge) (visited : ℕ) (ds : List Degree) (queue : List String)
    → length queue + count_p is_held ds ≤ fuel
    → drain fuel es visited ds queue ≢ failed graph_out_of_fuel
unfolding drain
drain-Ends fuel es visited ds [] l = λ q. cc
drain-Ends zero es visited ds (n ∷ queue) l = absurd (omega (arith, l))
drain-Ends (suc fuel) es visited ds (n ∷ queue) l =
    let rest = release-waiting (next_of es n) (record { degrees = ds; queue = queue }) in
    drain-Ends fuel es (suc visited) _ _ (omega (arith, rest, l))

free-held : (ds : List Degree) → length (free_ids ds) + count_p is_held ds ≡ length ds
unfolding free_ids select count_p
free-held [] = refl
free-held (d ∷ ds) = ground (arith, free-held ds)

length-degrees : (es : List Edge) (ns : List Node) → length (map (degree_of es) ns) ≡ length ns
length-degrees es [] = refl
length-degrees es (n ∷ ns) = omega (arith, length-degrees es ns)

check_edges-Ends : (ns : List Node) (es : List Edge) → check_edges ns es ≢ failed graph_out_of_fuel
unfolding check_edges
check_edges-Ends ns [] = λ q. cc
check_edges-Ends ns (e ∷ es) = elim (Bool-cases (any (has_id e.from) ns)) [
  | inl f ↦ elim (Bool-cases (any (has_id e.to) ns)) [
    | inl t ↦ rw (f, t) (check_edges-Ends ns es)
    | inr t ↦ rw (f, t) (λ q. cc)
  ]
  | inr f ↦ rw f (λ q. cc)
]

bind-Ends :
    {A B : Type 0} (x : Built A) (f : A → Built B)
    → x ≢ failed graph_out_of_fuel
    → ((a : A) → f a ≢ failed graph_out_of_fuel)
    → (x >>= f) ≢ failed graph_out_of_fuel
bind-Ends (built a) f h k = k a
bind-Ends (failed e) f h k = λ q. h cc

taken-Ends : (b : Bool) → (if b then built tt else failed graph_cycle) ≢ failed graph_out_of_fuel
taken-Ends false = λ q. cc
taken-Ends true = λ q. cc

-- validatePipelineDAG takes at most as many nodes off its queue as there are.
pub validate_pipeline_dag-ends : (p : Pipeline) → validate_pipeline_dag p ≢ failed graph_out_of_fuel
unfolding validate_pipeline_dag
validate_pipeline_dag-ends p =
    let degrees = map (degree_of p.edges) p.nodes in
    let a = free-held degrees in
    let b = length-degrees p.edges p.nodes in
    bind-Ends (check_edges p.nodes p.edges) _ (check_edges-Ends p.nodes p.edges) (λ u.
      bind-Ends (drain (length p.nodes) p.edges 0 degrees (free_ids degrees)) _
        (drain-Ends (length p.nodes) p.edges 0 degrees (free_ids degrees) (omega (arith, a, b)))
        (λ visited. taken-Ends (visited == length p.nodes)))
