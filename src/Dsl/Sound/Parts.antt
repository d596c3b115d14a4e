-- ===== src/Dsl/Sound/Parts.antt =====
-- wrapConditionalStep and the cases of compileStep of internal/router/dsl/compiler.go that make one
-- node: what they leave of a sound graph.
use Prim.Native.String.{compare}
use text.Mathlib.Text.{is_lt}
use senechal_gw.Prelude.{
  ℕ, zero, suc, String, ◌≡◌, refl, subst, inl, inr, false, Option, none, some, List, [], ◌∷◌, ◌++◌,
  map, All, any, length, trim_space, str_append, decimal, str_eq, Bool-cases,
}
use senechal_gw.Prelude.Rows.{All-map, All-append}
use senechal_gw.Conditions.{Condition}
use senechal_gw.Dsl.{Node, has_id}
use senechal_gw.Dsl.Specs.{StepHead, built, blank}
use senechal_gw.Dsl.Builder.{
  CompileExit, CompileBuilder, exists_id, auto_id, alloc_node_id, insert_unique, sorted_unique,
  same_exit, exit_lt, insert_exit, sorted_compile_exits,
}
use senechal_gw.Dsl.Steps.{
  Ends, single, switch_node, switch_edge, switch_exit, wrap_conditional_step, compile_node,
}
use senechal_gw.Dsl.Sound.{
  bind-built, Listed, IsThere, Joined, Sound, Grows, Holds, Leaves, append-Grows, append-IsThere,
  node-SoundGraph, edges-SoundGraph,
}

-- A name that allocNodeID gives is new, and nothing else changes.
abbrev Allocated : CompileBuilder → String → CompileBuilder → Type 0
Allocated b id b' =
    (exists_id id b ≡ false) × (b'.nodes ≡ b.nodes) × (b'.edges ≡ b.edges) × (b'.called ≡ b.called)

auto_id-Allocated :
    (fuel : ℕ) (b : CompileBuilder) (id : String) (b' : CompileBuilder)
    → auto_id fuel b ≡ built (id, b')
    → Allocated b id b'
unfolding auto_id
auto_id-Allocated zero b id b' h = cc
auto_id-Allocated (suc fuel) b id b' h =
    elim (Bool-cases (exists_id (str_append "step_" (decimal (suc b.next_auto))) b)) [
      | inl e ↦
          auto_id-Allocated fuel (record b { next_auto = suc b.next_auto }) id b'
            (rw (e, auto_id) at h)
      | inr e ↦
          let q : built (
            str_append "step_" (decimal (suc b.next_auto)),
            record b { next_auto = suc b.next_auto },
          )
              ≡ built (id, b') =
            rw (e, auto_id) at h in
          let s : str_append "step_" (decimal (suc b.next_auto)) ≡ id = cc in
          let t : record b { next_auto = suc b.next_auto } ≡ b' = cc in
          rw (← s, ← t) (e, refl, refl, refl)
    ]

alloc_node_id-Allocated :
    (name : String) (b : CompileBuilder) (id : String) (b' : CompileBuilder)
    → alloc_node_id name b ≡ built (id, b')
    → Allocated b id b'
unfolding alloc_node_id
alloc_node_id-Allocated name b id b' h = elim (Bool-cases (blank name)) [
  | inl e ↦ auto_id-Allocated (suc (length b.nodes)) b id b' (rw (e, alloc_node_id) at h)
  | inr e ↦ elim (Bool-cases (exists_id (trim_space name) b)) [
    | inl f ↦ let bad = rw (e, f, alloc_node_id) at h in cc
    | inr f ↦
        let q : built (trim_space name, b) ≡ built (id, b') = rw (e, f, alloc_node_id) at h in
        let s : trim_space name ≡ id = cc in
        let t : b ≡ b' = cc in rw (← s, ← t) (f, refl, refl, refl)
  ]
]

module _ {ℓ} (P : CompileExit → Type ℓ) where
  insert_exit-All :
      (x : CompileExit) (ys : List CompileExit) → P x → All P ys → All P (insert_exit x ys)
  unfolding insert_exit
  insert_exit-All x [] p a = (p, tt)
  insert_exit-All x (y ∷ ys) p a = elim (Bool-cases (same_exit x y)) [
    | inl e ↦ rw e a
    | inr e ↦ elim (Bool-cases (exit_lt y x)) [
      | inl f ↦ rw (e, f) (a.0, insert_exit-All x ys p a.1)
      | inr f ↦ rw (e, f) (p, a)
    ]
  ]

  pub sorted_compile_exits-All :
      (xs : List CompileExit) → All P xs → All P (sorted_compile_exits xs)
  unfolding sorted_compile_exits
  sorted_compile_exits-All [] a = tt
  sorted_compile_exits-All (x ∷ xs) a =
      insert_exit-All x (sorted_compile_exits xs) a.0 (sorted_compile_exits-All xs a.1)

module _ {ℓ} (P : String → Type ℓ) where
  insert_unique-All : (x : String) (ys : List String) → P x → All P ys → All P (insert_unique x ys)
  unfolding insert_unique
  insert_unique-All x [] p a = (p, tt)
  insert_unique-All x (y ∷ ys) p a = elim (Bool-cases (str_eq x y)) [
    | inl e ↦ rw e a
    | inr e ↦ elim (Bool-cases (is_lt (compare y x))) [
      | inl f ↦ rw (e, f) (a.0, insert_unique-All x ys p a.1)
      | inr f ↦ rw (e, f) (p, a)
    ]
  ]

  pub sorted_unique-All : (xs : List String) → All P xs → All P (sorted_unique xs)
  unfolding sorted_unique
  sorted_unique-All [] a = tt
  sorted_unique-All (x ∷ xs) a =
      insert_unique-All x (sorted_unique xs) a.0 (sorted_unique-All xs a.1)

switch-Joined :
    (ns : List Node) (id : String) (ids : List String)
    → IsThere ns id
    → All (IsThere ns) ids
    → All (Joined ns) (map (switch_edge id) ids)
switch-Joined ns id [] h a = tt
switch-Joined ns id (x ∷ xs) h a = ((h, a.0), switch-Joined ns id xs h a.1)

wrap_conditional_step-Leaves :
    (id : String) (c : Option Condition) (e : Ends) (b : CompileBuilder) (e' : Ends)
    (b' : CompileBuilder)
    → Sound b
    → Holds b e
    → wrap_conditional_step id c e b ≡ built (e', b')
    → Leaves b e' b'
unfolding wrap_conditional_step
wrap_conditional_step-Leaves id none e b e' b' s h q =
    let t : e ≡ e' = cc in let u : b ≡ b' = cc in rw (← t, ← u) (s, λ i m. m, h)
wrap_conditional_step-Leaves id (some c) e b e' b' s h q =
    let ((i, b1), q1, q2) = bind-built _ _ (e', b') q in
    let (new, en, ee, ec) = alloc_node_id-Allocated (str_append id "__switch") b i b1 q1 in
    let n = switch_node i c in
    let ns = b.nodes ++ (n ∷ []) in
    let g = node-SoundGraph b.nodes b.edges b.called [] n s new (λ k. cc) in
    let there = append-IsThere b.nodes n in
    let grows = append-Grows b.nodes n in
    let entry = All-map (IsThere b.nodes) (IsThere ns) grows e.entry h.0 in
    let exits =
      All-map (λ x. IsThere b.nodes x.node_id) (λ x. IsThere ns x.node_id)
        (λ x m. grows x.node_id m) e.terminal h.1 in
    let joined = switch-Joined ns i e.entry there entry in
    let g2 = edges-SoundGraph ns b.edges (map (switch_edge i) e.entry) b.called g joined in
    let last =
      sorted_compile_exits-All (λ x. IsThere ns x.node_id) (e.terminal ++ (switch_exit i ∷ []))
        (All-append (λ x. IsThere ns x.node_id) e.terminal (switch_exit i ∷ []) exits
          (there, tt)) in
    let t : record {
      entry = i ∷ [];
      terminal = sorted_compile_exits (e.terminal ++ (switch_exit i ∷ []));
    }
        ≡ e' =
      cc in
    let u : record b1 {
      nodes = b1.nodes ++ (n ∷ []);
      edges = b1.edges ++ map (switch_edge i) e.entry;
    }
        ≡ b' =
      cc in
    rw (← t, ← u, en, ee, ec) (g2, grows, ((there, tt), last))

pub compile_node-Leaves :
    (h : StepHead) (node : String → Node) (calls : List String) (b : CompileBuilder) (e : Ends)
    (b' : CompileBuilder)
    → ((id : String) → ((node id).id ≡ id) × Listed (calls ++ b.called) (node id))
    → Sound b
    → compile_node h node calls b ≡ built (e, b')
    → Leaves b e b'
unfolding compile_node
compile_node-Leaves h node calls b e b' f s q =
    let ((i, b1), q1, q2) = bind-built _ _ (e, b') q in
    let (new, en, ee, ec) = alloc_node_id-Allocated h.id b i b1 q1 in
    let (same, listed) = f i in
    let fresh : any (has_id (node i).id) b.nodes ≡ false = rw same new in
    let b3 : CompileBuilder = record b1 {
      nodes = b1.nodes ++ (node i ∷ []);
      called = calls ++ b1.called;
    } in
    let g : Sound b3 =
      rw (en, ee, ec) (node-SoundGraph b.nodes b.edges b.called calls (node i) s fresh listed) in
    let grows : Grows b.nodes b3.nodes = rw en (append-Grows b.nodes (node i)) in
    let there : IsThere b3.nodes i =
      rw en (subst (IsThere _) same (append-IsThere b.nodes (node i))) in
    let (s2, g2, h2) =
      wrap_conditional_step-Leaves i h.condition (single i) b3 e b' g ((there, tt), (there, tt))
        q2 in
    (s2, λ id m. g2 id (grows id m), h2)
