-- ===== src/Dsl/Sound.antt =====
-- compilePipeline of internal/router/dsl/compiler.go: what the compiled graph is made of.
pub mod Parts
pub mod Whole
pub mod Compiled
use senechal_gw.Prelude.{
  ℕ, zero, suc, ◌+◌, ◌≤◌, String, ◌≡◌, ◌≢◌, refl, sym, subst, inl, inr, Bool, true, false, not,
  ◌&&◌, ◌||◌, Option, none, some, List, [], ◌∷◌, ◌++◌, map, arith, All, any, count_p, length,
  is_empty, trim_space, str_append, decimal, str_eq, eq_iff, Bool-cases, if◌then◌else◌,
}
use senechal_gw.Prelude.Rows.{All-map, All-append, count_p-append, any-count_p}
use senechal_gw.Conditions.{Condition}
use senechal_gw.Conditions.Eval.{Library}
use senechal_gw.Dsl.{RelaySpec, NodeKind, uses, call, relay, switch, Node, Edge, has_id}
use senechal_gw.Dsl.Trim.{trim_space-twice}
use senechal_gw.Dsl.Specs.{
  StepHead, StepSpec, step, StepSpecs, no_steps, step_then, DslError, Built, built, failed, ◌>>=◌,
  blank, validate_relay_spec, out_of_ids, duplicate_step,
}
use senechal_gw.Dsl.Builder.{
  CompileExit, CompileBuilder, exists_id, auto_id, alloc_node_id, add_node, edge_from,
  edges_between, add_edges, insert_unique, sorted_unique, same_exit, exit_lt, insert_exit,
  sorted_compile_exits,
}
use senechal_gw.Dsl.Steps.{
  Ends, has_steps, check_step, single, switch_node, switch_edge, switch_exit, wrap_conditional_step,
  uses_node, call_node, relay_node, compile_node, Mode, of_uses, of_call, of_steps, of_split,
  of_relay, mode_of, sort_split, check_ends, compile_step, compile_each, compile_split,
  compile_steps,
}

pub bind-built :
    {A B : Type 0} (x : Built A) (f : A → Built B) (b : B)
    → (x >>= f) ≡ built b
    → (a : A) × (x ≡ built a) × (f a ≡ built b)
bind-built (built a) f b h = (a, refl, h)
bind-built (failed e) f b h = cc

-- Where a check succeeds, what comes after it goes on.
pub then-built :
    {B : Type 0} (x : Built (Unit {0})) (y : Built B) (b : B)
    → (x >>= (λ u. y)) ≡ built b
    → y ≡ built b
then-built (built u) y b h = h
then-built (failed e) y b h = cc

-- A call of a node is of a trimmed name that is listed.
abbrev pub Listed : List String → Node → Type 0
Listed called n = n.kind ≡ call → (trim_space n.call ≡ n.call) × (any (str_eq n.call) called ≡ true)

abbrev pub IsThere : List Node → String → Type 0
IsThere ns id = any (has_id id) ns ≡ true

abbrev pub Joined : List Node → Edge → Type 0
Joined ns e = IsThere ns e.from × IsThere ns e.to

-- The ids of the nodes are distinct, the calls listed, and the ends of the edges are nodes.
abbrev pub SoundGraph : List Node → List Edge → List String → Type 0
SoundGraph ns es called =
    ((id : String) → count_p (has_id id) ns ≤ 1) × All (Listed called) ns × All (Joined ns) es

abbrev pub Sound : CompileBuilder → Type 0
Sound b = SoundGraph b.nodes b.edges b.called

abbrev pub Grows : List Node → List Node → Type 0
Grows ns ns' = (id : String) → IsThere ns id → IsThere ns' id

abbrev pub Holds : CompileBuilder → Ends → Type 0
Holds b e = All (IsThere b.nodes) e.entry × All (λ x. IsThere b.nodes x.node_id) e.terminal

-- What the compilation of a part leaves.
abbrev pub Leaves : CompileBuilder → Ends → CompileBuilder → Type 0
Leaves b e b' = Sound b' × Grows b.nodes b'.nodes × Holds b' e

pub any-append_left {ℓ} :
    {A : Type ℓ} (p : A → Bool) (xs ys : List A) → any p xs ≡ true → any p (xs ++ ys) ≡ true
unfolding any
any-append_left p [] ys h = cc
any-append_left p (x ∷ xs) ys h = ground (arith, any-append_left p xs ys)

pub any-append_right {ℓ} :
    {A : Type ℓ} (p : A → Bool) (xs ys : List A) → any p ys ≡ true → any p (xs ++ ys) ≡ true
unfolding any
any-append_right p [] ys h = h
any-append_right p (x ∷ xs) ys h = ground (arith, any-append_right p xs ys h)

distinct-append :
    (ns : List Node) (n : Node)
    → any (has_id n.id) ns ≡ false
    → ((id : String) → count_p (has_id id) ns ≤ 1)
    → (id : String) → count_p (has_id id) (ns ++ (n ∷ [])) ≤ 1
unfolding count_p
distinct-append ns n new d = λ id.
    let a = count_p-append (has_id id) ns (n ∷ []) in
    elim (Bool-cases (str_eq n.id id)) [
      | inl e ↦
          let s : n.id ≡ id = (eq_iff n.id id).0 e in
          let none_there : count_p (has_id id) ns ≡ 0 = any-count_p (has_id id) ns (rw (← s) new) in
          ground (arith, a, none_there, e)
      | inr e ↦ ground (arith, a, d id, e)
    ]

pub append-Grows : (ns : List Node) (n : Node) → Grows ns (ns ++ (n ∷ []))
append-Grows ns n = λ id h. any-append_left (has_id id) ns (n ∷ []) h

pub append-IsThere : (ns : List Node) (n : Node) → IsThere (ns ++ (n ∷ [])) n.id
unfolding any
append-IsThere ns n =
    let self : str_eq n.id n.id ≡ true = (eq_iff n.id n.id).1 refl in
    any-append_right (has_id n.id) ns (n ∷ []) (rw self refl)

-- A new node, with the names that it calls.
pub node-SoundGraph :
    (ns : List Node) (es : List Edge) (called calls : List String) (n : Node)
    → SoundGraph ns es called
    → any (has_id n.id) ns ≡ false
    → Listed (calls ++ called) n
    → SoundGraph (ns ++ (n ∷ [])) es (calls ++ called)
node-SoundGraph ns es called calls n (d, l, j) new h = (
  distinct-append ns n new d,
  All-append (Listed (calls ++ called)) ns (n ∷ [])
      (All-map (Listed called) (Listed (calls ++ called))
        (λ m f e. let (t, i) = f e in (t, any-append_right (str_eq m.call) calls called i)) ns l)
      (h, tt),
  All-map (Joined ns) (Joined (ns ++ (n ∷ [])))
      (λ e f. (append-Grows ns n e.from f.0, append-Grows ns n e.to f.1)) es j,
)

pub edges-SoundGraph :
    (ns : List Node) (es fs : List Edge) (called : List String)
    → SoundGraph ns es called
    → All (Joined ns) fs
    → SoundGraph ns (es ++ fs) called
edges-SoundGraph ns es fs called (d, l, j) h = (d, l, All-append (Joined ns) es fs j h)
