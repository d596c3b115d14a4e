-- ===== src/Dsl/Sound/Whole.antt =====
-- compilePipeline of internal/router/dsl/compiler.go: the graph that it answers is sound.
use senechal_gw.Prelude.{
  String, ◌≡◌, refl, Bool, true, false, List, [], ◌∷◌, ◌++◌, map, All, any, trim_space, str_eq,
  eq_iff, if◌then◌else◌,
}
use senechal_gw.Prelude.Rows.{All-map, All-append}
use senechal_gw.Conditions.Eval.{Library}
use senechal_gw.Dsl.{Node}
use senechal_gw.Dsl.Trim.{trim_space-twice}
use senechal_gw.Dsl.Specs.{
  StepHead, StepSpec, step, StepSpecs, no_steps, step_then, Built, built, validate_relay_spec,
}
use senechal_gw.Dsl.Builder.{
  CompileExit, CompileBuilder, edge_from, edges_between, add_edges, sorted_unique,
  sorted_compile_exits,
}
use senechal_gw.Dsl.Steps.{
  Ends, has_steps, check_step, uses_node, call_node, relay_node, compile_node, Mode, of_uses,
  of_call, of_steps, of_split, of_relay, mode_of, sort_split, check_ends, compile_step,
  compile_each, compile_split, by_mode, no_ends,
}
use senechal_gw.Dsl.Sound.{
  bind-built, then-built, IsThere, Joined, Sound, Grows, Holds, Leaves, edges-SoundGraph,
}
use senechal_gw.Dsl.Sound.Parts.{sorted_compile_exits-All, sorted_unique-All, compile_node-Leaves}

from-Joined :
    (ns : List Node) (x : CompileExit) (to : List String)
    → IsThere ns x.node_id
    → All (IsThere ns) to
    → All (Joined ns) (map (edge_from x) to)
from-Joined ns x [] h a = tt
from-Joined ns x (t ∷ to) h a = ((h, a.0), from-Joined ns x to h a.1)

between-Joined :
    (ns : List Node) (xs : List CompileExit) (to : List String)
    → All (λ x. IsThere ns x.node_id) xs
    → All (IsThere ns) to
    → All (Joined ns) (edges_between xs to)
unfolding edges_between
between-Joined ns [] to a b = tt
between-Joined ns (x ∷ xs) to a b =
    All-append (Joined ns) (map (edge_from x) to) (edges_between xs to) (from-Joined ns x to a.0 b)
      (between-Joined ns xs to a.1 b)

sort_split-Leaves :
    (b : CompileBuilder) (x : Ends × CompileBuilder) (e' : Ends) (b' : CompileBuilder)
    → Leaves b x.0 x.1
    → sort_split x ≡ built (e', b')
    → Leaves b e' b'
unfolding sort_split
sort_split-Leaves b (e, b1) e' b' (s, g, h) q =
    let t : record { entry = sorted_unique e.entry; terminal = sorted_compile_exits e.terminal }
        ≡ e' =
      cc in
    let u : b1 ≡ b' = cc in
    rw (← t, ← u)
      (
        s,
        g,
        (
          sorted_unique-All (IsThere b1.nodes) e.entry h.0,
          sorted_compile_exits-All (λ x. IsThere b1.nodes x.node_id) e.terminal h.1,
        ),
      )

first-is_in : (c : String) (cs : List String) → any (str_eq c) (c ∷ cs) ≡ true
unfolding any
first-is_in c cs = let self : str_eq c c ≡ true = (eq_iff c c).1 refl in rw self refl

by_mode-Leaves :
    (h : StepHead) (m : Mode) (b : CompileBuilder) (x y : Built (Ends × CompileBuilder)) (e : Ends)
    (b' : CompileBuilder)
    → Sound b
    → ((e : Ends) (b' : CompileBuilder) → x ≡ built (e, b') → Leaves b e b')
    → ((e : Ends) (b' : CompileBuilder) → y ≡ built (e, b') → Leaves b e b')
    → by_mode h m b x y ≡ built (e, b')
    → Leaves b e b'
unfolding by_mode
by_mode-Leaves h of_uses b x y e b' s f g q =
    compile_node-Leaves h (uses_node h) [] b e b' (λ id. (refl, λ k. cc)) s q
by_mode-Leaves h of_call b x y e b' s f g q =
    compile_node-Leaves h (call_node h) (trim_space h.call ∷ []) b e b'
      (λ id. (refl, λ k. (trim_space-twice h.call, first-is_in (trim_space h.call) b.called))) s q
by_mode-Leaves h (of_relay r) b x y e b' s f g q =
    let q2 = then-built (validate_relay_spec r) (compile_node h (relay_node r) [] b) (e, b') q in
    compile_node-Leaves h (relay_node r) [] b e b' (λ id. (refl, λ k. cc)) s q2
by_mode-Leaves h of_steps b x y e b' s f g q = f e b' q
by_mode-Leaves h of_split b x y e b' s f g q =
    let ((e1, b1), q1, q2) = bind-built _ _ (e, b') q in
    sort_split-Leaves b (e1, b1) e b' (g e1 b1 q1) q2

-- What goes on from the ends of a part that is there.
lifted : (b b' : CompileBuilder) (e : Ends) → Grows b.nodes b'.nodes → Holds b e → Holds b' e
lifted b b' e g h = (
  All-map (IsThere b.nodes) (IsThere b'.nodes) g e.entry h.0,
  All-map (λ x. IsThere b.nodes x.node_id) (λ x. IsThere b'.nodes x.node_id) (λ x m. g x.node_id m)
      e.terminal h.1,
)

if-All {ℓ κ} :
    {A : Type ℓ} (P : A → Type κ) (c : Bool) (xs ys : List A)
    → All P xs
    → All P ys
    → All P (if c then xs ++ ys else xs)
if-All P false xs ys a b = a
if-All P true xs ys a b = All-append P xs ys a b

mutual
  unfolding compile_step add_edges

  pub step-Leaves :
      (l : Library) (t : StepSpec) (b : CompileBuilder) (e : Ends) (b' : CompileBuilder)
      → Sound b
      → compile_step l t b ≡ built (e, b')
      → Leaves b e b'
  step-Leaves l (step h steps split) b e b' s q =
      let q2 = then-built (check_step l h (has_steps steps) (has_steps split)) _ (e, b') q in
      by_mode-Leaves h (mode_of h (has_steps steps)) b _ _ e b' s
        (λ e1 b1 q. each-Leaves l steps true no_ends b e1 b1 s (tt, tt) q)
        (λ e1 b1 q. split-Leaves l split no_ends b e1 b1 s (tt, tt) q) q2

  pub each-Leaves :
      (l : Library) (ts : StepSpecs) (first : Bool) (e : Ends) (b : CompileBuilder) (e' : Ends)
      (b' : CompileBuilder)
      → Sound b
      → Holds b e
      → compile_each l ts first e b ≡ built (e', b')
      → Leaves b e' b'
  each-Leaves l no_steps first e b e' b' s h q =
      let t : e ≡ e' = cc in let u : b ≡ b' = cc in rw (← t, ← u) (s, λ i m. m, h)
  each-Leaves l (step_then t ts) first e b e' b' s h q =
      let ((here, b1), q1, q2) = bind-built _ _ (e', b') q in
      let q4 = then-built (check_ends here) _ (e', b') q2 in
      let (s1, g1, h1) = step-Leaves l t b here b1 s q1 in
      let before = lifted b b1 e g1 h in
      let s2 =
        edges-SoundGraph b1.nodes b1.edges (edges_between e.terminal here.entry) b1.called s1
          (between-Joined b1.nodes e.terminal here.entry before.1 h1.0) in
      let entry = if-All (IsThere b1.nodes) first e.entry here.entry before.0 h1.0 in
      let (s3, g3, h3) =
        each-Leaves l ts false _ (add_edges e.terminal here.entry b1) e' b' s2 (entry, h1.1) q4 in
      (s3, λ i m. g3 i (g1 i m), h3)

  pub split-Leaves :
      (l : Library) (ts : StepSpecs) (e : Ends) (b : CompileBuilder) (e' : Ends)
      (b' : CompileBuilder)
      → Sound b
      → Holds b e
      → compile_split l ts e b ≡ built (e', b')
      → Leaves b e' b'
  split-Leaves l no_steps e b e' b' s h q =
      let t : e ≡ e' = cc in let u : b ≡ b' = cc in rw (← t, ← u) (s, λ i m. m, h)
  split-Leaves l (step_then t ts) e b e' b' s h q =
      let ((here, b1), q1, q2) = bind-built _ _ (e', b') q in
      let (s1, g1, h1) = step-Leaves l t b here b1 s q1 in
      let before = lifted b b1 e g1 h in
      let both : Ends = record {
        entry = e.entry ++ here.entry;
        terminal = e.terminal ++ here.terminal;
      } in
      let ends : Holds b1 both = (
        All-append (IsThere b1.nodes) e.entry here.entry before.0 h1.0,
        All-append (λ x. IsThere b1.nodes x.node_id) e.terminal here.terminal before.1 h1.1,
      ) in
      let (s3, g3, h3) = split-Leaves l ts both b1 e' b' s1 ends q2 in
      (s3, λ i m. g3 i (g1 i m), h3)
