-- ===== src/Dsl/Ids.antt =====
-- allocNodeID of internal/router/dsl/compiler.go: its loop for a free name ends, since every name that
-- it finds taken is that of another node.
use senechal_gw.Prelude.{
  ℕ, zero, suc, ◌<◌, ◌≤◌, String, ◌≡◌, ◌≢◌, refl, sym, ap, ◌∙◌, inl, inr, Bool, true, not, List, [],
  ◌∷◌, arith, length, any, select, str_append, trim_space, decimal, str_eq, eq_iff, Bool-cases,
}
use senechal_gw.Dsl.{Node, has_id}
use senechal_gw.Dsl.Digits.{decimal-injective}
use senechal_gw.Dsl.Specs.{failed, out_of_ids, blank}
use senechal_gw.Dsl.Builder.{CompileBuilder, exists_id, auto_id, alloc_node_id}

step_id : ℕ → String
step_id k = str_append "step_" (decimal k)

tail : String → String
tail String.[] = String.[]
tail (String.◌∷◌ c s) = s

step_id-injective : (m n : ℕ) → step_id m ≡ step_id n → m ≡ n
unfolding step_id tail str_append
step_id-injective m n h = decimal-injective m n (ap (λ s. tail (tail (tail (tail (tail s))))) h)

other : String → Node → Bool
other id n = not (has_id id n)

-- Without the nodes of a name there are fewer.
other-length :
    (id : String) (ns : List Node)
    → any (has_id id) ns ≡ true
    → length (select (other id) ns) < length ns
unfolding any select other
other-length id [] h = cc
other-length id (n ∷ ns) h = elim (Bool-cases (str_eq n.id id)) [
  | inl e ↦ rw e (omega (arith, at_most ns))
  | inr e ↦ rw e (omega (arith, other-length id ns (rw (e, any) at h)))
]
  where
    at_most : (ns : List Node) → length (select (other id) ns) ≤ length ns
    at_most [] = omega arith
    at_most (n ∷ ns) = ground (arith, at_most ns)

other-there :
    (id x : String) (ns : List Node)
    → x ≢ id
    → any (has_id x) ns ≡ true
    → any (has_id x) (select (other id) ns) ≡ true
unfolding any select other
other-there id x [] d h = cc
other-there id x (n ∷ ns) d h = elim (Bool-cases (str_eq n.id id)) [
  | inl e ↦ elim (Bool-cases (str_eq n.id x)) [
    | inl f ↦ absurd (d (sym ((eq_iff n.id x).0 f) ∙ (eq_iff n.id id).0 e))
    | inr f ↦ rw e (other-there id x ns d (rw (f, any) at h))
  ]
  | inr e ↦ elim (Bool-cases (str_eq n.id x)) [
    | inl f ↦ rw e (rw f refl)
    | inr f ↦ rw e (rw f (other-there id x ns d (rw (f, any) at h)))
  ]
]

auto_id-ends :
    (fuel : ℕ) (b : CompileBuilder) (ns : List Node)
    → length ns < fuel
    → ((k : ℕ)
        → b.next_auto < k
        → any (has_id (step_id k)) b.nodes ≡ true
        → any (has_id (step_id k)) ns ≡ true)
    → auto_id fuel b ≢ failed out_of_ids
unfolding auto_id step_id
auto_id-ends zero b ns l h = absurd (omega (arith, l))
auto_id-ends (suc fuel) b ns l h =
    let n = suc b.next_auto in
    elim (Bool-cases (exists_id (step_id n) b)) [
      | inr e ↦ rw e (λ q. cc)
      | inl e ↦
          let less = other-length (step_id n) ns (h n (omega arith) e) in
          rw e (
            auto_id-ends fuel (record b { next_auto = n }) (select (other (step_id n)) ns)
              (omega (arith, less, l))
              (λ k above there.
                other-there (step_id n) (step_id k) ns
                  (λ q. let s = step_id-injective k n q in absurd (omega (arith, s, above)))
                  (h k (omega (arith, above)) there)))
    ]

-- allocNodeID finds a free name within as many rounds as there are nodes, and one more.
pub alloc_node_id-ends :
    (name : String) (b : CompileBuilder) → alloc_node_id name b ≢ failed out_of_ids
unfolding alloc_node_id
alloc_node_id-ends name b = elim (Bool-cases (blank name)) [
  | inl e ↦ rw e (auto_id-ends (suc (length b.nodes)) b b.nodes (omega arith) (λ k l h. h))
  | inr e ↦ elim (Bool-cases (exists_id (trim_space name) b)) [
    | inl f ↦ rw (e, f) (λ q. cc)
    | inr f ↦ rw (e, f) (λ q. cc)
  ]
]
