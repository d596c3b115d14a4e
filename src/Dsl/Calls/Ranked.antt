-- ===== src/Dsl/Calls/Ranked.antt =====
-- validatePipelineCalls of internal/router/dsl/compiler.go: the sets of pipelines that it accepts.
use Prim.Native.String.{compare}
use text.Mathlib.Text.{is_lt}
use senechal_gw.Prelude.{
  ℕ, suc, ◌<◌, ◌≤◌, String, ◌≡◌, ◌↔◌, refl, subst, inl, inr, Bool, true, some, List, [], ◌∷◌, arith,
  All, any, count_p, find?, length, str_eq, eq_iff, Bool-cases,
}
use senechal_gw.Prelude.Rows.{All-map, All-zip, All-find?}
use senechal_gw.Dsl.{Pipeline, is_called}
use senechal_gw.Dsl.Calls.{
  Marks, mark_of, accepted, walk_all, walk, insert_text, sort_strings, check_called,
  check_references, names_of, validate_pipeline_calls,
}
use senechal_gw.Dsl.Calls.Ending.{
  AllThere, IsAnswer, bind-IsAnswer, references-IsAnswer, walk_all-Answers, walk-Answers,
}
use senechal_gw.Dsl.Calls.Closed.{
  bind-accepted, is_in, closed_names, IsClosed, walk-Closes, walk_all-Closes, place, place-lt,
  place-bound,
}
use senechal_gw.Dsl.Calls.Progress.{is_fresh, Ready, Lower, walk_all-Walks, walk-Walks}

-- Every pipeline that is called is there, and some rank of the names goes down along every call.
abbrev pub IsKnown : List Pipeline → List Pipeline → Type 0
IsKnown ps = All (λ p. All (λ c. any (is_called c) ps ≡ true) p.called_pipelines)

abbrev pub Descends : List Pipeline → (String → ℕ) → Type 0
Descends ps rank =
    (name : String) (p : Pipeline)
    → find? (is_called name) ps ≡ some p
    → All (λ c. rank c < rank name) p.called_pipelines

abbrev pub IsAcyclic : List Pipeline → Type 0
IsAcyclic ps = IsKnown ps ps × ((rank : String → ℕ) × Descends ps rank)

module _ (P : String → Type 0) where
  insert_text-All : (x : String) (ys : List String) → P x → All P ys → All P (insert_text x ys)
  unfolding insert_text
  insert_text-All x [] p a = (p, tt)
  insert_text-All x (y ∷ ys) p a = elim (Bool-cases (is_lt (compare y x))) [
    | inl e ↦ rw e (a.0, insert_text-All x ys p a.1)
    | inr e ↦ rw e (p, a)
  ]

  sort_strings-All : (xs : List String) → All P xs → All P (sort_strings xs)
  unfolding sort_strings
  sort_strings-All [] a = tt
  sort_strings-All (x ∷ xs) a = insert_text-All x (sort_strings xs) a.0 (sort_strings-All xs a.1)

  All-insert_text : (x : String) (ys : List String) → All P (insert_text x ys) → P x × All P ys
  unfolding insert_text
  All-insert_text x [] a = a
  All-insert_text x (y ∷ ys) a = elim (Bool-cases (is_lt (compare y x))) [
    | inl e ↦
        let b : P y × All P (insert_text x ys) = rw (e, insert_text) at a in
        let (px, rest) = All-insert_text x ys b.1 in (px, (b.0, rest))
    | inr e ↦ let b : P x × (P y × All P ys) = rw (e, insert_text) at a in b
  ]

  All-sort_strings : (xs : List String) → All P (sort_strings xs) → All P xs
  unfolding sort_strings
  All-sort_strings [] a = tt
  All-sort_strings (x ∷ xs) a =
      let (px, rest) = All-insert_text x (sort_strings xs) a in (px, All-sort_strings xs rest)

  All-names : (ps : List Pipeline) → All P (names_of ps) → All (λ p. P p.name) ps
  All-names [] a = tt
  All-names (p ∷ ps) a = (a.0, All-names ps a.1)

  names-All : (ps : List Pipeline) → All (λ p. P p.name) ps → All P (names_of ps)
  names-All [] a = tt
  names-All (p ∷ ps) a = (a.0, names-All ps a.1)

check_called-accepts :
    (ps : List Pipeline) (name : String) (cs : List String)
    → (check_called ps name cs ≡ accepted tt) ↔ All (λ c. any (is_called c) ps ≡ true) cs
unfolding check_called
check_called-accepts ps name [] = (λ h. tt, λ h. refl)
check_called-accepts ps name (c ∷ cs) = elim (Bool-cases (any (is_called c) ps)) [
  | inl e ↦ rw e (
    λ h. (refl, (check_called-accepts ps name cs).0 h),
    λ a. (check_called-accepts ps name cs).1 a.1,
  )
  | inr e ↦ rw e (λ h. cc, λ a. let bad = a.0 in cc)
]

check_references-accepts :
    (ps qs : List Pipeline) → (check_references ps qs ≡ accepted tt) ↔ IsKnown ps qs
unfolding check_references
check_references-accepts ps [] = (λ h. tt, λ h. refl)
check_references-accepts ps (q ∷ qs) = (
  λ h.
      let (u, h1, h2) = bind-accepted (check_called ps q.name q.called_pipelines) _ tt h in
      (
        (check_called-accepts ps q.name q.called_pipelines).0 h1,
        (check_references-accepts ps qs).0 h2,
      ),
  λ a.
      let h1 = (check_called-accepts ps q.name q.called_pipelines).1 a.0 in
      rw h1 ((check_references-accepts ps qs).1 a.1),
)

-- Each pipeline of a list is there, whatever stands before it.
names-Known :
    (ps qs : List Pipeline)
    → ((c : String) → any (is_called c) qs ≡ true → any (is_called c) ps ≡ true)
    → All (λ p. any (is_called p.name) ps ≡ true) qs
unfolding any
names-Known ps [] h = tt
names-Known ps (q ∷ qs) h =
    let self : str_eq q.name q.name ≡ true = (eq_iff q.name q.name).1 refl in
    (h q.name (ground (arith, self)), names-Known ps qs (λ c e. h c (ground (arith, e))))

count_p-length {ℓ} : {A : Type ℓ} (p : A → Bool) (xs : List A) → count_p p xs ≤ length xs
unfolding count_p
count_p-length p [] = omega arith
count_p-length p (x ∷ xs) = ground (arith, count_p-length p xs)

accepted-Descends :
    (ps : List Pipeline) (st : Marks)
    → walk_all (walk (suc (length ps)) ps []) (sort_strings (names_of ps)) [] ≡ accepted st
    → Descends ps (place (closed_names st))
unfolding closed_names IsClosed
accepted-Descends ps st h = λ name p e.
    let (c, m, k) = walk_all-Closes ps _ (walk-Closes ps (suc (length ps)) []) _ [] st tt h in
    let P : String → Type 0 = λ n. is_in n (closed_names st) ≡ true in
    let a = All-names P ps (All-sort_strings P (names_of ps) m) in
    let (q, t) = All-find? (λ p. P p.name) (is_called name) ps a e in
    let s : p.name ≡ name = (eq_iff p.name name).0 t in
    place-lt ps (closed_names st) name c (subst P s q) p e

Descends-walks :
    (ps : List Pipeline) (rank : String → ℕ)
    → IsKnown ps ps
    → Descends ps rank
    → (st : Marks) × (walk_all (walk (suc (length ps)) ps []) (sort_strings (names_of ps)) []
        ≡ accepted st)
unfolding mark_of
Descends-walks ps rank known d =
    let low : Lower ps rank = λ name p e.
      All-zip (λ c. any (is_called c) ps ≡ true) (λ c. rank c < rank name)
        (λ c. (any (is_called c) ps ≡ true) × (rank c < rank name)) (λ c x y. (x, y))
        p.called_pipelines
        (All-find? (λ p. All (λ c. any (is_called c) ps ≡ true) p.called_pipelines) (is_called name)
          ps known e).0
        (d name p e) in
    let P : String → Type 0 = λ n. any (is_called n) ps ≡ true in
    let names = sort_strings-All P (names_of ps) (names-All P ps (names-Known ps ps (λ c e. e))) in
    let ready = All-map P (Ready ps rank []) (λ n e. (e, λ x m. cc)) _ names in
    let l = count_p-length (is_fresh []) ps in
    let (st, e, o, c) =
      walk_all-Walks ps rank (suc (length ps)) (walk (suc (length ps)) ps [])
        (walk-Walks ps rank (suc (length ps)) [] low) _ [] ready (omega (arith, l)) in
    (st, e)

accepts-IsAcyclic : (ps : List Pipeline) → (validate_pipeline_calls ps ≡ accepted tt) ↔ IsAcyclic ps
unfolding validate_pipeline_calls
accepts-IsAcyclic ps = (
  λ h.
      let (u, h1, h2) = bind-accepted (check_references ps ps) _ tt h in
      let (st, h3, h4) = bind-accepted _ (λ marks. accepted tt) tt h2 in
      (
        (check_references-accepts ps ps).0 h1,
        (place (closed_names st), accepted-Descends ps st h3),
      ),
  λ a.
      let h1 = (check_references-accepts ps ps).1 a.0 in
      let (st, e) = Descends-walks ps a.1.0 a.0 a.1.1 in rw (h1, e) refl,
)

walked-IsAnswer :
    (ps : List Pipeline)
    → IsKnown ps ps
    → IsAnswer (walk_all (walk (suc (length ps)) ps []) (sort_strings (names_of ps)) [])
walked-IsAnswer ps known =
    let there : AllThere ps = λ name p e.
      (All-find? (λ p. All (λ c. any (is_called c) ps ≡ true) p.called_pipelines) (is_called name)
        ps known e).0 in
    let P : String → Type 0 = λ n. any (is_called n) ps ≡ true in
    let names = sort_strings-All P (names_of ps) (names-All P ps (names-Known ps ps (λ c e. e))) in
    let l = count_p-length (is_fresh []) ps in
    elim (walk_all-Answers ps (suc (length ps)) (walk (suc (length ps)) ps [])
      (walk-Answers ps (suc (length ps)) [] there) _ [] names (omega (arith, l))) [
        | inl (st, e, c) ↦ rw e (λ q. cc, λ q. cc)
        | inr (ns, e) ↦ rw e (λ q. cc, λ q. cc)
      ]

-- validatePipelineCalls ends with an answer for every set of pipelines: it is never out of fuel and
-- never at a nil pointer. It accepts exactly the sets in which every pipeline that is called is there
-- and some rank of the names goes down along every call, so that none calls itself.
pub validate_pipeline_calls-accepts :
    (ps : List Pipeline)
    → IsAnswer (validate_pipeline_calls ps)
      × ((validate_pipeline_calls ps ≡ accepted tt) ↔ IsAcyclic ps)
unfolding validate_pipeline_calls
validate_pipeline_calls-accepts ps = (
  bind-IsAnswer (check_references ps ps) _ (references-IsAnswer ps ps) (λ u e.
      bind-IsAnswer _ (λ marks. accepted tt)
        (walked-IsAnswer ps ((check_references-accepts ps ps).0 e)) (λ st h. (λ q. cc, λ q. cc))),
  accepts-IsAcyclic ps,
)

-- The rank of an accepted set is bounded.
pub accepted-rank :
    (ps : List Pipeline)
    → validate_pipeline_calls ps ≡ accepted tt
    → (rank : String → ℕ) × Descends ps rank × ((k : ℕ) × ((n : String) → rank n ≤ k))
unfolding validate_pipeline_calls
accepted-rank ps h =
    let (u, h1, h2) = bind-accepted (check_references ps ps) _ tt h in
    let (st, h3, h4) = bind-accepted _ (λ marks. accepted tt) tt h2 in
    (
      place (closed_names st),
      accepted-Descends ps st h3,
      (length (closed_names st), place-bound (closed_names st)),
    )
