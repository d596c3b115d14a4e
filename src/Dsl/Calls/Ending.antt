-- ===== src/Dsl/Calls/Ending.antt =====
-- validatePipelineCalls of internal/router/dsl/compiler.go: where every pipeline that is called is there,
-- the walk has an answer: it succeeds, or finds a circle.
use senechal_gw.Prelude.{
  ℕ, zero, suc, ◌<◌, ◌≤◌, String, ◌≡◌, ◌≢◌, Bool-cases, refl, ◌⊎◌, inl, inr, true, Option, none,
  some, List, [], ◌∷◌, ◌++◌, arith, All, any, count_p, find?,
}
use senechal_gw.Dsl.{Pipeline, is_called}
use senechal_gw.Dsl.Calls.{
  Mark, open_name, closed_name, Marks, mark_of, Checked, accepted, unknown_pipeline, call_cycle,
  panics, out_of_fuel, check_called, check_references, ◌>>=◌, from_name, walk_all, walk_calls,
  enter, walk,
}
use senechal_gw.Dsl.Calls.Progress.{is_fresh, any-find?, fresh-mark, fresh-lt}

module _ (ps : List Pipeline) where
  abbrev pub IsThere : String → Type 0
  IsThere d = any (is_called d) ps ≡ true

  -- The calls of every name are there.
  abbrev pub AllThere : Type 0
  AllThere =
      (name : String) (p : Pipeline)
      → find? (is_called name) ps ≡ some p
      → All IsThere p.called_pipelines

  -- A walk succeeds and leaves no name fresh that was not, or it finds a circle.
  abbrev pub Answers : Marks → Checked Marks → Type 0
  Answers st x =
      ((st' : Marks) × (x ≡ accepted st') × (count_p (is_fresh st') ps ≤ count_p (is_fresh st) ps))
      ⊎ ((names : List String) × (x ≡ call_cycle names))

  abbrev pub Answering : ℕ → (String → Marks → Checked Marks) → Type 0
  Answering n f =
      (d : String) (st : Marks) → IsThere d → count_p (is_fresh st) ps < n → Answers st (f d st)

  pub walk_all-Answers :
      (n : ℕ) (f : String → Marks → Checked Marks)
      → Answering n f
      → (ds : List String) (st : Marks) → All IsThere ds
      → count_p (is_fresh st) ps < n
      → Answers st (walk_all f ds st)
  unfolding walk_all
  walk_all-Answers n f w [] st a l = inl (st, refl, omega arith)
  walk_all-Answers n f w (d ∷ ds) st (r, a) l = elim (w d st r l) [
    | inr (names, e) ↦ inr (names, rw e refl)
    | inl (st1, e, c) ↦ elim (walk_all-Answers n f w ds st1 a (omega (arith, l, c))) [
      | inr (names, e2) ↦ inr (names, rw (e, e2) refl)
      | inl (st2, e2, c2) ↦ inl (st2, rw (e, e2) refl, omega (arith, c, c2))
    ]
  ]

  walk_calls-Answers :
      (n : ℕ) (f : List String → String → Marks → Checked Marks) (stack : List String)
      → ((s : List String) → Answering n (f s))
      → AllThere
      → (name : String) (st : Marks) → mark_of name st ≡ none
      → (p : Pipeline) → find? (is_called name) ps ≡ some p
      → count_p (is_fresh st) ps < suc n
      → Answers st (walk_calls f name stack st (some p))
  unfolding walk_calls
  walk_calls-Answers n f stack w known name st e p ep l =
      let st1 = (name, open_name) ∷ st in
      let less = fresh-lt name open_name st ps p e ep in
      elim (walk_all-Answers n (f (stack ++ (name ∷ []))) (w _) p.called_pipelines st1
        (known name p ep) (omega (arith, less, l))) [
          | inr (names, e2) ↦ inr (names, rw e2 refl)
          | inl (st2, e2, c2) ↦ inl (
            (name, closed_name) ∷ st2,
            rw e2 refl,
            omega (arith, c2, less, fresh-mark name closed_name st2 ps),
          )
        ]

  enter-Answers :
      (n : ℕ) (f : List String → String → Marks → Checked Marks) (stack : List String)
      → ((s : List String) → Answering n (f s))
      → AllThere
      → (name : String) (st : Marks) (m : Option Mark) → mark_of name st ≡ m
      → IsThere name
      → count_p (is_fresh st) ps < suc n
      → Answers st (enter f ps stack name st m)
  unfolding enter
  enter-Answers n f stack w known name st (some closed_name) e r l = inl (st, refl, omega arith)
  enter-Answers n f stack w known name st (some open_name) e r l =
      inr (from_name name stack ++ (name ∷ []), refl)
  enter-Answers n f stack w known name st none e r l =
      let (p, ep) = any-find? (is_called name) ps r in
      rw ep (walk_calls-Answers n f stack w known name st e p ep l)

  pub walk-Answers :
      (fuel : ℕ) (stack : List String) → AllThere → Answering fuel (walk fuel ps stack)
  unfolding walk
  walk-Answers zero stack known = λ d st r l. absurd (omega (arith, l))
  walk-Answers (suc fuel) stack known = λ d st r l.
      enter-Answers fuel (walk fuel ps) stack (λ s. walk-Answers fuel s known) known d st
        (mark_of d st) refl r l

-- An answer of the code: not the model's own, of the fuel or of a nil pointer.
abbrev pub IsAnswer : {A : Type 0} → Checked A → Type 0
IsAnswer x = (x ≢ out_of_fuel) × (x ≢ panics)

called-IsAnswer :
    (ps : List Pipeline) (name : String) (cs : List String) → IsAnswer (check_called ps name cs)
unfolding check_called
called-IsAnswer ps name [] = (λ q. cc, λ q. cc)
called-IsAnswer ps name (c ∷ cs) = elim (Bool-cases (any (is_called c) ps)) [
  | inl e ↦ rw e (called-IsAnswer ps name cs)
  | inr e ↦ rw e (λ q. cc, λ q. cc)
]

pub bind-IsAnswer :
    {A B : Type 0} (x : Checked A) (f : A → Checked B)
    → IsAnswer x
    → ((a : A) → x ≡ accepted a → IsAnswer (f a))
    → IsAnswer (x >>= f)
bind-IsAnswer (accepted a) f h k = k a refl
bind-IsAnswer (unknown_pipeline n c) f h k = (λ q. cc, λ q. cc)
bind-IsAnswer (call_cycle ns) f h k = (λ q. cc, λ q. cc)
bind-IsAnswer panics f h k = absurd (h.1 refl)
bind-IsAnswer out_of_fuel f h k = absurd (h.0 refl)

pub references-IsAnswer : (ps qs : List Pipeline) → IsAnswer (check_references ps qs)
unfolding check_references
references-IsAnswer ps [] = (λ q. cc, λ q. cc)
references-IsAnswer ps (q ∷ qs) =
    bind-IsAnswer (check_called ps q.name q.called_pipelines) _
      (called-IsAnswer ps q.name q.called_pipelines) (λ u e. references-IsAnswer ps qs)
