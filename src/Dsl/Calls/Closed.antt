-- ===== src/Dsl/Calls/Closed.antt =====
-- validatePipelineCalls of internal/router/dsl/compiler.go: the names that the walk has closed stand
-- behind all that they call, so that their places rank the pipelines.
use senechal_gw.Prelude.{
  ℕ, zero, suc, ◌<◌, ◌≤◌, String, ◌≡◌, refl, sym, inl, inr, Bool, true, Option, none, some, List,
  [], ◌∷◌, arith, All, any, find?, length, str_eq, eq_iff, Bool-cases, if◌then◌else◌,
}
use senechal_gw.Prelude.Rows.{All-map, All-zip}
use senechal_gw.Dsl.{Pipeline, is_called}
use senechal_gw.Dsl.Calls.{
  Mark, open_name, closed_name, Marks, mark_of, Checked, accepted, unknown_pipeline, call_cycle,
  panics, out_of_fuel, ◌>>=◌, walk_all, walk_calls, enter, walk,
}

-- Where a chain succeeds, its first part does, and the rest goes on from it.
pub bind-accepted :
    {A B : Type 0} (x : Checked A) (f : A → Checked B) (b : B)
    → (x >>= f) ≡ accepted b
    → (a : A) × (x ≡ accepted a) × (f a ≡ accepted b)
bind-accepted (accepted a) f b h = (a, refl, h)
bind-accepted (unknown_pipeline n c) f b h = cc
bind-accepted (call_cycle ns) f b h = cc
bind-accepted panics f b h = cc
bind-accepted out_of_fuel f b h = cc

abbrev pub is_in : String → List String → Bool
is_in n xs = any (str_eq n) xs

-- The names that are closed, the last one first.
unfoldable pub closed_names : Marks → List String
closed_names [] = []
closed_names ((n, open_name) ∷ ms) = closed_names ms
closed_names ((n, closed_name) ∷ ms) = n ∷ closed_names ms

pub closed-is_in :
    (n : String) (ms : Marks) → mark_of n ms ≡ some closed_name → is_in n (closed_names ms) ≡ true
unfolding closed_names mark_of any
closed-is_in n [] h = cc
closed-is_in n ((x, open_name) ∷ ms) h = elim (Bool-cases (str_eq x n)) [
  | inl e ↦ let absurd_mark : some open_name ≡ some closed_name = rw (e, mark_of) at h in cc
  | inr e ↦ closed-is_in n ms (rw (e, mark_of) at h)
]
closed-is_in n ((x, closed_name) ∷ ms) h = elim (Bool-cases (str_eq x n)) [
  | inl e ↦ let same : str_eq n x ≡ true = (eq_iff n x).1 (sym ((eq_iff x n).0 e)) in rw same refl
  | inr e ↦ ground (arith, closed-is_in n ms (rw (e, mark_of) at h))
]

module _ (ps : List Pipeline) where
  -- What a name calls.
  abbrev pub Calls : (String → Type 0) → String → Type 0
  Calls P name = (p : Pipeline) → find? (is_called name) ps ≡ some p → All P p.called_pipelines

  -- Each name of the list stands before all that it calls.
  unfoldable pub IsClosed : List String → Type 0
  IsClosed [] = Unit {0}
  IsClosed (x ∷ xs) = Calls (λ c. is_in c xs ≡ true) x × IsClosed xs

  abbrev pub Kept : Marks → Marks → Type 0
  Kept st st' = (n : String) → is_in n (closed_names st) ≡ true → is_in n (closed_names st') ≡ true

  abbrev pub Closes : (Marks → Type 0) → Marks → Marks → Type 0
  Closes P st st' = IsClosed (closed_names st') × P st' × Kept st st'

  abbrev Closing : (String → Marks → Checked Marks) → Type 0
  Closing f =
      (name : String) (st st' : Marks)
      → IsClosed (closed_names st)
      → f name st ≡ accepted st'
      → Closes (λ ms. is_in name (closed_names ms) ≡ true) st st'

  pub walk_all-Closes :
      (f : String → Marks → Checked Marks)
      → Closing f
      → (ds : List String) (st st' : Marks) → IsClosed (closed_names st)
      → walk_all f ds st ≡ accepted st'
      → Closes (λ ms. All (λ d. is_in d (closed_names ms) ≡ true) ds) st st'
  unfolding walk_all
  walk_all-Closes f g [] st st' c h = let e : st ≡ st' = cc in rw (← e) (c, tt, λ n m. m)
  walk_all-Closes f g (d ∷ ds) st st' c h =
      let (st1, h1, h2) = bind-accepted (f d st) (walk_all f ds) st' h in
      let (c1, m1, k1) = g d st st1 c h1 in
      let (c2, m2, k2) = walk_all-Closes f g ds st1 st' c1 h2 in
      (c2, (k2 d m1, m2), λ n m. k2 n (k1 n m))

  walk_calls-Closes :
      (f : List String → String → Marks → Checked Marks) (stack : List String)
      → ((s : List String) → Closing (f s))
      → (name : String) (st st' : Marks) (o : Option Pipeline) → find? (is_called name) ps ≡ o
      → IsClosed (closed_names st)
      → walk_calls f name stack st o ≡ accepted st'
      → Closes (λ ms. is_in name (closed_names ms) ≡ true) st st'
  unfolding walk_calls closed_names IsClosed any
  walk_calls-Closes f stack g name st st' none e c h = cc
  walk_calls-Closes f stack g name st st' (some p) e c h =
      let (st1, h1, h2) = bind-accepted _ _ st' h in
      let (c1, m1, k1) =
        walk_all-Closes _ (g _) p.called_pipelines ((name, open_name) ∷ st) st1 c h1 in
      let e2 : ((name, closed_name) ∷ st1) ≡ st' = cc in
      let self : str_eq name name ≡ true = (eq_iff name name).1 refl in
      let calls : Calls (λ d. is_in d (closed_names st1) ≡ true) name =
        λ q eq. let s : p ≡ q = ground (arith, e, eq) in rw (← s) m1 in
      rw (← e2) ((calls, c1), ground (arith, self), λ n m. ground (arith, k1 n m))

  enter-Closes :
      (f : List String → String → Marks → Checked Marks) (stack : List String)
      → ((s : List String) → Closing (f s))
      → (name : String) (st st' : Marks) (m : Option Mark) → mark_of name st ≡ m
      → IsClosed (closed_names st)
      → enter f ps stack name st m ≡ accepted st'
      → Closes (λ ms. is_in name (closed_names ms) ≡ true) st st'
  unfolding enter
  enter-Closes f stack g name st st' (some closed_name) e c h =
      let s : st ≡ st' = cc in rw (← s) (c, closed-is_in name st e, λ n m. m)
  enter-Closes f stack g name st st' (some open_name) e c h = cc
  enter-Closes f stack g name st st' none e c h =
      walk_calls-Closes f stack g name st st' (find? (is_called name) ps) refl c h

  pub walk-Closes : (fuel : ℕ) (stack : List String) → Closing (walk fuel ps stack)
  unfolding walk
  walk-Closes zero stack = λ name st st' c h. cc
  walk-Closes (suc fuel) stack = λ name st st' c h.
      enter-Closes (walk fuel ps) stack (walk-Closes fuel) name st st' (mark_of name st) refl c h

-- The place of a name, counted from the end.
unfoldable pub place : List String → String → ℕ
place [] n = 0
place (x ∷ xs) n =
    let rest = place xs n in if is_in n xs then rest else if str_eq n x then suc (length xs) else 0

pub place-bound : (xs : List String) (n : String) → place xs n ≤ length xs
unfolding place
place-bound [] n = omega arith
place-bound (x ∷ xs) n = ground (arith, place-bound xs n)

pub IsClosed-tail :
    (ps : List Pipeline) (xs : List String) (name : String)
    → IsClosed ps xs
    → is_in name xs ≡ true
    → Calls ps (λ c. is_in c xs ≡ true) name
unfolding IsClosed any
IsClosed-tail ps [] name c m = λ p e. cc
IsClosed-tail ps (x ∷ xs) name (k, c) m = λ p e. elim (Bool-cases (is_in name xs)) [
  | inl t ↦
      All-map (λ d. is_in d xs ≡ true) (λ d. is_in d (x ∷ xs) ≡ true) (λ d q. ground (arith, q))
        p.called_pipelines (IsClosed-tail ps xs name c t p e)
  | inr t ↦
      let same : str_eq name x ≡ true = ground (arith, t, m) in
      let s : name ≡ x = (eq_iff name x).0 same in
      All-map (λ d. is_in d xs ≡ true) (λ d. is_in d (x ∷ xs) ≡ true) (λ d q. ground (arith, q))
        p.called_pipelines (k p (rw (← s) e))
]

-- In a closed list the places go down along every call.
pub place-lt :
    (ps : List Pipeline) (xs : List String) (name : String)
    → IsClosed ps xs
    → is_in name xs ≡ true
    → Calls ps (λ c. place xs c < place xs name) name
unfolding IsClosed place any
place-lt ps [] name c m = λ p e. cc
place-lt ps (x ∷ xs) name (k, c) m = λ p e. elim (Bool-cases (is_in name xs)) [
  | inl t ↦
      All-zip (λ d. place xs d < place xs name) (λ d. is_in d xs ≡ true)
        (λ d. place (x ∷ xs) d < place (x ∷ xs) name) (λ d l q. ground (arith, l, q, t))
        p.called_pipelines (place-lt ps xs name c t p e) (IsClosed-tail ps xs name c t p e)
  | inr t ↦
      let same : str_eq name x ≡ true = ground (arith, t, m) in
      let s : name ≡ x = (eq_iff name x).0 same in
      All-map (λ d. is_in d xs ≡ true) (λ d. place (x ∷ xs) d < place (x ∷ xs) name)
        (λ d q. ground (arith, q, t, same, place-bound xs d)) p.called_pipelines (k p (rw (← s) e))
]
