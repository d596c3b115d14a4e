-- ===== src/Dsl/Calls/Progress.antt =====
-- validatePipelineCalls of internal/router/dsl/compiler.go: where a rank goes down along the calls,
-- the walk meets no open name, and each call of it opens a name, so that it ends.
use senechal_gw.Prelude.{
  ℕ, zero, suc, ◌<◌, ◌≤◌, String, ◌≡◌, refl, sym, inl, inr, Bool, true, false, Option, none, some,
  List, [], ◌∷◌, ◌++◌, arith, All, any, count_p, find?, str_eq, eq_iff, Bool-cases,
}
use senechal_gw.Prelude.Rows.{All-map}
use senechal_gw.Dsl.{Pipeline, is_called}
use senechal_gw.Dsl.Calls.{
  Mark, open_name, closed_name, Marks, mark_of, Checked, accepted, walk_all, walk_calls, enter,
  walk,
}

abbrev is_unmarked : Option Mark → Bool
is_unmarked none = true
is_unmarked (some m) = false

abbrev pub is_fresh : Marks → Pipeline → Bool
is_fresh st p = is_unmarked (mark_of p.name st)

pub fresh-mark :
    (name : String) (m : Mark) (st : Marks) (ps : List Pipeline)
    → count_p (is_fresh ((name, m) ∷ st)) ps ≤ count_p (is_fresh st) ps
unfolding count_p mark_of
fresh-mark name m st [] = omega arith
fresh-mark name m st (p ∷ ps) = ground (arith, fresh-mark name m st ps)

-- A pipeline whose name is marked first is no longer fresh.
pub fresh-lt :
    (name : String) (m : Mark) (st : Marks) (ps : List Pipeline) (p : Pipeline)
    → mark_of name st ≡ none
    → find? (is_called name) ps ≡ some p
    → count_p (is_fresh ((name, m) ∷ st)) ps < count_p (is_fresh st) ps
unfolding count_p mark_of find?
fresh-lt name m st [] p e f = cc
fresh-lt name m st (q ∷ ps) p e f = elim (Bool-cases (str_eq q.name name)) [
  | inl t ↦
      let s : q.name ≡ name = (eq_iff q.name name).0 t in
      let back : str_eq name q.name ≡ true = (eq_iff name q.name).1 (sym s) in
      let none_here : mark_of q.name st ≡ none = rw s e in
      rw (back, none_here) (ground (arith, fresh-mark name m st ps))
  | inr t ↦ ground (arith, t, fresh-lt name m st ps p e (rw (t, find?) at f))
]

pub any-find? {ℓ} :
    {A : Type ℓ} (p : A → Bool) (xs : List A) → any p xs ≡ true → (x : A) × (find? p xs ≡ some x)
unfolding any find?
any-find? p [] h = cc
any-find? p (x ∷ xs) h = elim (Bool-cases (p x)) [
  | inl e ↦ (x, rw e refl)
  | inr e ↦ let (y, f) = any-find? p xs (rw (e, any) at h) in (y, rw e f)
]

module _ (ps : List Pipeline) (rank : String → ℕ) where
  -- The open names are above a number.
  abbrev pub Above : ℕ → Marks → Type 0
  Above k st = (x : String) → mark_of x st ≡ some open_name → k < rank x

  -- A call that may be walked into.
  abbrev pub Ready : Marks → String → Type 0
  Ready st d = (any (is_called d) ps ≡ true) × Above (rank d) st

  -- A walk that succeeds leaves no name open that was not, and none fresh that was not.
  abbrev pub Walks : Marks → Checked Marks → Type 0
  Walks st x =
      (st' : Marks) × (x ≡ accepted st')
      × ((n : String) → mark_of n st' ≡ some open_name → mark_of n st ≡ some open_name)
      × (count_p (is_fresh st') ps ≤ count_p (is_fresh st) ps)

  abbrev pub Walking : ℕ → (String → Marks → Checked Marks) → Type 0
  Walking n f =
      (d : String) (st : Marks) → Ready st d → count_p (is_fresh st) ps < n → Walks st (f d st)

  pub walk_all-Walks :
      (n : ℕ) (f : String → Marks → Checked Marks)
      → Walking n f
      → (ds : List String) (st : Marks) → All (Ready st) ds
      → count_p (is_fresh st) ps < n
      → Walks st (walk_all f ds st)
  unfolding walk_all
  walk_all-Walks n f w [] st a l = (st, refl, λ n m. m, omega arith)
  walk_all-Walks n f w (d ∷ ds) st a l =
      let (st1, e1, o1, c1) = w d st a.0 l in
      let ready = All-map (Ready st) (Ready st1) (λ c r. (r.0, λ x m. r.1 x (o1 x m))) ds a.1 in
      let (st2, e2, o2, c2) = walk_all-Walks n f w ds st1 ready (omega (arith, l, c1)) in
      (st2, rw e1 e2, λ x m. o1 x (o2 x m), omega (arith, c1, c2))

  -- The calls of every name are there, and lower.
  abbrev pub Lower : Type 0
  Lower =
      (name : String) (p : Pipeline)
      → find? (is_called name) ps ≡ some p
      → All (λ c. (any (is_called c) ps ≡ true) × (rank c < rank name)) p.called_pipelines

  open-Above :
      (name : String) (st : Marks) (k : ℕ)
      → k < rank name
      → Above (rank name) st
      → Above k ((name, open_name) ∷ st)
  unfolding mark_of
  open-Above name st k l a = λ x m. elim (Bool-cases (str_eq name x)) [
    | inl e ↦ let s : name ≡ x = (eq_iff name x).0 e in rw (← s) l
    | inr e ↦ let h = a x (rw (e, mark_of) at m) in omega (arith, h, l)
  ]

  close-open :
      (name : String) (st st' : Marks)
      → ((n : String)
          → mark_of n st' ≡ some open_name
          → mark_of n ((name, open_name) ∷ st) ≡ some open_name)
      → (n : String) → mark_of n ((name, closed_name) ∷ st') ≡ some open_name
      → mark_of n st ≡ some open_name
  unfolding mark_of
  close-open name st st' o = λ n m. elim (Bool-cases (str_eq name n)) [
    | inl e ↦ let bad : some closed_name ≡ some open_name = rw (e, mark_of) at m in cc
    | inr e ↦ let h = o n (rw (e, mark_of) at m) in rw (e, mark_of) at h
  ]

  walk_calls-Walks :
      (n : ℕ) (f : List String → String → Marks → Checked Marks) (stack : List String)
      → ((s : List String) → Walking n (f s))
      → Lower
      → (name : String) (st : Marks) → Above (rank name) st
      → mark_of name st ≡ none
      → (p : Pipeline) → find? (is_called name) ps ≡ some p
      → count_p (is_fresh st) ps < suc n
      → Walks st (walk_calls f name stack st (some p))
  unfolding walk_calls
  walk_calls-Walks n f stack w low name st a e p ep l =
      let st1 = (name, open_name) ∷ st in
      let ready =
        All-map _ (Ready st1) (λ c r. (r.0, open-Above name st (rank c) r.1 a)) p.called_pipelines
          (low name p ep) in
      let less = fresh-lt name open_name st ps p e ep in
      let (st2, e2, o2, c2) =
        walk_all-Walks n (f (stack ++ (name ∷ []))) (w _) p.called_pipelines st1 ready
          (omega (arith, less, l)) in
      (
        (name, closed_name) ∷ st2,
        rw e2 refl,
        close-open name st st2 o2,
        omega (arith, c2, less, fresh-mark name closed_name st2 ps),
      )

  enter-Walks :
      (n : ℕ) (f : List String → String → Marks → Checked Marks) (stack : List String)
      → ((s : List String) → Walking n (f s))
      → Lower
      → (name : String) (st : Marks) (m : Option Mark) → mark_of name st ≡ m
      → Ready st name
      → count_p (is_fresh st) ps < suc n
      → Walks st (enter f ps stack name st m)
  unfolding enter
  enter-Walks n f stack w low name st (some closed_name) e r l = (st, refl, λ n m. m, omega arith)
  enter-Walks n f stack w low name st (some open_name) e r l =
      let h = r.1 name e in absurd (omega (arith, h))
  enter-Walks n f stack w low name st none e r l =
      let (p, ep) = any-find? (is_called name) ps r.0 in
      rw ep (walk_calls-Walks n f stack w low name st r.1 e p ep l)

  pub walk-Walks : (fuel : ℕ) (stack : List String) → Lower → Walking fuel (walk fuel ps stack)
  unfolding walk
  walk-Walks zero stack low = λ d st r l. absurd (omega (arith, l))
  walk-Walks (suc fuel) stack low = λ d st r l.
      enter-Walks fuel (walk fuel ps) stack (λ s. walk-Walks fuel s low) low d st (mark_of d st)
        refl r l
