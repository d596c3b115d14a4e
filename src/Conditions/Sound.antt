-- ===== src/Conditions/Sound.antt =====
-- What Validate of internal/router/conditions guarantees of the evaluation of a tree.
use senechal_gw.Prelude.{
  ℕ, suc, ◌≡◌, refl, subst, arith, ◌&&◌, ◌⊎◌, inl, inr, Bool, true, false, Option, none, some, any,
}
use senechal_gw.Conditions.{
  Condition, condition, Conditions, no_conditions, condition_then, no_negation, negation, Scope,
}
use senechal_gw.Conditions.Eval.{
  Library, EvalError, path_is_empty, unsupported_root, empty_segment, requires_array,
  requires_numeric_path, requires_numeric_value, requires_string_path, requires_string_value,
  invalid_regex, unsupported_operator, eval_atomic, Answer, answer, failure, and_then, or_else,
  negate, eval, eval_all, eval_any,
}
use senechal_gw.Conditions.Validate.{
  Problem, Validation, valid, invalid, check_atomic, check_node, validate, validate_all,
  validate_root, unless, ◌>>=◌,
}
use senechal_gw.Conditions.Operators.{is_late, depends_on_data, atomic-depends}
use senechal_gw.Conditions.Comparisons.{has_numbers, all_have_numbers, atomic-Fails}

pub node-valid :
    (b : Validation) (f : ℕ → Validation) {m : ℕ}
    → (b >>= f) ≡ valid m
    → (n : ℕ) × (b ≡ valid n) × (f n ≡ valid m)
node-valid (valid n) f e = (n, refl, e)
node-valid (invalid p) f e = cc

pub unless-none : (o : Option Problem) (n : ℕ) {m : ℕ} → unless o n ≡ valid m → o ≡ none
unless-none none n e = refl
unless-none (some p) n e = cc

and-failure :
    (a b : Answer Bool) (e : EvalError)
    → and_then a b ≡ failure e
    → (a ≡ failure e) ⊎ (b ≡ failure e)
and-failure (failure x) b e f = inl f
and-failure (answer true) b e f = inr f
and-failure (answer false) b e f = cc

or-failure :
    (a b : Answer Bool) (e : EvalError)
    → or_else a b ≡ failure e
    → (a ≡ failure e) ⊎ (b ≡ failure e)
or-failure (failure x) b e f = inl f
or-failure (answer false) b e f = inr f
or-failure (answer true) b e f = cc

negate-failure : (a : Answer Bool) (e : EvalError) → negate a ≡ failure e → a ≡ failure e
negate-failure (failure x) e f = f
negate-failure (answer b) e f = cc

-- Why an accepted tree fails: for the types of the data, or for the value of a numeric comparison of
-- its own that is no number.
abbrev Reason : Bool → EvalError → Type 0
Reason numbers e = (is_late e ≡ true) × (e ≡ requires_numeric_value → numbers ≡ false)

either :
    {p q : Bool} {a b : Answer Bool} {e : EvalError}
    → (a ≡ failure e → Reason p e)
    → (b ≡ failure e → Reason q e)
    → (a ≡ failure e) ⊎ (b ≡ failure e)
    → Reason (p && q) e
either f g (inl x) = let (h, k) = f x in (h, λ n. ground (arith, k n))
either f g (inr x) = let (h, k) = g x in (h, λ n. ground (arith, k n))

mutual
  unfolding validate eval has_numbers

  tree-depends :
      (l : Library) (c : Condition) (depth count : ℕ) {m : ℕ} (scope : Scope) (e : EvalError)
      → validate l c depth count ≡ valid m
      → eval l c scope ≡ failure e
      → Reason (has_numbers c) e
  tree-depends l (condition path op value (condition_then c cs) any neg) depth count scope e v f =
      let (n, x, w) =
        node-valid (check_node path op value (condition_then c cs) any neg depth count) _ v in
      let (k, y, z) = node-valid (validate l c (suc depth) n) _ w in
      either (tree-depends l c (suc depth) n scope e y) (all-depends l cs (suc depth) k scope e z)
        (and-failure (eval l c scope) (eval_all l cs scope) e f)
  tree-depends l (condition path op value no_conditions (condition_then c cs) neg) depth count scope
        e v f =
      let (n, x, w) =
        node-valid (check_node path op value no_conditions (condition_then c cs) neg depth count) _
          v in
      let (k, y, z) = node-valid (validate l c (suc depth) n) _ w in
      either (tree-depends l c (suc depth) n scope e y) (any-depends l cs (suc depth) k scope e z)
        (or-failure (eval l c scope) (eval_any l cs scope) e f)
  tree-depends l (condition path op value no_conditions no_conditions (negation c)) depth count
        scope e v f =
      let (n, x, w) =
        node-valid (check_node path op value no_conditions no_conditions (negation c) depth count) _
          v in
      tree-depends l c (suc depth) n scope e w (negate-failure (eval l c scope) e f)
  tree-depends l (condition path op value no_conditions no_conditions no_negation) depth count scope
        e v f =
      let (n, x, w) =
        node-valid (check_node path op value no_conditions no_conditions no_negation depth count) _
          v in
      let ok = unless-none (check_atomic l path op value) n w in
      (
        atomic-depends l path op value scope e ok f,
        λ r.
            atomic-Fails l path op value scope ok
              (subst (λ x. eval_atomic l path op value scope ≡ failure x) r f),
      )

  all-depends :
      (l : Library) (cs : Conditions) (depth count : ℕ) {m : ℕ} (scope : Scope) (e : EvalError)
      → validate_all l cs depth count ≡ valid m
      → eval_all l cs scope ≡ failure e
      → Reason (all_have_numbers cs) e
  all-depends l no_conditions depth count scope e v f = cc
  all-depends l (condition_then c cs) depth count scope e v f =
      let (k, y, z) = node-valid (validate l c depth count) _ v in
      either (tree-depends l c depth count scope e y) (all-depends l cs depth k scope e z)
        (and-failure (eval l c scope) (eval_all l cs scope) e f)

  any-depends :
      (l : Library) (cs : Conditions) (depth count : ℕ) {m : ℕ} (scope : Scope) (e : EvalError)
      → validate_all l cs depth count ≡ valid m
      → eval_any l cs scope ≡ failure e
      → Reason (all_have_numbers cs) e
  any-depends l no_conditions depth count scope e v f = cc
  any-depends l (condition_then c cs) depth count scope e v f =
      let (k, y, z) = node-valid (validate l c depth count) _ v in
      either (tree-depends l c depth count scope e y) (any-depends l cs depth k scope e z)
        (or-failure (eval l c scope) (eval_any l cs scope) e f)

late-cases :
    (e : EvalError) → is_late e ≡ true → (depends_on_data e ≡ true) ⊎ (e ≡ requires_numeric_value)
unfolding is_late depends_on_data
late-cases requires_numeric_path h = inl refl
late-cases requires_numeric_value h = inr refl
late-cases requires_string_path h = inl refl
late-cases path_is_empty h = cc
late-cases unsupported_root h = cc
late-cases empty_segment h = cc
late-cases requires_array h = cc
late-cases requires_string_value h = cc
late-cases invalid_regex h = cc
late-cases unsupported_operator h = cc

-- Where Validate accepts a tree, Eval fails for a reason of the tree itself in one case only, whatever
-- the scope is: a numeric comparison of the tree has a value that is no number. Any other failure is of
-- the data: of a path whose value is no number or no text where the operator wants one.
pub validate-eval :
    (l : Library) (c : Condition) {n : ℕ} (scope : Scope) (e : EvalError)
    → validate_root l c ≡ valid n
    → eval l c scope ≡ failure e
    → (depends_on_data e ≡ true) ⊎ ((e ≡ requires_numeric_value) × (has_numbers c ≡ false))
unfolding validate_root
validate-eval l c scope e v f =
    let (late, numbers) = tree-depends l c 1 0 scope e v f in
    elim (late-cases e late) [ inl d ↦ inl d | inr n ↦ inr (n, numbers n) ]
