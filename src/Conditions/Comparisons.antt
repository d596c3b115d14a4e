-- ===== src/Conditions/Comparisons.antt =====
-- The numeric comparisons of internal/router/conditions: Validate does not look at their values.
use senechal_gw.Prelude.{
  String, ◌≡◌, refl, inl, inr, Bool, true, false, not, ◌&&◌, ◌||◌, Option, none, trim_space, split,
  arith, str_eq, Bool-cases, Option-cases,
}
use senechal_gw.Conditions.{
  Value, null, boolean, number, text, array, object, Condition, condition, Conditions,
  no_conditions, condition_then, no_negation, negation, Scope,
}
use senechal_gw.Conditions.Eval.{
  Library, requires_numeric_value, Answer, answer, failure, resolve_path, dot, or_null, eval_in,
  eval_number, is_string_op, is_number_op, eval_strings, full_pattern, match_regex, compare_strings,
  eval_operator, eval_atomic,
}
use senechal_gw.Conditions.Validate.{is_blank, check_parts, check_atomic}
use senechal_gw.Conditions.Operators.{parts-answers}

abbrev is_number : Value → Bool
is_number (number n) = true
is_number _ = false

-- A numeric comparison has a number to compare with.
abbrev pub is_comparable : String → Value → Bool
is_comparable op value = not (is_number_op op) || is_number value

unfoldable mutual
  -- Every numeric comparison that Eval can come to in a tree has a number.
  pub has_numbers : Condition → Bool
  has_numbers (condition path op value (condition_then c cs) any neg) =
      has_numbers c && all_have_numbers cs
  has_numbers (condition path op value no_conditions (condition_then c cs) neg) =
      has_numbers c && all_have_numbers cs
  has_numbers (condition path op value no_conditions no_conditions (negation c)) = has_numbers c
  has_numbers (condition path op value no_conditions no_conditions no_negation) =
      is_comparable op value

  pub all_have_numbers : Conditions → Bool
  all_have_numbers no_conditions = true
  all_have_numbers (condition_then c cs) = has_numbers c && all_have_numbers cs

abbrev Fails : Answer Bool → Type 0
Fails a = a ≡ failure requires_numeric_value

in-Fails : (a v : Value) → Fails (eval_in a v) → ⊥
in-Fails a (array vs) f = cc
in-Fails a null f = cc
in-Fails a (boolean b) f = cc
in-Fails a (number b) f = cc
in-Fails a (text b) f = cc
in-Fails a (object b) f = cc

number-Fails : (op : String) (a v : Value) → Fails (eval_number op a v) → is_number v ≡ false
number-Fails op a null f = refl
number-Fails op a (boolean b) f = refl
number-Fails op a (text b) f = refl
number-Fails op a (array b) f = refl
number-Fails op a (object b) f = refl
number-Fails op (number a) (number b) f = cc
number-Fails op null (number b) f = cc
number-Fails op (boolean a) (number b) f = cc
number-Fails op (text a) (number b) f = cc
number-Fails op (array a) (number b) f = cc
number-Fails op (object a) (number b) f = cc

strings-Fails :
    (a v : Value) (g : String → String → Answer Bool)
    → ((s t : String) → Fails (g s t) → ⊥)
    → Fails (eval_strings a v g)
    → ⊥
strings-Fails (text a) (text b) g h f = h a b f
strings-Fails (text a) null g h f = cc
strings-Fails (text a) (boolean b) g h f = cc
strings-Fails (text a) (number b) g h f = cc
strings-Fails (text a) (array b) g h f = cc
strings-Fails (text a) (object b) g h f = cc
strings-Fails null v g h f = cc
strings-Fails (boolean a) v g h f = cc
strings-Fails (number a) v g h f = cc
strings-Fails (array a) v g h f = cc
strings-Fails (object a) v g h f = cc

regex-Fails : (l : Library) (p t : String) → Fails (match_regex l p t) → ⊥
regex-Fails l p t f = elim (Bool-cases (l.compiles p)) [
  | inl e ↦ (let f' = rw e at f in cc)
  | inr e ↦ (let f' = rw e at f in cc)
]

operator-Fails :
    (l : Library) (op : String) (found : Option Value) (v : Value)
    → Fails (eval_operator l op found v)
    → is_comparable op v ≡ false
unfolding eval_operator
operator-Fails l op found v f = elim (Bool-cases (str_eq op "exists")) [
  | inl x ↦ (let f' = rw x at f in cc)
  | inr x ↦ elim (Bool-cases (str_eq op "eq")) [
    | inl q ↦ (let f' = rw (x, q) at f in cc)
    | inr q ↦ elim (Bool-cases (str_eq op "neq")) [
      | inl r ↦ (let f' = rw (x, q, r) at f in cc)
      | inr r ↦ elim (Bool-cases (str_eq op "in")) [
        | inl y ↦
            let f' : Fails (eval_in (or_null found) v) = rw (x, q, r, y) at f in
            absurd (in-Fails (or_null found) v f')
        | inr y ↦ elim (Bool-cases (is_number_op op)) [
          | inl n ↦
              let f' : Fails (eval_number op (or_null found) v) = rw (x, q, r, y, n) at f in
              rw n (number-Fails op (or_null found) v f')
          | inr n ↦ elim (Bool-cases (is_string_op op)) [
            | inl z ↦
                let f' : Fails
                    (eval_strings (or_null found) v (λ a b. answer (compare_strings l op a b))) =
                  rw (x, q, r, y, n, z) at f in
                absurd (strings-Fails (or_null found) v _ (λ s t k. cc) f')
            | inr z ↦ elim (Bool-cases (str_eq op "regex")) [
              | inl g ↦
                  let f' : Fails
                      (eval_strings (or_null found) v (λ a b. match_regex l (full_pattern b) a)) =
                    rw (x, q, r, y, n, z, g) at f in
                  absurd (
                    strings-Fails (or_null found) v _ (λ s t k. regex-Fails l (full_pattern t) s k)
                      f')
              | inr g ↦ (let f' = rw (x, q, r, y, n, z, g) at f in cc)
            ]
          ]
        ]
      ]
    ]
  ]
]

-- An accepted predicate that fails for its number is a comparison with something else.
pub atomic-Fails :
    (l : Library) (path op : String) (value : Value) (scope : Scope)
    → check_atomic l path op value ≡ none
    → Fails (eval_atomic l path op value scope)
    → is_comparable op value ≡ false
unfolding eval_atomic check_atomic resolve_path
atomic-Fails l path op value scope c f = elim (Bool-cases (is_blank path)) [
  | inl b ↦ absurd (ground (arith, b, c))
  | inr b ↦ elim (Option-cases (check_parts (split dot (trim_space path)))) [
    | inr (p, k) ↦ absurd (ground (arith, b, k, c))
    | inl k ↦
        let (r, g) = parts-answers scope (split dot (trim_space path)) k in
        operator-Fails l op r value (ground (arith, b, g, f))
  ]
]
