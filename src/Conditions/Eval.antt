-- ===== src/Conditions/Eval.antt =====
-- Eval, evalAtomic and ResolvePath of internal/router/conditions.
use senechal_gw.Prelude.{
  ℕ, String, Bool, true, false, not, ◌||◌, Option, none, some, List, [], ◌∷◌, is_empty, trim_space,
  split, has_prefix, has_suffix, contains, str_append, ltb, leb, str_eq, if◌then◌else◌,
}
use senechal_gw.Conditions.{
  Value, null, number, text, array, object, Values, no_values, value_then, get_field, deep_equal,
  Condition, condition, Conditions, no_conditions, condition_then, no_negation, negation, Scope,
}

-- strings.ToLower, and the package regexp: whether a pattern compiles, and whether it matches a text.
pub record Library : Type 0 where
  pub to_lower : String → String
  pub compiles : String → Bool
  pub matches : String → String → Bool

pub data EvalError : Type 0 where
  path_is_empty unsupported_root empty_segment : EvalError
  requires_array requires_numeric_path requires_numeric_value : EvalError
  requires_string_path requires_string_value invalid_regex unsupported_operator : EvalError

pub data Answer (A : Type 0) : Type 0 where
  answer : A → Answer A
  failure : EvalError → Answer A

infixl 20 ◌>>=◌
abbrev pub ◌>>=◌ : {A B : Type 0} → Answer A → (A → Answer B) → Answer B
answer a >>= f = f a
failure e >>= f = failure e

-- The value at a key, where the value is an object that has it.
abbrev pub lookup : String → Value → Option Value
lookup k (object fs) = get_field k fs
lookup k _ = none

-- The loop over the segments.
unfoldable pub walk : List String → Value → Answer (Option Value)
walk [] v = answer (some v)
walk (s ∷ ss) v =
    if is_empty (trim_space s)
    then failure empty_segment
    else elim (lookup s v) [ none ↦ answer none | some w ↦ walk ss w ]

unfoldable pub root_of : String → Scope → Option Value
root_of name scope =
    if str_eq name "payload"
    then some (object scope.payload)
    else if str_eq name "context"
    then some (object scope.context)
    else if str_eq name "config"
    then some (object scope.config)
    else none

unfoldable pub walk_from : List String → Option Value → Answer (Option Value)
unfolding walk
walk_from ss none = failure unsupported_root
walk_from ss (some v) = walk ss v

unfoldable pub resolve_parts : Scope → List String → Answer (Option Value)
unfolding walk_from root_of
resolve_parts scope [] = failure path_is_empty
resolve_parts scope (root ∷ segments) = walk_from segments (root_of root scope)

abbrev pub dot : ℕ
dot = 46

-- ResolvePath: none is a path that is not present
unfoldable pub resolve_path : Scope → String → Answer (Option Value)
unfolding resolve_parts
resolve_path scope path =
    let trimmed = trim_space path in
    if is_empty trimmed then failure path_is_empty else resolve_parts scope (split dot trimmed)

abbrev pub is_present : Option Value → Bool
is_present none = false
is_present (some v) = true

abbrev pub or_null : Option Value → Value
or_null none = null
or_null (some v) = v

unfoldable pub is_in : Value → Values → Bool
is_in v no_values = false
is_in v (value_then w ws) = deep_equal v w || is_in v ws

abbrev pub eval_in : Value → Value → Answer Bool
eval_in actual (array vs) = answer (is_in actual vs)
eval_in actual _ = failure requires_array

-- compareNumbers, on the places in the order of the float64 values
unfoldable pub compare_numbers : String → ℕ → ℕ → Bool
compare_numbers op left right =
    if str_eq op "gt"
    then ltb right left
    else if str_eq op "gte"
    then leb right left
    else if str_eq op "lt"
    then ltb left right
    else if str_eq op "lte"
    then leb left right
    else false

abbrev pub eval_number : String → Value → Value → Answer Bool
eval_number op (number a) (number b) = answer (compare_numbers op a.place b.place)
eval_number op (number a) _ = failure requires_numeric_value
eval_number op _ v = failure requires_numeric_path

-- compareStrings
unfoldable pub compare_strings : Library → String → String → String → Bool
compare_strings l op left right =
    let left_folded = l.to_lower left in
    let right_folded = l.to_lower right in
    if str_eq op "contains"
    then contains left_folded right_folded
    else if str_eq op "startswith"
    then has_prefix left_folded right_folded
    else if str_eq op "endswith"
    then has_suffix left_folded right_folded
    else false

abbrev pub eval_strings : Value → Value → (String → String → Answer Bool) → Answer Bool
eval_strings (text a) (text b) f = f a b
eval_strings (text a) _ f = failure requires_string_value
eval_strings _ v f = failure requires_string_path

abbrev pub full_pattern : String → String
full_pattern p = str_append "^(?:" (str_append p ")$")

abbrev pub match_regex : Library → String → String → Answer Bool
match_regex l pattern actual =
    if l.compiles pattern then answer (l.matches pattern actual) else failure invalid_regex

abbrev pub is_number_op : String → Bool
is_number_op op = str_eq op "gt" || str_eq op "gte" || str_eq op "lt" || str_eq op "lte"

abbrev pub is_string_op : String → Bool
is_string_op op = str_eq op "contains" || str_eq op "startswith" || str_eq op "endswith"

-- The switch of evalAtomic.
unfoldable pub eval_operator : Library → String → Option Value → Value → Answer Bool
unfolding compare_numbers compare_strings is_in
eval_operator l op found value =
    let actual = or_null found in
    if str_eq op "exists"
    then answer (is_present found)
    else if str_eq op "eq"
    then answer (deep_equal actual value)
    else if str_eq op "neq"
    then answer (not (deep_equal actual value))
    else if str_eq op "in"
    then eval_in actual value
    else if is_number_op op
    then eval_number op actual value
    else if is_string_op op
    then eval_strings actual value (λ a b. answer (compare_strings l op a b))
    else if str_eq op "regex"
    then eval_strings actual value (λ a b. match_regex l (full_pattern b) a)
    else failure unsupported_operator

-- evalAtomic
unfoldable pub eval_atomic : Library → String → String → Value → Scope → Answer Bool
unfolding eval_operator resolve_path
eval_atomic l path op value scope = do
  found ← resolve_path scope path
  eval_operator l op found value

abbrev pub and_then : Answer Bool → Answer Bool → Answer Bool
and_then (failure e) b = failure e
and_then (answer false) b = answer false
and_then (answer true) b = b

abbrev pub or_else : Answer Bool → Answer Bool → Answer Bool
or_else (failure e) b = failure e
or_else (answer true) b = answer true
or_else (answer false) b = b

abbrev pub negate : Answer Bool → Answer Bool
negate (failure e) = failure e
negate (answer b) = answer (not b)

-- Eval: the loops stop at the first failure and at the first answer that settles them.
unfoldable mutual
  pub eval : Library → Condition → Scope → Answer Bool
  eval l (condition path op value (condition_then c cs) any neg) scope =
      and_then (eval l c scope) (eval_all l cs scope)
  eval l (condition path op value no_conditions (condition_then c cs) neg) scope =
      or_else (eval l c scope) (eval_any l cs scope)
  eval l (condition path op value no_conditions no_conditions (negation c)) scope =
      negate (eval l c scope)
  eval l (condition path op value no_conditions no_conditions no_negation) scope =
      eval_atomic l path op value scope

  pub eval_all : Library → Conditions → Scope → Answer Bool
  eval_all l no_conditions scope = answer true
  eval_all l (condition_then c cs) scope = and_then (eval l c scope) (eval_all l cs scope)

  pub eval_any : Library → Conditions → Scope → Answer Bool
  eval_any l no_conditions scope = answer false
  eval_any l (condition_then c cs) scope = or_else (eval l c scope) (eval_any l cs scope)
