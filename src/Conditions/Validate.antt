-- ===== src/Conditions/Validate.antt =====
-- Validate of internal/router/conditions/validate.go. A problem is given without its place in the tree.
use senechal_gw.Prelude.{
  ℕ, suc, ◌+◌, String, Bool, true, false, not, ◌&&◌, ◌||◌, Option, none, some, List, [], ◌∷◌,
  is_empty, trim_space, split, ltb, ◌==◌, str_eq, any, if◌then◌else◌,
}
use senechal_gw.Conditions.{
  Value, null, text, array, Condition, condition, Conditions, no_conditions, condition_then,
  Negation, no_negation, negation,
}
use senechal_gw.Conditions.Eval.{Library, full_pattern, dot, is_number_op, is_string_op}

pub data Problem : Type 0 where
  too_deep too_many not_one_mode path_is_required path_is_short unsupported_root empty_segment :
      Problem
  op_is_required unsupported_op value_not_allowed value_required not_an_array not_a_string
        bad_regex :
      Problem

-- A problem, or the number of predicates so far.
pub data Validation : Type 0 where
  invalid : Problem → Validation
  valid : ℕ → Validation

infixl 20 ◌>>=◌
abbrev pub ◌>>=◌ : Validation → (ℕ → Validation) → Validation
valid n >>= f = f n
invalid p >>= f = invalid p

abbrev pub max_depth : ℕ
max_depth = 3

abbrev pub max_predicates : ℕ
max_predicates = 20

abbrev pub is_null : Value → Bool
is_null null = true
is_null _ = false

abbrev pub is_array : Value → Bool
is_array (array vs) = true
is_array _ = false

abbrev pub one_if : Bool → ℕ
one_if b = if b then 1 else 0

abbrev pub has_conditions : Conditions → Bool
has_conditions no_conditions = false
has_conditions (condition_then c cs) = true

abbrev pub has_negation : Negation → Bool
has_negation no_negation = false
has_negation (negation c) = true

abbrev pub is_atomic : String → String → Value → Bool
is_atomic path op value =
    not (is_empty (trim_space path)) || not (is_empty (trim_space op)) || not (is_null value)

abbrev pub is_root : String → Bool
is_root name = str_eq name "payload" || str_eq name "context" || str_eq name "config"

abbrev pub is_blank : String → Bool
is_blank s = is_empty (trim_space s)

-- validatePath: its problem, if it has one
unfoldable pub check_parts : List String → Option Problem
check_parts [] = some path_is_short
check_parts (root ∷ []) = some path_is_short
check_parts (root ∷ next ∷ rest) =
    if not (is_root root)
    then some unsupported_root
    else if any is_blank (root ∷ next ∷ rest)
    then some empty_segment
    else none

-- isSupportedOperator
abbrev pub is_supported : String → Bool
is_supported op =
    str_eq op "exists"
    || str_eq op "eq"
    || str_eq op "neq"
    || str_eq op "in"
    || is_number_op op
    || is_string_op op
    || str_eq op "regex"

-- requiresStringValue
abbrev pub requires_string : String → Bool
requires_string op = is_string_op op || str_eq op "regex"

abbrev pub check_string : Library → String → Value → Option Problem
check_string l op (text p) =
    if str_eq op "regex" && not (l.compiles (full_pattern p)) then some bad_regex else none
check_string l op _ = some not_a_string

unfoldable pub check_value : Library → String → Value → Option Problem
check_value l op value =
    if str_eq op "exists"
    then (if is_null value then none else some value_not_allowed)
    else if is_null value
    then some value_required
    else if str_eq op "in" && not (is_array value)
    then some not_an_array
    else if requires_string op
    then check_string l op value
    else none

-- The part of validate for an atomic predicate.
unfoldable pub check_atomic : Library → String → String → Value → Option Problem
unfolding check_parts check_value
check_atomic l path op value =
    if is_blank path
    then some path_is_required
    else elim (check_parts (split dot (trim_space path))) [
      | some p ↦ some p
      | none ↦
          if is_blank op
          then some op_is_required
          else if not (is_supported op)
          then some unsupported_op
          else check_value l op value
    ]

abbrev pub unless : Option Problem → ℕ → Validation
unless none n = valid n
unless (some p) n = invalid p

-- The checks that come first: the depth, the number of predicates, and the one mode.
unfoldable pub check_node :
    String → String → Value → Conditions → Conditions → Negation → ℕ → ℕ → Validation
check_node path op value all any neg depth count =
    if ltb max_depth depth
    then invalid too_deep
    else if ltb max_predicates (suc count)
    then invalid too_many
    else if one_if (is_atomic path op value)
          + one_if (has_conditions all)
          + one_if (has_conditions any)
          + one_if (has_negation neg)
        == 1
    then valid (suc count)
    else invalid not_one_mode

-- validate; `count` is the number of predicates before this one.
unfoldable mutual
  pub validate : Library → Condition → ℕ → ℕ → Validation
  validate l (condition path op value (condition_then c cs) any neg) depth count = do
    n ← check_node path op value (condition_then c cs) any neg depth count
    validate_all l (condition_then c cs) (suc depth) n
  validate l (condition path op value no_conditions (condition_then c cs) neg) depth count = do
    n ← check_node path op value no_conditions (condition_then c cs) neg depth count
    validate_all l (condition_then c cs) (suc depth) n
  validate l (condition path op value no_conditions no_conditions (negation c)) depth count = do
    n ← check_node path op value no_conditions no_conditions (negation c) depth count
    validate l c (suc depth) n
  validate l (condition path op value no_conditions no_conditions no_negation) depth count = do
    n ← check_node path op value no_conditions no_conditions no_negation depth count
    unless (check_atomic l path op value) n

  pub validate_all : Library → Conditions → ℕ → ℕ → Validation
  validate_all l no_conditions depth count = valid count
  validate_all l (condition_then c cs) depth count = do
    n ← validate l c depth count
    validate_all l cs depth n

-- Validate
unfoldable pub validate_root : Library → Condition → Validation
unfolding validate
validate_root l c = validate l c 1 0
