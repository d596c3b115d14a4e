-- ===== src/Conditions/Examples.antt =====
-- Instances of the theorems about the conditions.
use senechal_gw.Prelude.{◌⊎◌, false, ◌≤◌, String, ◌≡◌, refl, true, str_eq, trim_space, split, any}
use senechal_gw.Conditions.{
  int, float64, Number, Value, null, number, text, no_fields, field_then, get_field, Condition,
  condition, no_conditions, condition_then, no_negation, Scope,
}
use senechal_gw.Conditions.Eval.{
  Library, failure, requires_numeric_value, requires_string_path, eval_atomic, eval,
}
use senechal_gw.Conditions.Validate.{
  valid, max_depth, max_predicates, validate_root, check_atomic, check_node,
}
use senechal_gw.Conditions.Operators.{depends_on_data}
use senechal_gw.Conditions.Comparisons.{has_numbers}
use senechal_gw.Conditions.Sound.{validate-eval}
use senechal_gw.Conditions.Bounds.{predicates, height, validate-fits}

-- A library whose texts have no upper case and whose patterns match themselves.
abbrev plain : Library
plain = record { to_lower = λ s. s; compiles = λ p. true; matches = λ p t. str_eq p t }

abbrev three : Number
three = record { type = float64; exact = 3; place = 3 }

abbrev whole_three : Number
whole_three = record { type = int; exact = 3; place = 3 }

abbrev scope : Scope
scope = record {
  payload = field_then "count" (number three) no_fields;
  context = no_fields;
  config = no_fields;
}

abbrev leaf : String → String → Value → Condition
leaf path op value = condition path op value no_conditions no_conditions no_negation

abbrev tree : Condition
tree =
    condition "" "" null
      (condition_then (leaf "payload.missing" "exists" null)
        (condition_then (leaf "payload.count" "contains" (text "3")) no_conditions))
      no_conditions no_negation

abbrev starts : Condition
starts = leaf "payload.count" "contains" (text "3")

validate-eval_example :
    (depends_on_data requires_string_path ≡ true)
    ⊎ ((requires_string_path ≡ requires_numeric_value) × (has_numbers starts ≡ false))
unfolding validate_root check_node trim_space check_atomic split any eval eval_atomic get_field
validate-eval_example = validate-eval plain starts scope requires_string_path refl refl

-- A comparison with a text is accepted, and fails for a reason of its own.
abbrev compares : Condition
compares = leaf "payload.count" "gt" (text "abc")

compares-accepted : validate_root plain compares ≡ valid 1
unfolding validate_root check_node trim_space check_atomic split any
compares-accepted = refl

compares-fails : eval plain compares scope ≡ failure requires_numeric_value
unfolding eval eval_atomic get_field trim_space split any
compares-fails = refl

validate-fits_example :
    (3 ≡ predicates tree) × (predicates tree ≤ max_predicates) × (height tree ≤ max_depth)
unfolding validate_root check_node trim_space check_atomic split any
validate-fits_example = validate-fits plain tree refl
