-- ===== src/Conditions/Numbers.antt =====
-- The operator eq of internal/router/conditions/ops.go on numbers.
use senechal_gw.Prelude.{String, ◌≡◌, refl, true, false, some, arith}
use senechal_gw.Conditions.{int, float64, Number, number, Scope, deep_equal}
use senechal_gw.Conditions.Eval.{
  Library, answer, resolve_path, eval_operator, eval_atomic, compare_numbers,
}

-- Where a path holds a number of JSON and the value is a whole number of YAML with the same float64, the
-- predicate eq answers false, although gte and lte answer true: reflect.DeepEqual tells the Go types
-- apart.
pub eval_atomic-mixed_numbers :
    (l : Library) (path : String) (scope : Scope) (a b : Number)
    → resolve_path scope path ≡ answer (some (number a))
    → a.type ≡ float64
    → b.type ≡ int
    → a.place ≡ b.place
    → (eval_atomic l path "eq" (number b) scope ≡ answer false)
      × (eval_atomic l path "gte" (number b) scope ≡ answer true)
      × (eval_atomic l path "lte" (number b) scope ≡ answer true)
unfolding eval_atomic eval_operator deep_equal compare_numbers
eval_atomic-mixed_numbers l path scope a b r s t p =
    (rw (r, s, t) refl, rw (r, p) (ground arith), rw (r, p) (ground arith))
