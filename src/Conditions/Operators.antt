-- ===== src/Conditions/Operators.antt =====
-- The evaluation of one predicate of internal/router/conditions that Validate accepts.
use senechal_gw.Prelude.{
  String, ◌≡◌, refl, inl, inr, Bool, true, false, not, ◌&&◌, ◌||◌, Option, none, some, List, [],
  ◌∷◌, trim_space, split, arith, str_eq, any, Bool-cases, Option-cases, if◌then◌else◌,
}
use senechal_gw.Conditions.{Value, null, boolean, number, text, array, object, Scope}
use senechal_gw.Conditions.Eval.{
  Library, EvalError, requires_numeric_path, requires_numeric_value, requires_string_path, Answer,
  answer, failure, walk, root_of, walk_from, resolve_parts, resolve_path, lookup, dot, or_null,
  eval_in, eval_number, is_string_op, is_number_op, eval_strings, full_pattern, match_regex,
  compare_strings, eval_operator, eval_atomic,
}
use senechal_gw.Conditions.Validate.{
  bad_regex, is_root, is_blank, check_parts, is_array, check_value, check_atomic, is_supported,
}

-- The errors that a validated predicate can still have: the types of the numbers and texts that it
-- finds, which the validation does not see, and a value of a numeric comparison, which it does not check.
unfoldable pub is_late : EvalError → Bool
is_late requires_numeric_path = true
is_late requires_numeric_value = true
is_late requires_string_path = true
is_late _ = false

-- Those of them that are of the data alone.
unfoldable pub depends_on_data : EvalError → Bool
depends_on_data requires_numeric_path = true
depends_on_data requires_string_path = true
depends_on_data _ = false

walk-answers :
    (ss : List String) (v : Value)
    → any is_blank ss ≡ false
    → (r : Option Value) × (walk ss v ≡ answer r)
unfolding walk any
walk-answers [] v h = (some v, refl)
walk-answers (s ∷ ss) v h = elim (Bool-cases (is_blank s)) [
  | inl b ↦ absurd (ground (arith, b, h))
  | inr b ↦ elim (Option-cases (lookup s v)) [
    | inl n ↦ (none, rw (b, n) refl)
    | inr (w, n) ↦ let (r, e) = walk-answers ss w (ground (arith, b, h)) in (r, rw (b, n) e)
  ]
]

root_of-root :
    (name : String) (s : Scope) → is_root name ≡ true → (v : Value) × (root_of name s ≡ some v)
unfolding root_of
root_of-root name s h = elim (Bool-cases (str_eq name "payload")) [
  | inl a ↦ (object s.payload, rw a refl)
  | inr a ↦ elim (Bool-cases (str_eq name "context")) [
    | inl b ↦ (object s.context, rw (a, b) refl)
    | inr b ↦ (object s.config, ground (arith, a, b, h))
  ]
]

pub parts-answers :
    (s : Scope) (ps : List String)
    → check_parts ps ≡ none
    → (r : Option Value) × (resolve_parts s ps ≡ answer r)
unfolding check_parts resolve_parts walk_from any
parts-answers s [] h = cc
parts-answers s (root ∷ []) h = cc
parts-answers s (root ∷ next ∷ rest) h = elim (Bool-cases (is_root root)) [
  | inr t ↦ absurd (ground (arith, t, h))
  | inl t ↦ elim (Bool-cases (any is_blank (root ∷ next ∷ rest))) [
    | inl b ↦ absurd (ground (arith, t, b, h))
    | inr b ↦
        let (v, e) = root_of-root root s t in
        let (r, f) = walk-answers (next ∷ rest) v (ground (arith, b)) in (r, rw e f)
  ]
]

number-depends :
    (op : String) (a v : Value) (e : EvalError) → eval_number op a v ≡ failure e → is_late e ≡ true
unfolding is_late
number-depends op (number a) null e f = ground (arith, f)
number-depends op (number a) (boolean b) e f = ground (arith, f)
number-depends op (number a) (number b) e f = cc
number-depends op (number a) (text b) e f = ground (arith, f)
number-depends op (number a) (array b) e f = ground (arith, f)
number-depends op (number a) (object b) e f = ground (arith, f)
number-depends op null v e f = ground (arith, f)
number-depends op (boolean a) v e f = ground (arith, f)
number-depends op (text a) v e f = ground (arith, f)
number-depends op (array a) v e f = ground (arith, f)
number-depends op (object a) v e f = ground (arith, f)

strings-depends :
    (a : Value) (p : String) (g : String → String → Answer Bool) (e : EvalError)
    → ((t : String) → g t p ≡ failure e → is_late e ≡ true)
    → eval_strings a (text p) g ≡ failure e
    → is_late e ≡ true
unfolding is_late
strings-depends (text a) p g e h f = h a f
strings-depends null p g e h f = ground (arith, f)
strings-depends (boolean a) p g e h f = ground (arith, f)
strings-depends (number a) p g e h f = ground (arith, f)
strings-depends (array a) p g e h f = ground (arith, f)
strings-depends (object a) p g e h f = ground (arith, f)

-- A validated regular expression compiles, so the match gives an answer.
regex-depends :
    (l : Library) (p t : String) (e : EvalError)
    → l.compiles (full_pattern p) ≡ true
    → match_regex l (full_pattern p) t ≡ failure e
    → is_late e ≡ true
regex-depends l p t e c f = absurd (ground (arith, c, f))

-- A value that the validation takes for a text is one.
abbrev is_text : Value → Bool
is_text (text t) = true
is_text _ = false

abbrev takes_text : String → Bool
takes_text op = is_string_op op || str_eq op "regex"

other-takes :
    (l : Library) (op : String) (v : Value)
    → is_text v ≡ false
    → str_eq op "exists" ≡ false
    → check_value l op v ≡ none
    → (takes_text op ≡ false) × ((str_eq op "in" && not (is_array v)) ≡ false)
unfolding check_value
other-takes l op (text t) n x c = cc
other-takes l op null n x c = ground (arith, x, c)
other-takes l op (boolean b) n x c = ground (arith, x, c)
other-takes l op (number b) n x c = ground (arith, x, c)
other-takes l op (array b) n x c = ground (arith, x, c)
other-takes l op (object b) n x c = ground (arith, x, c)

in-answers :
    (a v : Value) (e : EvalError) → is_array v ≡ true → eval_in a v ≡ failure e → is_late e ≡ true
in-answers a (array vs) e h f = cc
in-answers a null e h f = cc
in-answers a (boolean b) e h f = cc
in-answers a (number b) e h f = cc
in-answers a (text b) e h f = cc
in-answers a (object b) e h f = cc

or-none : (a b : Bool) → (a || b) ≡ false → (a ≡ false) × (b ≡ false)
or-none true b h = cc
or-none false b h = (refl, h)

or-left :
    (x q r y n s g : Bool)
    → (x || q || r || y || n || s || g) ≡ true
    → x ≡ false
    → q ≡ false
    → r ≡ false
    → y ≡ false
    → s ≡ false
    → g ≡ false
    → n ≡ true
or-left x q r y n s g h hx hq hr hy hs hg = ground (arith, h, hx, hq, hr, hy, hs, hg)

or-right :
    (x q r y n s g : Bool)
    → (x || q || r || y || n || s || g) ≡ true
    → x ≡ false
    → q ≡ false
    → r ≡ false
    → y ≡ false
    → n ≡ false
    → s ≡ false
    → g ≡ true
or-right x q r y n s g h hx hq hr hy hn hs = ground (arith, h, hx, hq, hr, hy, hn, hs)

other-depends :
    (l : Library) (op : String) (found : Option Value) (v : Value) (e : EvalError)
    → is_text v ≡ false
    → is_supported op ≡ true
    → check_value l op v ≡ none
    → eval_operator l op found v ≡ failure e
    → is_late e ≡ true
unfolding eval_operator
other-depends l op found v e n s c f = elim (Bool-cases (str_eq op "exists")) [
  | inl x ↦ absurd (ground (arith, x, f))
  | inr x ↦
      let (t, i) = other-takes l op v n x c in
      elim (Bool-cases (str_eq op "eq")) [
        | inl q ↦ absurd (ground (arith, x, q, f))
        | inr q ↦ elim (Bool-cases (str_eq op "neq")) [
          | inl r ↦ absurd (ground (arith, x, q, r, f))
          | inr r ↦ elim (Bool-cases (str_eq op "in")) [
            | inl y ↦
                in-answers (or_null found) v e (ground (arith, y, i))
                  (ground (arith, x, q, r, y, f))
            | inr y ↦
                let (ns, ng) = or-none (is_string_op op) (str_eq op "regex") t in
                let m = or-left _ _ _ _ (is_number_op op) _ _ s x q r y ns ng in
                let f' : eval_number op (or_null found) v ≡ failure e = rw (x, q, r, y, m) at f in
                number-depends op (or_null found) v e f'
          ]
        ]
      ]
]

-- The last tests of evalAtomic, for a value that is a text.
text-depends :
    (l : Library) (op : String) (found : Option Value) (t : String) (e : EvalError)
    → is_supported op ≡ true
    → check_value l op (text t) ≡ none
    → eval_operator l op found (text t) ≡ failure e
    → is_late e ≡ true
unfolding eval_operator check_value
text-depends l op found t e s c f = elim (Bool-cases (str_eq op "exists")) [
  | inl x ↦ absurd (ground (arith, x, c))
  | inr x ↦ elim (Bool-cases (str_eq op "eq")) [
    | inl q ↦ (let f' = rw (x, q) at f in cc)
    | inr q ↦ elim (Bool-cases (str_eq op "neq")) [
      | inl r ↦ (let f' = rw (x, q, r) at f in cc)
      | inr r ↦ elim (Bool-cases (str_eq op "in")) [
        | inl y ↦ (let c' = rw (x, y) at c in cc)
        | inr y ↦ elim (Bool-cases (is_number_op op)) [
          | inl n ↦
              let f' : eval_number op (or_null found) (text t) ≡ failure e =
                rw (x, q, r, y, n) at f in
              number-depends op (or_null found) (text t) e f'
          | inr n ↦ elim (Bool-cases (is_string_op op)) [
            | inl z ↦
                let f' : eval_strings (or_null found) (text t)
                      (λ a b. answer (compare_strings l op a b))
                    ≡ failure e =
                  rw (x, q, r, y, n, z) at f in
                strings-depends (or_null found) t _ e (λ t' k. cc) f'
            | inr z ↦
                let g = or-right _ _ _ _ _ _ (str_eq op "regex") s x q r y n z in
                let f' : eval_strings (or_null found) (text t)
                      (λ a b. match_regex l (full_pattern b) a)
                    ≡ failure e =
                  rw (x, q, r, y, n, z, g) at f in
                let c' : (if not (l.compiles (full_pattern t)) then some bad_regex else none)
                    ≡ none =
                  rw (x, y, z, g) at c in
                strings-depends (or_null found) t _ e
                  (λ t' k. regex-depends l t t' e (ground (arith, g, c')) k) f'
          ]
        ]
      ]
    ]
  ]
]

pub operator-depends :
    (l : Library) (op : String) (found : Option Value) (value : Value) (e : EvalError)
    → is_supported op ≡ true
    → check_value l op value ≡ none
    → eval_operator l op found value ≡ failure e
    → is_late e ≡ true
unfolding eval_operator check_value
operator-depends l op found (text t) e s c f = text-depends l op found t e s c f
operator-depends l op found null e s c f = other-depends l op found null e refl s c f
operator-depends l op found (boolean b) e s c f = other-depends l op found (boolean b) e refl s c f
operator-depends l op found (number b) e s c f = other-depends l op found (number b) e refl s c f
operator-depends l op found (array b) e s c f = other-depends l op found (array b) e refl s c f
operator-depends l op found (object b) e s c f = other-depends l op found (object b) e refl s c f

pub atomic-depends :
    (l : Library) (path op : String) (value : Value) (scope : Scope) (e : EvalError)
    → check_atomic l path op value ≡ none
    → eval_atomic l path op value scope ≡ failure e
    → is_late e ≡ true
unfolding eval_atomic check_atomic resolve_path
atomic-depends l path op value scope e c f = elim (Bool-cases (is_blank path)) [
  | inl b ↦ absurd (ground (arith, b, c))
  | inr b ↦ elim (Option-cases (check_parts (split dot (trim_space path)))) [
    | inr (p, k) ↦ absurd (ground (arith, b, k, c))
    | inl k ↦ elim (Bool-cases (is_blank op)) [
      | inl o ↦ absurd (ground (arith, b, k, o, c))
      | inr o ↦ elim (Bool-cases (is_supported op)) [
        | inr u ↦ absurd (ground (arith, b, k, o, u, c))
        | inl u ↦
            let (r, g) = parts-answers scope (split dot (trim_space path)) k in
            operator-depends l op r value e u (ground (arith, b, k, o, u, c))
              (ground (arith, b, g, f))
      ]
    ]
  ]
]
