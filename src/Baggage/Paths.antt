-- ===== src/Baggage/Paths.antt =====
-- setPath of internal/baggage/baggage.go: what a path holds after it.
use senechal_gw.Prelude.{
  All, String, ◌≡◌, refl, ap, subst, ◌∙◌, inl, inr, Bool, true, false, Option, none, some, List, [],
  ◌∷◌, map, arith, is_empty, trim_space, str_eq, eq_iff, Bool-cases, if◌then◌else◌,
}
use senechal_gw.Conditions.{
  Value, null, boolean, number, text, array, object, Fields, no_fields, field_then, get_field,
  Scope,
}
use senechal_gw.Conditions.Eval.{answer, walk, walk_from, root_of, resolve_parts, lookup}
use senechal_gw.Baggage.{
  claimed, rejected, Claimed, ◌>>=◌, clone_value, put_field, child_of, set_parts,
}

-- A key that was written holds what was written.
pub get_field-put_field :
    (k : String) (v : Value) (fs : Fields) → get_field k (put_field k v fs) ≡ some v
unfolding get_field put_field
get_field-put_field k v no_fields = ground (arith, eq_iff k k)
get_field-put_field k v (field_then name w fs) = ground (arith, get_field-put_field k v fs)

-- Another key holds what it did.
pub get_field-put_field_other :
    (k n : String) (v : Value) (fs : Fields)
    → str_eq k n ≡ false
    → get_field n (put_field k v fs) ≡ get_field n fs
unfolding get_field put_field
get_field-put_field_other k n v no_fields h = ground (arith, h)
get_field-put_field_other k n v (field_then name w fs) h =
    ground
      (arith, h, eq_iff name k, eq_iff name n, eq_iff k n, get_field-put_field_other k n v fs h)

-- The value at a path of keys, none where a part of it is absent or no object.
abbrev pub below : Option Value → Fields
below (some (object fs)) = fs
below _ = no_fields

unfoldable pub value_at : List String → Fields → Option Value
unfolding get_field
value_at [] fs = none
value_at (k ∷ []) fs = get_field k fs
value_at (k ∷ l ∷ ks) fs = value_at (l ∷ ks) (below (get_field k fs))

-- Two paths that part before either ends.
unfoldable pub is_apart : List String → List String → Bool
is_apart (k ∷ ks) (l ∷ ls) = let later = is_apart ks ls in if str_eq k l then later else true
is_apart _ _ = false

-- The keys of a path.
abbrev pub keys : List String → List String
keys ps = map trim_space ps

pub claimed-bind :
    {A B : Type 0} (m : Claimed A) (f : A → Claimed B) {b : B}
    → (m >>= f) ≡ claimed b
    → (a : A) × (m ≡ claimed a) × (f a ≡ claimed b)
claimed-bind (claimed a) f h = (a, refl, h)
claimed-bind (rejected e) f h = absurd (ground (arith, h))

set-inner :
    (p q : String) (ps : List String) (v : Value) (fs out : Fields)
    → set_parts (p ∷ q ∷ ps) v fs ≡ claimed out
    → (child child' : Fields) × (child_of (get_field (trim_space p) fs) ≡ claimed child)
      × (set_parts (q ∷ ps) v child ≡ claimed child')
      × (out ≡ put_field (trim_space p) (object child') fs)
unfolding set_parts
set-inner p q ps v fs out h = elim (Bool-cases (is_empty (trim_space p))) [
  | inl e ↦ absurd (ground (arith, e, h))
  | inr n ↦
      let (child, c, r) =
        claimed-bind (child_of (get_field (trim_space p) fs))
          (λ child. set_parts (q ∷ ps) v child >>= λ child'.
            claimed (put_field (trim_space p) (object child') fs))
          {b = out} (ground (arith, n, h)) in
      let (child', s, e) =
        claimed-bind (set_parts (q ∷ ps) v child)
          (λ child'. claimed (put_field (trim_space p) (object child') fs)) {b = out} r in
      (child, child', c, s, ground (arith, e))
]

pub set_parts-holds :
    (p : String) (ps : List String) (v : Value) (fs out : Fields)
    → set_parts (p ∷ ps) v fs ≡ claimed out
    → value_at (keys (p ∷ ps)) out ≡ some (clone_value v)
unfolding set_parts value_at
set_parts-holds p [] v fs out h =
    ground (arith, h, get_field-put_field (trim_space p) (clone_value v) fs)
set_parts-holds p (q ∷ ps) v fs out h =
    let (child, child', c, s, e) = set-inner p q ps v fs out h in
    rw e (
      rw (get_field-put_field (trim_space p) (object child') fs)
        (set_parts-holds q ps v child child' s))

pub child_of-below :
    (o : Option Value) (child : Fields) → child_of o ≡ claimed child → child ≡ below o
child_of-below none child h = cc
child_of-below (some null) child h = absurd (ground (arith, h))
child_of-below (some (boolean b)) child h = absurd (ground (arith, h))
child_of-below (some (number n)) child h = absurd (ground (arith, h))
child_of-below (some (text s)) child h = absurd (ground (arith, h))
child_of-below (some (array vs)) child h = absurd (ground (arith, h))
child_of-below (some (object fs)) child h = cc

value_at-same :
    (k : String) (ks : List String) (fs gs : Fields)
    → get_field k fs ≡ get_field k gs
    → value_at (k ∷ ks) fs ≡ value_at (k ∷ ks) gs
unfolding value_at
value_at-same k [] fs gs h = h
value_at-same k (l ∷ ks) fs gs h = rw h refl

value_at-deeper :
    (k l : String) (ks : List String) (out fs child child' : Fields)
    → get_field k out ≡ some (object child')
    → child ≡ below (get_field k fs)
    → value_at (l ∷ ks) child' ≡ value_at (l ∷ ks) child
    → value_at (k ∷ l ∷ ks) out ≡ value_at (k ∷ l ∷ ks) fs
unfolding value_at
value_at-deeper k l ks out fs child child' o c h = rw o (h ∙ ap (value_at (l ∷ ks)) c)

pub set_parts-keeps :
    (ps qs : List String) (v : Value) (fs out : Fields)
    → set_parts ps v fs ≡ claimed out
    → is_apart (keys ps) qs ≡ true
    → value_at qs out ≡ value_at qs fs
unfolding set_parts value_at is_apart
set_parts-keeps [] qs v fs out h a = absurd (ground (arith, a))
set_parts-keeps (p ∷ ps) [] v fs out h a = refl
set_parts-keeps (p ∷ []) (k ∷ ks) v fs out h a = elim (Bool-cases (str_eq (trim_space p) k)) [
  | inl e ↦ absurd (ground (arith, e, a))
  | inr n ↦
      value_at-same k ks out fs
        (ground (arith, h, get_field-put_field_other (trim_space p) k (clone_value v) fs n))
]
set_parts-keeps (p ∷ q ∷ ps) (k ∷ []) v fs out h a = elim (Bool-cases (str_eq (trim_space p) k)) [
  | inl t ↦ absurd (ground (arith, t, a))
  | inr n ↦
      let (child, child', c, s, e) = set-inner p q ps v fs out h in
      value_at-same k [] out fs
        (rw e (get_field-put_field_other (trim_space p) k (object child') fs n))
]
set_parts-keeps (p ∷ q ∷ ps) (k ∷ l ∷ ks) v fs out h a =
    elim (Bool-cases (str_eq (trim_space p) k)) [
      | inl t ↦
          let (child, child', c, s, e) = set-inner p q ps v fs out h in
          value_at-deeper k l ks out fs child child'
            (subst (λ n. get_field n out ≡ some (object child')) ((eq_iff (trim_space p) k).0 t)
              (rw e (get_field-put_field (trim_space p) (object child') fs)))
            (subst (λ n. child ≡ below (get_field n fs)) ((eq_iff (trim_space p) k).0 t)
              (child_of-below (get_field (trim_space p) fs) child c))
            (set_parts-keeps (q ∷ ps) (l ∷ ks) v child child' s (ground (arith, t, a)))
      | inr n ↦
          let (child, child', c, s, e) = set-inner p q ps v fs out h in
          value_at-same k (l ∷ ks) out fs
            (rw e (get_field-put_field_other (trim_space p) k (object child') fs n))
    ]

value_at-no_fields : (k : String) (ks : List String) → value_at (k ∷ ks) no_fields ≡ none
unfolding value_at
value_at-no_fields k [] = refl
value_at-no_fields k (l ∷ ks) = value_at-no_fields l ks

walk-scalar :
    (k : String) (ks : List String) (v : Value)
    → is_empty (trim_space k) ≡ false
    → lookup k v ≡ none
    → walk (k ∷ ks) v ≡ answer none
unfolding walk
walk-scalar k ks v n h = ground (arith, n, h)

walk-below :
    (k : String) (ks : List String) (o : Option Value)
    → is_empty (trim_space k) ≡ false
    → ((fs : Fields) → walk (k ∷ ks) (object fs) ≡ answer (value_at (k ∷ ks) fs))
    → elim o [ none ↦ answer none | some w ↦ walk (k ∷ ks) w ]
      ≡ answer (value_at (k ∷ ks) (below o))
walk-below k ks none n f = rw (value_at-no_fields k ks) refl
walk-below k ks (some (object fs)) n f = f fs
walk-below k ks (some null) n f = rw (value_at-no_fields k ks) (walk-scalar k ks null n refl)
walk-below k ks (some (boolean b)) n f =
    rw (value_at-no_fields k ks) (walk-scalar k ks (boolean b) n refl)
walk-below k ks (some (number m)) n f =
    rw (value_at-no_fields k ks) (walk-scalar k ks (number m) n refl)
walk-below k ks (some (text t)) n f =
    rw (value_at-no_fields k ks) (walk-scalar k ks (text t) n refl)
walk-below k ks (some (array vs)) n f =
    rw (value_at-no_fields k ks) (walk-scalar k ks (array vs) n refl)

walk-value_at :
    (k : String) (ks : List String) (fs : Fields)
    → All (λ s. is_empty (trim_space s) ≡ false) (k ∷ ks)
    → walk (k ∷ ks) (object fs) ≡ answer (value_at (k ∷ ks) fs)
unfolding walk value_at
walk-value_at k [] fs (n, h) = ground (arith, n)
walk-value_at k (l ∷ ks) fs (n, h) =
    ground (arith, n, walk-below l ks (get_field k fs) h.0 (λ gs. walk-value_at l ks gs h))

-- A path of the context whose segments are not blank resolves to what the context holds at it, and to
-- nothing where it holds nothing.
pub resolve_parts-value_at :
    (k : String) (ks : List String) (scope : Scope)
    → All (λ s. is_empty (trim_space s) ≡ false) (k ∷ ks)
    → resolve_parts scope ("context" ∷ k ∷ ks) ≡ answer (value_at (k ∷ ks) scope.context)
unfolding resolve_parts walk_from root_of
resolve_parts-value_at k ks scope h = walk-value_at k ks scope.context h
