-- ===== src/Baggage/Stored.antt =====
-- ApplyClaims of internal/baggage/baggage.go: what the claims hold.
use Prim.Native.Char.{Char, code}
use senechal_gw.Prelude.{
  ℕ, String, ◌≡◌, refl, ap, subst, sym, ◌∙◌, inl, inr, Bool, true, false, Option, none, some, List,
  [], ◌∷◌, arith, is_empty, trim_space, split, extend, All, Bool-cases, if◌then◌else◌, ◌==◌,
}
use senechal_gw.Conditions.{
  Value, null, boolean, number, text, array, Fields, no_fields, object, Scope,
}
use senechal_gw.Conditions.Eval.{answer, failure, Answer, resolve_path, dot}
use senechal_gw.Baggage.{
  Mapping, BaggageSpec, BaggageBulkSpec, claimed, clone_value, set_parts, set_path, parts_of,
  present, source_value, apply_mapping, apply_mappings, apply_bulk, import_object, claims_scope,
  fields_of, nil_root, apply_claims,
}
use senechal_gw.Baggage.Paths.{
  keys, is_apart, value_at, set_parts-holds, set_parts-keeps, claimed-bind,
}

-- The keys of a path of the baggage.
abbrev pub keys_of : String → List String
keys_of path = keys (parts_of path)

-- No path of the mappings is equal to another or in front of it.
unfoldable pub AreApart : List Mapping → Type 0
AreApart [] = Unit
AreApart (m ∷ ms) = All (λ n. is_apart (keys_of n.path) (keys_of m.path) ≡ true) ms × AreApart ms

-- The expression of a mapping has a value, and its path holds the copy of it.
pub record Holds (nil : String → Bool) (scope : Scope) (out : Fields) (m : Mapping) : Type 0 where
  pub value : Value
  pub resolves : resolve_path scope m.expr ≡ answer (some value)
  pub held : value_at (keys_of m.path) out ≡ some (clone_value (source_value nil m.expr value))

pub present-claimed :
    (a : Answer (Option Value)) (v : Value) → present a ≡ claimed v → a ≡ answer (some v)
present-claimed (answer none) v h = absurd (ground (arith, h))
present-claimed (answer (some w)) v h = cc
present-claimed (failure e) v h = absurd (ground (arith, h))

cons-if :
    (b : Bool) (c : Char) (p : String) (ps : List String)
    → (q : String) × (qs : List String) × ((if b then String.[] ∷ p ∷ ps else extend c (p ∷ ps))
        ≡ q ∷ qs)
unfolding extend
cons-if true c p ps = (String.[], p ∷ ps, refl)
cons-if false c p ps = (String.◌∷◌ c p, ps, refl)

split-cons : (sep : ℕ) (s : String) → (p : String) × (ps : List String) × (split sep s ≡ p ∷ ps)
unfolding split extend
split-cons sep String.[] = (String.[], [], refl)
split-cons sep (String.◌∷◌ c s) =
    let (p, ps, e) = split-cons sep s in
    let (q, qs, f) = cons-if (code c == sep) c p ps in (q, qs, rw e f)

pub set_path-holds :
    (path : String) (v : Value) (fs out : Fields)
    → set_path fs path v ≡ claimed out
    → value_at (keys_of path) out ≡ some (clone_value v)
unfolding set_path
set_path-holds path v fs out h =
    let (p, ps, e) = split-cons dot (trim_space path) in
    subst (λ qs. value_at (keys qs) out ≡ some (clone_value v)) (sym e)
      (set_parts-holds p ps v fs out (subst (λ qs. set_parts qs v fs ≡ claimed out) e h))

mapping-Holds :
    (nil : String → Bool) (scope : Scope) (m : Mapping) (fs out : Fields)
    → apply_mapping nil scope m fs ≡ claimed out
    → Holds nil scope out m
unfolding apply_mapping
mapping-Holds nil scope m fs out h =
    let (v, r, s) =
      claimed-bind (present (resolve_path scope m.expr))
        (λ v. set_path fs m.path (source_value nil m.expr v)) {b = out} h in
    record {
      value = v;
      resolves = present-claimed (resolve_path scope m.expr) v r;
      held = set_path-holds m.path (source_value nil m.expr v) fs out s;
    }

mapping-keeps :
    (nil : String → Bool) (scope : Scope) (m : Mapping) (qs : List String) (fs out : Fields)
    → apply_mapping nil scope m fs ≡ claimed out
    → is_apart (keys_of m.path) qs ≡ true
    → value_at qs out ≡ value_at qs fs
unfolding apply_mapping set_path
mapping-keeps nil scope m qs fs out h a =
    let (v, r, s) =
      claimed-bind (present (resolve_path scope m.expr))
        (λ v. set_path fs m.path (source_value nil m.expr v)) {b = out} h in
    set_parts-keeps (parts_of m.path) qs (source_value nil m.expr v) fs out s a

pub mappings-keep :
    (nil : String → Bool) (scope : Scope) (ms : List Mapping) (qs : List String) (fs out : Fields)
    → apply_mappings nil scope ms fs ≡ claimed out
    → All (λ n. is_apart (keys_of n.path) qs ≡ true) ms
    → value_at qs out ≡ value_at qs fs
unfolding apply_mappings
mappings-keep nil scope [] qs fs out h a = ground (arith, h)
mappings-keep nil scope (m ∷ ms) qs fs out h (a, others) =
    let (mid, f, r) =
      claimed-bind (apply_mapping nil scope m fs) (apply_mappings nil scope ms) {b = out} h in
    mappings-keep nil scope ms qs mid out r others ∙ mapping-keeps nil scope m qs fs mid f a

pub mappings-hold :
    (nil : String → Bool) (scope : Scope) (ms : List Mapping) (fs out : Fields)
    → apply_mappings nil scope ms fs ≡ claimed out
    → AreApart ms
    → All (Holds nil scope out) ms
unfolding apply_mappings AreApart
mappings-hold nil scope [] fs out h a = tt
mappings-hold nil scope (m ∷ ms) fs out h (a, others) =
    let (mid, f, r) =
      claimed-bind (apply_mapping nil scope m fs) (apply_mappings nil scope ms) {b = out} h in
    let first = mapping-Holds nil scope m fs mid f in
    (
      record {
        value = first.value;
        resolves = first.resolves;
        held = mappings-keep nil scope ms (keys_of m.path) mid out r a ∙ first.held;
      },
      mappings-hold nil scope ms mid out r others,
    )

-- The scope of a claim: a map that is nil has no fields.
abbrev pub claim_scope : Option Fields → Option Fields → Scope
claim_scope payload ctx = claims_scope (fields_of payload) (fields_of ctx)

-- What a claim did: the bulk first, and then the mappings.
pub apply_claims-steps :
    (payload ctx : Option Fields) (spec : BaggageSpec) (out : Fields)
    → apply_claims payload (some spec) ctx ≡ claimed out
    → (mid : Fields) × (apply_bulk
          (nil_root payload ctx)
          (claim_scope payload ctx)
          spec.bulk
          no_fields
        ≡ claimed mid)
      × (apply_mappings (nil_root payload ctx) (claim_scope payload ctx) spec.mappings mid
          ≡ claimed out)
unfolding apply_claims apply_bulk apply_mappings
apply_claims-steps payload ctx spec out h = go spec.mappings spec.bulk h
  where
    go :
        (ms : List Mapping) (b : Option BaggageBulkSpec)
        → apply_claims payload (some record { mappings = ms; bulk = b }) ctx ≡ claimed out
        → (mid : Fields) × (apply_bulk (nil_root payload ctx) (claim_scope payload ctx) b no_fields
            ≡ claimed mid)
          × (apply_mappings (nil_root payload ctx) (claim_scope payload ctx) ms mid ≡ claimed out)
    go [] none h = (no_fields, refl, h)
    go [] (some b) h =
        claimed-bind
          (apply_bulk (nil_root payload ctx) (claim_scope payload ctx) (some b) no_fields)
          (apply_mappings (nil_root payload ctx) (claim_scope payload ctx) []) {b = out} h
    go (m ∷ ms) b h =
        claimed-bind (apply_bulk (nil_root payload ctx) (claim_scope payload ctx) b no_fields)
          (apply_mappings (nil_root payload ctx) (claim_scope payload ctx) (m ∷ ms)) {b = out} h

-- Where no path of the mappings is equal to another or in front of it, each expression of a claim that
-- succeeds has a value, and the path of its mapping holds the copy of that value: no mapping is lost,
-- whatever the bulk import wrote before.
pub apply_claims-Holds :
    (payload ctx : Option Fields) (spec : BaggageSpec) (out : Fields)
    → apply_claims payload (some spec) ctx ≡ claimed out
    → AreApart spec.mappings
    → All (Holds (nil_root payload ctx) (claim_scope payload ctx) out) spec.mappings
apply_claims-Holds payload ctx spec out h a =
    let (mid, b, r) = apply_claims-steps payload ctx spec out h in
    mappings-hold (nil_root payload ctx) (claim_scope payload ctx) spec.mappings mid out r a

import-object :
    (nil : String → Bool) (b : BaggageBulkSpec) (v : Value) (out : Fields)
    → import_object nil no_fields b v ≡ claimed out
    → (fs : Fields) × (v ≡ object fs)
      × (set_path no_fields b.namespace (source_value nil b.from v) ≡ claimed out)
import-object nil b (object fs) out h = (fs, refl, h)
import-object nil b null out h = absurd (ground (arith, h))
import-object nil b (boolean x) out h = absurd (ground (arith, h))
import-object nil b (number n) out h = absurd (ground (arith, h))
import-object nil b (text t) out h = absurd (ground (arith, h))
import-object nil b (array vs) out h = absurd (ground (arith, h))

bulk-holds :
    (nil : String → Bool) (scope : Scope) (b : BaggageBulkSpec) (out : Fields)
    → apply_bulk nil scope (some b) no_fields ≡ claimed out
    → (fs : Fields) × (resolve_path scope b.from ≡ answer (some (object fs)))
      × (value_at (keys_of b.namespace) out
          ≡ some (clone_value (source_value nil b.from (object fs))))
unfolding apply_bulk
bulk-holds nil scope b out h = elim (Bool-cases (is_empty (trim_space b.namespace))) [
  | inl e ↦ absurd (ground (arith, e, h))
  | inr n ↦
      let (v, p, s) =
        claimed-bind (present (resolve_path scope b.from)) (import_object nil no_fields b) {b = out}
          (ground (arith, n, h)) in
      let (fs, o, w) = import-object nil b v out s in
      (
        fs,
        present-claimed (resolve_path scope b.from) v p ∙ ap (λ w. answer (some w)) o,
        set_path-holds b.namespace (source_value nil b.from v) no_fields out w
            ∙ ap (λ w. some (clone_value (source_value nil b.from w))) o,
      )
]

-- The source of a bulk import that succeeds is an object, and the namespace of the import holds its
-- copy, where every mapping parts from the namespace before either path ends.
pub apply_claims-holds_bulk :
    (payload ctx : Option Fields) (spec : BaggageSpec) (b : BaggageBulkSpec) (out : Fields)
    → spec.bulk ≡ some b
    → apply_claims payload (some spec) ctx ≡ claimed out
    → All (λ m. is_apart (keys_of m.path) (keys_of b.namespace) ≡ true) spec.mappings
    → (fs : Fields) × (resolve_path (claim_scope payload ctx) b.from ≡ answer (some (object fs)))
      × (value_at (keys_of b.namespace) out
          ≡ some (clone_value (source_value (nil_root payload ctx) b.from (object fs))))
apply_claims-holds_bulk payload ctx spec b out i h a =
    let scope = claim_scope payload ctx in
    let nil = nil_root payload ctx in
    let (mid, f, r) = apply_claims-steps payload ctx spec out h in
    let (fs, p, held) =
      bulk-holds nil scope b mid
        (subst (λ o. apply_bulk nil scope o no_fields ≡ claimed mid) i f) in
    (fs, p, mappings-keep nil scope spec.mappings (keys_of b.namespace) mid out r a ∙ held)
