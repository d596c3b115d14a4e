-- ===== src/Baggage.antt =====
-- internal/baggage/baggage.go: the claims that a pipeline carries on from its event. What setPath
-- writes is in Paths, and what the claims hold in Stored.
pub mod Paths
pub mod Stored
mod Examples
use senechal_gw.Prelude.{
  String, Bool, true, false, ◌&&◌, ◌||◌, Option, none, some, List, [], ◌∷◌, is_empty, trim_space,
  split, str_eq, if◌then◌else◌,
}
use senechal_gw.Conditions.{
  int, float64, Number, Value, null, boolean, number, text, array, object, Values, no_values,
  value_then, Fields, no_fields, field_then, get_field, Scope,
}
use senechal_gw.Conditions.Eval.{EvalError, Answer, answer, failure, resolve_path, dot}

-- BaggageBulkSpec
pub record BaggageBulkSpec : Type 0 where
  pub from : String
  pub namespace : String

-- A path of the baggage and the expression for its value.
pub record Mapping : Type 0 where
  pub path : String
  pub expr : String

-- BaggageSpec. The map of the mappings is read in the order of its keys only, so it is listed in it.
pub record BaggageSpec : Type 0 where
  pub mappings : List Mapping
  pub bulk : Option BaggageBulkSpec

-- The errors of ApplyClaims and setPath.
pub data BaggageError : Type 0 where
  namespace_is_required not_an_object path_not_found : BaggageError
  segment_is_empty scalar_prefix : BaggageError
  unresolved : EvalError → BaggageError

pub data Claimed (A : Type 0) : Type 0 where
  claimed : A → Claimed A
  rejected : BaggageError → Claimed A

infixl 20 ◌>>=◌
abbrev pub ◌>>=◌ : {A B : Type 0} → Claimed A → (A → Claimed B) → Claimed B
claimed a >>= f = f a
rejected e >>= f = rejected e

-- A number as JSON gives it back: the float64 that it converts to.
abbrev pub clone_number : Number → Number
clone_number n = elim n.type [
  | int ↦ record { type = float64; exact = n.place; place = n.place }
  | float64 ↦ n
]

-- cloneValue: the value after json.Marshal and json.Unmarshal. Payload and context were decoded from
-- JSON or YAML with finite numbers, so neither fails.
unfoldable mutual
  pub clone_value : Value → Value
  clone_value null = null
  clone_value (boolean b) = boolean b
  clone_value (number n) = number (clone_number n)
  clone_value (text s) = text s
  clone_value (array vs) = array (clone_values vs)
  clone_value (object fs) = object (clone_fields fs)

  pub clone_values : Values → Values
  clone_values no_values = no_values
  clone_values (value_then v vs) = value_then (clone_value v) (clone_values vs)

  pub clone_fields : Fields → Fields
  clone_fields no_fields = no_fields
  clone_fields (field_then name v fs) = field_then name (clone_value v) (clone_fields fs)

-- current[part] = v
unfoldable pub put_field : String → Value → Fields → Fields
put_field k v no_fields = field_then k v no_fields
put_field k v (field_then name w fs) =
    let later = put_field k v fs in
    if str_eq name k then field_then name v fs else field_then name w later

-- The map below a part: a new one where the part is absent.
abbrev pub child_of : Option Value → Claimed Fields
child_of none = claimed no_fields
child_of (some (object fs)) = claimed fs
child_of (some _) = rejected scalar_prefix

-- The loop of setPath.
unfoldable pub set_parts : List String → Value → Fields → Claimed Fields
unfolding clone_value put_field
set_parts [] v fs = claimed fs
set_parts (p ∷ []) v fs =
    let part = trim_space p in
    if is_empty part then rejected segment_is_empty else claimed (put_field part (clone_value v) fs)
set_parts (p ∷ q ∷ ps) v fs =
    let part = trim_space p in
    if is_empty part
    then rejected segment_is_empty
    else child_of (get_field part fs) >>= λ child.
        set_parts (q ∷ ps) v child >>= λ child'. claimed (put_field part (object child') fs)

-- The segments of a path.
abbrev pub parts_of : String → List String
parts_of path = split dot (trim_space path)

-- setPath
unfoldable pub set_path : Fields → String → Value → Claimed Fields
unfolding set_parts
set_path dst path v = set_parts (parts_of path) v dst

abbrev pub present : Answer (Option Value) → Claimed Value
present (answer (some v)) = claimed v
present (answer none) = rejected path_not_found
present (failure e) = rejected (unresolved e)

-- What setPath gets of the value of an expression: a map that is nil has no fields, and json.Marshal
-- writes it as null.
abbrev pub source_value : (String → Bool) → String → Value → Value
source_value nil expr v = if nil (trim_space expr) then null else v

unfoldable pub apply_mapping : (String → Bool) → Scope → Mapping → Fields → Claimed Fields
unfolding set_path
apply_mapping nil scope m out =
    present (resolve_path scope m.expr) >>= λ v. set_path out m.path (source_value nil m.expr v)

-- The loop over the sorted keys.
unfoldable pub apply_mappings : (String → Bool) → Scope → List Mapping → Fields → Claimed Fields
unfolding apply_mapping
apply_mappings nil scope [] out = claimed out
apply_mappings nil scope (m ∷ ms) out =
    apply_mapping nil scope m out >>= apply_mappings nil scope ms

abbrev pub import_object : (String → Bool) → Fields → BaggageBulkSpec → Value → Claimed Fields
import_object nil out b (object fs) = set_path out b.namespace (source_value nil b.from (object fs))
import_object nil out b _ = rejected not_an_object

unfoldable pub apply_bulk :
    (String → Bool) → Scope → Option BaggageBulkSpec → Fields → Claimed Fields
unfolding set_path
apply_bulk nil scope none out = claimed out
apply_bulk nil scope (some b) out =
    if is_empty (trim_space b.namespace)
    then rejected namespace_is_required
    else present (resolve_path scope b.from) >>= import_object nil out b

abbrev pub claims_scope : Fields → Fields → Scope
claims_scope payload ctx = record { payload = payload; context = ctx; config = no_fields }

-- Empty
abbrev pub is_empty_spec : BaggageSpec → Bool
is_empty_spec spec =
    elim spec.mappings [ [] ↦ true | m ∷ ms ↦ false ]
    && elim spec.bulk [ none ↦ true | some b ↦ false ]

abbrev pub fields_of : Option Fields → Fields
fields_of none = no_fields
fields_of (some fs) = fs

abbrev is_nil_map : Option Fields → Bool
is_nil_map none = true
is_nil_map (some fs) = false

-- The roots whose map is nil: the scope has no config.
abbrev pub nil_root : Option Fields → Option Fields → String → Bool
nil_root payload ctx name =
    str_eq name "config"
    || (str_eq name "payload" && is_nil_map payload)
    || (str_eq name "context" && is_nil_map ctx)

-- ApplyClaims; a map that is nil is `none`.
unfoldable pub apply_claims : Option Fields → Option BaggageSpec → Option Fields → Claimed Fields
unfolding apply_mappings apply_bulk
apply_claims payload none ctx = claimed no_fields
apply_claims payload (some spec) ctx =
    let scope = claims_scope (fields_of payload) (fields_of ctx) in
    let nil = nil_root payload ctx in
    if is_empty_spec spec
    then claimed no_fields
    else apply_bulk nil scope spec.bulk no_fields >>= apply_mappings nil scope spec.mappings
