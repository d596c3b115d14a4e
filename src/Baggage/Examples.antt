-- ===== src/Baggage/Examples.antt =====
-- Runs of the baggage and instances of its theorems.
use senechal_gw.Prelude.{
  String, ◌≡◌, refl, none, some, true, false, is_empty, [], ◌∷◌, All, trim_space, split,
}
use senechal_gw.Conditions.{
  int, float64, Number, Value, null, number, object, Fields, no_fields, field_then, get_field,
  Scope,
}
use senechal_gw.Conditions.Eval.{resolve_path}
use senechal_gw.Baggage.{
  Mapping, BaggageSpec, BaggageBulkSpec, claimed, rejected, scalar_prefix, segment_is_empty,
  path_not_found, apply_mappings, apply_bulk, nil_root, apply_claims, set_path,
}
use senechal_gw.Baggage.Paths.{is_apart}
use senechal_gw.Baggage.Stored.{keys_of, claim_scope, AreApart, Holds, apply_claims-Holds}

abbrev three : Number
three = record { type = int; exact = 3; place = 30 }

abbrev three_from_json : Number
three_from_json = record { type = float64; exact = 30; place = 30 }

abbrev user : Fields
user = field_then "id" (number three) no_fields

abbrev payload : Fields
payload = field_then "count" (number three) (field_then "user" (object user) no_fields)

abbrev import : BaggageBulkSpec
import = record { from = "payload.user"; namespace = "user" }

abbrev count : Mapping
count = record { path = "order.count"; expr = "payload.count" }

abbrev total : Mapping
total = record { path = "order.total"; expr = "payload.count" }

abbrev spec : BaggageSpec
spec = record { mappings = count ∷ total ∷ []; bulk = some import }

abbrev stored : Value
stored = number three_from_json

abbrev baggage : Fields
baggage = field_then "user" (object (field_then "id" stored no_fields)) (
    field_then "order" (object (field_then "count" stored (field_then "total" stored no_fields)))
      no_fields)

claims_run : apply_claims (some payload) (some spec) none ≡ claimed baggage
unfolding apply_claims apply_bulk apply_mappings resolve_path trim_space split get_field
claims_run = refl

abbrev only : String → String → BaggageSpec
only path expr = record { mappings = record { path = path; expr = expr } ∷ []; bulk = none }

missing_run :
    apply_claims (some payload) (some (only "a" "payload.nothing")) none ≡ rejected path_not_found
unfolding apply_claims apply_bulk apply_mappings resolve_path trim_space split get_field
missing_run = refl

-- A context that is nil is carried as null, and one that is empty as an object.
abbrev nothing : BaggageSpec
nothing = only "ctx" "context"

nil_context_run :
    apply_claims (some payload) (some nothing) none ≡ claimed (field_then "ctx" null no_fields)
unfolding apply_claims apply_bulk apply_mappings resolve_path trim_space split get_field
nil_context_run = refl

empty_context_run :
    apply_claims (some payload) (some nothing) (some no_fields)
    ≡ claimed (field_then "ctx" (object no_fields) no_fields)
unfolding apply_claims apply_bulk apply_mappings resolve_path trim_space split get_field
empty_context_run = refl

segment_run :
    apply_claims (some payload) (some (only "a. .b" "payload.count")) none
    ≡ rejected segment_is_empty
unfolding apply_claims apply_bulk apply_mappings resolve_path trim_space split get_field
segment_run = refl

scalar_run : set_path (field_then "a" stored no_fields) "a.b" stored ≡ rejected scalar_prefix
unfolding set_path trim_space split get_field
scalar_run = refl

spec-AreApart : AreApart spec.mappings
unfolding AreApart is_apart trim_space split
spec-AreApart = ((refl, tt), (tt, tt))

apply_claims-Holds_example :
    All
      (Holds (nil_root (some payload) none) (claim_scope (some payload) none) baggage)
      spec.mappings
apply_claims-Holds_example =
    apply_claims-Holds (some payload) none spec baggage claims_run spec-AreApart

spec-parts : All (λ m. is_apart (keys_of m.path) (keys_of import.namespace) ≡ true) spec.mappings
unfolding is_apart trim_space split
spec-parts = (refl, (refl, tt))

abbrev scope : Scope
scope = record { payload = no_fields; context = baggage; config = no_fields }

segments : All (λ s. is_empty (trim_space s) ≡ false) ("order" ∷ "total" ∷ [])
unfolding trim_space
segments = (refl, (refl, tt))
