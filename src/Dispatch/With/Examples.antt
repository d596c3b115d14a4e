-- ===== src/Dispatch/With/Examples.antt =====
-- Runs of the templates and instances of their theorems.
use senechal_gw.Prelude.{String, ◌≡◌, refl, List, [], ◌∷◌, All, trim_space, split, str_append}
use senechal_gw.Conditions.{
  int, Value, number, text, Fields, no_fields, field_then, get_field, Scope,
}
use senechal_gw.Conditions.Eval.{resolve_path}
use senechal_gw.Baggage.{claims_scope, put_field}
use senechal_gw.Dispatch.With.{
  WithEntry, evaluated, failed, unclosed_open, unexpected_close, nested_open, value_not_found,
  cut_at, parse_segments, text_length, parse_with_template, resolve_with_path, eval_with_template,
  remap, apply_with_remap,
}
use senechal_gw.Dispatch.With.Remap.{AreDistinct, IsRemapped, Lacks, apply_with_remap-sets}
use senechal_gw.Dispatch.With.Templates.{eval_with_template-path}

abbrev three : Value
three = number record { type = int; exact = 3; place = 3 }

abbrev payload : Fields
payload = field_then "count" three (field_then "name" (text "x") no_fields)

abbrev show : Value → String
show (text s) = s
show _ = "3"

abbrev with_map : List WithEntry
with_map =
    record { key = "count"; template = "n={payload.count}" }
    ∷ record { key = "total"; template = "{ payload.count }" }
    ∷ []

abbrev remapped : Fields
remapped =
    field_then "count" (text "n=3")
      (field_then "name" (text "x") (field_then "total" three no_fields))

remap_run : apply_with_remap show payload with_map no_fields ≡ evaluated remapped
unfolding apply_with_remap remap eval_with_template parse_with_template parse_segments cut_at
    text_length resolve_path trim_space put_field get_field split str_append
remap_run = refl

abbrev scope : Scope
scope = claims_scope payload no_fields

unclosed_run : eval_with_template show "a{payload.count" scope ≡ failed unclosed_open
unfolding eval_with_template parse_with_template parse_segments cut_at text_length
unclosed_run = refl

unexpected_run : eval_with_template show "a}{payload.count}" scope ≡ failed unexpected_close
unfolding eval_with_template parse_with_template parse_segments cut_at text_length
unexpected_run = refl

nested_run : eval_with_template show "{a{b}" scope ≡ failed nested_open
unfolding eval_with_template parse_with_template parse_segments cut_at text_length trim_space
nested_run = refl

missing_run : eval_with_template show "{payload.z}" scope ≡ failed value_not_found
unfolding eval_with_template parse_with_template parse_segments cut_at text_length resolve_path
    trim_space get_field split
missing_run = refl

with_map-AreDistinct : AreDistinct with_map
unfolding AreDistinct
with_map-AreDistinct = ((refl, tt), (tt, tt))

apply_with_remap-sets_example :
    All (IsRemapped show scope remapped) with_map
    × ((k : String) → Lacks k with_map → get_field k remapped ≡ get_field k payload)
apply_with_remap-sets_example =
    apply_with_remap-sets show payload no_fields with_map remapped remap_run with_map-AreDistinct

length_run : text_length "a{b}" ≡ 4
unfolding text_length
length_run = refl

blank_run : trim_space " payload.count " ≡ "payload.count"
unfolding trim_space
blank_run = refl

eval_with_template-path_example :
    eval_with_template show (str_append "{" (str_append " payload.count " "}")) scope
    ≡ resolve_with_path (trim_space " payload.count ") scope
unfolding trim_space cut_at
eval_with_template-path_example =
    eval_with_template-path show " payload.count " scope refl refl refl
