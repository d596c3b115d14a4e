-- ===== src/Conditions.antt =====
-- internal/router/conditions: the predicates of the pipelines. The parts are the values and the
-- conditions here, Eval in Eval, Validate in Validate, and what a validation guarantees in Sound.
pub mod Eval
pub mod Validate
pub mod Operators
pub mod Comparisons
pub mod Sound
pub mod Bounds
pub mod Numbers
mod Examples
use senechal_gw.Prelude.{
  ℕ, suc, String, Bool, true, false, ◌&&◌, Option, none, some, ◌==◌, str_eq, if◌then◌else◌,
}

-- The Go type of a number: YAML decodes a whole number as int, JSON every number as float64.
pub data NumberType : Type 0 where
  int float64 : NumberType

-- A number by its Go type, a code of its value in that type, and the place of the float64 that it
-- converts to in the order of the float64 values. NaN is not there.
pub record Number : Type 0 where
  pub type : NumberType
  pub exact : ℕ
  pub place : ℕ

-- The values that YAML and JSON decode to. An object is a map: its keys are distinct.
mutual
  pub data Value : Type 0 where
    null : Value
    boolean : Bool → Value
    number : Number → Value
    text : String → Value
    array : Values → Value
    object : Fields → Value

  pub data Values : Type 0 where
    no_values : Values
    value_then : Value → Values → Values

  pub data Fields : Type 0 where
    no_fields : Fields
    field_then : String → Value → Fields → Fields

-- obj[segment]
unfoldable pub get_field : String → Fields → Option Value
get_field k no_fields = none
get_field k (field_then name v rest) =
    let later = get_field k rest in if str_eq name k then some v else later

unfoldable pub count_fields : Fields → ℕ
count_fields no_fields = 0
count_fields (field_then name v rest) = suc (count_fields rest)

abbrev type_eq : NumberType → NumberType → Bool
type_eq int int = true
type_eq float64 float64 = true
type_eq _ _ = false

abbrev bool_eq : Bool → Bool → Bool
bool_eq true b = b
bool_eq false true = false
bool_eq false false = true

-- reflect.DeepEqual: the Go types of two equal numbers are the same.
unfoldable mutual
  pub deep_equal : Value → Value → Bool
  deep_equal null null = true
  deep_equal (boolean a) (boolean b) = bool_eq a b
  deep_equal (number a) (number b) = type_eq a.type b.type && a.exact == b.exact
  deep_equal (text a) (text b) = str_eq a b
  deep_equal (array a) (array b) = all_equal a b
  deep_equal (object a) (object b) = count_fields a == count_fields b && fields_in a b
  deep_equal _ _ = false

  pub all_equal : Values → Values → Bool
  all_equal no_values no_values = true
  all_equal (value_then a xs) (value_then b ys) = deep_equal a b && all_equal xs ys
  all_equal _ _ = false

  pub fields_in : Fields → Fields → Bool
  fields_in no_fields b = true
  fields_in (field_then name v rest) b =
      let others = fields_in rest b in
      elim (get_field name b) [ none ↦ false | some w ↦ deep_equal v w && others ]

-- Condition. `value` is null where the field is nil. The compiled regular expression is that of the
-- value, so it is not kept.
mutual
  pub data Condition : Type 0 where
    condition : String → String → Value → Conditions → Conditions → Negation → Condition

  pub data Conditions : Type 0 where
    no_conditions : Conditions
    condition_then : Condition → Conditions → Conditions

  pub data Negation : Type 0 where
    no_negation : Negation
    negation : Condition → Negation

-- Scope
pub record Scope : Type 0 where
  pub payload : Fields
  pub context : Fields
  pub config : Fields
