-- ===== src/Dispatch/With.antt =====
-- internal/dispatch/with.go: the remapping of the payload of a step by templates.
pub mod Remap
pub mod Templates
mod Examples
use senechal_gw.Prelude.{
  ℕ, zero, suc, ◌+◌, String, Bool, true, false, not, ◌&&◌, Option, none, some, List, [], ◌∷◌,
  is_empty, trim_space, str_append, ltb, ◌==◌, if◌then◌else◌,
}
use senechal_gw.Conditions.{Value, null, text, Fields, Scope, no_fields}
use senechal_gw.Conditions.Eval.{EvalError, Answer, answer, failure, resolve_path}
use senechal_gw.Baggage.{put_field, claims_scope}
use Prim.Native.Char.{Char, code}

-- The key that a step sets, and the template for its value.
pub record WithEntry : Type 0 where
  pub key : String
  pub template : String

-- withSegment: the source tells a literal by its empty path.
pub data WithSegment : Type 0 where
  literal path : String → WithSegment

pub data WithError : Type 0 where
  unexpected_close unclosed_open empty_template_path nested_open value_not_found : WithError
  unresolved : EvalError → WithError

pub data Evaluated (A : Type 0) : Type 0 where
  evaluated : A → Evaluated A
  failed : WithError → Evaluated A

infixl 20 ◌>>=◌
abbrev pub ◌>>=◌ : {A B : Type 0} → Evaluated A → (A → Evaluated B) → Evaluated B
evaluated a >>= f = f a
failed e >>= f = failed e

abbrev pub open_brace : ℕ
open_brace = 123

abbrev pub close_brace : ℕ
close_brace = 125

-- strings.IndexByte, with the text in front of the byte and the text after it.
unfoldable pub cut_at : ℕ → String → Option (String × String)
cut_at b String.[] = none
cut_at b (String.◌∷◌ c s) =
    let later = cut_at b s in
    if code c == b
    then some (String.[], s)
    else elim later [ none ↦ none | some (before, after) ↦ some (String.◌∷◌ c before, after) ]

abbrev pub has_byte : ℕ → String → Bool
has_byte b s = elim (cut_at b s) [ none ↦ false | some p ↦ true ]

abbrev pub literal_before : String → List WithSegment → List WithSegment
literal_before before segments = if is_empty before then segments else literal before ∷ segments

-- The segments of a template from a path on, the path still with its blanks.
abbrev pub path_then :
    String → String → (Unit {0} → Evaluated (List WithSegment)) → Evaluated (List WithSegment)
path_then before raw rest =
    if is_empty (trim_space raw)
    then failed empty_template_path
    else if has_byte open_brace (trim_space raw)
    then failed nested_open
    else rest tt >>= λ segments.
        evaluated (literal_before before (path (trim_space raw) ∷ segments))

-- The loop of parseWithTemplate. A turn takes one character at least.
unfoldable pub parse_segments : ℕ → String → Evaluated (List WithSegment)
unfolding cut_at
parse_segments zero tmpl = evaluated []
parse_segments (suc fuel) tmpl =
    if is_empty tmpl then evaluated [] else elim (cut_at open_brace tmpl) [
      | none ↦
          if has_byte close_brace tmpl
          then failed unexpected_close
          else evaluated (literal tmpl ∷ [])
      | some (before, after) ↦
          if has_byte close_brace before
          then failed unexpected_close
          else elim (cut_at close_brace after) [
            | none ↦ failed unclosed_open
            | some (raw, rest) ↦ path_then before raw (λ _. parse_segments fuel rest)
          ]
    ]

unfoldable pub text_length : String → ℕ
text_length String.[] = 0
text_length (String.◌∷◌ c s) = suc (text_length s)

abbrev pub or_blank : List WithSegment → List WithSegment
or_blank [] = literal "" ∷ []
or_blank (s ∷ ss) = s ∷ ss

-- parseWithTemplate
unfoldable pub parse_with_template : String → Evaluated (List WithSegment)
unfolding parse_segments text_length
parse_with_template tmpl =
    parse_segments (suc (text_length tmpl)) tmpl >>= λ segments. evaluated (or_blank segments)

-- resolveWithPath
abbrev pub value_of : Answer (Option Value) → Evaluated Value
value_of (answer (some v)) = evaluated v
value_of (answer none) = failed value_not_found
value_of (failure e) = failed (unresolved e)

abbrev pub resolve_with_path : String → Scope → Evaluated Value
resolve_with_path p scope = value_of (resolve_path scope p)

-- fmt.Fprintf of a value that is not nil, by `show` for its verb.
abbrev pub shown : (Value → String) → Value → String
shown show null = ""
shown show v = show v

unfoldable pub write_segments : (Value → String) → List WithSegment → Scope → Evaluated String
write_segments show [] scope = evaluated ""
write_segments show (literal s ∷ rest) scope =
    write_segments show rest scope >>= λ out. evaluated (str_append s out)
write_segments show (path p ∷ rest) scope = resolve_with_path p scope >>= λ v.
    write_segments show rest scope >>= λ out. evaluated (str_append (shown show v) out)

abbrev pub write_value : (Value → String) → List WithSegment → Scope → Evaluated Value
write_value show (path p ∷ []) scope = resolve_with_path p scope
write_value show segments scope = write_segments show segments scope >>= λ out. evaluated (text out)

-- evalWithTemplate
unfoldable pub eval_with_template : (Value → String) → String → Scope → Evaluated Value
unfolding parse_with_template write_segments
eval_with_template show tmpl scope =
    parse_with_template tmpl >>= λ segments. write_value show segments scope

-- The loop over the sorted keys.
unfoldable pub remap : (Value → String) → Scope → List WithEntry → Fields → Evaluated Fields
unfolding eval_with_template
remap show scope [] out = evaluated out
remap show scope (w ∷ ws) out =
    eval_with_template show w.template scope >>= λ v. remap show scope ws (put_field w.key v out)

-- applyWithRemap, in a scope with no config; a map that is nil counts as the empty one. The map is read in the order of its keys only, so it is listed in it.
unfoldable pub apply_with_remap :
    (Value → String) → Fields → List WithEntry → Fields → Evaluated Fields
unfolding remap
apply_with_remap show payload with_map ctx = remap show (claims_scope payload ctx) with_map payload
