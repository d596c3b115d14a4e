-- ===== src/Cron/Parse.antt =====
-- ParseCron of internal/scheduleexpr/cron.go, with strconv.Atoi and strings.Fields. An int has 64 bits.
-- strings.ToLower is an argument.
use Prim.Native.Char.{code}
use senechal_gw.Prelude.{
  ℕ, zero, suc, ◌+◌, ◌-◌, ◌*◌, ◌^◌, String, Bool, true, false, ◌&&◌, ◌||◌, Option, none, some, List,
  [], ◌∷◌, ◌++◌, set, replicate, is_empty, is_space, trim_space, split, extend, contains, ltb, leb,
  ◌==◌, str_eq, if◌then◌else◌,
}
use senechal_gw.Cron.{CronField, CronExpression, is_set}

-- The words of strings.Fields, where `s` stands at the start of a word or after a space.
unfoldable pub words : String → List String
unfolding is_space extend
words String.[] = []
words (String.◌∷◌ c String.[]) = if is_space (code c) then [] else (String.◌∷◌ c String.[]) ∷ []
words (String.◌∷◌ c (String.◌∷◌ d s)) =
    let rest = words (String.◌∷◌ d s) in
    if is_space (code c)
    then rest
    else if is_space (code d)
    then (String.◌∷◌ c String.[]) ∷ rest
    else extend c rest

-- An int that strconv.Atoi gives; minus is below 0.
pub data Number : Type 0 where
  minus plus : ℕ → Number

abbrev pub is_digit : ℕ → Bool
is_digit c = leb b'0' c && leb c b'9'

-- The digits of a text after the number that those before give.
unfoldable pub digits_from : ℕ → String → Option ℕ
digits_from n String.[] = some n
digits_from n (String.◌∷◌ c s) =
    let rest = digits_from (n * 10 + (code c - b'0')) s in if is_digit (code c) then rest else none

unfoldable pub digits : String → Option ℕ
unfolding digits_from
digits s = if is_empty s then none else digits_from 0 s

abbrev pub int_limit : ℕ
int_limit = 2 ^ 63

abbrev pub signed_plus : Option ℕ → Option Number
signed_plus none = none
signed_plus (some n) = if ltb n int_limit then some (plus n) else none

abbrev pub signed_minus : Option ℕ → Option Number
signed_minus none = none
signed_minus (some n) =
    if 0 == n then some (plus 0) else if leb n int_limit then some (minus n) else none

-- strconv.Atoi
unfoldable pub atoi : String → Option Number
unfolding digits
atoi String.[] = none
atoi (String.◌∷◌ c s) =
    if code c == b'-'
    then signed_minus (digits s)
    else if code c == b'+'
    then signed_plus (digits s)
    else signed_plus (digits (String.◌∷◌ c s))

pub data CronError : Type 0 where
  expected_five_fields field_is_empty empty_list_segment no_values_selected : CronError
  invalid_step_segment invalid_step descending_range invalid_range : CronError
  empty_value invalid_value out_of_range : CronError

-- `panics` is an index out of range.
pub data Parse (A : Type 0) : Type 0 where
  parsed : A → Parse A
  invalid : CronError → Parse A
  panics : Parse A

infixl 20 ◌>>=◌
abbrev pub ◌>>=◌ : {A B : Type 0} → Parse A → (A → Parse B) → Parse B
parsed a >>= f = f a
invalid e >>= f = invalid e
panics >>= f = panics

-- The loop `for i := start; i <= end; i += step { allowed[i] = true }`. Where i + step has no int it
-- wraps below 0, which is not above `end` and no index. The fuel bounds the rounds.
unfoldable pub mark_from : ℕ → ℕ → ℕ → ℕ → List Bool → Parse (List Bool)
mark_from zero i end step allowed = parsed allowed
mark_from (suc fuel) i end step allowed = elim (leb i end) [
  | false ↦ parsed allowed
  | true ↦
      if leb int_limit (i + step)
      then panics
      else mark_from fuel (i + step) end step (set allowed i true)
]

unfoldable pub mark : ℕ → ℕ → ℕ → List Bool → Parse (List Bool)
unfolding mark_from
mark start end step allowed = mark_from (suc end - start) start end step allowed

pub record Name : Type 0 where
  pub text : String
  pub value : ℕ

unfoldable pub named : String → List Name → Option ℕ
named s [] = none
named s (n ∷ ns) = let later = named s ns in if str_eq n.text s then some n.value else later

-- monthNames
abbrev pub month_names : List Name
month_names =
    record { text = "jan"; value = 1 }
    ∷ record { text = "feb"; value = 2 }
    ∷ record { text = "mar"; value = 3 }
    ∷ record { text = "apr"; value = 4 }
    ∷ record { text = "may"; value = 5 }
    ∷ record { text = "jun"; value = 6 }
    ∷ record { text = "jul"; value = 7 }
    ∷ record { text = "aug"; value = 8 }
    ∷ record { text = "sep"; value = 9 }
    ∷ record { text = "oct"; value = 10 }
    ∷ record { text = "nov"; value = 11 }
    ∷ record { text = "dec"; value = 12 }
    ∷ []

-- weekdayNames
abbrev pub weekday_names : List Name
weekday_names =
    record { text = "sun"; value = 0 }
    ∷ record { text = "mon"; value = 1 }
    ∷ record { text = "tue"; value = 2 }
    ∷ record { text = "wed"; value = 3 }
    ∷ record { text = "thu"; value = 4 }
    ∷ record { text = "fri"; value = 5 }
    ∷ record { text = "sat"; value = 6 }
    ∷ []

-- The parameters of parseCronField. Names that are nil are the empty list.
pub record FieldKind : Type 0 where
  pub min : ℕ
  pub max : ℕ
  pub names : List Name
  pub dow : Bool

unfoldable pub number_value : FieldKind → Option Number → Parse ℕ
number_value k none = invalid invalid_value
number_value k (some (minus n)) = invalid out_of_range
number_value k (some (plus n)) =
    if k.dow && n == 7
    then parsed 0
    else if ltb n k.min || ltb k.max n
    then invalid out_of_range
    else parsed n

abbrev pub value_of : FieldKind → Option ℕ → String → Parse ℕ
value_of k (some v) s = parsed v
value_of k none s = number_value k (atoi s)

-- parseCronValue
unfoldable pub parse_cron_value : (String → String) → FieldKind → String → Parse ℕ
unfolding named number_value atoi
parse_cron_value to_lower k raw =
    let s = trim_space (to_lower raw) in
    if is_empty s then invalid empty_value else value_of k (named s k.names) s

-- parseCronRange
unfoldable pub range_of : (String → String) → FieldKind → List String → Parse (ℕ × ℕ)
unfolding parse_cron_value
range_of to_lower k (a ∷ b ∷ []) = parse_cron_value to_lower k a >>= λ start.
    parse_cron_value to_lower k b >>= λ end. parsed (start, end)
range_of to_lower k _ = invalid invalid_range

unfoldable pub parse_cron_range : (String → String) → FieldKind → String → Parse (ℕ × ℕ)
unfolding range_of parse_cron_value
parse_cron_range to_lower k raw =
    if contains raw "-"
    then range_of to_lower k (split b'-' raw)
    else parse_cron_value to_lower k raw >>= λ v. parsed (v, v)

-- if dow && allowed[7] { allowed[0] = true }
abbrev pub fold_sunday : FieldKind → List Bool → List Bool
fold_sunday k allowed = if k.dow && is_set allowed 7 then set allowed 0 true else allowed

-- The values of a range, each `step` after the other.
unfoldable pub mark_range : FieldKind → ℕ → List Bool → ℕ × ℕ → Parse (List Bool)
unfolding mark
mark_range k step allowed (start, end) =
    if ltb end start
    then invalid descending_range
    else (mark start end step allowed >>= λ a. parsed (fold_sunday k a))

unfoldable pub mark_base :
    (String → String) → FieldKind → String → ℕ → List Bool → Parse (List Bool)
unfolding mark_range mark parse_cron_range
mark_base to_lower k base step allowed =
    if str_eq base "*"
    then (mark k.min k.max step allowed >>= λ a. parsed (fold_sunday k a))
    else (parse_cron_range to_lower k base >>= mark_range k step allowed)

abbrev pub step_of : Option Number → Parse ℕ
step_of (some (plus (suc n))) = parsed (suc n)
step_of _ = invalid invalid_step

-- The two parts of a segment with a step.
unfoldable pub mark_stepped :
    (String → String) → FieldKind → List String → List Bool → Parse (List Bool)
unfolding mark_base atoi
mark_stepped to_lower k (base ∷ step ∷ []) allowed =
    step_of (atoi step) >>= λ n. mark_base to_lower k base n allowed
mark_stepped to_lower k _ allowed = invalid invalid_step_segment

-- applyCronSegment
unfoldable pub apply_cron_segment :
    (String → String) → FieldKind → String → List Bool → Parse (List Bool)
unfolding mark_base mark_stepped
apply_cron_segment to_lower k seg allowed =
    if contains seg "/"
    then mark_stepped to_lower k (split b'/' seg) allowed
    else mark_base to_lower k seg 1 allowed

-- The loop over the segments.
unfoldable pub apply_segments :
    (String → String) → FieldKind → List String → List Bool → Parse (List Bool)
unfolding apply_cron_segment
apply_segments to_lower k [] allowed = parsed allowed
apply_segments to_lower k (raw ∷ segs) allowed =
    let seg = trim_space raw in
    if is_empty seg
    then invalid empty_list_segment
    else apply_cron_segment to_lower k seg allowed >>= apply_segments to_lower k segs

-- Whether a value from `i` on, of those given, is allowed.
abbrev pub selects_from : ℕ → ℕ → List Bool → Bool
selects_from i zero allowed = false
selects_from i (suc n) allowed = is_set allowed i || selects_from (suc i) n allowed

abbrev pub cron_field : FieldKind → Bool → List Bool → CronField
cron_field k star allowed = record { allowed = allowed; any = star; min = k.min; max = k.max }

abbrev pub selected : FieldKind → List Bool → Parse CronField
selected k allowed =
    if selects_from k.min (suc k.max - k.min) allowed
    then parsed (cron_field k false allowed)
    else invalid no_values_selected

abbrev pub no_values : FieldKind → List Bool
no_values k = replicate (suc k.max) false

-- allowed[i] = true for i from min to max
abbrev pub all_values : FieldKind → List Bool
all_values k =
    let range = replicate k.min false ++ replicate (suc k.max - k.min) true in
    if k.dow then set range 0 true else range

-- parseCronField
unfoldable pub parse_cron_field : (String → String) → FieldKind → String → Parse CronField
unfolding apply_segments
parse_cron_field to_lower k raw =
    let trimmed = trim_space (to_lower raw) in
    if is_empty trimmed
    then invalid field_is_empty
    else if str_eq trimmed "*"
    then parsed (cron_field k true (all_values k))
    else apply_segments to_lower k (split b',' trimmed) (no_values k) >>= selected k

abbrev pub minutes : FieldKind
minutes = record { min = 0; max = 59; names = []; dow = false }

abbrev pub hours : FieldKind
hours = record { min = 0; max = 23; names = []; dow = false }

abbrev pub days : FieldKind
days = record { min = 1; max = 31; names = []; dow = false }

abbrev pub months : FieldKind
months = record { min = 1; max = 12; names = month_names; dow = false }

abbrev pub weekdays : FieldKind
weekdays = record { min = 0; max = 7; names = weekday_names; dow = true }

unfoldable pub parse_parts : (String → String) → List String → Parse CronExpression
unfolding parse_cron_field
parse_parts to_lower (m ∷ h ∷ d ∷ mo ∷ w ∷ []) = parse_cron_field to_lower minutes m >>= λ minute.
    parse_cron_field to_lower hours h >>= λ hour. parse_cron_field to_lower days d >>= λ dom.
    parse_cron_field to_lower months mo >>= λ month. parse_cron_field to_lower weekdays w >>= λ dow.
    parsed (record { minute = minute; hour = hour; dom = dom; month = month; dow = dow })
parse_parts to_lower _ = invalid expected_five_fields

-- ParseCron
unfoldable pub parse_cron : (String → String) → String → Parse CronExpression
unfolding parse_parts words
parse_cron to_lower expr = parse_parts to_lower (words (trim_space expr))
