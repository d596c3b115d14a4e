-- ===== src/Cron/Print.antt =====
-- parseCronField of internal/scheduleexpr/cron.go reads back a list of values.
use Prim.Native.Char.{Char, code}
use Prim.Native.String.{char_at}
use senechal_gw.Prelude.{
  ℕ, zero, suc, ◌≤◌, ◌<◌, ◌≡◌, ◌⊎◌, ◌∙◌, refl, sym, ap, subst, inl, inr, String, Bool, true, false,
  not, ◌&&◌, ◌||◌, none, some, List, [], ◌∷◌, map, All, arith, is_empty, is_space, trim_space,
  trim_left, trim_right, split, extend, str_append, decimal, decimal_onto, contains, has_prefix,
  ltb, ◌==◌, str_eq, if◌then◌else◌,
}
use senechal_gw.Cron.Parse.{
  Parse, parsed, is_digit, FieldKind, minutes, hours, days, months, weekdays, named, atoi, digits,
  digits_from, number_value,
}

abbrev pub comma : Char
comma = char_at "," 0

-- The values, with a comma after each but the last.
unfoldable pub print_values : List ℕ → String
unfolding decimal str_append
print_values [] = ""
print_values (v ∷ []) = decimal v
print_values (v ∷ w ∷ vs) = str_append (decimal v) (String.◌∷◌ comma (print_values (w ∷ vs)))

unfoldable pub is_value : ℕ → List ℕ → Bool
is_value v [] = false
is_value v (w ∷ ws) = v == w || is_value v ws

-- The last value that a field of the kind is written with: Sunday is written as 0.
abbrev pub last_value : FieldKind → ℕ
last_value k = if k.dow then 6 else k.max

pub data IsKind : FieldKind → Type 0 where
  is_minutes : IsKind minutes
  is_hours : IsKind hours
  is_days : IsKind days
  is_months : IsKind months
  is_weekdays : IsKind weekdays

unfoldable pub all_chars : (ℕ → Bool) → String → Bool
all_chars p String.[] = true
all_chars p (String.◌∷◌ c s) = p (code c) && all_chars p s

abbrev pub is_list_char : ℕ → Bool
is_list_char c = is_digit c || c == b','

abbrev pub is_number : ℕ → Parse ℕ → Bool
is_number v (parsed w) = w == v
is_number v _ = false

-- What the parsing needs of the text of a value.
unfoldable pub is_written : FieldKind → ℕ → Bool
is_written k v =
    let s = decimal v in
    all_chars is_digit s
    && not (is_empty s)
    && not (contains s "/")
    && not (contains s "-")
    && not (str_eq s "*")
    && elim (named s k.names) [ none ↦ true | some v ↦ false ]
    && is_number v (number_value k (atoi s))

all_below : (ℕ → Bool) → ℕ → Bool
all_below p zero = true
all_below p (suc n) = p n && all_below p n

all_below-lt : (p : ℕ → Bool) (n v : ℕ) → all_below p n ≡ true → v < n → p v ≡ true
unfolding all_below
all_below-lt p zero v h l = absurd (omega (arith, l))
all_below-lt p (suc n) v h l = elim (lt-suc v n l) [
  | inl e ↦ subst (λ w. p w ≡ true) (sym e) (ground (arith, h))
  | inr below ↦ all_below-lt p n v (ground (arith, h)) below
]
  where
    lt-suc : (v n : ℕ) → v < suc n → (v ≡ n) ⊎ (v < n)
    lt-suc v n l = ground (arith, l)

-- The text of a value of a field is one that the parsing takes for that value.
abbrev in_kind : FieldKind → ℕ → Bool
in_kind k v = ltb v k.min || is_written k v

IsKind-checked : (k : FieldKind) → IsKind k → all_below (in_kind k) (suc (last_value k)) ≡ true
unfolding all_below is_written all_chars decimal decimal_onto contains has_prefix named number_value
    atoi digits digits_from
IsKind-checked k is_minutes = refl
IsKind-checked k is_hours = refl
IsKind-checked k is_days = refl
IsKind-checked k is_months = refl
IsKind-checked k is_weekdays = refl

-- A value that a field of the kind can be written with.
pub record IsValue (k : FieldKind) (v : ℕ) : Type 0 where
  pub lo : k.min ≤ v
  pub hi : v ≤ last_value k

pub IsKind-written : (k : FieldKind) (v : ℕ) → IsKind k → IsValue k v → is_written k v ≡ true
IsKind-written k v i h = ground (
  arith,
  h.lo,
  all_below-lt (in_kind k) (suc (last_value k)) v (IsKind-checked k i) (omega (arith, h.hi)),
)

-- No blank is in a list of values, so nothing is trimmed.
trim_left-list : (s : String) → all_chars is_list_char s ≡ true → trim_left s ≡ s
unfolding all_chars trim_left is_space
trim_left-list String.[] h = refl
trim_left-list (String.◌∷◌ c s) h = ground (arith, h)

trim_right-list : (s : String) → all_chars is_list_char s ≡ true → trim_right s ≡ s
unfolding all_chars trim_right is_space
trim_right-list String.[] h = refl
trim_right-list (String.◌∷◌ c s) h = ground (arith, h, trim_right-list s (ground (arith, h)))

pub trim_space-list : (s : String) → all_chars is_list_char s ≡ true → trim_space s ≡ s
unfolding trim_space
trim_space-list s h = rw (trim_left-list s h) (trim_right-list s h)

pub all_chars-digits : (s : String) → all_chars is_digit s ≡ true → all_chars is_list_char s ≡ true
unfolding all_chars
all_chars-digits String.[] h = refl
all_chars-digits (String.◌∷◌ c s) h = ground (arith, h, all_chars-digits s (ground (arith, h)))

all_chars-append :
    (p : ℕ → Bool) (s t : String)
    → all_chars p s ≡ true
    → all_chars p t ≡ true
    → all_chars p (str_append s t) ≡ true
unfolding all_chars str_append
all_chars-append p String.[] t h k = k
all_chars-append p (String.◌∷◌ c s) t h k =
    ground (arith, h, all_chars-append p s t (ground (arith, h)) k)

split-last : (s : String) → all_chars is_digit s ≡ true → split b',' s ≡ s ∷ []
unfolding all_chars split extend
split-last String.[] h = refl
split-last (String.◌∷◌ c s) h = ground (arith, h, split-last s (ground (arith, h)))

split-comma :
    (s t : String)
    → all_chars is_digit s ≡ true
    → split b',' (str_append s (String.◌∷◌ comma t)) ≡ s ∷ split b',' t
unfolding all_chars split extend str_append
split-comma String.[] t h = refl
split-comma (String.◌∷◌ c s) t h = ground (arith, h, split-comma s t (ground (arith, h)))

module _ (k : FieldKind) (kind : IsKind k) where
  pub value_digits : (v : ℕ) → IsValue k v → all_chars is_digit (decimal v) ≡ true
  unfolding is_written
  value_digits v h = ground (arith, IsKind-written k v kind h)

  pub print_values-chars :
      (vs : List ℕ) → All (IsValue k) vs → all_chars is_list_char (print_values vs) ≡ true
  unfolding print_values all_chars
  print_values-chars [] h = refl
  print_values-chars (v ∷ []) (h, t) = all_chars-digits (decimal v) (value_digits v h)
  print_values-chars (v ∷ w ∷ vs) (h, t) =
      all_chars-append is_list_char (decimal v) (String.◌∷◌ comma (print_values (w ∷ vs)))
        (all_chars-digits (decimal v) (value_digits v h)) (print_values-chars (w ∷ vs) t)

  pub split-print_values :
      (v : ℕ) (vs : List ℕ)
      → All (IsValue k) (v ∷ vs)
      → split b',' (print_values (v ∷ vs)) ≡ map decimal (v ∷ vs)
  unfolding print_values
  split-print_values v [] (h, t) = split-last (decimal v) (value_digits v h)
  split-print_values v (w ∷ vs) (h, t) =
      split-comma (decimal v) (print_values (w ∷ vs)) (value_digits v h)
      ∙ ap (λ ws. decimal v ∷ ws) (split-print_values w vs t)
