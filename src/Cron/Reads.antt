-- ===== src/Cron/Reads.antt =====
-- parseCronField of internal/scheduleexpr/cron.go reads a printed list of values back.
use senechal_gw.Prelude.{
  ℕ, zero, suc, ◌+◌, ◌-◌, ◌≤◌, ◌<◌, ◌≡◌, ◌⊎◌, ◌∙◌, refl, sym, subst, inl, inr, String, Bool, true,
  false, ◌&&◌, ◌||◌, List, [], ◌∷◌, map, set, All, length, replicate, arith, is_empty, split,
  decimal, ◌==◌, str_eq, eq_iff, Bool-cases, str_append,
}
use senechal_gw.Prelude.Places.{length-set}
use senechal_gw.Cron.{CronField, is_set, field_matches}
use senechal_gw.Cron.Parse.{
  parsed, FieldKind, parse_cron_value, parse_cron_range, mark_range, mark, mark_from, mark_base,
  apply_cron_segment, apply_segments, parse_cron_field, selects_from, no_values, cron_field,
}
use senechal_gw.Cron.Marks.{is_set-set}
use senechal_gw.Cron.Print.{
  print_values, is_value, last_value, IsKind, is_minutes, is_hours, is_days, is_months, is_weekdays,
  all_chars, is_list_char, is_written, IsValue, IsKind-written, trim_space-list, all_chars-digits,
  value_digits, print_values-chars, split-print_values, comma,
}

abbrev mark_each : List ℕ → List Bool → List Bool
mark_each [] xs = xs
mark_each (v ∷ vs) xs = mark_each vs (set xs v true)

-- The slice of a field of the kind, where Sunday is not marked as 7.
record IsSlice (k : FieldKind) (xs : List Bool) : Type 0 where
  sized : length xs ≡ suc k.max
  no_seven : (k.dow && is_set xs 7) ≡ false

-- strings.ToLower leaves a list of numbers as it is.
abbrev pub KeepsLists : (String → String) → Type 0
KeepsLists to_lower = (s : String) → all_chars is_list_char s ≡ true → to_lower s ≡ s

IsKind-max :
    (k : FieldKind) → IsKind k → (k.max ≤ 59) × (last_value k ≤ k.max) × (k.min ≤ last_value k)
IsKind-max k is_minutes = omega arith
IsKind-max k is_hours = omega arith
IsKind-max k is_days = omega arith
IsKind-max k is_months = omega arith
IsKind-max k is_weekdays = omega arith

length-replicate : (n : ℕ) → length (replicate n false) ≡ n
length-replicate zero = refl
length-replicate (suc n) = omega (arith, length-replicate n)

is_set-replicate : (n v : ℕ) → is_set (replicate n false) v ≡ false
is_set-replicate zero v = refl
is_set-replicate (suc n) zero = refl
is_set-replicate (suc n) (suc v) = is_set-replicate n v

module _ (to_lower : String → String) (keeps : KeepsLists to_lower) (k : FieldKind)
    (kind : IsKind k) where
  IsSlice-set : (v : ℕ) (xs : List Bool) → IsValue k v → IsSlice k xs → IsSlice k (set xs v true)
  IsSlice-set v xs h s =
      let (a, b, c) = IsKind-max k kind in
      record {
        sized = length-set xs v true ∙ s.sized;
        no_seven =
            ground
              (arith, h.hi, s.no_seven, b, is_set-set xs v 7 (omega (arith, s.sized, b, h.hi)));
      }

  parse_value : (v : ℕ) → IsValue k v → parse_cron_value to_lower k (decimal v) ≡ parsed v
  unfolding parse_cron_value is_written
  parse_value v h =
      let chars = all_chars-digits (decimal v) (value_digits k kind v h) in
      let written = IsKind-written k v kind h in
      rw (keeps (decimal v) chars)
        (rw (trim_space-list (decimal v) chars) (ground (arith, written)))

  mark_one :
      (v : ℕ) (xs : List Bool)
      → IsValue k v
      → IsSlice k xs
      → mark_range k 1 xs (v, v) ≡ parsed (set xs v true)
  unfolding mark_range mark mark_from
  mark_one v xs h s =
      let (a, b, c) = IsKind-max k kind in
      let one : suc v - v ≡ 1 = omega arith in
      let after = IsSlice-set v xs h s in ground (arith, one, a, b, h.hi, after.no_seven)

  segment_sets :
      (v : ℕ) (xs : List Bool)
      → IsValue k v
      → IsSlice k xs
      → apply_cron_segment to_lower k (decimal v) xs ≡ parsed (set xs v true)
  unfolding apply_cron_segment mark_base parse_cron_range is_written
  segment_sets v xs h s =
      ground (arith, IsKind-written k v kind h, parse_value v h, mark_one v xs h s)

  segments_set :
      (vs : List ℕ) (xs : List Bool)
      → All (IsValue k) vs
      → IsSlice k xs
      → apply_segments to_lower k (map decimal vs) xs ≡ parsed (mark_each vs xs)
  unfolding apply_segments is_written
  segments_set [] xs h s = refl
  segments_set (v ∷ vs) xs (h, t) s =
      let chars = all_chars-digits (decimal v) (value_digits k kind v h) in
      rw (trim_space-list (decimal v) chars) (
        ground (
          arith,
          IsKind-written k v kind h,
          segment_sets v xs h s,
          segments_set vs (set xs v true) t (IsSlice-set v xs h s),
        ))

  mark_each-sets :
      (vs : List ℕ) (xs : List Bool) (u : ℕ)
      → All (IsValue k) vs
      → IsSlice k xs
      → is_set (mark_each vs xs) u ≡ (is_set xs u || is_value u vs)
  unfolding is_value
  mark_each-sets [] xs u h s = ground arith
  mark_each-sets (v ∷ vs) xs u (h, t) s =
      let (a, b, c) = IsKind-max k kind in
      ground (
        arith,
        mark_each-sets vs (set xs v true) u t (IsSlice-set v xs h s),
        is_set-set xs v u (omega (arith, s.sized, b, h.hi)),
      )

  selects_from-value :
      (i n v : ℕ) (xs : List Bool)
      → i ≤ v
      → v < i + n
      → is_set xs v ≡ true
      → selects_from i n xs ≡ true
  selects_from-value i zero v xs a b h = absurd (omega (arith, a, b))
  selects_from-value i (suc n) v xs a b h = elim (later i v a) [
    | inl e ↦ ground (arith, subst (λ w. is_set xs w ≡ true) (sym e) h)
    | inr above ↦ ground (arith, selects_from-value (suc i) n v xs above (omega (arith, b)) h)
  ]
    where
      later : (i v : ℕ) → i ≤ v → (i ≡ v) ⊎ (suc i ≤ v)
      later i v h = ground (arith, h)

  blank-IsSlice : IsSlice k (no_values k)
  blank-IsSlice = record {
    sized = length-replicate (suc k.max);
    no_seven = ground (arith, is_set-replicate (suc k.max) 7);
  }

  is_value-IsValue : (vs : List ℕ) (u : ℕ) → All (IsValue k) vs → is_value u vs ≡ true → IsValue k u
  unfolding is_value
  is_value-IsValue [] u h e = absurd (ground (arith, e))
  is_value-IsValue (v ∷ vs) u (h, t) e = elim (Bool-cases (u == v)) [
    | inl same ↦ subst (IsValue k) (ground (arith, same)) h
    | inr other ↦ is_value-IsValue vs u t (ground (arith, other, e))
  ]

  matches_values :
      (vs : List ℕ) (u : ℕ)
      → All (IsValue k) vs
      → field_matches (cron_field k false (mark_each vs (no_values k))) u ≡ is_value u vs
  unfolding field_matches
  matches_values vs u h =
      let (a, b, c) = IsKind-max k kind in
      let sets = mark_each-sets vs (no_values k) u h blank-IsSlice in
      elim (Bool-cases (is_value u vs)) [
        | inl t ↦
            let value = is_value-IsValue vs u h t in ground (arith, t, sets, value.lo, value.hi, b)
        | inr n ↦ ground (arith, n, sets, is_set-replicate (suc k.max) u)
      ]

is_value_self : (v : ℕ) (vs : List ℕ) → is_value v (v ∷ vs) ≡ true
unfolding is_value
is_value_self v vs = ground arith

not_star : (s : String) → all_chars is_list_char s ≡ true → str_eq s "*" ≡ false
unfolding all_chars
not_star s h = elim (Bool-cases (str_eq s "*")) [
  | inl e ↦ let star = subst (λ t. all_chars is_list_char t ≡ true) ((eq_iff s "*").0 e) h in cc
  | inr n ↦ n
]

append-not_empty : (s t : String) → is_empty s ≡ false → is_empty (str_append s t) ≡ false
unfolding str_append
append-not_empty String.[] t h = absurd (ground (arith, h))
append-not_empty (String.◌∷◌ c s) t h = refl

print_values-not_empty :
    (k : FieldKind) (kind : IsKind k) (v : ℕ) (vs : List ℕ)
    → All (IsValue k) (v ∷ vs)
    → is_empty (print_values (v ∷ vs)) ≡ false
unfolding print_values is_written
print_values-not_empty k kind v [] (h, t) = ground (arith, IsKind-written k v kind h)
print_values-not_empty k kind v (w ∷ vs) (h, t) =
    append-not_empty (decimal v) (String.◌∷◌ comma (print_values (w ∷ vs)))
      (ground (arith, IsKind-written k v kind h))

-- A list of values that is printed with commas is read back, as a field that allows exactly those values
-- and does not count as any.
pub parse_cron_field-print_values :
    (to_lower : String → String) (k : FieldKind) (v : ℕ) (vs : List ℕ)
    → KeepsLists to_lower
    → IsKind k
    → All (IsValue k) (v ∷ vs)
    → (f : CronField) × (parse_cron_field to_lower k (print_values (v ∷ vs)) ≡ parsed f)
      × (f.any ≡ false)
      × ((u : ℕ) → field_matches f u ≡ is_value u (v ∷ vs))
unfolding parse_cron_field
parse_cron_field-print_values to_lower k v vs keeps kind h =
    let shown = print_values (v ∷ vs) in
    let chars = print_values-chars k kind (v ∷ vs) h in
    let marked = mark_each (v ∷ vs) (no_values k) in
    let blank = blank-IsSlice to_lower keeps k kind in
    let (a, b, c) = IsKind-max k kind in
    let sets = mark_each-sets to_lower keeps k kind (v ∷ vs) (no_values k) in
    let first = is_value_self v vs in
    let chosen =
      selects_from-value to_lower keeps k kind k.min (suc k.max - k.min) v marked h.0.lo
        (omega (arith, b, h.0.lo, h.0.hi)) (ground (arith, sets v h blank, first)) in
    let read : apply_segments to_lower k (split b',' shown) (no_values k) ≡ parsed marked =
      rw (split-print_values k kind v vs h)
        (segments_set to_lower keeps k kind (v ∷ vs) (no_values k) h blank) in
    (
      cron_field k false marked,
      rw (keeps shown chars) (
          rw (trim_space-list shown chars) (
            ground
              (arith, print_values-not_empty k kind v vs h, not_star shown chars, read, chosen))),
      refl,
      λ u. matches_values to_lower keeps k kind (v ∷ vs) u h,
    )
