-- ===== src/Cron/Marks.antt =====
-- The loop of applyCronSegment in internal/scheduleexpr/cron.go: which values it marks.
use native.Mathlib.Nat.{mod-eq_of_lt, mod-eq-sub-mod}
use senechal_gw.Prelude.{
  ℕ, zero, suc, ◌+◌, ◌-◌, ◌%◌, ◌^◌, ◌↔◌, ◌≤◌, ◌<◌, ◌≡◌, ◌≢◌, refl, subst, ap, ◌∙◌, ◌⊎◌, inl, inr,
  Bool, true, false, ◌&&◌, ◌||◌, List, [], ◌∷◌, arith, set, length, ltb, leb, ◌==◌, Bool-cases,
}
use senechal_gw.Prelude.Places.{length-set}
use senechal_gw.Cron.{is_set}
use senechal_gw.Cron.Parse.{
  Parse, parsed, invalid, panics, ◌>>=◌, int_limit, mark_from, mark, FieldKind, fold_sunday,
  mark_range,
}

pub is_set-set :
    (xs : List Bool) (i v : ℕ) → i < length xs → is_set (set xs i true) v ≡ (is_set xs v || v == i)
is_set-set [] i v h = absurd (omega (arith, h))
is_set-set (x ∷ xs) zero zero h = ground arith
is_set-set (x ∷ xs) zero (suc v) h = ground arith
is_set-set (x ∷ xs) (suc i) zero h = ground arith
is_set-set (x ∷ xs) (suc i) (suc v) h = ground (arith, is_set-set xs i v (omega (arith, h)))

-- The values of a range: from `start` to `end`, a multiple of the step above `start`.
unfoldable pub in_range : ℕ → ℕ → ℕ → ℕ → Bool
in_range start end step v = leb start v && leb v end && (v - start) % step == 0

rem-start : (i step : ℕ) → 0 < step → (i - i) % step ≡ 0
rem-start i step p =
    let none_left : i - i ≡ 0 = omega arith in ap (λ n. n % step) none_left ∙ mod-eq_of_lt p

rem-below : (i v step : ℕ) → 0 < step → v < i + step → (v - i) % step ≡ v - i
rem-below i v step p h = mod-eq_of_lt (omega (arith, p, h))

order : (v i step : ℕ) → (v < i) ⊎ ((v ≡ i) ⊎ (((i < v) × (v < i + step)) ⊎ (i + step ≤ v)))
order v i step = ground arith

rem-next : (i v step : ℕ) → i + step ≤ v → (v - i) % step ≡ (v - (i + step)) % step
rem-next i v step h = mod-eq-sub-mod (omega (arith, h)) ∙ ap (λ n. n % step) (omega (arith, h))

-- A value of a range is its start, or one of the range from the next value on.
in_range-step :
    (i end step v : ℕ)
    → 0 < step
    → i ≤ end
    → in_range i end step v ≡ (v == i || in_range (i + step) end step v)
unfolding in_range
in_range-step i end step v p h = elim (order v i step) [
  | inl below ↦ ground (arith, below, h)
  | inr (inl e) ↦ rw e (ground (arith, h, rem-start i step p))
  | inr (inr (inl (a, b))) ↦ ground (arith, a, b, h, rem-below i v step p b)
  | inr (inr (inr above)) ↦ ground (arith, above, p, h, rem-next i v step above)
]

empty-range : (i end step v : ℕ) → end < i → in_range i end step v ≡ false
unfolding in_range
empty-range i end step v h = ground (arith, h)

pub mark_from-marks :
    (fuel i end step : ℕ) (xs ys : List Bool)
    → mark_from fuel i end step xs ≡ parsed ys
    → suc end - i ≤ fuel
    → 0 < step
    → end < length xs
    → (length ys ≡ length xs) × ((v : ℕ) → is_set ys v ≡ (is_set xs v || in_range i end step v))
unfolding mark_from
mark_from-marks zero i end step xs ys h f p l =
    (ground (arith, h), λ v. ground (arith, h, empty-range i end step v (omega (arith, f))))
mark_from-marks (suc fuel) i end step xs ys h f p l = elim (Bool-cases (leb i end)) [
  | inl t ↦
      let below : i < length xs = ground (arith, t, l) in
      elim (Bool-cases (leb int_limit (i + step))) [
        | inl over ↦ absurd (ground (arith, t, over, h))
        | inr under ↦
            let (same, marks) =
              mark_from-marks fuel (i + step) end step (set xs i true) ys
                (ground (arith, t, under, h)) (ground (arith, t, f, p)) p
                (omega (arith, l, length-set xs i true)) in
            (
              same ∙ length-set xs i true,
              λ v.
                  marks v
                  ∙ ap (λ b. b || in_range (i + step) end step v) (is_set-set xs i v below)
                  ∙ ground (arith, in_range-step i end step v p (ground (arith, t))),
            )
      ]
  | inr n ↦ (
    ground (arith, n, h),
    λ v. ground (arith, n, h, empty-range i end step v (ground (arith, n))),
  )
]

pub parsed-bind :
    {A B : Type 0} (m : Parse A) (f : A → Parse B) {b : B}
    → (m >>= f) ≡ parsed b
    → (a : A) × (m ≡ parsed a) × (f a ≡ parsed b)
parsed-bind (parsed a) f h = (a, refl, h)
parsed-bind (invalid e) f h = absurd (ground (arith, h))
parsed-bind panics f h = absurd (ground (arith, h))

fold_sunday-set :
    (k : FieldKind) (xs : List Bool) (v : ℕ)
    → 0 < length xs
    → is_set (fold_sunday k xs) v ≡ (is_set xs v || (k.dow && v == 0 && is_set xs 7))
fold_sunday-set k xs v h = ground (arith, is_set-set xs 0 v h)

length-fold_sunday : (k : FieldKind) (xs : List Bool) → length (fold_sunday k xs) ≡ length xs
length-fold_sunday k xs = ground (arith, length-set xs 0 true)

-- A range of the field of a kind: the values of the range and those marked before, and with them 0 where
-- 7 is one of them and stands for Sunday.
unfoldable pub is_marked : FieldKind → ℕ → List Bool → ℕ × ℕ → ℕ → Bool
is_marked k step xs (start, end) v =
    let marked = λ (w : ℕ). is_set xs w || in_range start end step w in
    marked v || (k.dow && v == 0 && marked 7)

-- A range marks the values from its start to its end that are a multiple of the step above the start, and
-- with Sunday as 7 also Sunday as 0; it leaves all others as they are, and the field as long as it is.
pub mark_range-marks :
    (k : FieldKind) (start end step : ℕ) (xs ys : List Bool)
    → mark_range k step xs (start, end) ≡ parsed ys
    → 0 < step
    → end < length xs
    → (start ≤ end)
      × (length ys ≡ length xs)
      × ((v : ℕ) → is_set ys v ≡ is_marked k step xs (start, end) v)
unfolding mark_range mark is_marked
mark_range-marks k start end step xs ys h p l = elim (Bool-cases (ltb end start)) [
  | inl t ↦ absurd (ground (arith, t, h))
  | inr n ↦
      let (zs, m, e) =
        parsed-bind (mark_from (suc end - start) start end step xs) (λ a. parsed (fold_sunday k a))
          {b = ys} (ground (arith, n, h)) in
      let (same, marks) =
        mark_from-marks (suc end - start) start end step xs zs m (omega arith) p l in
      let result : fold_sunday k zs ≡ ys = ground (arith, e) in
      (
        ground (arith, n),
        subst (λ w. length w ≡ length xs) result (length-fold_sunday k zs ∙ same),
        λ v.
            subst (λ w. is_set w v ≡ is_marked k step xs (start, end) v) result
              (fold_sunday-set k zs v (omega (arith, same, l)) ∙ ground (arith, marks v, marks 7)),
      )
]

never-panics :
    (fuel i end step : ℕ) (xs : List Bool)
    → end + step < int_limit
    → mark_from fuel i end step xs ≢ panics
unfolding mark_from
never-panics zero i end step xs h e = absurd (ground (arith, e))
never-panics (suc fuel) i end step xs h e = elim (Bool-cases (leb i end)) [
  | inl t ↦
      let small : leb int_limit (i + step) ≡ false = ground (arith, t, h) in
      never-panics fuel (i + step) end step (set xs i true) h (ground (arith, t, small, e))
  | inr n ↦ absurd (ground (arith, n, e))
]

stops : (fuel i end step : ℕ) (xs : List Bool) → end < i → mark_from fuel i end step xs ≡ parsed xs
unfolding mark_from
stops zero i end step xs h = refl
stops (suc fuel) i end step xs h = ground (arith, h)

first-step :
    (fuel i end step : ℕ) (xs : List Bool)
    → i ≤ end
    → i + step < int_limit
    → mark_from (suc fuel) i end step xs ≡ mark_from fuel (i + step) end step (set xs i true)
unfolding mark_from
first-step fuel i end step xs h l = ground (arith, h, l)

overflows :
    (fuel i end step : ℕ) (xs : List Bool)
    → i ≤ end
    → int_limit ≤ i + step
    → mark_from (suc fuel) i end step xs ≡ panics
unfolding mark_from
overflows fuel i end step xs h l = ground (arith, h, l)

-- The loop over the values of a range goes out of the slice exactly where the first step from the start
-- has no int: the ends of a field are small, so a step that it can take twice is small too.
pub mark-panics :
    (start end step : ℕ) (xs : List Bool)
    → start ≤ end
    → end < 2 ^ 62
    → 0 < step
    → (mark start end step xs ≡ panics) ↔ (int_limit ≤ start + step)
unfolding mark
mark-panics start end step xs h l p =
    let rounds : suc end - start ≡ suc (end - start) = omega (arith, h) in
    (
      λ e. elim (Bool-cases (leb int_limit (start + step))) [
        | inl t ↦ ground (arith, t)
        | inr n ↦ elim (Bool-cases (ltb end step)) [
          | inl over ↦ absurd (
              ground (
                arith,
                e,
                rounds,
                first-step (end - start) start end step xs h (ground (arith, n)),
                stops (end - start) (start + step) end step (set xs start true)
                    (ground (arith, over)),
              ))
          | inr within ↦
              absurd
                (never-panics (suc end - start) start end step xs (ground (arith, within, l)) e)
        ]
      ],
      λ big. rw rounds (overflows (end - start) start end step xs h big),
    )
