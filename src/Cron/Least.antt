-- ===== src/Cron/Least.antt =====
-- NextAfter of internal/scheduleexpr/cron.go gives the first time that matches.
use senechal_gw.Prelude.{
  ℕ, zero, suc, ◌+◌, ◌-◌, ◌*◌, ◌/◌, ◌≤◌, ◌<◌, ◌≡◌, ◌⊎◌, subst, refl, inl, inr, true, false, Option,
  none, some, arith, Bool-cases,
}
use senechal_gw.Cron.{CronExpression}
use senechal_gw.Cron.Next.{
  Location, minute_length, matches_at, search_from, next_minute, at_minute, next_after,
}

-- No minute from `m` on, of those given, matches.
abbrev pub Silent : CronExpression → Location → ℕ → ℕ → Type 0
Silent c l m n = (u : ℕ) → m ≤ u → u < n → matches_at c l u ≡ false

-- `m` is the first minute after `from` that matches, and within five years.
pub record IsNext (c : CronExpression) (l : Location) (from m : ℕ) : Type 0 where
  pub after : from < m
  pub in_time : m ≤ l.five_years_after (suc from)
  pub hit : matches_at c l m ≡ true
  pub first : Silent c l (suc from) m

at_or_after : (m u : ℕ) → m ≤ u → (m ≡ u) ⊎ (suc m ≤ u)
at_or_after m u h = ground (arith, h)

silent-step :
    (c : CronExpression) (l : Location) (m n : ℕ)
    → matches_at c l m ≡ false
    → Silent c l (suc m) n
    → Silent c l m n
silent-step c l m n miss rest u a b = elim (at_or_after m u a) [
  | inl e ↦ subst (λ w. matches_at c l w ≡ false) e miss
  | inr later ↦ rest u later b
]

search_from-finds :
    (rounds : ℕ) (c : CronExpression) (l : Location) (m t : ℕ)
    → search_from rounds c l m ≡ some t
    → (m ≤ t) × (t < m + rounds) × (matches_at c l t ≡ true) × Silent c l m t
unfolding search_from
search_from-finds zero c l m t h = absurd (ground (arith, h))
search_from-finds (suc rounds) c l m t h = elim (Bool-cases (matches_at c l m)) [
  | inl hit ↦
      let e : m ≡ t = ground (arith, hit, h) in
      (
        omega (arith, e),
        omega (arith, e),
        subst (λ w. matches_at c l w ≡ true) e hit,
        λ u a b. absurd (omega (arith, e, a, b)),
      )
  | inr miss ↦
      let (a, b, hit, rest) = search_from-finds rounds c l (suc m) t (ground (arith, miss, h)) in
      (omega (arith, a), omega (arith, b), hit, silent-step c l m t miss rest)
]

search_from-none :
    (rounds : ℕ) (c : CronExpression) (l : Location) (m : ℕ)
    → search_from rounds c l m ≡ none
    → Silent c l m (m + rounds)
unfolding search_from
search_from-none zero c l m h = λ u a b. absurd (omega (arith, a, b))
search_from-none (suc rounds) c l m h = elim (Bool-cases (matches_at c l m)) [
  | inl hit ↦ absurd (ground (arith, hit, h))
  | inr miss ↦ silent-step c l m (m + suc rounds) miss (λ u a b.
      search_from-none rounds c l (suc m) (ground (arith, miss, h)) u a (omega (arith, b)))
]

at_minute-some :
    (o : Option ℕ) (t : ℕ) → at_minute o ≡ some t → (m : ℕ) × (o ≡ some m) × (t ≡ m * minute_length)
at_minute-some none t h = absurd (ground (arith, h))
at_minute-some (some m) t h = (m, refl, ground (arith, h))

at_minute-none : (o : Option ℕ) → at_minute o ≡ none → o ≡ none
at_minute-none none h = refl
at_minute-none (some m) h = absurd (ground (arith, h))

-- NextAfter gives the start of the first minute after the given time that matches, where one of the next
-- five years does; where it gives none, no minute of them matches.
pub next_after-IsNext :
    (c : CronExpression) (l : Location) (from : ℕ)
    → ((t : ℕ)
        → next_after c l from ≡ some t
        → (m : ℕ) × (t ≡ m * minute_length) × IsNext c l (from / minute_length) m)
      × (next_after c l from ≡ none
          → (m : ℕ) → from / minute_length < m
          → m ≤ l.five_years_after (suc (from / minute_length))
          → matches_at c l m ≡ false)
unfolding next_after next_minute
next_after-IsNext c l from =
    let start = suc (from / minute_length) in
    let last = l.five_years_after start in
    (
      λ t h.
          let (m, found, e) = at_minute-some (search_from (suc last - start) c l start) t h in
          let (a, b, hit, rest) = search_from-finds (suc last - start) c l start m found in
          (m, e, record { after = a; in_time = omega (arith, a, b); hit = hit; first = rest }),
      λ h m a b.
          search_from-none (suc last - start) c l start
            (at_minute-none (search_from (suc last - start) c l start) h) m a (omega (arith, a, b)),
    )
