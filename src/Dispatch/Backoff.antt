-- ===== src/Dispatch/Backoff.antt =====
-- calculateBackoffDelay of internal/dispatch/dispatcher.go, in the machine's 64-bit integers.
use senechal_gw.Prelude.{
  ℕ, zero, suc, ◌+◌, ◌-◌, ◌*◌, ◌%◌, ◌^◌, ◌≤◌, ◌<◌, ◌≡◌, refl, ap, ◌∙◌, inl, inr, Bool, ◌||◌, arith,
  leb, ltb, ◌==◌, Bool-cases, if◌then◌else◌,
}
use native.Mathlib.Nat.{pow-le-pow_right, pow-suc, mul-le-mul_left}
use senechal_gw.Config.{default_backoff_base}

-- A 64-bit word; it is negative from 2^63 on.
abbrev pub wrap : ℕ → ℕ
wrap x = x % 2 ^ 64

abbrev pub is_negative : ℕ → Bool
is_negative x = leb (2 ^ 63) x

-- max(int64(math.Pow(2, float64(attempt-1))), 1). A power from 2^63 on has no int64: what the
-- conversion gives then depends on the machine, and is an argument.
unfoldable pub backoff_factor : ℕ → ℕ → ℕ
backoff_factor out_of_range exponent =
    if ltb exponent 63
    then 2 ^ exponent
    else if is_negative out_of_range || out_of_range == 0
    then 1
    else out_of_range

-- delay, or the base where it is negative
abbrev pub or_base : ℕ → ℕ → ℕ
or_base base delay = if is_negative delay then base else delay

-- calculateBackoffDelay; a base or an attempt of 0 stands for 0 and below
unfoldable pub calculate_backoff_delay : ℕ → ℕ → ℕ → ℕ → ℕ
unfolding backoff_factor
calculate_backoff_delay out_of_range base attempt jitter =
    let base' = if 0 == base then default_backoff_base else base in
    let delay = or_base base' (wrap (backoff_factor out_of_range (attempt - 1) * base')) in
    or_base base' (wrap (delay + jitter))

wrap-lt : (x : ℕ) → wrap x < 2 ^ 64
wrap-lt x = ground arith

-- Whatever the attempt is and whatever the multiplication wraps to, the delay is never negative: for a
-- base and a jitter of 0 and above.
pub calculate_backoff_delay-lt :
    (out_of_range base attempt jitter : ℕ)
    → base < 2 ^ 63
    → jitter < 2 ^ 63
    → calculate_backoff_delay out_of_range base attempt jitter < 2 ^ 63
unfolding calculate_backoff_delay
calculate_backoff_delay-lt out_of_range base attempt jitter b j = ground arith

exponent-lt : (n base : ℕ) → 0 < base → 2 ^ n * base < 2 ^ 63 → n < 63
exponent-lt n base p h = elim (Bool-cases (ltb n 63)) [
  | inl t ↦ ground (arith, t)
  | inr t ↦
      let q : 2 ^ 63 ≤ 2 ^ n =
        pow-le-pow_right (omega arith) {i = 63} {j = n} (ground (arith, t)) in
      let r : 2 ^ n * 1 ≤ 2 ^ n * base = mul-le-mul_left (2 ^ n) p in
      absurd (omega (arith, h, q, r))
]

-- Where the exact delay fits the 64-bit integer, it is the result: the base doubled with every attempt
-- after the first, and the jitter.
pub calculate_backoff_delay-doubles :
    (out_of_range base attempt jitter : ℕ)
    → 0 < base
    → 2 ^ (attempt - 1) * base + jitter < 2 ^ 63
    → calculate_backoff_delay out_of_range base attempt jitter ≡ 2 ^ (attempt - 1) * base + jitter
unfolding calculate_backoff_delay backoff_factor
calculate_backoff_delay-doubles out_of_range base attempt jitter p h =
    let e = exponent-lt (attempt - 1) base p (omega (arith, h)) in
    let r : 2 ^ (attempt - 1) * base < 2 ^ 63 = omega (arith, h) in ground (arith, e, p, h, r)

pow_split : (m : ℕ) → 2 ^ (m + 54) ≡ 2 ^ m * 2 ^ 54
pow_split zero = refl
pow_split (suc m) =
    ap (λ k. 2 ^ k) (omega arith) ∙ pow-suc 2 (m + 54) ∙ ground (arith, pow_split m, pow-suc 2 m)

-- With the default base of 30 seconds the attempts 55 to 63 wait for the jitter alone: the
-- multiplication wraps to 0, which is not negative, so the base does not replace it.
pub calculate_backoff_delay-wraps :
    (out_of_range attempt jitter : ℕ)
    → 55 ≤ attempt
    → attempt ≤ 63
    → jitter < 2 ^ 63
    → calculate_backoff_delay out_of_range default_backoff_base attempt jitter ≡ jitter
unfolding calculate_backoff_delay backoff_factor
calculate_backoff_delay-wraps out_of_range attempt jitter l u h =
    let e : attempt - 1 ≡ (attempt - 55) + 54 = omega (arith, l) in
    let q = ap (λ k. 2 ^ k) e ∙ pow_split (attempt - 55) in ground (arith, l, u, h, q)
