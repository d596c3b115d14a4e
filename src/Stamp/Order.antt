-- ===== src/Stamp/Order.antt =====
-- The order of the texts that the time columns hold, against the order of the times.
use senechal_gw.Prelude.{
  ℕ, ◌+◌, ◌/◌, ◌%◌, ◌<◌, ◌≡◌, refl, ◌⊎◌, inl, inr, true, List, [], ◌∷◌, ◌++◌, false, arith,
}
use senechal_gw.Stamp.{giga, format, after_second, second_text, lex_le, stamp_le, stamp_lt}

lex_le_refl : (xs : List ℕ) → lex_le xs xs ≡ true
unfolding lex_le
lex_le_refl [] = refl
lex_le_refl (x ∷ xs) = ground (arith, lex_le_refl xs)

lex_le_total : (xs ys : List ℕ) → (lex_le xs ys ≡ true) ⊎ (lex_le ys xs ≡ true)
unfolding lex_le
lex_le_total [] ys = inl refl
lex_le_total (x ∷ xs) [] = inr refl
lex_le_total (x ∷ xs) (y ∷ ys) = ground (arith, lex_le_total xs ys)

lex_le_trans : (xs ys zs : List ℕ) → lex_le xs ys ≡ true → lex_le ys zs ≡ true → lex_le xs zs ≡ true
unfolding lex_le
lex_le_trans [] ys zs p q = refl
lex_le_trans (x ∷ xs) [] zs p q = cc
lex_le_trans (x ∷ xs) (y ∷ ys) [] p q = cc
lex_le_trans (x ∷ xs) (y ∷ ys) (z ∷ zs) p q = ground (arith, lex_le_trans xs ys zs)

stamp_le_refl : (a : ℕ) → stamp_le a a ≡ true
unfolding stamp_le
stamp_le_refl a = lex_le_refl (format a)

pub stamp_le_total : (a b : ℕ) → (stamp_le a b ≡ true) ⊎ (stamp_le b a ≡ true)
unfolding stamp_le
stamp_le_total a b = lex_le_total (format a) (format b)

pub stamp_le_trans : (a b c : ℕ) → stamp_le a b ≡ true → stamp_le b c ≡ true → stamp_le a c ≡ true
unfolding stamp_le
stamp_le_trans a b c p q = lex_le_trans (format a) (format b) (format c) p q

-- What stands in front of two texts does not count.
lex_le-++ : (xs ys zs : List ℕ) → lex_le (xs ++ ys) (xs ++ zs) ≡ lex_le ys zs
unfolding lex_le
lex_le-++ [] ys zs = refl
lex_le-++ (x ∷ xs) ys zs = ground (arith, lex_le-++ xs ys zs)

whole_after_fraction : (d : ℕ) → 0 < d → lex_le (after_second 0) (after_second d) ≡ false
unfolding lex_le after_second
whole_after_fraction d p = ground arith

stamp_le-format :
    (a b : ℕ)
    → stamp_le a b
      ≡ lex_le
          (second_text (a / giga) ++ after_second (a % giga))
          (second_text (b / giga) ++ after_second (b % giga))
unfolding stamp_le
stamp_le-format a b = refl

-- Within a second the text order is not that of the times: a time with a fraction has a text below
-- that of the whole second that it follows, as its `.` is below `Z`.
pub fraction_before_whole : (t d : ℕ) → t % giga ≡ 0 → 0 < d → d < giga → stamp_lt (t + d) t ≡ true
fraction_before_whole t d w p q =
    let same : (t + d) / giga ≡ t / giga = omega arith in
    let nano : (t + d) % giga ≡ d = omega arith in
    rw (stamp_le-format t (t + d), same, nano, w, lex_le-++, whole_after_fraction d p) refl
