-- ===== src/Prelude/Places.antt =====
-- Places in a list: what stands at an index, and what `take` and `drop` leave.
use Prim.Native.Nat.{ℕ, zero, suc, ◌-◌, ◌≤◌, ◌<◌}
use mathlib.Core.Path.{◌≡◌, refl, ap, ◌∙◌}
use mathlib.Core.Logic.{◌≢◌}
use mathlib.Core.Bool.{Bool}
use mathlib.Core.Option.{some}
use mathlib.Core.List.{List, [], ◌∷◌, ◌++◌}
use native.Mathlib.Omega.{arith}
use senechal_gw.Prelude.Lists.{length, get_elem?, set, take, drop, replicate, find?}

pub length-set {ℓ} : {A : Type ℓ} (xs : List A) (i : ℕ) (v : A) → length (set xs i v) ≡ length xs
length-set [] i v = refl
length-set (x ∷ xs) zero v = refl
length-set (x ∷ xs) (suc i) v = ap suc (length-set xs i v)

pub get-set {ℓ} :
    {A : Type ℓ} (xs : List A) (i : ℕ) (v : A) → i < length xs → get_elem? (set xs i v) i ≡ some v
get-set [] i v l = absurd (omega (arith, l))
get-set (x ∷ xs) zero v l = refl
get-set (x ∷ xs) (suc i) v l = get-set xs i v (omega (arith, l))

pub get-set_other {ℓ} :
    {A : Type ℓ} (xs : List A) (i k : ℕ) (v : A) → i ≢ k → get_elem? (set xs i v) k ≡ get_elem? xs k
get-set_other [] i k v n = refl
get-set_other (x ∷ xs) zero zero v n = absurd (n refl)
get-set_other (x ∷ xs) zero (suc k) v n = refl
get-set_other (x ∷ xs) (suc i) zero v n = refl
get-set_other (x ∷ xs) (suc i) (suc k) v n = get-set_other xs i k v (λ e. n (ap suc e))

pub get-append_left {ℓ} :
    {A : Type ℓ} (xs ys : List A) (k : ℕ) → k < length xs → get_elem? (xs ++ ys) k ≡ get_elem? xs k
get-append_left [] ys k l = absurd (omega (arith, l))
get-append_left (x ∷ xs) ys zero l = refl
get-append_left (x ∷ xs) ys (suc k) l = get-append_left xs ys k (omega (arith, l))

pub get-append_last {ℓ} :
    {A : Type ℓ} (xs : List A) (v : A) → get_elem? (xs ++ v ∷ []) (length xs) ≡ some v
get-append_last [] v = refl
get-append_last (x ∷ xs) v = get-append_last xs v

pub drop-get {ℓ} :
    {A : Type ℓ} (m : ℕ) (xs : List A) {x : A}
    → get_elem? xs m ≡ some x
    → drop m xs ≡ x ∷ drop (suc m) xs
drop-get zero [] e = cc
drop-get zero (x ∷ xs) e = ground (arith, e)
drop-get (suc m) [] e = cc
drop-get (suc m) (x ∷ xs) e = drop-get m xs e

pub get-inside {ℓ} :
    {A : Type ℓ} (xs : List A) (m : ℕ) → m < length xs → (x : A) × (get_elem? xs m ≡ some x)
get-inside [] m l = absurd (omega (arith, l))
get-inside (x ∷ xs) zero l = (x, refl)
get-inside (x ∷ xs) (suc m) l = get-inside xs m (omega (arith, l))

pub drop-all {ℓ} : {A : Type ℓ} (m : ℕ) (xs : List A) → m ≡ length xs → drop m xs ≡ []
drop-all zero [] e = refl
drop-all zero (x ∷ xs) e = absurd (omega (arith, e))
drop-all (suc m) [] e = refl
drop-all (suc m) (x ∷ xs) e = drop-all m xs (omega (arith, e))

pub length-replicate {ℓ} : {A : Type ℓ} (n : ℕ) (a : A) → length (replicate n a) ≡ n
length-replicate zero a = refl
length-replicate (suc n) a = ap suc (length-replicate n a)

pub take-append_short {ℓ} :
    {A : Type ℓ} (n : ℕ) (xs ys : List A)
    → length xs ≤ n
    → take n (xs ++ ys) ≡ xs ++ take (n - length xs) ys
take-append_short n [] ys l = ap (λ k. take k ys) (omega arith)
take-append_short zero (x ∷ xs) ys l = absurd (omega (arith, l))
take-append_short (suc n) (x ∷ xs) ys l =
    ap (λ zs. x ∷ zs)
      (take-append_short n xs ys (omega (arith, l)) ∙ ap (λ k. xs ++ take k ys) (omega arith))

pub take-append_long {ℓ} :
    {A : Type ℓ} (n : ℕ) (xs ys : List A) → n ≤ length xs → take n (xs ++ ys) ≡ take n xs
take-append_long zero xs ys l = refl
take-append_long (suc n) [] ys l = absurd (omega (arith, l))
take-append_long (suc n) (x ∷ xs) ys l =
    ap (λ zs. x ∷ zs) (take-append_long n xs ys (omega (arith, l)))

pub length-take_long {ℓ} :
    {A : Type ℓ} (n : ℕ) (xs : List A) → n ≤ length xs → length (take n xs) ≡ n
length-take_long zero xs l = refl
length-take_long (suc n) [] l = absurd (omega (arith, l))
length-take_long (suc n) (x ∷ xs) l = ap suc (length-take_long n xs (omega (arith, l)))

pub take_all {ℓ} : {A : Type ℓ} (n : ℕ) (xs : List A) → length xs ≤ n → take n xs ≡ xs
take_all zero [] l = refl
take_all zero (x ∷ xs) l = absurd (omega (arith, l))
take_all (suc n) [] l = refl
take_all (suc n) (x ∷ xs) l = ap (λ zs. x ∷ zs) (take_all n xs (omega (arith, l)))

pub take-nil {ℓ} : {A : Type ℓ} (n : ℕ) → take {A = A} n [] ≡ []
take-nil zero = refl
take-nil (suc n) = refl

pub take-zero {ℓ} : {A : Type ℓ} (n : ℕ) (xs : List A) → n ≡ 0 → take n xs ≡ []
take-zero zero xs e = refl
take-zero (suc n) xs e = absurd (omega (arith, e))

pub take-cons {ℓ} :
    {A : Type ℓ} (n m : ℕ) (x : A) (xs : List A) → n ≡ suc m → take n (x ∷ xs) ≡ x ∷ take m xs
take-cons zero m x xs e = absurd (omega (arith, e))
take-cons (suc n) m x xs e = ap (λ k. x ∷ take k xs) (omega (arith, e))

pub find?-append {ℓ} :
    {A : Type ℓ} (p : A → Bool) (xs ys : List A) {x : A}
    → find? p xs ≡ some x
    → find? p (xs ++ ys) ≡ some x
unfolding find?
find?-append p [] ys e = cc
find?-append p (y ∷ xs) ys {x} e = ground (arith, e, find?-append p xs ys {x = x})
