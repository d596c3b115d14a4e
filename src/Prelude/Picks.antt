-- ===== src/Prelude/Picks.antt =====
-- One row picked out of a table whose keys are unique: `p` is what it is picked by, `q` its key.
use Prim.Native.Nat.{◌≤◌}
use mathlib.Core.Path.{◌≡◌, refl}
use mathlib.Core.Bool.{Bool, true, false}
use mathlib.Core.Option.{some}
use mathlib.Core.List.{List, [], ◌∷◌, map}
use native.Mathlib.Omega.{arith}
use senechal_gw.Prelude.Lists.{select, count_p, find?, update_where}
use senechal_gw.Prelude.Rows.{count_p-select_le}

module _ {ℓ} {A : Type ℓ} where
  pub update_where-none :
      (q : A → Bool) (f : A → A) (xs : List A) → count_p q xs ≡ 0 → update_where q f xs ≡ xs
  unfolding count_p update_where
  update_where-none q f [] h = refl
  update_where-none q f (x ∷ xs) h = ground (arith, h, update_where-none q f xs)

  -- The first row that is picked is the row of its key.
  pub find?-picked :
      (p q : A → Bool) (xs : List A) {j : A} {js : List A}
      → select p xs ≡ j ∷ js
      → q j ≡ true
      → count_p q xs ≤ 1
      → find? q xs ≡ some j
  unfolding select count_p find?
  find?-picked p q [] e h u = cc
  find?-picked p q (x ∷ xs) {j} {js} e h u =
      ground (arith, e, h, u, find?-picked p q xs {j = j} {js = js}, count_p-select_le p q xs)

  -- Where the update of the row stops it from being picked, the others are left.
  pub select-update_picked :
      (p q : A → Bool) (f : A → A) (xs : List A) {j : A} {js : List A}
      → select p xs ≡ j ∷ js
      → q j ≡ true
      → p (f j) ≡ false
      → count_p q xs ≤ 1
      → select p (update_where q f xs) ≡ js
  unfolding select count_p update_where
  select-update_picked p q f [] e h n u = cc
  select-update_picked p q f (x ∷ xs) {j} {js} e h n u = ground (
    arith,
    e,
    h,
    n,
    u,
    select-update_picked p q f xs {j = j} {js = js},
    count_p-select_le p q xs,
    update_where-none q f xs,
  )

  -- An update of one row depends on what it makes of that row only.
  pub update_where-picked :
      (p q : A → Bool) (f g : A → A) (xs : List A) {j : A} {js : List A}
      → select p xs ≡ j ∷ js
      → q j ≡ true
      → f j ≡ g j
      → count_p q xs ≤ 1
      → update_where q f xs ≡ update_where q g xs
  unfolding select count_p update_where
  update_where-picked p q f g [] e h n u = refl
  update_where-picked p q f g (x ∷ xs) {j} {js} e h n u = ground (
    arith,
    e,
    h,
    n,
    u,
    update_where-picked p q f g xs {j = j} {js = js},
    count_p-select_le p q xs,
    update_where-none q f xs,
    update_where-none q g xs,
  )

  pub map-update_picked :
      (p q : A → Bool) (f : A → A) (xs : List A) {j : A} {js : List A}
      → select p xs ≡ j ∷ js
      → q j ≡ true
      → f (f j) ≡ f j
      → count_p q xs ≤ 1
      → map f (update_where q f xs) ≡ map f xs
  unfolding select count_p update_where
  map-update_picked p q f [] e h n u = refl
  map-update_picked p q f (x ∷ xs) {j} {js} e h n u = ground (
    arith,
    e,
    h,
    n,
    u,
    map-update_picked p q f xs {j = j} {js = js},
    count_p-select_le p q xs,
    update_where-none q f xs,
  )

  pub map-none :
      (p : A → Bool) (f : A → A)
      → ((x : A) → p x ≡ false → f x ≡ x)
      → (xs : List A) → select p xs ≡ []
      → map f xs ≡ xs
  unfolding select
  map-none p f h [] e = refl
  map-none p f h (x ∷ xs) e = ground (arith, e, h x, map-none p f h xs)

  pub find?-update :
      (q : A → Bool) (g : A → A)
      → ((x : A) → q (g x) ≡ q x)
      → (xs : List A) {j : A} → find? q xs ≡ some j
      → find? q (update_where q g xs) ≡ some (g j)
  unfolding find? update_where
  find?-update q g h [] e = cc
  find?-update q g h (x ∷ xs) {j} e = ground (arith, e, h x, find?-update q g h xs {j = j})

  pub update-update :
      (q : A → Bool) (f g : A → A)
      → ((x : A) → q (g x) ≡ q x)
      → (xs : List A) → update_where q f (update_where q g xs) ≡ update_where q (λ x. f (g x)) xs
  unfolding update_where
  update-update q f g h [] = refl
  update-update q f g h (x ∷ xs) = ground (arith, h x, update-update q f g h xs)
