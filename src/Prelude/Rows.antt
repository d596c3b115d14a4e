-- ===== src/Prelude/Rows.antt =====
-- Laws of the table operations of Lists: counting, selecting and updating rows.
use mathlib.Core.Path.{◌≡◌, refl, sym, ◌∙◌, subst}
use mathlib.Core.Logic.{inl, inr}
use mathlib.Core.Bool.{Bool, true, false}
use mathlib.Core.List.{List, [], ◌∷◌, ◌++◌, Memᴰ}
use mathlib.Core.Option.{some}
use native.Mathlib.Omega.{arith}
use Prim.Native.Nat.{◌+◌, ◌≤◌}
use senechal_gw.Prelude.Tests.{Bool-cases}
use senechal_gw.Prelude.Lists.{select, any, count_p, find?, update_where, All}

module _ {ℓ} {A : Type ℓ} where
  pub count_p-append :
      (p : A → Bool) (xs ys : List A) → count_p p (xs ++ ys) ≡ count_p p xs + count_p p ys
  unfolding count_p
  count_p-append p [] ys = omega arith
  count_p-append p (x ∷ xs) ys = ground (arith, count_p-append p xs ys)

  pub count_p-select_le : (p q : A → Bool) (xs : List A) → count_p q (select p xs) ≤ count_p q xs
  unfolding count_p select
  count_p-select_le p q [] = omega arith
  count_p-select_le p q (x ∷ xs) = ground (arith, count_p-select_le p q xs)

  -- An update adds at most the rows that it touches.
  pub count_p-update_le :
      (p q : A → Bool) (f : A → A) (xs : List A)
      → count_p q (update_where p f xs) ≤ count_p q xs + count_p p xs
  unfolding count_p update_where
  count_p-update_le p q f [] = omega arith
  count_p-update_le p q f (x ∷ xs) = ground (arith, count_p-update_le p q f xs)

  -- An update that gives no row the property does not raise its count.
  pub count_p-update_keep :
      (p q : A → Bool) (f : A → A) (xs : List A)
      → All (λ x. p x ≡ true → q (f x) ≡ true → q x ≡ true) xs
      → count_p q (update_where p f xs) ≤ count_p q xs
  unfolding count_p update_where
  count_p-update_keep p q f [] h = omega arith
  count_p-update_keep p q f (x ∷ xs) h = ground (arith, h.0, count_p-update_keep p q f xs h.1)

  pub any-count_p : (p : A → Bool) (xs : List A) → any p xs ≡ false → count_p p xs ≡ 0
  unfolding count_p any
  any-count_p p [] h = refl
  any-count_p p (x ∷ xs) h = ground (arith, any-count_p p xs)

  pub any-append_false :
      (p : A → Bool) (xs ys : List A)
      → any p xs ≡ false
      → any p ys ≡ false
      → any p (xs ++ ys) ≡ false
  unfolding any
  any-append_false p [] ys h k = k
  any-append_false p (x ∷ xs) ys h k = ground (arith, any-append_false p xs ys)

  -- A stronger test holds nowhere where a weaker one does not.
  pub any-weaken :
      (p q : A → Bool)
      → ((x : A) → q x ≡ true → p x ≡ true)
      → (xs : List A) → any p xs ≡ false
      → any q xs ≡ false
  unfolding any
  any-weaken p q h [] e = refl
  any-weaken p q h (x ∷ xs) e = ground (arith, h x, any-weaken p q h xs)

  pub any-select-false :
      (p q : A → Bool) (xs : List A) → any q xs ≡ false → any q (select p xs) ≡ false
  unfolding any select
  any-select-false p q [] h = refl
  any-select-false p q (x ∷ xs) h = ground (arith, any-select-false p q xs)

module _ {ℓ κ} {A : Type ℓ} (P : A → Type κ) where
  pub All-get : {x : A} (xs : List A) → All P xs → Memᴰ x xs → P x
  All-get [] h m = elim m [ ]
  All-get (y ∷ ys) h (Memᴰ.head e) = subst P (sym e) h.0
  All-get (y ∷ ys) h (Memᴰ.tail m) = All-get ys h.1 m

  pub All-of_mem : (xs : List A) → ((x : A) → Memᴰ x xs → P x) → All P xs
  All-of_mem [] h = tt
  All-of_mem (x ∷ xs) h = (h x (Memᴰ.head refl), All-of_mem xs (λ y m. h y (Memᴰ.tail m)))

  pub All-append : (xs ys : List A) → All P xs → All P ys → All P (xs ++ ys)
  All-append [] ys h k = k
  All-append (x ∷ xs) ys h k = (h.0, All-append xs ys h.1 k)

  -- The selected rows pass the test too.
  pub All-select :
      (p : A → Bool) (xs : List A) → All P xs → All (λ x. P x × (p x ≡ true)) (select p xs)
  unfolding select
  All-select p [] h = tt
  All-select p (x ∷ xs) h = elim (Bool-cases (p x)) [
    | inl e ↦ rw e ((h.0, e), All-select p xs h.1)
    | inr e ↦ rw e (All-select p xs h.1)
  ]

  pub All-find? :
      (p : A → Bool) (xs : List A) {x : A} → All P xs → find? p xs ≡ some x → P x × (p x ≡ true)
  unfolding find?
  All-find? p [] h e = cc
  All-find? p (y ∷ ys) {x} h e = elim (Bool-cases (p y)) [
    | inl t ↦ let s : y ≡ x = ground (arith, t, e) in (subst P s h.0, rw (← s) t)
    | inr t ↦ All-find? p ys h.1 (rw (t, find?) at e)
  ]

module _ {ℓ κ μ} {A : Type ℓ} (P : A → Type κ) (Q : A → Type μ) where
  pub All-map : ((x : A) → P x → Q x) → (xs : List A) → All P xs → All Q xs
  All-map f [] h = tt
  All-map f (x ∷ xs) h = (f x h.0, All-map f xs h.1)

  pub All-update :
      (p : A → Bool) (f : A → A)
      → ((x : A) → P x → p x ≡ true → Q (f x))
      → ((x : A) → P x → p x ≡ false → Q x)
      → (xs : List A) → All P xs
      → All Q (update_where p f xs)
  unfolding update_where
  All-update p f hit miss [] h = tt
  All-update p f hit miss (x ∷ xs) h = elim (Bool-cases (p x)) [
    | inl e ↦ rw e (hit x h.0 e, All-update p f hit miss xs h.1)
    | inr e ↦ rw e (miss x h.0 e, All-update p f hit miss xs h.1)
  ]

module _ {ℓ} {A : Type ℓ} where
  pub count_p-pos : (p : A → Bool) (xs : List A) {x : A} → Memᴰ x xs → p x ≡ true → 1 ≤ count_p p xs
  unfolding count_p
  count_p-pos p [] m h = elim m [ ]
  count_p-pos p (y ∷ ys) {x} (Memᴰ.head e) h = rw (← e) (ground (arith, h))
  count_p-pos p (y ∷ ys) (Memᴰ.tail m) h = ground (arith, count_p-pos p ys m h)

  -- A test that at most one row passes picks one row.
  pub unique_row :
      (p : A → Bool) (xs : List A) {x y : A}
      → count_p p xs ≤ 1
      → Memᴰ x xs
      → Memᴰ y xs
      → p x ≡ true
      → p y ≡ true
      → x ≡ y
  unfolding count_p
  unique_row p [] c m n hx hy = elim m [ ]
  unique_row p (z ∷ zs) c (Memᴰ.head e) (Memᴰ.head f) hx hy = e ∙ sym f
  unique_row p (z ∷ zs) c (Memᴰ.head e) (Memᴰ.tail n) hx hy =
      absurd (clash z zs (rw (← e) hx) (count_p-pos p zs n hy) c)
    where
      clash : (z : A) (zs : List A) → p z ≡ true → 1 ≤ count_p p zs → count_p p (z ∷ zs) ≤ 1 → ⊥
      clash z zs h k c = ground arith
  unique_row p (z ∷ zs) c (Memᴰ.tail m) (Memᴰ.head f) hx hy =
      absurd (clash z zs (rw (← f) hy) (count_p-pos p zs m hx) c)
    where
      clash : (z : A) (zs : List A) → p z ≡ true → 1 ≤ count_p p zs → count_p p (z ∷ zs) ≤ 1 → ⊥
      clash z zs h k c = ground arith
  unique_row p (z ∷ zs) c (Memᴰ.tail m) (Memᴰ.tail n) hx hy =
      unique_row p zs (fewer z zs c) m n hx hy
    where
      fewer : (z : A) (zs : List A) → count_p p (z ∷ zs) ≤ 1 → count_p p zs ≤ 1
      fewer z zs c = ground arith

  -- Where no row passes, each row fails.
  pub any-get_false :
      (p : A → Bool) (xs : List A) {x : A} → any p xs ≡ false → Memᴰ x xs → p x ≡ false
  unfolding any
  any-get_false p [] h m = elim m [ ]
  any-get_false p (y ∷ ys) h (Memᴰ.head e) = rw e (ground (arith, h))
  any-get_false p (y ∷ ys) h (Memᴰ.tail m) = any-get_false p ys (ground (arith, h)) m

  pub any-select-true :
      (p q : A → Bool) (xs : List A) {x : A}
      → Memᴰ x xs
      → p x ≡ true
      → q x ≡ true
      → any q (select p xs) ≡ true
  unfolding any select
  any-select-true p q [] m h k = elim m [ ]
  any-select-true p q (y ∷ ys) {x} (Memᴰ.head e) h k =
      let hy : p y ≡ true = rw (← e) h in
      let ky : q y ≡ true = rw (← e) k in rw hy (ground (arith, ky))
  any-select-true p q (y ∷ ys) (Memᴰ.tail m) h k = ground (arith, any-select-true p q ys m h k)

  pub any-select_none :
      (p q : A → Bool) (xs : List A)
      → ((x : A) → Memᴰ x xs → p x ≡ true → q x ≡ false)
      → any q (select p xs) ≡ false
  unfolding any select
  any-select_none p q [] h = refl
  any-select_none p q (y ∷ ys) h =
      ground (arith, h y (Memᴰ.head refl), any-select_none p q ys (λ x m. h x (Memᴰ.tail m)))

  -- Selecting twice, where the second test implies the first.
  pub select-select :
      (p q : A → Bool)
      → ((x : A) → q x ≡ true → p x ≡ true)
      → (xs : List A) → select q (select p xs) ≡ select q xs
  unfolding select
  select-select p q h [] = refl
  select-select p q h (x ∷ xs) = ground (arith, h x, select-select p q h xs)

module _ {ℓ κ μ ν} {A : Type ℓ} (P : A → Type κ) (Q : A → Type μ) (R : A → Type ν) where
  pub All-zip : ((x : A) → P x → Q x → R x) → (xs : List A) → All P xs → All Q xs → All R xs
  All-zip f [] h k = tt
  All-zip f (x ∷ xs) h k = (f x h.0 k.0, All-zip f xs h.1 k.1)
