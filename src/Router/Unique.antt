-- ===== src/Router/Unique.antt =====
-- dedupeDispatches of internal/router/engine.go keeps the first dispatch of each key.
use senechal_gw.Prelude.{
  ◌≤◌, String, ◌≡◌, refl, sym, subst, inl, inr, Bool, true, false, List, [], ◌∷◌, arith, any,
  count_p, find?, str_eq, eq_iff, Bool-cases,
}
use senechal_gw.Queue.Invariant.Facts.{str_eq_sym}
use senechal_gw.Router.Resolve.{Dispatch, dispatch_key, dedupe_from, dedupe_dispatches}

abbrev pub has_key : String → Dispatch → Bool
has_key k d = str_eq (dispatch_key d) k

abbrev is_seen : String → List String → Bool
is_seen k seen = any (λ s. str_eq k s) seen

str_eq_flip : (s t : String) → str_eq s t ≡ true → str_eq t s ≡ true
str_eq_flip s t h = (eq_iff t s).1 (sym ((eq_iff s t).0 h))

-- Two keys of which one is seen and the other not.
other-key :
    (k : String) (seen : List String) (d : Dispatch)
    → is_seen k seen ≡ true
    → is_seen (dispatch_key d) seen ≡ false
    → has_key k d ≡ false
other-key k seen d h t = elim (Bool-cases (has_key k d)) [
  | inr f ↦ f
  | inl e ↦
      let s : dispatch_key d ≡ k = (eq_iff (dispatch_key d) k).0 e in
      let u : is_seen k seen ≡ false = subst (λ x. is_seen x seen ≡ false) s t in
      absurd (ground (arith, h, u))
]

seen-more :
    (k j : String) (seen : List String) → is_seen k seen ≡ true → is_seen k (j ∷ seen) ≡ true
unfolding any
seen-more k j seen h = ground (arith, h)

seen-none :
    (k : String) (seen : List String) (ds : List Dispatch)
    → is_seen k seen ≡ true
    → count_p (has_key k) (dedupe_from seen ds) ≡ 0
unfolding dedupe_from count_p
seen-none k seen [] h = refl
seen-none k seen (d ∷ ds) h = elim (Bool-cases (is_seen (dispatch_key d) seen)) [
  | inl t ↦ rw t (seen-none k seen ds h)
  | inr t ↦
      rw (t, other-key k seen d h t)
        (seen-none k (dispatch_key d ∷ seen) ds (seen-more k (dispatch_key d) seen h))
]

seen-same : (k j : String) (seen : List String) → str_eq k j ≡ true → is_seen k (j ∷ seen) ≡ true
unfolding any
seen-same k j seen h = ground (arith, h)

not_seen-more :
    (k j : String) (seen : List String)
    → is_seen k seen ≡ false
    → str_eq k j ≡ false
    → is_seen k (j ∷ seen) ≡ false
unfolding any
not_seen-more k j seen h n = ground (arith, h, n)

keeps-first :
    (k : String) (seen : List String) (ds : List Dispatch)
    → is_seen k seen ≡ false
    → (count_p (has_key k) (dedupe_from seen ds) ≤ 1)
      × (find? (has_key k) (dedupe_from seen ds) ≡ find? (has_key k) ds)
unfolding dedupe_from count_p find?
keeps-first k seen [] h = (omega arith, refl)
keeps-first k seen (d ∷ ds) h = elim (Bool-cases (is_seen (dispatch_key d) seen)) [
  | inl t ↦
      let n : has_key k d ≡ false = elim (Bool-cases (has_key k d)) [
        | inr f ↦ f
        | inl e ↦
            let s : dispatch_key d ≡ k = (eq_iff (dispatch_key d) k).0 e in
            let u : is_seen k seen ≡ true = subst (λ x. is_seen x seen ≡ true) s t in
            absurd (ground (arith, h, u))
      ] in
      let (a, b) = keeps-first k seen ds h in (rw t a, rw (t, n) b)
  | inr t ↦ elim (Bool-cases (has_key k d)) [
    | inl e ↦
        let z =
          seen-none k (dispatch_key d ∷ seen) ds
            (seen-same k (dispatch_key d) seen (str_eq_flip (dispatch_key d) k e)) in
        (rw (t, e, z) (omega arith), rw (t, e) refl)
    | inr e ↦
        let g : str_eq k (dispatch_key d) ≡ false = str_eq_sym (dispatch_key d) k e in
        let (a, b) =
          keeps-first k (dispatch_key d ∷ seen) ds (not_seen-more k (dispatch_key d) seen h g) in
        (rw (t, e) a, rw (t, e) b)
  ]
]

-- Of the dispatches of each key, dedupeDispatches keeps exactly one, the first; and it makes none up.
pub dedupe_dispatches-keeps_first :
    (k : String) (ds : List Dispatch)
    → (count_p (has_key k) (dedupe_dispatches ds) ≤ 1)
      × (find? (has_key k) (dedupe_dispatches ds) ≡ find? (has_key k) ds)
unfolding dedupe_dispatches any
dedupe_dispatches-keeps_first k ds = keeps-first k [] ds refl
