-- ===== src/Dsl/Trim.antt =====
-- strings.TrimSpace, as internal/router uses it on the names of pipelines: once is as good as twice.
use Prim.Native.Char.{code}
use senechal_gw.Prelude.{
  String, ◌≡◌, refl, ap, ◌∙◌, inl, inr, Bool, false, ◌&&◌, is_empty, is_space, trim_left,
  trim_right, trim_space, Bool-cases,
}

abbrev starts_blank : String → Bool
starts_blank String.[] = false
starts_blank (String.◌∷◌ c s) = is_space (code c)

trim_left-starts : (s : String) → starts_blank (trim_left s) ≡ false
unfolding trim_left
trim_left-starts String.[] = refl
trim_left-starts (String.◌∷◌ c s) = elim (Bool-cases (is_space (code c))) [
  | inl e ↦ rw e (trim_left-starts s)
  | inr e ↦ rw e e
]

trim_left-id : (s : String) → starts_blank s ≡ false → trim_left s ≡ s
unfolding trim_left
trim_left-id String.[] h = refl
trim_left-id (String.◌∷◌ c s) h = rw h refl

trim_right-starts : (s : String) → starts_blank s ≡ false → starts_blank (trim_right s) ≡ false
unfolding trim_right
trim_right-starts String.[] h = refl
trim_right-starts (String.◌∷◌ c s) h = elim (Bool-cases (is_empty (trim_right s))) [
  | inl e ↦ rw (e, h) h
  | inr e ↦ rw e h
]

trim_right-twice : (s : String) → trim_right (trim_right s) ≡ trim_right s
unfolding trim_right
trim_right-twice String.[] = refl
trim_right-twice (String.◌∷◌ c s) =
    elim (Bool-cases (is_empty (trim_right s) && is_space (code c))) [
      | inl e ↦ rw e refl
      | inr e ↦ rw e (rw (trim_right-twice s, e) refl)
    ]

pub trim_space-twice : (s : String) → trim_space (trim_space s) ≡ trim_space s
unfolding trim_space
trim_space-twice s =
    ap trim_right (
      trim_left-id (trim_right (trim_left s))
        (trim_right-starts (trim_left s) (trim_left-starts s)))
    ∙ trim_right-twice (trim_left s)
