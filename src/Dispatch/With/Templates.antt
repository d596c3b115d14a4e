-- ===== src/Dispatch/With/Templates.antt =====
-- parseWithTemplate of internal/dispatch/with.go: its loop ends.
use senechal_gw.Prelude.{
  ℕ, zero, suc, ◌<◌, String, ◌≡◌, refl, Option-cases, inl, inr, false, none, some, [], arith,
  is_empty, trim_space, str_append,
}
use senechal_gw.Dispatch.With.{
  evaluated, cut_at, parse_segments, text_length, open_brace, close_brace, has_byte,
  parse_with_template, eval_with_template, resolve_with_path,
}
use senechal_gw.Conditions.{Value, Scope}
use Prim.Native.Char.{Char, code}
use Prim.Native.String.{char_at}

cut_at-shorter :
    (b : ℕ) (s : String) (before after : String)
    → cut_at b s ≡ some (before, after)
    → text_length after < text_length s
unfolding cut_at text_length
cut_at-shorter b String.[] before after h = absurd (ground (arith, h))
cut_at-shorter b (String.◌∷◌ c s) before after h = elim (Option-cases (cut_at b s)) [
  | inl e ↦ ground (arith, e, h)
  | inr ((front, back), e) ↦ ground (arith, e, h, cut_at-shorter b s front back e)
]

-- Any fuel above the length of the template gives the same segments.
pub parse_segments-ends :
    (n m : ℕ) (s : String)
    → text_length s < n
    → text_length s < m
    → parse_segments n s ≡ parse_segments m s
unfolding parse_segments
parse_segments-ends zero m s l k = absurd (omega (arith, l))
parse_segments-ends (suc n) zero s l k = absurd (omega (arith, k))
parse_segments-ends (suc n) (suc m) s l k = elim (Option-cases (cut_at open_brace s)) [
  | inl e ↦ ground (arith, e)
  | inr ((before, after), e) ↦ elim (Option-cases (cut_at close_brace after)) [
    | inl f ↦ ground (arith, e, f)
    | inr ((raw, rest), f) ↦
        let shorter = cut_at-shorter open_brace s before after e in
        let shortest = cut_at-shorter close_brace after raw rest f in
        ground (
          arith,
          e,
          f,
          parse_segments-ends n m rest (omega (arith, shorter, shortest, l))
              (omega (arith, shorter, shortest, k)),
        )
  ]
]

parse_segments-empty : (n : ℕ) → parse_segments n "" ≡ evaluated []
unfolding parse_segments
parse_segments-empty zero = refl
parse_segments-empty (suc n) = refl

-- The first of the bytes that is not in front.
cut_at-append :
    (c : Char) (s : String)
    → cut_at (code c) s ≡ none
    → cut_at (code c) (str_append s (String.◌∷◌ c "")) ≡ some (s, "")
unfolding cut_at str_append
cut_at-append c String.[] h = ground arith
cut_at-append c (String.◌∷◌ d s) h = elim (Option-cases (cut_at (code c) s)) [
  | inl e ↦ ground (arith, h, cut_at-append c s e)
  | inr (p, e) ↦ ground (arith, h, e)
]

-- A template that is one path in braces has the value of that path, with its type: blanks inside the
-- braces do not count, and a path that is not there fails.
pub eval_with_template-path :
    (show : Value → String) (raw : String) (scope : Scope)
    → cut_at close_brace raw ≡ none
    → is_empty (trim_space raw) ≡ false
    → has_byte open_brace (trim_space raw) ≡ false
    → eval_with_template show (str_append "{" (str_append raw "}")) scope
      ≡ resolve_with_path (trim_space raw) scope
unfolding eval_with_template parse_with_template parse_segments cut_at str_append text_length
eval_with_template-path show raw scope c n o =
    let closed = cut_at-append (char_at "}" 0) raw c in
    ground (arith, closed, n, o, parse_segments-empty (text_length (str_append raw "}")))
