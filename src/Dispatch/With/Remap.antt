-- ===== src/Dispatch/With/Remap.antt =====
-- applyWithRemap of internal/dispatch/with.go: the keys that it sets and those that it leaves.
use senechal_gw.Prelude.{String, ◌≡◌, refl, ◌∙◌, false, some, List, [], ◌∷◌, All, arith, str_eq}
use senechal_gw.Conditions.{Value, Fields, get_field, Scope}
use senechal_gw.Baggage.{put_field, claims_scope}
use senechal_gw.Baggage.Paths.{get_field-put_field, get_field-put_field_other}
use senechal_gw.Dispatch.With.{
  WithEntry, Evaluated, evaluated, failed, ◌>>=◌, eval_with_template, remap, apply_with_remap,
}

evaluated-bind :
    {A B : Type 0} (m : Evaluated A) (f : A → Evaluated B) {b : B}
    → (m >>= f) ≡ evaluated b
    → (a : A) × (m ≡ evaluated a) × (f a ≡ evaluated b)
evaluated-bind (evaluated a) f h = (a, refl, h)
evaluated-bind (failed e) f h = absurd (ground (arith, h))

-- No entry has the key.
abbrev pub Lacks : String → List WithEntry → Type 0
Lacks k ws = All (λ w. str_eq w.key k ≡ false) ws

-- The keys of a map.
unfoldable pub AreDistinct : List WithEntry → Type 0
AreDistinct [] = Unit
AreDistinct (w ∷ ws) = Lacks w.key ws × AreDistinct ws

-- The template of an entry has a value, which the key holds.
pub record IsRemapped (show : Value → String) (scope : Scope) (out : Fields) (w : WithEntry)
    : Type 0 where
  pub value : Value
  pub evaluates : eval_with_template show w.template scope ≡ evaluated value
  pub held : get_field w.key out ≡ some value

remap-keeps :
    (show : Value → String) (scope : Scope) (ws : List WithEntry) (k : String) (fs out : Fields)
    → remap show scope ws fs ≡ evaluated out
    → Lacks k ws
    → get_field k out ≡ get_field k fs
unfolding remap
remap-keeps show scope [] k fs out h l = ground (arith, h)
remap-keeps show scope (w ∷ ws) k fs out h (n, l) =
    let (v, e, r) =
      evaluated-bind (eval_with_template show w.template scope)
        (λ v. remap show scope ws (put_field w.key v fs)) {b = out} h in
    remap-keeps show scope ws k (put_field w.key v fs) out r l
    ∙ get_field-put_field_other w.key k v fs n

remap-sets :
    (show : Value → String) (scope : Scope) (ws : List WithEntry) (fs out : Fields)
    → remap show scope ws fs ≡ evaluated out
    → AreDistinct ws
    → All (IsRemapped show scope out) ws
unfolding remap AreDistinct
remap-sets show scope [] fs out h d = tt
remap-sets show scope (w ∷ ws) fs out h (l, d) =
    let (v, e, r) =
      evaluated-bind (eval_with_template show w.template scope)
        (λ v. remap show scope ws (put_field w.key v fs)) {b = out} h in
    (
      record {
        value = v;
        evaluates = e;
        held =
            remap-keeps show scope ws w.key (put_field w.key v fs) out r l
            ∙ get_field-put_field w.key v fs;
      },
      remap-sets show scope ws (put_field w.key v fs) out r d,
    )

-- A remapping that succeeds sets every key of its map to the value of its template, evaluated in the
-- payload as it was before and not in the keys set so far, and leaves every other key as it was.
pub apply_with_remap-sets :
    (show : Value → String) (payload ctx : Fields) (ws : List WithEntry) (out : Fields)
    → apply_with_remap show payload ws ctx ≡ evaluated out
    → AreDistinct ws
    → All (IsRemapped show (claims_scope payload ctx) out) ws
      × ((k : String) → Lacks k ws → get_field k out ≡ get_field k payload)
unfolding apply_with_remap
apply_with_remap-sets show payload ctx ws out h d =
    let scope = claims_scope payload ctx in
    (remap-sets show scope ws payload out h d, λ k l. remap-keeps show scope ws k payload out h l)
