-- ===== src/Auth/Grants.antt =====
-- What a configured token grants in internal/auth/auth.go.
use senechal_gw.Prelude.{
  String, ◌≡◌, refl, sym, ap, ◌∙◌, subst, inl, inr, Bool, true, false, not, ◌&&◌, ◌||◌, Option,
  none, some, List, [], ◌∷◌, arith, any, find?, is_empty, trim_space, str_eq, eq_iff, Bool-cases,
  if◌then◌else◌,
}
use senechal_gw.Queue.Invariant.Facts.{str_eq_refl}
use senechal_gw.Auth.{
  TokenConfig, Principal, constant_time_equal, trimmed, has, implies, normalize_scopes,
  authenticate, has_any_scope,
}

-- The principal of a configured token.
abbrev pub principal_of : Option TokenConfig → Option Principal
principal_of none = none
principal_of (some c) = some (record { token = c.token; scopes = normalize_scopes c.scopes })

abbrev pub is_token : String → TokenConfig → Bool
is_token presented c = str_eq c.token presented

str_eq_swap : (s t : String) → str_eq s t ≡ str_eq t s
str_eq_swap s t = elim (Bool-cases (str_eq s t)) [
  | inl e ↦ e ∙ sym ((eq_iff t s).1 (sym ((eq_iff s t).0 e)))
  | inr e ↦ elim (Bool-cases (str_eq t s)) [
    | inr f ↦ e ∙ sym f
    | inl f ↦ absurd (ground (arith, e, (eq_iff s t).1 (sym ((eq_iff t s).0 f))))
  ]
]

same-token :
    (t : TokenConfig) (ts : List TokenConfig)
    → authenticate t.token ts
      ≡ (if is_empty t.token then none else principal_of (find? (is_token t.token) ts))
    → (if not (is_empty t.token) && not (is_empty t.token) && str_eq t.token t.token
        then some (record { token = t.token; scopes = normalize_scopes t.scopes })
        else authenticate t.token ts)
      ≡ (if is_empty t.token
          then none
          else principal_of (if is_token t.token t then some t else find? (is_token t.token) ts))
same-token t ts h = elim (Bool-cases (is_empty t.token)) [
  | inl z ↦ rw (z, h, z) refl
  | inr z ↦ rw (z, str_eq_refl t.token) refl
]

-- A token that is not empty is accepted exactly where it is configured, with the scopes of the first
-- configuration that has it; the empty token never is.
pub authenticate-finds :
    (presented : String) (tokens : List TokenConfig)
    → authenticate presented tokens
      ≡ (if is_empty presented then none else principal_of (find? (is_token presented) tokens))
unfolding authenticate constant_time_equal find?
authenticate-finds presented [] = ground arith
authenticate-finds presented (t ∷ ts) = elim (Bool-cases (str_eq presented t.token)) [
  | inr e ↦
      let f : is_token presented t ≡ false = str_eq_swap t.token presented ∙ e in
      rw (e, f, authenticate-finds presented ts) (ground arith)
  | inl e ↦
      let f : is_token presented t ≡ true = str_eq_swap t.token presented ∙ e in
      let q : presented ≡ t.token = (eq_iff presented t.token).0 e in
      subst
        (λ x.
          (if not (is_empty x) && not (is_empty t.token) && str_eq x t.token
            then some (record { token = x; scopes = normalize_scopes t.scopes })
            else authenticate x ts)
          ≡ (if is_empty x
              then none
              else principal_of (if is_token x t then some t else find? (is_token x) ts)))
        (sym q) (same-token t ts (authenticate-finds t.token ts))
]

has-implies :
    (s rw ro : String) (out : List String)
    → has s (implies rw ro out) ≡ ((has rw out && str_eq s ro) || has s out)
unfolding implies any
has-implies s rw ro out = ground arith

-- The scope is in a configured list, but for blanks around it.
pub holds : String → List String → Bool
holds s scopes = not (is_empty s) && any (λ x. str_eq s (trim_space x)) scopes

has-trimmed : (s : String) (scopes : List String) → has s (trimmed scopes) ≡ holds s scopes
unfolding trimmed any holds
has-trimmed s [] = ground arith
has-trimmed s (x ∷ xs) = elim (Bool-cases (str_eq s (trim_space x))) [
  | inl e ↦
      let z : is_empty s ≡ is_empty (trim_space x) = ap is_empty ((eq_iff s (trim_space x)).0 e) in
      elim (Bool-cases (is_empty (trim_space x))) [
        | inl b ↦ rw (b, e, has-trimmed s xs) (ground (arith, z, b))
        | inr b ↦ rw (b, e) (ground (arith, z, b))
      ]
  | inr e ↦ elim (Bool-cases (is_empty (trim_space x))) [
    | inl b ↦ rw (b, e) (has-trimmed s xs)
    | inr b ↦ rw (b, e) (has-trimmed s xs)
  ]
]

has-plugin :
    (s : String) (scopes : List String)
    → has s (implies "plugin:rw" "plugin:ro" (trimmed scopes))
      ≡ ((holds "plugin:rw" scopes && str_eq s "plugin:ro") || holds s scopes)
has-plugin s scopes =
    has-implies s "plugin:rw" "plugin:ro" (trimmed scopes)
    ∙ rw (has-trimmed "plugin:rw" scopes, has-trimmed s scopes) refl

or-false : (a b : Bool) → ((a && false) || b) ≡ b
or-false true b = refl
or-false false b = refl

has-jobs :
    (s : String) (scopes : List String)
    → has s (implies "jobs:rw" "jobs:ro" (implies "plugin:rw" "plugin:ro" (trimmed scopes))) ≡ (
        (holds "jobs:rw" scopes && str_eq s "jobs:ro")
        || ((holds "plugin:rw" scopes && str_eq s "plugin:ro") || holds s scopes))
has-jobs s scopes =
    has-implies s "jobs:rw" "jobs:ro" (implies "plugin:rw" "plugin:ro" (trimmed scopes))
    ∙ rw
        (
          has-plugin "jobs:rw" scopes,
          has-plugin s scopes,
          or-false (holds "plugin:rw" scopes) (holds "jobs:rw" scopes),
        )
        refl

-- The members of a normalized set.
has-normalize :
    (s : String) (scopes : List String)
    → has s (normalize_scopes scopes) ≡ (
        (holds "events:rw" scopes && str_eq s "events:ro")
        || ((holds "jobs:rw" scopes && str_eq s "jobs:ro")
            || ((holds "plugin:rw" scopes && str_eq s "plugin:ro") || holds s scopes)))
unfolding normalize_scopes
has-normalize s scopes =
    has-implies s "events:rw" "events:ro"
      (implies "jobs:rw" "jobs:ro" (implies "plugin:rw" "plugin:ro" (trimmed scopes)))
    ∙ rw
        (
          has-jobs "events:rw" scopes,
          has-jobs s scopes,
          or-false (holds "jobs:rw" scopes)
              ((holds "plugin:rw" scopes && false) || holds "events:rw" scopes),
          or-false (holds "plugin:rw" scopes) (holds "events:rw" scopes),
        )
        refl

-- A single scope is granted exactly where it is in the configured list, or the list has the star, or
-- the scope is the read scope of plugins, jobs or events whose write scope is in the list.
pub has_any_scope-grants :
    (token s : String) (scopes : List String)
    → has_any_scope (record { token = token; scopes = normalize_scopes scopes }) (s ∷ []) ≡ (
        holds "*" scopes
        || holds s scopes
        || (holds "plugin:rw" scopes && str_eq s "plugin:ro")
        || (holds "jobs:rw" scopes && str_eq s "jobs:ro")
        || (holds "events:rw" scopes && str_eq s "events:ro"))
unfolding has_any_scope normalize_scopes any
has_any_scope-grants token s scopes =
    ground (arith, has-normalize "*" scopes, has-normalize s scopes)
