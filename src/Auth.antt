-- ===== src/Auth.antt =====
-- internal/auth/auth.go: bearer tokens and their scopes. A context's principal is a value that is passed.
pub mod Grants
mod Examples
use senechal_gw.Prelude.{
  String, Bool, true, false, not, ◌&&◌, ◌||◌, Option, none, some, List, [], ◌∷◌, any, is_empty,
  trim_space, has_prefix, trim_prefix, str_eq, if◌then◌else◌,
}

pub record TokenConfig : Type 0 where
  pub token : String
  pub scopes : List String

-- The scopes are a set, given by a list of its members.
pub record Principal : Type 0 where
  pub token : String
  pub scopes : List String

pub data Extracted : Type 0 where
  bearer : String → Extracted
  invalid_format missing_header : Extracted

-- The query token, where it is allowed and not empty.
unfoldable pub query_token : Bool → String → Extracted
query_token allow query = if allow && not (is_empty query) then bearer query else missing_header

-- ExtractBearerToken of the header Authorization and the parameter token
unfoldable pub extract_bearer_token : String → String → Bool → Extracted
unfolding query_token
extract_bearer_token header query allow =
    if is_empty header
    then query_token allow query
    else if not (has_prefix header "Bearer ")
    then invalid_format
    else let token = trim_space (trim_prefix header "Bearer ") in
      if is_empty token then query_token allow query else bearer token

-- constantTimeEqual: ConstantTimeCompare answers 1 for equal bytes
unfoldable pub constant_time_equal : String → String → Bool
constant_time_equal a b = not (is_empty a) && not (is_empty b) && str_eq a b

unfoldable pub trimmed : List String → List String
trimmed [] = []
trimmed (s ∷ ss) =
    let rest = trimmed ss in let t = trim_space s in if is_empty t then rest else t ∷ rest

abbrev pub has : String → List String → Bool
has s scopes = any (str_eq s) scopes

-- if _, ok := out[rw]; ok { out[ro] = … }
unfoldable pub implies : String → String → List String → List String
implies rw ro out = if has rw out then ro ∷ out else out

-- normalizeScopes
unfoldable pub normalize_scopes : List String → List String
unfolding trimmed implies
normalize_scopes scopes =
    implies "events:rw" "events:ro"
      (implies "jobs:rw" "jobs:ro" (implies "plugin:rw" "plugin:ro" (trimmed scopes)))

-- Authenticate
unfoldable pub authenticate : String → List TokenConfig → Option Principal
unfolding constant_time_equal normalize_scopes
authenticate presented [] = none
authenticate presented (t ∷ ts) =
    let rest = authenticate presented ts in
    if constant_time_equal presented t.token
    then some (record { token = presented; scopes = normalize_scopes t.scopes })
    else rest

-- HasAnyScope
unfoldable pub has_any_scope : Principal → List String → Bool
has_any_scope p [] = true
has_any_scope p (s ∷ ss) = has "*" p.scopes || any (λ r. has r p.scopes) (s ∷ ss)
