-- ===== src/Auth/Examples.antt =====
-- Instances of the theorems about the tokens.
use senechal_gw.Prelude.{
  ◌≡◌, ◌&&◌, ◌||◌, none, List, [], ◌∷◌, find?, is_empty, str_eq, if◌then◌else◌,
}
use senechal_gw.Auth.{TokenConfig, normalize_scopes, authenticate, has_any_scope}
use senechal_gw.Auth.Grants.{
  principal_of, is_token, holds, authenticate-finds, has_any_scope-grants,
}

abbrev tokens : List TokenConfig
tokens = record { token = "t"; scopes = " jobs:rw " ∷ [] } ∷ []

authenticate-finds_example :
    authenticate "t" tokens
    ≡ (if is_empty "t" then none else principal_of (find? (is_token "t") tokens))
authenticate-finds_example = authenticate-finds "t" tokens

has_any_scope-grants_example :
    has_any_scope
      (record { token = "t"; scopes = normalize_scopes (" jobs:rw " ∷ []) })
      ("jobs:ro" ∷ [])
    ≡ (holds "*" (" jobs:rw " ∷ [])
        || holds "jobs:ro" (" jobs:rw " ∷ [])
        || (holds "plugin:rw" (" jobs:rw " ∷ []) && str_eq "jobs:ro" "plugin:ro")
        || (holds "jobs:rw" (" jobs:rw " ∷ []) && str_eq "jobs:ro" "jobs:ro")
        || (holds "events:rw" (" jobs:rw " ∷ []) && str_eq "jobs:ro" "events:ro"))
has_any_scope-grants_example = has_any_scope-grants "t" "jobs:ro" (" jobs:rw " ∷ [])
