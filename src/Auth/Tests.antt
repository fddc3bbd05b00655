-- ===== src/Auth/Tests.antt =====
-- Tokens and keys on the sample catalog.
use trolley.Base.{◌≡◌, refl, true, none, some, [], ◌∷◌}
use trolley.Catalog.{UserRole, Scope}
use trolley.Catalog.Sample.{sample, bob, hash}
use trolley.Auth.{AccessToken, role_scopes, user_by_id, active_key, verify_token, create_api_key}
use trolley.Auth.Tokens.{Vouched, verify_token-Vouched}
use trolley.Auth.Keys.{new_token, create_api_key-verify_token}

abbrev ann_token : AccessToken
ann_token = record {
  client_id = 10;
  subject = some 1;
  scopes = Scope.use_tools ∷ Scope.query ∷ Scope.admin ∷ [];
  claims = some UserRole.admin;
}

unknown_secret : verify_token hash "eve" sample ≡ none
unfolding verify_token active_key
unknown_secret = refl

verify_token-Vouched_example : Vouched hash sample "ann" ann_token
unfolding verify_token active_key role_scopes user_by_id
verify_token-Vouched_example = verify_token-Vouched hash "ann" sample ann_token refl

create_api_key-verify_token_example :
    verify_token hash "new" (create_api_key hash bob "phone" "new" true sample).1
    ≡ some (new_token hash bob sample)
unfolding user_by_id
create_api_key-verify_token_example =
    create_api_key-verify_token hash bob "phone" "new" true sample refl refl refl
