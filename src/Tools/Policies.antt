-- ===== src/Tools/Policies.antt =====
-- Which calls of a system tool are let through.
use trolley.Base.{
  ℕ, String, true, some, List, [], ◌∷◌, ◌≡◌, refl, ◌↔◌, In, arith, all, ok, Dict, Json, get,
}
use trolley.Catalog.{Catalog, User, UserRole}
use trolley.Access.{AuthContext}
use trolley.Auth.{AccessToken, role_scopes, verify_token}
use trolley.Auth.Tokens.{RoleAllows, role_scopes_iff, verify_token-Vouched}
use trolley.Tools.{
  SystemToolName, tool_policy, current_tool_context, is_text, require_text, validate_tool,
  has_scope,
}

-- The loop over the required fields passes exactly when each of them is a text that is not blank.
require_text_iff :
    (names : List String) (values : Dict Json)
    → (require_text names values ≡ ok tt) ↔ (all (λ f. is_text (get f values)) names ≡ true)
unfolding require_text
require_text_iff [] values = ground arith
require_text_iff (f ∷ more) values = ground (arith, require_text_iff more values)

-- The context of a user with a role, calling by a key.
abbrev pub context_of : ℕ → ℕ → UserRole → AuthContext
context_of user_id key_id role = record { user_id = user_id; api_key_id = key_id; role = role }

validate_tool_scope :
    (name : SystemToolName) (values : Dict Json) (user_id key_id : ℕ) (role : UserRole)
    (token : AccessToken)
    → token.subject ≡ some user_id
    → token.client_id ≡ key_id
    → token.claims ≡ some role
    → token.scopes ≡ role_scopes role
    → (validate_tool name values (some token) ≡ ok (context_of user_id key_id role)) ↔ (
        (has_scope (tool_policy name).scope (role_scopes role) ≡ true)
        × (require_text (tool_policy name).required_text values ≡ ok tt))
unfolding validate_tool current_tool_context
validate_tool_scope name values user_id key_id role token s k r sc = rw (s, k, r, sc) (ground arith)

-- A call by a verified token is let through exactly when the role of the user at the verification
-- is one that the tool is for and each required argument is a text that is not blank; the handler
-- is then given that user, that key and that role.
pub validate_tool_verified :
    (hash_secret : String → String) (secret : String) (c : Catalog) (token : AccessToken)
    (name : SystemToolName) (values : Dict Json)
    → verify_token hash_secret secret c ≡ some token
    → (u : User) × In u c.users
      × (u.is_active ≡ true)
      × ((validate_tool name values (some token) ≡ ok (context_of u.id token.client_id u.role)) ↔ (
          RoleAllows u.role (tool_policy name).scope
          × (all (λ f. is_text (get f values)) (tool_policy name).required_text ≡ true)))
validate_tool_verified hash_secret secret c token name values h =
    let v = verify_token-Vouched hash_secret secret c token h in
    let (to, from) =
      validate_tool_scope name values v.user.id token.client_id v.user.role token v.subject_eq refl
        v.claims_eq v.scopes_eq in
    let scopes = role_scopes_iff v.user.role (tool_policy name).scope in
    let texts = require_text_iff (tool_policy name).required_text values in
    (
      v.user,
      v.user_listed,
      v.user_active,
      ((λ e. (scopes.0 (to e).0, texts.0 (to e).1)), λ p. from (scopes.1 p.0, texts.1 p.1)),
    )
