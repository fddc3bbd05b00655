-- ===== src/Tools/Tests.antt =====
-- Calls and listings of the system tools on the sample catalog.
use trolley.Base.{
  ◌≡◌, ◌↔◌, refl, String, true, some, List, [], ◌∷◌, In, ok, str, Json, Dict, all, get,
}
use trolley.Catalog.{User, UserRole, Scope}
use trolley.Catalog.Sample.{sample, hash}
use trolley.Auth.{AccessToken, role_scopes, user_by_id, active_key, verify_token}
use trolley.Auth.Tokens.{RoleAllows}
use trolley.Tools.{query_target, tool_policy, system_tool, is_text, validate_tool, list_tools}
use trolley.Tools.Policies.{context_of, validate_tool_verified}
use trolley.Tools.Visible.{IsOffered, system_tool-tool_name, list_tools_verified}

abbrev ann_token : AccessToken
ann_token = record {
  client_id = 10;
  subject = some 1;
  scopes = Scope.use_tools ∷ Scope.query ∷ Scope.admin ∷ [];
  claims = some UserRole.admin;
}

abbrev query : Dict Json
query = ("name", str "sales") ∷ ("sql", str "select 1") ∷ []

abbrev registered : List String
registered = "query_target" ∷ "report" ∷ "unknown" ∷ []

validate_tool_verified_example :
    (u : User) × In u sample.users
    × (u.is_active ≡ true)
    × ((validate_tool query_target query (some ann_token) ≡ ok (context_of u.id 10 u.role)) ↔ (
        RoleAllows u.role (tool_policy query_target).scope
        × (all (λ f. is_text (get f query)) (tool_policy query_target).required_text ≡ true)))
unfolding verify_token active_key role_scopes user_by_id
validate_tool_verified_example =
    validate_tool_verified hash "ann" sample ann_token query_target query refl

system_tool-tool_name_example : system_tool "query_target" ≡ some query_target
system_tool-tool_name_example = system_tool-tool_name query_target

list_tools_verified_example :
    (u : User) × In u sample.users
    × (u.is_active ≡ true)
    × ((shown : List String) × (list_tools registered (some ann_token) sample ≡ ok shown)
        × (In "report" shown
            ↔ (In "report" registered × IsOffered sample (context_of u.id 10 u.role) "report")))
unfolding verify_token active_key role_scopes user_by_id
list_tools_verified_example =
    list_tools_verified hash "ann" sample ann_token registered "report" refl
