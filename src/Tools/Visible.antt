-- ===== src/Tools/Visible.antt =====
-- Which tools a caller is shown.
use trolley.Base.{
  ap, sym, ◌∙◌, String, true, none, some, List, ◌≡◌, refl, ◌↔◌, ◌⊎◌, inl, inr, In, eq_iff, str_eq,
  Option-cases, find-In, filter, filter-In, ok, contains,
}
use trolley.Catalog.{Catalog, User, Scope}
use trolley.Access.{AuthContext, accessible_operation_names}
use trolley.Auth.{AccessToken, role_scopes, verify_token}
use trolley.Auth.Tokens.{RoleAllows, role_scopes_iff, verify_token-Vouched}
use trolley.Tools.{
  SystemToolName, system_tools, tool_name, system_tool, tool_policy, current_tool_context,
  is_visible, list_tools, has_scope,
}
use trolley.Tools.Policies.{context_of}

-- The names of the system tools are distinct, so a tool is found again by its name.
pub system_tool-tool_name : (t : SystemToolName) → system_tool (tool_name t) ≡ some t
unfolding system_tool
system_tool-tool_name SystemToolName.get_execution = refl
system_tool-tool_name _ = refl

system_tool-some :
    (name : String) (t : SystemToolName) → system_tool name ≡ some t → tool_name t ≡ name
unfolding system_tool
system_tool-some name t e =
    let (_, h) = find-In (λ t. str_eq (tool_name t) name) system_tools t e in
    (eq_iff (tool_name t) name).0 h

-- What a user is shown: a system tool that the role is for, or the tool of an operation in reach.
abbrev pub IsOffered : Catalog → AuthContext → String → Type 0
IsOffered c context name =
    ((t : SystemToolName) × (name ≡ tool_name t) × RoleAllows context.role (tool_policy t).scope)
    ⊎ ((system_tool name ≡ none) × (contains (accessible_operation_names context c) name ≡ true))

module _ (scopes : List Scope) (accessible : List String) (name : String) where
  is_visible_dynamic :
      system_tool name ≡ none → is_visible scopes accessible name ≡ contains accessible name
  unfolding is_visible
  is_visible_dynamic e = rw (e, is_visible)

  is_visible_system :
      (t : SystemToolName)
      → system_tool name ≡ some t
      → is_visible scopes accessible name ≡ has_scope (tool_policy t).scope scopes
  unfolding is_visible
  is_visible_system t e = rw (e, is_visible)

is_visible_iff :
    (c : Catalog) (context : AuthContext) (name : String)
    → (is_visible (role_scopes context.role) (accessible_operation_names context c) name ≡ true)
      ↔ IsOffered c context name
is_visible_iff c context name = (to, from)
  where
    scopes : List Scope
    scopes = role_scopes context.role

    names : List String
    names = accessible_operation_names context c

    to : is_visible scopes names name ≡ true → IsOffered c context name
    to h = elim (Option-cases (system_tool name)) [
      | inl dynamic ↦ inr (dynamic, sym (is_visible_dynamic scopes names name dynamic) ∙ h)
      | inr (t, e) ↦ inl (
        t,
        sym (system_tool-some name t e),
        (role_scopes_iff context.role (tool_policy t).scope).0
            (sym (is_visible_system scopes names name t e) ∙ h),
      )
    ]

    from : IsOffered c context name → is_visible scopes names name ≡ true
    from (inl (t, e, allowed)) =
        is_visible_system scopes names name t (ap system_tool e ∙ system_tool-tool_name t)
        ∙ (role_scopes_iff context.role (tool_policy t).scope).1 allowed
    from (inr (dynamic, h)) = is_visible_dynamic scopes names name dynamic ∙ h

-- A caller with a verified token is shown, of the registered tools, exactly those that are offered
-- to the user's role and reach; nothing else is filtered out or let in.
pub list_tools_verified :
    (hash_secret : String → String) (secret : String) (c : Catalog) (token : AccessToken)
    (tools : List String) (name : String)
    → verify_token hash_secret secret c ≡ some token
    → (u : User) × In u c.users
      × (u.is_active ≡ true)
      × ((shown : List String) × (list_tools tools (some token) c ≡ ok shown)
          × (In name shown
              ↔ (In name tools × IsOffered c (context_of u.id token.client_id u.role) name)))
unfolding list_tools current_tool_context
list_tools_verified hash_secret secret c token tools name h =
    let v = verify_token-Vouched hash_secret secret c token h in
    let context = context_of v.user.id token.client_id v.user.role in
    let visible = is_visible (role_scopes v.user.role) (accessible_operation_names context c) in
    let (to, from) = filter-In visible tools name in
    let (seen, shows) = is_visible_iff c context name in
    (
      v.user,
      v.user_listed,
      v.user_active,
      (
        filter visible tools,
        rw (v.subject_eq, v.claims_eq, v.scopes_eq) refl,
        ((λ m. ((to m).0, seen (to m).1)), λ p. from (p.0, shows p.1)),
      ),
    )
