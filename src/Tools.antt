-- ===== src/Tools.antt =====
-- mcp/enums.py, mcp/types.py, mcp/constants.py, mcp/pipeline.py and `list_tools` of mcp/server.py:
-- the fixed system tools, what each asks of a caller, and which tools a caller sees.
pub mod Policies
pub mod Visible
mod Tests
use trolley.Base.{
  ℕ, String, Bool, true, false, not, ◌&&◌, Option, none, some, List, [], ◌∷◌, any, filter, find,
  str_eq, is_empty, strip, contains, if◌then◌else◌, Result, ok, err, value_error, permission_error,
  ◌>>=◌, ◌>>◌, raise_if, Json, str, Dict, get, Error,
}
use Prim.Native.String
use trolley.Catalog.{Catalog, UserRole, Scope, scope_eq}
use trolley.Access.{AuthContext, accessible_operation_names}
use trolley.Auth.{AccessToken}

pub data SystemToolName : Type 0 where
  get_execution get_my_capabilities query_target list_targets get_target_schema : SystemToolName
  get_target_notes update_target_notes list_operations create_operation : SystemToolName
  update_operation disable_operation execute : SystemToolName

abbrev pub system_tools : List SystemToolName
system_tools =
    get_execution ∷ get_my_capabilities ∷ query_target ∷ list_targets ∷ get_target_schema
    ∷ get_target_notes ∷ update_target_notes ∷ list_operations ∷ create_operation ∷ update_operation
    ∷ disable_operation ∷ execute ∷ []

abbrev pub tool_name : SystemToolName → String
tool_name get_execution = "get_execution"
tool_name get_my_capabilities = "get_my_capabilities"
tool_name query_target = "query_target"
tool_name list_targets = "list_targets"
tool_name get_target_schema = "get_target_schema"
tool_name get_target_notes = "get_target_notes"
tool_name update_target_notes = "update_target_notes"
tool_name list_operations = "list_operations"
tool_name create_operation = "create_operation"
tool_name update_operation = "update_operation"
tool_name disable_operation = "disable_operation"
tool_name execute = "execute"

-- `SystemToolName(name)`, with `none` where that raises.
unfoldable pub system_tool : String → Option SystemToolName
system_tool name = find (λ t. str_eq (tool_name t) name) system_tools

pub record ToolPolicy : Type 0 where
  pub scope : Scope
  pub required_text : List String

unfoldable pub tool_policy : SystemToolName → ToolPolicy
tool_policy query_target = record { scope = Scope.query; required_text = "name" ∷ "sql" ∷ [] }
tool_policy list_targets = record { scope = Scope.query; required_text = [] }
tool_policy get_target_schema = record { scope = Scope.query; required_text = "name" ∷ [] }
tool_policy get_target_notes = record { scope = Scope.query; required_text = "name" ∷ [] }
tool_policy update_target_notes = record { scope = Scope.query; required_text = "name" ∷ [] }
tool_policy get_execution = record { scope = Scope.use_tools; required_text = "execution_id" ∷ [] }
tool_policy get_my_capabilities = record { scope = Scope.use_tools; required_text = [] }
tool_policy list_operations = record { scope = Scope.use_tools; required_text = [] }
tool_policy create_operation = record {
  scope = Scope.admin;
  required_text = "name" ∷ "target_name" ∷ [];
}
tool_policy update_operation = record { scope = Scope.admin; required_text = "name" ∷ [] }
tool_policy disable_operation = record { scope = Scope.admin; required_text = "name" ∷ [] }
tool_policy execute = record { scope = Scope.use_tools; required_text = "name" ∷ [] }

-- `(claims or {}).get("role", UserRole.USER)`
abbrev pub claimed_role : Option UserRole → UserRole
claimed_role none = UserRole.user
claimed_role (some role) = role

-- The argument is `auth_context_var`: the token of the request, if it carries one.
unfoldable pub current_tool_context : Option AccessToken → Result AuthContext
current_tool_context none = err (permission_error "Authentication required")
current_tool_context (some token) = elim token.subject [
  | none ↦ err (permission_error "Authenticated user is missing")
  | some subject ↦
      ok (record {
        user_id = subject;
        api_key_id = token.client_id;
        role = claimed_role token.claims;
      })
]

-- `isinstance(value, str) and value.strip()`
unfoldable pub is_text : Option Json → Bool
is_text (some (str s)) = not (is_empty (strip s))
is_text _ = false

unfoldable pub require_text : List String → Dict Json → Result (Unit {0})
unfolding is_text
require_text [] values = ok tt
require_text (field ∷ more) values = do
  raise_if (not (is_text (get field values)))
      (value_error (String.◌++◌ field " must be a non-empty string"))
  require_text more values

abbrev pub has_scope : Scope → List Scope → Bool
has_scope scope scopes = any (scope_eq scope) scopes

abbrev token_scopes : Option AccessToken → List Scope
token_scopes none = []
token_scopes (some token) = token.scopes

abbrev scope_text : Scope → String
scope_text Scope.admin = "trolley:admin"
scope_text Scope.use_tools = "trolley:use"
scope_text Scope.query = "trolley:query"

unfoldable pub validate_tool : SystemToolName → Dict Json → Option AccessToken → Result AuthContext
validate_tool name values auth = do
  context ← current_tool_context auth
  raise_if (not (has_scope (tool_policy name).scope (token_scopes auth))) (
      permission_error
        (String.◌++◌ "Missing required scope: " (scope_text (tool_policy name).scope)))
  require_text (tool_policy name).required_text values
  ok context

-- `list_tools`, over the names of all registered tools.
unfoldable pub is_visible : List Scope → List String → String → Bool
is_visible scopes accessible name = elim (system_tool name) [
  | none ↦ contains accessible name
  | some tool ↦ has_scope (tool_policy tool).scope scopes
]

unfoldable pub list_tools : List String → Option AccessToken → Catalog → Result (List String)
list_tools tools none c = ok tools
list_tools tools (some token) c = do
  context ← current_tool_context (some token)
  ok (filter (is_visible token.scopes (accessible_operation_names context c)) tools)
