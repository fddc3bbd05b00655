-- ===== src/Server.antt =====
-- mcp/server.py: the system tools around the application modules. A tool reads and writes the catalog
-- and the registry of dynamic tools, and the wrapper of `system_tool` checks the caller before it runs
-- and translates what it raises.
pub mod Tasks
pub mod Authorised
pub mod Creation
pub mod Publish
pub mod Retire
pub mod Callable
pub mod Capabilities
mod Tests
use trolley.Base.{
  String, Bool, true, false, Option, none, some, List, [], ◌∷◌, Result, ok, err, Error,
  does_not_exist, value_error, permission_error, Dict, Json, if◌then◌else◌,
}
use trolley.Catalog.{Catalog, Operation, Target}
use trolley.Catalog.Monad.{Action, get_or_raise, ◌>>=◌ as bind}
use trolley.Access.{AuthContext, require_target}
use trolley.Auth.{AccessToken}
use trolley.Tools.{SystemToolName, validate_tool}
use trolley.Executions.{operation_named, target_by_id}
use trolley.Operations.{Rules}
use trolley.Operations as Operations
use trolley.Registry.{ToolServer, Registry, Method, reload}
unfoldable pub use Tasks.*

-- What a call of a tool gives: a value, a `ToolError` with its text, or another exception.
pub data ToolAnswer (A : Type 0) : Type 0 where
  returned : A → ToolAnswer A
  tool_error : String → ToolAnswer A
  raised : Error → ToolAnswer A

-- `except (PermissionError, ValueError)`
abbrev pub is_caught : Error → Bool
is_caught (value_error _) = true
is_caught (permission_error _) = true
is_caught _ = false

-- `require_operation_target`
unfoldable pub require_operation_target : String → AuthContext → Action Target
require_operation_target name context =
    bind
      (get_or_raise (operation_named name)
        (permission_error "Operation unavailable or access denied"))
      (λ operation.
        bind (get_or_raise (target_by_id operation.target) does_not_exist)
          (λ target. require_target context target.name))

-- `error_text` is `str(error)`.
module _ (tools : ToolServer) (error_text : Error → String) where
  -- How the wrapper ends.
  abbrev pub answer : {A : Type 0} → Result A → ToolAnswer A
  answer (ok a) = returned a
  answer (err e) = if is_caught e then tool_error (error_text e) else raised e

  -- `guarded`
  unfoldable pub guarded :
      {A : Type 0}
      → SystemToolName
      → Dict Json
      → Option AccessToken
      → (AuthContext → Task tools A)
      → World tools
      → ToolAnswer A × World tools
  guarded name values auth body w = elim (validate_tool name values auth) [
    | err e ↦ (answer (err e), w)
    | ok context ↦ let (r, w') = body context w in (answer r, w')
  ]

module _ (tools : ToolServer) (rules : Rules) where
  -- `create_operation`
  unfoldable pub create_tool :
      String → String → Dict Json → String → Option (Dict Json) → AuthContext → Task tools Operation
  create_tool name target_name definition description schema context = do
    _ ← on_catalog tools (require_target context target_name)
    result ←
        on_catalog tools
          (Operations.create_operation rules name target_name definition description schema)
    on_registry tools (reload tools name)
    done tools result

  -- `update_operation`
  unfoldable pub update_tool :
      String
      → Option String
      → Option (Dict Json)
      → Option (Dict Json)
      → AuthContext
      → Task tools Operation
  update_tool name description schema definition context = do
    _ ← on_catalog tools (require_operation_target name context)
    result ← on_catalog tools (Operations.update_operation rules name description schema definition)
    on_registry tools (reload tools name)
    done tools result

-- `disable_operation`
unfoldable pub disable_tool : (tools : ToolServer) → String → AuthContext → Task tools Operation
disable_tool tools name context = do
  _ ← on_catalog tools (require_operation_target name context)
  result ← on_catalog tools (Operations.disable_operation name)
  on_registry tools (reload tools name)
  done tools result
