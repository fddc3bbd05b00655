-- ===== src/Executions.antt =====
-- application/execution.py: one call of an operation, and the record that it leaves. What the call
-- asks of the validation and of the connector is an interface; `saves` says whether the last write
-- of the record goes through.
pub mod Values
pub mod Record
pub mod Audit
pub mod Refused
pub mod Status
pub mod Sample
mod Tests
pub use Values.*
unfoldable pub use Record.*
use trolley.Base.{
  ℕ, ◌+◌, String, Bool, true, false, not, ◌&&◌, ◌||◌, Option, none, some, List, [], ◌∷◌, ◌++◌, any,
  find, map, length, contains, str_eq, ◌==◌, if◌then◌else◌, value_error, permission_error,
  does_not_exist, Result, ok, err, Error, cancelled, update_where, Json, Items, null, bool, str,
  arr, nil, cons, Dict, get, put, keys, ℤ,
}
use trolley.Catalog.{
  Catalog, Operation, Target, User, Execution, ExecutionStatus, ExecutionPage, kind_eq,
}
use trolley.Catalog.Monad.{
  Action, ◌>>=◌, ◌>>◌, pure, gets, lift, get_or_raise, modify, guard, raise,
}
use trolley.Access.{AuthContext, active_user, can_access_operation}
use trolley.Limits.{Floats, ExecutionLimits}
use trolley.Targets.{TargetDefinition}
use trolley.Pagination.{UuidText, Digest, Page, resolve_page, next_page}

module _ (floats : Floats) (is_zero : String → Bool) (uuid : UuidText) (digest : Digest)
    (services : Services (TargetDefinition floats is_zero)) where
  open services use {
    validate_definition, compile_definition, validate_arguments, execute, start_export, error_text,
  }

  -- `ExecutionPage.create(…)`
  abbrev pub add_page : Execution → Page → Option String → Catalog → Catalog
  add_page e page cursor c = record c {
    pages =
        c.pages
        ++ record {
          id = c.next_id;
          execution = e.id;
          offset = page.offset;
          page_size = page.page_size;
          input_cursor = cursor;
          query_fingerprint = page.fingerprint;
        }
          ∷ [];
    next_id = c.next_id + 1;
  }

  -- `operation.definition.get("data_scope") == "caller"`
  abbrev pub is_readonly : Operation → Bool
  is_readonly operation = is_text_of "data_scope" "caller" operation.definition

  -- What is inside `try`, without pages.
  unfoldable pub attempt_once :
      TargetDefinition floats is_zero
      → Compiled
      → Operation
      → Dict Json
      → Execution
      → Action Outcome
  attempt_once definition compiled operation arguments e = do
    answer ← lift (execute definition compiled arguments (is_readonly operation) none)
    pure (elim answer [
      | Answer.rows vs has_more ↦ Outcome.rows vs has_more none
      | Answer.status s ↦ Outcome.status s
    ])

  -- The answer to a page, with the cursor of the next one if there is more.
  unfoldable pub page_outcome : Operation → AuthContext → Page → ℕ → Answer → Action Outcome
  page_outcome operation context page now (Answer.status s) = pure (Outcome.status s)
  page_outcome operation context page now (Answer.rows vs false) = pure (Outcome.rows vs false none)
  page_outcome operation context page now (Answer.rows vs true) = do
    cursor ←
        next_page uuid operation context (page.offset + length vs) page.page_size page.fingerprint
          page.expires_at now
    pure (Outcome.rows vs true (some cursor))

  -- What is inside `try`, for a page.
  unfoldable pub attempt_page :
      TargetDefinition floats is_zero
      → Compiled
      → Operation
      → Dict Json
      → AuthContext
      → Page
      → Option String
      → ℕ
      → Execution
      → Action Outcome
  unfolding page_outcome
  attempt_page definition compiled operation arguments context page cursor now e = do
    modify (add_page e page cursor)
    answer ← lift (
        execute definition compiled arguments (is_readonly operation)
          (some (page.offset, page.page_size)))
    page_outcome operation context page now answer

  -- The configured target of the same kind.
  abbrev pub configured :
      Target → Dict (TargetDefinition floats is_zero) → Option (TargetDefinition floats is_zero)
  configured target targets = elim (get target.name targets) [
    | none ↦ none
    | some d ↦ if kind_eq (TargetDefinition.kind d) target.kind then some d else none
  ]

  -- The client's arguments with the server's, or without any if nothing is bound.
  abbrev pub bound_arguments : List String → AuthContext → Dict Json → Action (Dict Json)
  bound_arguments [] context arguments = pure arguments
  bound_arguments names context arguments = do
    user ← get_or_raise (active_user context.user_id) does_not_exist
    pure (bind_email names user.email arguments)

  abbrev run_paged :
      TargetDefinition floats is_zero
      → Compiled
      → Operation
      → Dict Json
      → AuthContext
      → Option ℤ
      → Option String
      → Bool
      → ℕ
      → Action Response
  run_paged definition compiled operation arguments context page_size cursor saves now = do
    page ←
        resolve_page uuid digest operation context arguments page_size cursor
          (ExecutionLimits.max_rows (TargetDefinition.limits definition)) now
    run_execution error_text saves now operation.id arguments context now
        (attempt_page definition compiled operation arguments context page cursor now)

  -- The branch with inline output.
  unfoldable pub execute_inline :
      TargetDefinition floats is_zero
      → Operation
      → Dict Json
      → AuthContext
      → Option ℤ
      → Option String
      → Bool
      → ℕ
      → Action Response
  unfolding attempt_once attempt_page run_execution
  execute_inline definition operation given context page_size cursor saves now = do
    compiled ← lift (compile_definition operation.definition operation.input_schema)
    guard (any (contains compiled.bindings) (keys given))
        (value_error "Server-bound parameters cannot be supplied by the client")
    lift (validate_arguments given operation.input_schema)
    arguments ← bound_arguments compiled.bindings context given
    elim (is_given "pagination" operation.definition) [
      | true ↦ run_paged definition compiled operation arguments context page_size cursor saves now
      | false ↦
          guard (is_some page_size || is_some cursor)
            (value_error "This operation does not support pagination")
          >> run_execution error_text saves now operation.id arguments context now
              (attempt_once definition compiled operation arguments)
    ]

  -- The branch with a file.
  unfoldable pub execute_file :
      String → Dict Json → AuthContext → Option ℤ → Option String → Action Response
  execute_file name given context page_size cursor = do
    guard (is_some page_size || is_some cursor)
        (value_error "File output does not support pagination")
    start ← get_or_raise (λ _. start_export) (value_error "File execution service unavailable")
    start name given context

  unfoldable pub execute_operation :
      Result (Dict (TargetDefinition floats is_zero))
      → String
      → Dict Json
      → AuthContext
      → Option ℤ
      → Option String
      → Bool
      → ℕ
      → Action Response
  unfolding execute_inline execute_file
  execute_operation targets name given context page_size cursor saves now = do
    operation ← get_or_raise (operation_named name) does_not_exist
    target ← get_or_raise (target_by_id operation.target) does_not_exist
    guard (not operation.is_active || not target.is_active)
        (value_error "Operation or target is inactive")
    allowed ← gets (can_access_operation context operation)
    guard (not allowed) (permission_error "Operation access denied")
    loaded ← lift targets
    definition ←
        get_or_raise (λ _. configured target loaded)
          (value_error "Operation target is not configured")
    lift (validate_definition target operation.definition operation.input_schema)
    elim (is_text_of "output" "file" operation.definition) [
      | true ↦ execute_file name given context page_size cursor
      | false ↦ execute_inline definition operation given context page_size cursor saves now
    ]
