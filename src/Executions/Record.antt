-- ===== src/Executions/Record.antt =====
-- application/execution.py: the record of an execution, from its creation to the last write around
-- an attempt.
use trolley.Base.{
  ℕ, ◌+◌, String, Bool, not, none, some, [], ◌∷◌, ◌++◌, ◌==◌, if◌then◌else◌, Result, ok, err, Error,
  cancelled, update_where, Json, Dict,
}
use trolley.Catalog.{Catalog, Execution, ExecutionStatus}
use trolley.Catalog.Monad.{Action}
use trolley.Access.{AuthContext}
use trolley.Executions.Values.{Outcome, Response, inline, outcome_dict}

-- `execution.save()`
abbrev pub save_execution : Execution → Catalog → Catalog
save_execution e c = record c {
  executions = update_where (λ x. x.id == e.id) (λ _. e) c.executions;
}

-- `Execution.create(…)`
abbrev pub new_execution : ℕ → ℕ → Dict Json → AuthContext → ℕ → Execution
new_execution id operation arguments context now = record {
  id = id;
  operation = operation;
  arguments = arguments;
  status = ExecutionStatus.running;
  result = none;
  error = none;
  requested_by = context.user_id;
  api_key_id = context.api_key_id;
  created_at = now;
  finished_at = none;
}

abbrev pub succeeded : Outcome → ℕ → Execution → Execution
succeeded outcome now e = record e {
  status = ExecutionStatus.succeeded;
  result = some (outcome_dict outcome);
  finished_at = some now;
}

abbrev pub failed : String → ℕ → Execution → Execution
failed text now e = record e {
  status = ExecutionStatus.failed;
  result = none;
  error = some text;
  finished_at = some now;
}

abbrev pub failure_text : (Error → String) → Error → String
failure_text error_text cancelled = "Execution cancelled; database outcome may be unknown"
failure_text error_text e = error_text e

-- The end of a call whose attempt is over: the status, the record and the response or the error.
unfoldable pub finish_execution :
    (Error → String) → Bool → ℕ → Execution → Result Outcome → Action Response
finish_execution error_text saves now e (ok outcome) c = (
  ok (inline e.id outcome (not saves)),
  if saves then save_execution (succeeded outcome now e) c else c,
)
finish_execution error_text saves now e (err x) c =
    (err x, if saves then save_execution (failed (failure_text error_text x) now e) c else c)

-- From the creation of the record to the end, around an attempt.
unfoldable pub run_execution :
    (Error → String)
    → Bool
    → ℕ
    → ℕ
    → Dict Json
    → AuthContext
    → ℕ
    → (Execution → Action Outcome)
    → Action Response
unfolding finish_execution
run_execution error_text saves now operation arguments context finished attempt c =
    let e = new_execution c.next_id operation arguments context now in
    let (r, c') =
      attempt e (record c { executions = c.executions ++ e ∷ []; next_id = c.next_id + 1 }) in
    finish_execution error_text saves finished e r c'
