-- ===== src/Executions/Tests.antt =====
-- Calls of the sample operation with a connector that answers one row.
use trolley.Base.{◌≡◌, ◌⊎◌, refl, true, none, [], ◌∷◌, ok, err, Error}
use trolley.Catalog.{Catalog, ExecutionStatus}
use trolley.Catalog.Sample.{sample, report}
use trolley.Pagination.Sample.{uuid}
use trolley.Executions.{new_execution, attempt_once, run_execution, execute_operation}
use trolley.Executions.Sample.{
  floats, is_zero, digest, definition, services, compiled, admin, stranger,
}
use trolley.Executions.Audit.{IsRecorded, begun, run_execution-IsRecorded}
use trolley.Executions.Status.{IsShown, present_own, get_execution, get_execution-IsShown}
use trolley.Auth.{user_by_id}
use trolley.Access.{
  active_user, is_granted, member_target_names, accessible_operation_names, can_access_operation,
}
use trolley.Executions.Refused.{MayRun, attempt_once-KeepsExecutions, execute_operation-MayRun}

run_execution-IsRecorded_example :
    let e = new_execution 100 60 [] admin 5 in
    let attempt = attempt_once floats is_zero uuid digest services definition compiled report [] in
    let (response, c) = run_execution (λ _. "error") true 5 60 [] admin 6 attempt sample in
    IsRecorded (λ _. "error") 6 e (attempt e (begun sample e)).0 response c
run_execution-IsRecorded_example =
    run_execution-IsRecorded (λ _. "error") 5 60 [] admin 6
      (attempt_once floats is_zero uuid digest services definition compiled report []) sample
      (attempt_once-KeepsExecutions floats is_zero uuid digest services definition compiled report
        [])
      refl

execute_operation-MayRun_example :
    MayRun floats is_zero uuid digest services
      (ok (("sales", definition) ∷ []))
      "report"
      stranger
      sample
    ⊎ ((x : Error) × (execute_operation floats is_zero uuid digest services
            (ok (("sales", definition) ∷ []))
            "report"
            []
            stranger
            none
            none
            true
            5
            sample
          ≡ (err x, sample)))
execute_operation-MayRun_example =
    execute_operation-MayRun floats is_zero uuid digest services (ok (("sales", definition) ∷ []))
      "report" [] stranger none none true 5 sample

-- The sample catalog after one call that ran.
abbrev after_call : Catalog
after_call = record sample { executions = new_execution 3 60 [] admin 5 ∷ [] }

get_execution-IsShown_example : IsShown admin after_call (record {
  execution_id = 3;
  status = ExecutionStatus.running;
  created_at = 5;
  finished_at = none;
})
unfolding get_execution present_own user_by_id active_user is_granted member_target_names
    accessible_operation_names can_access_operation
get_execution-IsShown_example =
    get_execution-IsShown uuid true "iii" admin after_call
      (record {
        execution_id = 3;
        status = ExecutionStatus.running;
        created_at = 5;
        finished_at = none;
      })
      refl
