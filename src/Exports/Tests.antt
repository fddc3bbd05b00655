-- ===== src/Exports/Tests.antt =====
-- A service with room for one file, over the sample catalog with an operation that writes one.
use trolley.Base.{◌≡◌, refl, [], ◌∷◌, ok, length}
use trolley.Pagination.Sample.{uuid}
use trolley.Executions.Sample.{floats, is_zero, digest, definition, services, admin}
use trolley.Access.{
  active_user, is_granted, member_target_names, accessible_operation_names, can_access_operation,
}
use trolley.Auth.{user_by_id}
use trolley.Pagination.{query_fingerprint}
use trolley.Exports.{
  ExportLimits, Service, cleanup_each, cleanup, admit, resolve_export, start_export_job,
}
use trolley.Exports.Sample.{no_parameters, idle}
use trolley.Exports.Sweep.{SoundService}
use trolley.Exports.Steps.{empty, step, started, Reachable-SoundService}

abbrev limits : ExportLimits
limits = record { max_jobs = 1; ttl = 60 }

abbrev busy : Service
busy =
    (start_export_job floats is_zero uuid digest services no_parameters limits
      (ok (("sales", definition) ∷ [])) "report" [] admin 5 idle).1

one_task_runs : length busy.tasks ≡ 1
unfolding start_export_job resolve_export admit cleanup cleanup_each active_user is_granted
    member_target_names accessible_operation_names can_access_operation user_by_id query_fingerprint
one_task_runs = refl

Reachable-SoundService_example : SoundService limits busy
Reachable-SoundService_example =
    Reachable-SoundService floats is_zero uuid digest services no_parameters limits busy
      (step (empty idle refl refl) (started (ok (("sales", definition) ∷ [])) "report" [] admin 5))
