-- ===== src/Exports.antt =====
-- application/exports.py: the jobs that write a query's rows to a file. The service keeps the
-- catalog, the ids of the finished files and the jobs whose task runs in this process; what a task
-- comes to, the result of connectors/export.py, is an argument. Partial files are not kept apart.
pub mod Jobs
pub mod Quota
pub mod Sweep
pub mod Access
pub mod Steps
pub mod Sample
mod Tests
pub use Jobs.*
unfoldable pub use Jobs.{cleanup_each, cleanup, open_service}
use trolley.Base.{
  ℕ, ◌+◌, String, Bool, true, false, not, ◌&&◌, ◌||◌, Option, none, some, List, [], ◌∷◌, ◌++◌, all,
  any, filter, find, length, contains, str_eq, ◌==◌, leb, ltb, if◌then◌else◌, value_error,
  permission_error, does_not_exist, Result, ok, err, Error, ◌>>=◌, ◌>>◌, raise_if, or_raise,
  update_where, Dict, Json, keys, put, str,
}
use trolley.Catalog.{Catalog, ApiKey, User, Operation, ExportJob, JobStatus}
use trolley.Access.{AuthContext, can_access_operation}
use trolley.Auth.{user_by_id}
use trolley.Limits.{Floats}
use trolley.Targets.{TargetDefinition}
use trolley.Pagination.{UuidText, Digest, query_fingerprint}
use trolley.Executions.{
  Services, Compiled, operation_named, target_by_id, configured, bind_email, is_text_of,
}

abbrev pub held_count : List ExportJob → ℕ
held_count jobs = length (filter is_held jobs)

abbrev pub new_job : ExportLimits → Operation → Dict Json → String → AuthContext → ℕ → ℕ → ExportJob
new_job limits operation values fingerprint context id now = record {
  id = id;
  operation = operation.id;
  user_id = context.user_id;
  api_key_id = context.api_key_id;
  arguments = values;
  fingerprint = fingerprint;
  status = JobStatus.running;
  row_count = 0;
  byte_count = 0;
  file_bytes = 0;
  expires_at = now + limits.ttl;
  finished_at = none;
}

-- `ExportJob.create(…)` and the task.
abbrev pub begin_job : ExportJob → Service → Service
begin_job job s = record s {
  catalog = record s.catalog { jobs = s.catalog.jobs ++ job ∷ []; next_id = s.catalog.next_id + 1 };
  tasks = s.tasks ++ job ∷ [];
}

abbrev pub is_busy : List ExportJob → Bool
is_busy [] = false
is_busy (_ ∷ _) = true

-- `start` after the cleanup: `resolved` is what `resolve` returns or raises.
unfoldable pub admit :
    ExportLimits
    → Digest
    → AuthContext
    → ℕ
    → Result (Operation × Dict Json)
    → Service
    → Result ExportJob × Service
admit limits digest context now resolved s =
    if is_busy s.tasks
    then (err (value_error "An export is already running; retry later"), s)
    else if leb limits.max_jobs (held_count s.catalog.jobs)
    then (err (value_error "Export storage quota reached; wait for existing files to expire"), s)
    else elim resolved [
      | err x ↦ (err x, s)
      | ok (operation, values) ↦
          let job =
            new_job limits operation values (query_fingerprint digest operation values) context
              s.catalog.next_id now in
          (ok job, begin_job job s)
    ]

abbrev pub completed : ExportLimits → ℕ → ℕ × ℕ × ℕ → ExportJob → ExportJob
completed limits now (rows, size, file_size) job = record job {
  status = JobStatus.succeeded;
  row_count = rows;
  byte_count = size;
  file_bytes = file_size;
  expires_at = now + limits.ttl;
  finished_at = some now;
}

-- `job.save()` at the end of `run`: if it fails, the file goes.
abbrev pub close_job : Bool → ExportJob → Service → Service
close_job saves job s = if saves then save_job job s else unlink job s

abbrev pub without_task : ExportJob → Service → Service
without_task job s = record s { tasks = filter (λ t. not (t.id == job.id)) s.tasks }

-- The end of `run`: the rows, the bytes and the size of the file, or an error.
unfoldable pub finish_job :
    ExportLimits → Bool → ℕ → ExportJob → Result (ℕ × ℕ × ℕ) → Service → Service
finish_job limits saves now job (ok sizes) s =
    close_job saves (completed limits now sizes job)
      (record (without_task job s) { files = job.id ∷ s.files })
finish_job limits saves now job (err _) s =
    close_job saves (interrupted now job) (unlink job (without_task job s))

-- Whether two dicts have the same keys.
abbrev pub same_names : List String → List String → Bool
same_names a b = all (contains b) a && all (contains a) b

module _ (floats : Floats) (is_zero : String → Bool) (uuid : UuidText) (digest : Digest)
    (services : Services (TargetDefinition floats is_zero))
    (parameters : Compiled → List String) where
  open services use {validate_definition, compile_definition, validate_arguments}

  -- `ApiKey.get(id=…, user_id=…, is_active=True)`
  abbrev pub own_key : AuthContext → Catalog → Option ApiKey
  own_key context c =
      find (λ k. k.id == context.api_key_id && (k.user == context.user_id && k.is_active))
        c.api_keys

  -- `resolve`, with the caller's role of the moment. It reads the catalog only.
  unfoldable pub resolve_export :
      Result (Dict (TargetDefinition floats is_zero))
      → String
      → Dict Json
      → AuthContext
      → Catalog
      → Result (Operation × Dict Json)
  resolve_export targets name arguments context c = do
    key ← or_raise (own_key context c) does_not_exist
    user ← or_raise (user_by_id key.user c) does_not_exist
    raise_if (not user.is_active) (permission_error "User is inactive")
    let current : AuthContext = record { user_id = user.id; api_key_id = key.id; role = user.role }
    operation ← or_raise (operation_named name c) does_not_exist
    target ← or_raise (target_by_id operation.target c) does_not_exist
    raise_if
        (not operation.is_active
          || (not target.is_active || not (can_access_operation current operation c)))
        (permission_error "Operation access denied")
    validate_definition target operation.definition operation.input_schema
    raise_if (not (is_text_of "output" "file" operation.definition))
        (value_error "Operation does not use file output")
    compiled ← compile_definition operation.definition operation.input_schema
    raise_if (any (contains compiled.bindings) (keys arguments))
        (value_error "Server-bound parameters cannot be supplied by the client")
    validate_arguments arguments operation.input_schema
    let values = bind_email compiled.bindings user.email arguments
    raise_if (not (same_names (keys values) (parameters compiled)))
        (value_error "Arguments must match Operation parameters")
    loaded ← targets
    _ ←
        or_raise (configured floats is_zero uuid digest services target loaded)
          (value_error "Target is not configured")
    ok (operation, values)

  unfoldable pub start_export_job :
      ExportLimits
      → Result (Dict (TargetDefinition floats is_zero))
      → String
      → Dict Json
      → AuthContext
      → ℕ
      → Service
      → Result ExportJob × Service
  unfolding resolve_export admit cleanup
  start_export_job limits targets name arguments context now s =
      let s' = cleanup now s in
      admit limits digest context now (resolve_export targets name arguments context s'.catalog) s'

  -- The job of a text that names one of the caller's.
  abbrev pub own_job : String → AuthContext → Catalog → Option ExportJob
  own_job job_id context c = elim (uuid.parse job_id) [
    | none ↦ none
    | some i ↦ find (λ j. j.id == i && j.user_id == context.user_id) c.jobs
  ]

  abbrev pub operation_by_id : ℕ → Catalog → Option Operation
  operation_by_id i c = find (λ o. o.id == i) c.operations

  -- `get` up to its last check: the job, if the caller may still have what it was made of.
  unfoldable pub check_export :
      Result (Dict (TargetDefinition floats is_zero))
      → String
      → AuthContext
      → Catalog
      → Result ExportJob
  unfolding resolve_export
  check_export targets job_id context c = do
    job ← or_raise (own_job job_id context c) (value_error "Export not found")
    original ← or_raise (operation_by_id job.operation c) does_not_exist
    compiled ← compile_definition original.definition original.input_schema
    let arguments = filter (λ item. not (contains compiled.bindings item.0)) job.arguments
    (operation, values) ← resolve_export targets original.name arguments context c
    raise_if (not (str_eq (query_fingerprint digest operation values) job.fingerprint))
        (permission_error "Export definition or caller identity changed; create a new export")
    ok job

  -- A job that is due when it is asked for.
  abbrev pub expire_due : ℕ → ExportJob → Service → ExportJob × Service
  expire_due now job s =
      if is_succeeded job && leb job.expires_at now
      then (record job { status = JobStatus.expired }, expire job (unlink job s))
      else (job, s)

  unfoldable pub get_export :
      Result (Dict (TargetDefinition floats is_zero))
      → String
      → AuthContext
      → ℕ
      → Service
      → Result ExportJob × Service
  unfolding check_export
  get_export targets job_id context now s = elim (check_export targets job_id context s.catalog) [
    | err x ↦ (err x, s)
    | ok job ↦ let (job', s') = expire_due now job s in (ok job', s')
  ]
