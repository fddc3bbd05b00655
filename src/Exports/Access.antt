-- ===== src/Exports/Access.antt =====
-- Who is given an export, and what asking for one changes.
use trolley.Base.{
  ℕ, String, Bool, true, not, ◌&&◌, some, List, [], ◌∷◌, all, filter, contains, str_eq, eq_iff,
  find-In, ◌==◌, leb, ltb, ◌≡◌, subst, inl, inr, In, Result, ok, Dict, Json, arith, Bool-cases,
  Option-cases, Result-cases, if◌then◌else◌,
}
use trolley.Catalog.{Catalog, Operation, ExportJob, JobStatus}
use trolley.Access.{AuthContext}
use trolley.Limits.{Floats}
use trolley.Targets.{TargetDefinition}
use trolley.Pagination.{UuidText, Digest, query_fingerprint}
use trolley.Executions.{Services, Compiled}
use trolley.Exports.{
  ExportLimits, Service, own_job, operation_by_id, resolve_export, check_export, get_export,
  is_succeeded, unlink,
}
use trolley.Exports.Quota.{is_running_as}
use trolley.Exports.Sweep.{SoundService, WasRead, expire-SoundService}

-- A row that was read still has its id handed out, and tells whether a task's row runs.
all-In :
    (p : ExportJob → Bool) (jobs : List ExportJob) (job : ExportJob)
    → all p jobs ≡ true
    → In job jobs
    → p job ≡ true
all-In p [] job h m = absurd m
all-In p (j ∷ jobs) job h (inl e) = rw e (ground (arith, h))
all-In p (j ∷ jobs) job h (inr m) = ground (arith, all-In p jobs job, h)

module _ (floats : Floats) (is_zero : String → Bool) (uuid : UuidText) (digest : Digest)
    (services : Services (TargetDefinition floats is_zero))
    (parameters : Compiled → List String) where
  own_job-In :
      (job_id : String) (context : AuthContext) (c : Catalog) (job : ExportJob)
      → own_job floats is_zero uuid digest services parameters job_id context c ≡ some job
      → In job c.jobs × (job.user_id ≡ context.user_id)
  own_job-In job_id context c job h = elim (Option-cases (uuid.parse job_id)) [
    | inl e ↦ absurd (ground (arith, e, h))
    | inr (i, e) ↦
        let (m, t) =
          find-In (λ j. j.id == i && j.user_id == context.user_id) c.jobs job
            (ground (arith, e, h)) in
        (m, ground (arith, t))
  ]

  -- Why a caller may have a job: it is the caller's own, and what the caller may run today under its
  -- operation's name, with its arguments, has the fingerprint that the job was made with.
  pub record Entitled (targets : Result (Dict (TargetDefinition floats is_zero)))
      (context : AuthContext) (c : Catalog) (job : ExportJob) : Type 0 where
    pub listed : In job c.jobs
    pub own : job.user_id ≡ context.user_id
    pub original : Operation
    pub made_by :
        operation_by_id floats is_zero uuid digest services parameters job.operation c
        ≡ some original
    pub arguments : Dict Json
    pub operation : Operation
    pub values : Dict Json
    pub resolves :
        resolve_export floats is_zero uuid digest services parameters targets original.name
          arguments context c
        ≡ ok (operation, values)
    pub same_query : query_fingerprint digest operation values ≡ job.fingerprint

  check_export-Entitled :
      (targets : Result (Dict (TargetDefinition floats is_zero))) (job_id : String)
      (context : AuthContext) (c : Catalog) (job : ExportJob)
      → check_export floats is_zero uuid digest services parameters targets job_id context c
        ≡ ok job
      → Entitled targets context c job
  unfolding check_export
  check_export-Entitled targets job_id context c job h =
      elim (Option-cases
        (own_job floats is_zero uuid digest services parameters job_id context c)) [
          | inl e ↦ absurd (ground (arith, e, h))
          | inr (j, e) ↦
              elim (Option-cases
                (operation_by_id floats is_zero uuid digest services parameters j.operation c)) [
                  | inl f ↦ absurd (ground (arith, e, f, h))
                  | inr (o, f) ↦
                      elim (Result-cases
                        (services.compile_definition o.definition o.input_schema)) [
                          | inr (x, g) ↦ absurd (ground (arith, e, f, g, h))
                          | inl (compiled, g) ↦ found j e o f compiled g
                        ]
                ]
        ]
    where
      found :
          (j : ExportJob)
          → own_job floats is_zero uuid digest services parameters job_id context c ≡ some j
          → (o : Operation)
          → operation_by_id floats is_zero uuid digest services parameters j.operation c ≡ some o
          → (compiled : Compiled)
          → services.compile_definition o.definition o.input_schema ≡ ok compiled
          → Entitled targets context c job
      found j e o f compiled g =
          let arguments = filter (λ item. not (contains compiled.bindings item.0)) j.arguments in
          elim (Result-cases (
            resolve_export floats is_zero uuid digest services parameters targets o.name arguments
              context c)) [
                | inr (x, r) ↦ absurd (ground (arith, e, f, g, r, h))
                | inl ((operation, values), r) ↦
                    elim (Bool-cases
                      (str_eq (query_fingerprint digest operation values) j.fingerprint)) [
                        | inr other ↦ absurd (ground (arith, e, f, g, r, other, h))
                        | inl same ↦
                            let this : j ≡ job = ground (arith, e, f, g, r, same, h) in
                            let (m, own) = own_job-In job_id context c j e in
                            subst (Entitled targets context c) this (record {
                              listed = m;
                              own = own;
                              original = o;
                              made_by = f;
                              arguments = arguments;
                              operation = operation;
                              values = values;
                              resolves = r;
                              same_query =
                                  (eq_iff (query_fingerprint digest operation values)
                                      j.fingerprint).0
                                    same;
                            })
                      ]
              ]

  pub get_export-SoundService :
      (limits : ExportLimits) (targets : Result (Dict (TargetDefinition floats is_zero)))
      (job_id : String) (context : AuthContext) (now : ℕ) (s : Service)
      → SoundService limits s
      → SoundService limits
          (get_export floats is_zero uuid digest services parameters targets job_id context now s).1
  unfolding get_export
  get_export-SoundService limits targets job_id context now s sound =
      elim (Result-cases (
        check_export floats is_zero uuid digest services parameters targets job_id context
          s.catalog)) [
            | inr (x, e) ↦ rw (get_export, e) sound
            | inl (job, e) ↦ elim (Bool-cases (is_succeeded job && leb job.expires_at now)) [
              | inr fresh ↦ rw (get_export, e, fresh) sound
              | inl due ↦
                  let m = (check_export-Entitled targets job_id context s.catalog job e).listed in
                  let read : WasRead (unlink job s) (job ∷ []) = (
                    ground (
                      arith,
                      all-In (λ j. ltb j.id s.catalog.next_id) s.catalog.jobs job sound.issued m,
                    ),
                    λ t n. ground (
                      arith,
                      all-In (is_running_as t.id) s.catalog.jobs job (sound.tasks_running t n) m,
                    ),
                  ) in
                  rw (get_export, e, due)
                    (expire-SoundService limits job [] (unlink job s) sound read).0
            ]
          ]

  pub get_export-Entitled :
      (targets : Result (Dict (TargetDefinition floats is_zero))) (job_id : String)
      (context : AuthContext) (now : ℕ) (s : Service) (given : ExportJob)
      → (get_export floats is_zero uuid digest services parameters targets job_id context now s).0
        ≡ ok given
      → (job : ExportJob) × Entitled targets context s.catalog job
        × (given ≡ (
            if is_succeeded job && leb job.expires_at now
            then record job { status = JobStatus.expired }
            else job))
  unfolding get_export
  get_export-Entitled targets job_id context now s given h =
      elim (Result-cases (
        check_export floats is_zero uuid digest services parameters targets job_id context
          s.catalog)) [
            | inr (x, e) ↦ absurd (ground (arith, e, h))
            | inl (job, e) ↦ (
              job,
              check_export-Entitled targets job_id context s.catalog job e,
              ground (arith, e, h),
            )
          ]
