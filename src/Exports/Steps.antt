-- ===== src/Exports/Steps.antt =====
-- The life of the export service as steps, and what holds after any of them.
use trolley.Base.{
  ℕ, ◌≤◌, String, Bool, true, false, not, List, [], filter-In, ◌==◌, leb, ltb, ◌≡◌, refl, subst,
  inl, inr, In, Result, ok, err, Dict, Json, arith, Bool-cases, Result-cases,
}
use trolley.Catalog.{Catalog, Operation, ExportJob}
use trolley.Access.{AuthContext}
use trolley.Limits.{Floats}
use trolley.Targets.{TargetDefinition}
use trolley.Pagination.{UuidText, Digest, query_fingerprint}
use trolley.Executions.{Services, Compiled}
use trolley.Exports.{
  ExportLimits, Service, held_count, is_busy, new_job, admit, completed, interrupted, save_job,
  without_task, finish_job, cleanup, open_service, resolve_export, start_export_job, get_export,
}
use trolley.Exports.Quota.{all-weaken, save-IsSound, begin-IsSound, fewer-IsSound}
use trolley.Exports.Access.{get_export-SoundService}
use trolley.Exports.Sweep.{SoundService, cleanup-SoundService, open_service-SoundService}

admit-SoundService :
    (limits : ExportLimits) (digest : Digest) (context : AuthContext) (now : ℕ)
    (resolved : Result (Operation × Dict Json)) (s : Service)
    → SoundService limits s
    → SoundService limits (admit limits digest context now resolved s).1
unfolding admit
admit-SoundService limits digest context now resolved s sound =
    elim (Bool-cases (is_busy s.tasks)) [
      | inl busy ↦ rw (admit, busy) sound
      | inr idle ↦ elim (Bool-cases (leb limits.max_jobs (held_count s.catalog.jobs))) [
        | inl full ↦ rw (admit, idle, full) sound
        | inr room ↦ elim (Result-cases resolved) [
          | inr (x, e) ↦ rw (admit, idle, room, e) sound
          | inl ((operation, values), e) ↦
              rw (admit, idle, room, e)
                (begin-IsSound
                  (new_job limits operation values (query_fingerprint digest operation values)
                    context s.catalog.next_id now)
                  sound (ground (arith, room)) refl refl)
        ]
      ]
    ]

-- Saving the end of a job that a task has, once the task is gone.
end-IsSound :
    (limits : ExportLimits) (job new : ExportJob) (s : Service)
    → new.id ≡ job.id
    → SoundService limits s
    → In job s.tasks
    → SoundService limits (save_job new (without_task job s))
end-IsSound limits job new s same sound m =
    save-IsSound new (fewer-IsSound (λ t. not (t.id == job.id)) sound)
      (ground (arith, same, sound.tasks_issued job m)) (inr (rw same (sound.tasks_running job m)))
      (λ t m'. ground (arith, same, (filter-In (λ t. not (t.id == job.id)) s.tasks t).0 m'))

finish_job-SoundService :
    (limits : ExportLimits) (saves : Bool) (now : ℕ) (job : ExportJob) (result : Result (ℕ × ℕ × ℕ))
    (s : Service)
    → SoundService limits s
    → In job s.tasks
    → SoundService limits (finish_job limits saves now job result s)
unfolding finish_job
finish_job-SoundService limits true now job (ok sizes) s sound m =
    end-IsSound limits job (completed limits now sizes job) s refl sound m
finish_job-SoundService limits true now job (err x) s sound m =
    end-IsSound limits job (interrupted now job) s refl sound m
finish_job-SoundService limits false now job (ok sizes) s sound m =
    fewer-IsSound (λ t. not (t.id == job.id)) sound
finish_job-SoundService limits false now job (err x) s sound m =
    fewer-IsSound (λ t. not (t.id == job.id)) sound

elsewhere-SoundService :
    (limits : ExportLimits) (s : Service) (c : Catalog)
    → c.jobs ≡ s.catalog.jobs
    → s.catalog.next_id ≤ c.next_id
    → SoundService limits s
    → SoundService limits (record s { catalog = c })
elsewhere-SoundService limits s c same later sound = record {
  quota = rw same sound.quota;
  issued = rw same (
      all-weaken (λ j. ltb j.id s.catalog.next_id) (λ j. ltb j.id c.next_id) s.catalog.jobs
        (λ j e. ground (arith, e, later)) sound.issued);
  tasks_issued = λ t m. omega (arith, sound.tasks_issued t m, later);
  tasks_running = λ t m. rw same (sound.tasks_running t m);
}

module _ (floats : Floats) (is_zero : String → Bool) (uuid : UuidText) (digest : Digest)
    (services : Services (TargetDefinition floats is_zero)) (parameters : Compiled → List String)
    (limits : ExportLimits) where
  -- What can happen next: the process starts again, a cleanup runs, a call starts a job, whether it
  -- is let in or raises, a caller asks for a job, a task ends, or the rest of the program writes to its own tables.
  pub data Step : Service → Service → Type 0 where
    opened : {s : Service} (now : ℕ) → Step s (open_service now s)
    cleaned : {s : Service} (now : ℕ) → Step s (cleanup now s)
    started :
        {s : Service} (targets : Result (Dict (TargetDefinition floats is_zero))) (name : String)
        (arguments : Dict Json) (context : AuthContext) (now : ℕ)
        → Step s
            (start_export_job floats is_zero uuid digest services parameters limits targets name
              arguments context now s).1
    asked :
        {s : Service} (targets : Result (Dict (TargetDefinition floats is_zero))) (job_id : String)
        (context : AuthContext) (now : ℕ)
        → Step s
            (get_export floats is_zero uuid digest services parameters targets job_id context now
              s).1
    finished :
        {s : Service} (saves : Bool) (now : ℕ) (job : ExportJob) (result : Result (ℕ × ℕ × ℕ))
        → In job s.tasks
        → Step s (finish_job limits saves now job result s)
    elsewhere :
        {s : Service} (c : Catalog)
        → c.jobs ≡ s.catalog.jobs
        → s.catalog.next_id ≤ c.next_id
        → Step s (record s { catalog = c })

  -- The services that steps lead to from one without jobs.
  pub data Reachable : Service → Type 0 where
    empty : (s : Service) → s.catalog.jobs ≡ [] → s.tasks ≡ [] → Reachable s
    step : {s s' : Service} → Reachable s → Step s s' → Reachable s'

  Step-SoundService : {s s' : Service} → Step s s' → SoundService limits s → SoundService limits s'
  unfolding start_export_job
  Step-SoundService (opened {s} now) sound = open_service-SoundService limits now s sound
  Step-SoundService (cleaned {s} now) sound = cleanup-SoundService limits now s sound
  Step-SoundService (started {s} targets name arguments context now) sound =
      admit-SoundService limits digest context now
        (resolve_export floats is_zero uuid digest services parameters targets name arguments
          context (cleanup now s).catalog)
        (cleanup now s) (cleanup-SoundService limits now s sound)
  Step-SoundService (asked {s} targets job_id context now) sound =
      get_export-SoundService floats is_zero uuid digest services parameters limits targets job_id
        context now s sound
  Step-SoundService (finished {s} saves now job result m) sound =
      finish_job-SoundService limits saves now job result s sound m
  Step-SoundService (elsewhere {s} c same later) sound =
      elsewhere-SoundService limits s c same later sound

  -- In every service that steps lead to, the jobs that run or hold a file are at most as many as the
  -- quota, and every row of a job whose task runs is marked as running.
  pub Reachable-SoundService : (s : Service) → Reachable s → SoundService limits s
  Reachable-SoundService s (empty _ none_yet idle) = record {
    quota = rw none_yet (omega arith);
    issued = rw none_yet refl;
    tasks_issued = λ t m. absurd (subst (In t) idle m);
    tasks_running = λ t m. absurd (subst (In t) idle m);
  }
  Reachable-SoundService s' (step {s} reached next) =
      Step-SoundService next (Reachable-SoundService s reached)
