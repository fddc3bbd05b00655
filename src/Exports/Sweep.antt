-- ===== src/Exports/Sweep.antt =====
-- The cleanup and the start of the service keep the invariant.
use trolley.Base.{
  ℕ, true, List, [], ◌∷◌, all, ltb, ◌≡◌, refl, inl, inr, update_where, In, arith, sym, subst,
  Bool-cases,
}
use trolley.Catalog.{ExportJob, JobStatus}
use trolley.Exports.{
  ExportLimits, Service, is_running, is_succeeded, is_stale, interrupted, expire, save_job, unlink,
  cleanup_each, cleanup, restarted, open_service,
}
use trolley.Exports.Quota.{IsSound, is_running_as, save-IsSound, held_count-interrupt}

abbrev pub SoundService : ExportLimits → Service → Type 0
SoundService limits s = IsSound limits s.catalog.jobs s.catalog.next_id s.tasks

-- What the rows that a cleanup has read still tell: their ids, and that a task's row is running.
abbrev pub WasRead : Service → List ExportJob → Type 0
WasRead s snapshot =
    (all (λ j. ltb j.id s.catalog.next_id) snapshot ≡ true)
    × ((t : ExportJob) → In t s.tasks → all (is_running_as t.id) snapshot ≡ true)

pub expire-SoundService :
    (limits : ExportLimits) (job : ExportJob) (jobs : List ExportJob) (s : Service)
    → SoundService limits s
    → WasRead s (job ∷ jobs)
    → SoundService limits (expire job s) × WasRead (expire job s) jobs
expire-SoundService limits job jobs s sound (issued, running) =
    elim (Bool-cases (is_succeeded job)) [
      | inl done ↦
          let expired : expire job s ≡ save_job (record job { status = JobStatus.expired }) s =
            ground (arith, done) in
          subst Swept (sym expired) (
            save-IsSound (record job { status = JobStatus.expired }) sound (ground (arith, issued))
                (inl refl) (λ t m. ground (arith, running t m, done)),
            (ground (arith, issued), λ t m. ground (arith, running t m)),
          )
      | inr held ↦
          let kept : expire job s ≡ s = ground (arith, held) in
          subst Swept (sym kept)
            (sound, (ground (arith, issued), λ t m. ground (arith, running t m)))
    ]
  where
    Swept : Service → Type 0
    Swept x = SoundService limits x × WasRead x jobs

cleanup_each-SoundService :
    (limits : ExportLimits) (now : ℕ) (snapshot : List ExportJob) (s : Service)
    → SoundService limits s
    → WasRead s snapshot
    → SoundService limits (cleanup_each now snapshot s)
unfolding cleanup_each
cleanup_each-SoundService limits now [] s sound read = sound
cleanup_each-SoundService limits now (job ∷ jobs) s sound read =
    elim (Bool-cases (is_stale now job)) [
      | inl stale ↦
          let (sound', read') = expire-SoundService limits job jobs (unlink job s) sound read in
          rw (cleanup_each, stale)
            (cleanup_each-SoundService limits now jobs (expire job (unlink job s)) sound' read')
      | inr fresh ↦
          rw (cleanup_each, fresh)
            (cleanup_each-SoundService limits now jobs s sound
              (ground (arith, read.0), λ t m. ground (arith, read.1 t m)))
    ]

-- A cleanup keeps the invariant.
pub cleanup-SoundService :
    (limits : ExportLimits) (now : ℕ) (s : Service)
    → SoundService limits s
    → SoundService limits (cleanup now s)
unfolding cleanup
cleanup-SoundService limits now s sound =
    cleanup_each-SoundService limits now s.catalog.jobs s sound (sound.issued, sound.tasks_running)

all-interrupt :
    (next now : ℕ) (jobs : List ExportJob)
    → all (λ j. ltb j.id next) jobs ≡ true
    → all (λ j. ltb j.id next) (update_where is_running (interrupted now) jobs) ≡ true
all-interrupt next now [] h = refl
all-interrupt next now (j ∷ jobs) h = ground (arith, all-interrupt next now jobs, h)

-- So does a start of the service.
pub open_service-SoundService :
    (limits : ExportLimits) (now : ℕ) (s : Service)
    → SoundService limits s
    → SoundService limits (open_service now s)
unfolding open_service
open_service-SoundService limits now s sound =
    cleanup-SoundService limits now (restarted now s) (record {
      quota = omega (arith, sound.quota, held_count-interrupt now s.catalog.jobs);
      issued = all-interrupt s.catalog.next_id now s.catalog.jobs sound.issued;
      tasks_issued = λ t m. absurd m;
      tasks_running = λ t m. absurd m;
    })
