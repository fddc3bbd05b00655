-- ===== src/Exports/Jobs.antt =====
-- The export service as a state, and the writes that need no caller: the cleanup of what is due and
-- the start of the process.
use trolley.Base.{
  ℕ, Bool, true, false, not, ◌&&◌, ◌||◌, some, List, [], ◌∷◌, filter, ◌==◌, leb, if◌then◌else◌,
  update_where,
}
use trolley.Catalog.{Catalog, ExportJob, JobStatus}

-- The fields of `settings.exports` that bound a job.
pub record ExportLimits : Type 0 where
  pub max_jobs : ℕ
  -- `timedelta(seconds=ttl_seconds)`
  pub ttl : ℕ

pub record Service : Type 0 where
  pub catalog : Catalog
  pub files : List ℕ
  pub tasks : List ExportJob

abbrev pub is_running : ExportJob → Bool
is_running job = elim job.status [ JobStatus.running ↦ true | _ ↦ false ]

abbrev pub is_succeeded : ExportJob → Bool
is_succeeded job = elim job.status [ JobStatus.succeeded ↦ true | _ ↦ false ]

-- `status__in=["running", "succeeded"]`
abbrev pub is_held : ExportJob → Bool
is_held job = is_running job || is_succeeded job

-- `self.path(job).unlink(missing_ok=True)`
abbrev pub unlink : ExportJob → Service → Service
unlink job s = record s { files = filter (λ i. not (i == job.id)) s.files }

-- `job.save()`
abbrev pub save_job : ExportJob → Service → Service
save_job job s = record s {
  catalog = record s.catalog {
    jobs = update_where (λ j. j.id == job.id) (λ _. job) s.catalog.jobs;
  };
}

abbrev pub is_stale : ℕ → ExportJob → Bool
is_stale now job = not (is_held job) || (is_succeeded job && leb job.expires_at now)

abbrev pub expire : ExportJob → Service → Service
expire job s =
    if is_succeeded job then save_job (record job { status = JobStatus.expired }) s else s

-- The loop of `cleanup`, over the rows as they were read.
unfoldable pub cleanup_each : ℕ → List ExportJob → Service → Service
cleanup_each now [] s = s
cleanup_each now (job ∷ jobs) s =
    cleanup_each now jobs (if is_stale now job then expire job (unlink job s) else s)

unfoldable pub cleanup : ℕ → Service → Service
unfolding cleanup_each
cleanup now s = cleanup_each now s.catalog.jobs s

abbrev pub interrupted : ℕ → ExportJob → ExportJob
interrupted now job = record job { status = JobStatus.failed; finished_at = some now }

-- `open`, in a new process: no task runs, and what ran before has failed.
abbrev pub restarted : ℕ → Service → Service
restarted now s = record s {
  catalog = record s.catalog { jobs = update_where is_running (interrupted now) s.catalog.jobs };
  tasks = [];
}

unfoldable pub open_service : ℕ → Service → Service
unfolding cleanup
open_service now s = cleanup now (restarted now s)
