-- ===== src/Exports/Quota.antt =====
-- The invariant of the export service, and the writes of rows that keep it.
use trolley.Base.{
  ℕ, ◌+◌, ◌≤◌, ◌<◌, Bool, true, false, not, ◌||◌, List, [], ◌∷◌, ◌++◌, all, filter, ◌==◌, ltb, ◌≡◌,
  refl, ◌⊎◌, inl, inr, update_where, In, filter-In, In-append, arith,
}
use trolley.Catalog.{ExportJob}
use trolley.Exports.{ExportLimits, is_running, is_held, held_count, interrupted}

-- The rows of an id are those of a running job.
abbrev pub is_running_as : ℕ → ExportJob → Bool
is_running_as i j = not (j.id == i) || is_running j

-- The jobs are within the quota, their ids were handed out, and the rows of a task are running.
pub record IsSound (limits : ExportLimits) (jobs : List ExportJob) (next : ℕ)
    (tasks : List ExportJob) : Type 0 where
  pub quota : held_count jobs ≤ limits.max_jobs
  pub issued : all (λ j. ltb j.id next) jobs ≡ true
  pub tasks_issued : (t : ExportJob) → In t tasks → t.id < next
  pub tasks_running : (t : ExportJob) → In t tasks → all (is_running_as t.id) jobs ≡ true

pub all-update :
    (p q : ExportJob → Bool) (new : ExportJob) (jobs : List ExportJob)
    → all p jobs ≡ true
    → p new ≡ true
    → all p (update_where q (λ _. new) jobs) ≡ true
all-update p q new [] h k = refl
all-update p q new (j ∷ jobs) h k = ground (arith, all-update p q new jobs, h, k)

pub all-append :
    (p : ExportJob → Bool) (new : ExportJob) (jobs : List ExportJob)
    → all p jobs ≡ true
    → p new ≡ true
    → all p (jobs ++ new ∷ []) ≡ true
all-append p new [] h k = ground (arith, k)
all-append p new (j ∷ jobs) h k = ground (arith, all-append p new jobs, h, k)

pub all-weaken :
    (p q : ExportJob → Bool) (jobs : List ExportJob)
    → ((j : ExportJob) → p j ≡ true → q j ≡ true)
    → all p jobs ≡ true
    → all q jobs ≡ true
all-weaken p q [] imp h = refl
all-weaken p q (j ∷ jobs) imp h = ground (arith, imp j, all-weaken p q jobs imp, h)

pub held_count-append :
    (new : ExportJob) (jobs : List ExportJob) → held_count (jobs ++ new ∷ []) ≤ held_count jobs + 1
held_count-append new [] = ground arith
held_count-append new (j ∷ jobs) = ground (arith, held_count-append new jobs)

held_count-drop :
    (q : ExportJob → Bool) (new : ExportJob) (jobs : List ExportJob)
    → is_held new ≡ false
    → held_count (update_where q (λ _. new) jobs) ≤ held_count jobs
held_count-drop q new [] h = omega arith
held_count-drop q new (j ∷ jobs) h = ground (arith, held_count-drop q new jobs h, h)

held_count-finish :
    (i : ℕ) (new : ExportJob) (jobs : List ExportJob)
    → all (is_running_as i) jobs ≡ true
    → held_count (update_where (λ j. j.id == i) (λ _. new) jobs) ≤ held_count jobs
held_count-finish i new [] h = omega arith
held_count-finish i new (j ∷ jobs) h = ground (arith, held_count-finish i new jobs, h)

pub held_count-interrupt :
    (now : ℕ) (jobs : List ExportJob)
    → held_count (update_where is_running (interrupted now) jobs) ≤ held_count jobs
held_count-interrupt now [] = omega arith
held_count-interrupt now (j ∷ jobs) = ground (arith, held_count-interrupt now jobs)

module _ {limits : ExportLimits} {jobs : List ExportJob} {next : ℕ} {tasks : List ExportJob} where
  -- Saving a job that no task has keeps the invariant, if the job gives up its place or its rows
  -- hold one already.
  pub save-IsSound :
      (new : ExportJob)
      → IsSound limits jobs next tasks
      → ltb new.id next ≡ true
      → (is_held new ≡ false) ⊎ (all (is_running_as new.id) jobs ≡ true)
      → ((t : ExportJob) → In t tasks → (new.id == t.id) ≡ false)
      → IsSound limits (update_where (λ j. j.id == new.id) (λ _. new) jobs) next tasks
  save-IsSound new s low held other = record {
    quota = omega (arith, s.quota, fewer held);
    issued = all-update (λ j. ltb j.id next) (λ j. j.id == new.id) new jobs s.issued low;
    tasks_issued = s.tasks_issued;
    tasks_running = λ t m.
        all-update (is_running_as t.id) (λ j. j.id == new.id) new jobs (s.tasks_running t m)
          (ground (arith, other t m));
  }
    where
      fewer :
          (is_held new ≡ false) ⊎ (all (is_running_as new.id) jobs ≡ true)
          → held_count (update_where (λ j. j.id == new.id) (λ _. new) jobs) ≤ held_count jobs
      fewer (inl h) = held_count-drop (λ j. j.id == new.id) new jobs h
      fewer (inr h) = held_count-finish new.id new jobs h

  -- A new running job keeps the invariant while there is room.
  pub begin-IsSound :
      (new : ExportJob)
      → IsSound limits jobs next tasks
      → held_count jobs < limits.max_jobs
      → new.id ≡ next
      → is_running new ≡ true
      → IsSound limits (jobs ++ new ∷ []) (next + 1) (tasks ++ new ∷ [])
  begin-IsSound new s room same running = record {
    quota = omega (arith, held_count-append new jobs, room);
    issued =
        all-append (λ j. ltb j.id (next + 1)) new jobs
          (all-weaken (λ j. ltb j.id next) (λ j. ltb j.id (next + 1)) jobs
            (λ j e. ground (arith, e)) s.issued)
          (ground (arith, same));
    tasks_issued = λ t m. elim ((In-append t tasks (new ∷ [])).0 m) [
      | inl old ↦ omega (arith, s.tasks_issued t old)
      | inr (inl e) ↦ rw (e, same) (omega arith)
      | inr (inr nothing) ↦ absurd nothing
    ];
    tasks_running = λ t m. elim ((In-append t tasks (new ∷ [])).0 m) [
      | inl old ↦
          all-append (is_running_as t.id) new jobs (s.tasks_running t old) (ground (arith, running))
      | inr (inl e) ↦ rw e (
          all-append (is_running_as new.id) new jobs
            (all-weaken (λ j. ltb j.id next) (is_running_as new.id) jobs
              (λ j h. ground (arith, same, h)) s.issued)
            (ground (arith, running)))
      | inr (inr nothing) ↦ absurd nothing
    ];
  }

  -- Fewer tasks keep the invariant.
  pub fewer-IsSound :
      (p : ExportJob → Bool)
      → IsSound limits jobs next tasks
      → IsSound limits jobs next (filter p tasks)
  fewer-IsSound p s = record {
    quota = s.quota;
    issued = s.issued;
    tasks_issued = λ t m. s.tasks_issued t ((filter-In p tasks t).0 m).0;
    tasks_running = λ t m. s.tasks_running t ((filter-In p tasks t).0 m).0;
  }
