-- ===== src/Executions/Audit.antt =====
-- The record of a call: it is never left running while the catalog can be written, and a result is
-- never reported as a failure because it cannot.
use trolley.Base.{
  ℕ, ◌+◌, String, true, false, Option, none, some, List, [], ◌∷◌, ◌++◌, any, find, ◌==◌, ◌≡◌, refl,
  ap, ◌∙◌, inl, inr, Result, ok, err, Error, arith, update_where, Dict, Json, Bool-cases,
  Result-cases,
}
use trolley.Catalog.{Catalog, Execution, ExecutionStatus}
use trolley.Catalog.Monad.{Action}
use trolley.Access.{AuthContext}
use trolley.Executions.{
  Outcome, outcome_dict, Response, inline, new_execution, succeeded, failed, failure_text,
  finish_execution, run_execution,
}

-- `Execution.get(id=…)`
abbrev pub execution_by_id : ℕ → Catalog → Option Execution
execution_by_id i c = find (λ e. e.id == i) c.executions

find-update :
    (e new : Execution) (es : List Execution)
    → new.id ≡ e.id
    → find (λ x. x.id == e.id) es ≡ some e
    → find (λ x. x.id == e.id) (update_where (λ x. x.id == new.id) (λ _. new) es) ≡ some new
find-update e new [] same found = cc
find-update e new (x ∷ es) same found = elim (Bool-cases (x.id == e.id)) [
  | inl here ↦ ground (arith, same, here)
  | inr away ↦ ground (arith, same, away, find-update e new es same)
]

find-append_new :
    (e : Execution) (es : List Execution)
    → any (λ x. x.id == e.id) es ≡ false
    → find (λ x. x.id == e.id) (es ++ e ∷ []) ≡ some e
find-append_new e [] fresh = ground arith
find-append_new e (x ∷ es) fresh = ground (arith, find-append_new e es)

-- The catalog with the record that a call begins with.
abbrev pub begun : Catalog → Execution → Catalog
begun c e = record c { executions = c.executions ++ e ∷ []; next_id = c.next_id + 1 }

-- An attempt that leaves the records of executions alone.
abbrev pub KeepsExecutions : (Execution → Action Outcome) → Type 0
KeepsExecutions attempt = (e : Execution) (c : Catalog) → (attempt e c).1.executions ≡ c.executions

-- What a call that has begun leaves, by what its attempt came to.
abbrev pub IsRecorded :
    (Error → String) → ℕ → Execution → Result Outcome → Result Response → Catalog → Type 0
IsRecorded error_text finished e (ok outcome) response c =
    (response ≡ ok (inline e.id outcome false))
    × ((row : Execution) × (execution_by_id e.id c ≡ some row)
        × (row.status ≡ ExecutionStatus.succeeded)
        × (row.result ≡ some (outcome_dict outcome))
        × (row.error ≡ none)
        × (row.finished_at ≡ some finished)
        × (row.requested_by ≡ e.requested_by))
IsRecorded error_text finished e (err x) response c =
    (response ≡ err x)
    × ((row : Execution) × (execution_by_id e.id c ≡ some row)
        × (row.status ≡ ExecutionStatus.failed)
        × (row.result ≡ none)
        × (row.error ≡ some (failure_text error_text x))
        × (row.finished_at ≡ some finished)
        × (row.requested_by ≡ e.requested_by))

module _ (error_text : Error → String) (now operation : ℕ) (arguments : Dict Json)
    (context : AuthContext) (finished : ℕ) (attempt : Execution → Action Outcome) where
  finish_execution-IsRecorded :
      (e : Execution) (r : Result Outcome) (c : Catalog)
      → execution_by_id e.id c ≡ some e
      → e.error ≡ none
      → let (response, c') = finish_execution error_text true finished e r c in
        IsRecorded error_text finished e r response c'
  unfolding finish_execution
  finish_execution-IsRecorded e (ok outcome) c found clean =
      let row = succeeded outcome finished e in
      (refl, (row, find-update e row c.executions refl found, refl, refl, clean, refl, refl))
  finish_execution-IsRecorded e (err x) c found clean =
      let row = failed (failure_text error_text x) finished e in
      (refl, (row, find-update e row c.executions refl found, refl, refl, refl, refl, refl))

  -- While the catalog can be written, a call that has begun never stays running: when its attempt
  -- returns, so does the call, and the record says that it succeeded and holds the result; when the
  -- attempt raises, the call raises the same error, and the record says that it failed and why.
  pub run_execution-IsRecorded :
      (c : Catalog)
      → KeepsExecutions attempt
      → any (λ x. x.id == c.next_id) c.executions ≡ false
      → let e = new_execution c.next_id operation arguments context now in
        let (response, c') =
          run_execution error_text true now operation arguments context finished attempt c in
        IsRecorded error_text finished e (attempt e (begun c e)).0 response c'
  unfolding run_execution
  run_execution-IsRecorded c keeps fresh =
      let e = new_execution c.next_id operation arguments context now in
      finish_execution-IsRecorded e (attempt e (begun c e)).0 (attempt e (begun c e)).1
        (ap (λ es. find (λ x. x.id == e.id) es) (keeps e (begun c e))
          ∙ find-append_new e c.executions fresh)
        refl

  -- If the last write fails, a call whose attempt returned still returns its result, with the
  -- warning not to retry, and one whose attempt raised raises the same error; the record stays as
  -- it was when the call began.
  run_execution_unsaved :
      (c : Catalog)
      → let e = new_execution c.next_id operation arguments context now in
        let (r, c') = attempt e (begun c e) in
        run_execution error_text false now operation arguments context finished attempt c
        ≡ (elim r [ ok outcome ↦ ok (inline e.id outcome true) | err x ↦ err x ], c')
  unfolding run_execution finish_execution
  run_execution_unsaved c =
      elim (Result-cases
        (attempt (new_execution c.next_id operation arguments context now)
          (begun c (new_execution c.next_id operation arguments context now))).0) [
            | inl (outcome, e) ↦ rw e refl
            | inr (x, e) ↦ rw e refl
          ]
