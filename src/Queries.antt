-- ===== src/Queries.antt =====
-- application/queries.py: one ad-hoc query of a target, and its audit record. What the connector
-- answers is an interface; `saves` says whether the last write of the record goes through. The
-- bound on concurrent queries is not modelled.
pub mod Audit
mod Tests
use trolley.Base.{
  ℕ, ◌+◌, String, Bool, true, false, not, ◌&&◌, Option, none, some, List, [], ◌∷◌, ◌++◌, strip,
  is_empty, str_append, ◌==◌, if◌then◌else◌, value_error, permission_error, Result, ok, err, Error,
  cancelled, update_where, Json, Dict, get,
}
use trolley.Catalog.{Catalog, Target, QueryExecution, QueryStatus}
use trolley.Catalog.Monad.{Action, ◌>>=◌, ◌>>◌, pure, gets, lift, get_or_raise, modify, guard}
use trolley.Access.{AuthContext, require_target}
use trolley.Executions.{Answer}

-- `execution.save()`
abbrev pub save_query : QueryExecution → Catalog → Catalog
save_query q c = record c { queries = update_where (λ x. x.id == q.id) (λ _. q) c.queries }

abbrev pub new_query : ℕ → ℕ → AuthContext → String → QueryExecution
new_query id target context sql = record {
  id = id;
  target = target;
  requested_by = context.user_id;
  api_key_id = context.api_key_id;
  sql = sql;
  status = QueryStatus.running;
  error = none;
  finished_at = none;
}

abbrev pub is_cancelled : Error → Bool
is_cancelled cancelled = true
is_cancelled _ = false

abbrev pub close_query : QueryStatus → Option String → ℕ → QueryExecution → QueryExecution
close_query status error now q = record q { status = status; error = error; finished_at = some now }

-- The id of the record, the answer, and whether it carries the audit warning.
abbrev pub QueryResponse : Type 0
QueryResponse = ℕ × Answer × Bool

module _ (print : ℕ → String) where
  -- What the caller is told of an error that is no cancellation.
  abbrev pub query_failed : ℕ → Error
  query_failed id = value_error (
      str_append "Query failed ("
        (str_append (print id) "); check SQL, DB privileges and execution limits"))

  -- The end of the call, by what the connector answered.
  unfoldable pub finish_query : Bool → ℕ → QueryExecution → Result Answer → Action QueryResponse
  finish_query saves now q (ok answer) c = (
    ok (q.id, answer, not saves),
    if saves then save_query (close_query QueryStatus.succeeded none now q) c else c,
  )
  finish_query saves now q (err x) c =
      if is_cancelled x
      then (err x, if saves then save_query (close_query QueryStatus.cancelled none now q) c else c)
      else (
        err (query_failed q.id),
        if saves
            then save_query (close_query QueryStatus.failed (some "Query failed") now q) c
            else c,
      )

  -- From the creation of the record to the end.
  unfoldable pub run_query :
      Bool → ℕ → Result Answer → ℕ → AuthContext → String → Action QueryResponse
  unfolding finish_query
  run_query saves now answer target context sql c =
      let q = new_query c.next_id target context sql in
      finish_query saves now q answer
        (record c { queries = c.queries ++ q ∷ []; next_id = c.next_id + 1 })

  module _ {Definition : Type 0} (execute : Definition → String → List Json → Result Answer)
      (targets : Result (Dict Definition)) where
    -- The checks before the record, and the query.
    unfoldable pub query_target :
        AuthContext → String → String → List Json → Bool → ℕ → Action QueryResponse
    unfolding run_query
    query_target context name sql values saves now = do
      target ← require_target context name
      loaded ← lift targets
      definition ←
          get_or_raise (λ _. get name loaded)
            (permission_error "Target unavailable or access denied")
      guard (is_empty (strip sql)) (value_error "sql must be a non-empty string")
      run_query saves now (execute definition sql values) target.id context sql
