-- ===== src/Queries/Audit.antt =====
-- The record of a query, and what an error of the database tells.
use trolley.Base.{
  ℕ, String, Bool, false, Option, none, some, find, ◌==◌, ◌≡◌, refl, Result, ok, err, Error,
  if◌then◌else◌,
}
use trolley.Catalog.{Catalog, QueryExecution, QueryStatus}
use trolley.Access.{AuthContext}
use trolley.Executions.{Answer}
use trolley.Queries.{
  QueryResponse, close_query, is_cancelled, query_failed, finish_query, run_query,
}

abbrev pub query_by_id : ℕ → Catalog → Option QueryExecution
query_by_id i c = find (λ q. q.id == i) c.queries

-- How the record ends, by what the connector answered.
abbrev pub closed : ℕ → Result Answer → QueryExecution → QueryExecution
closed now (ok answer) q = close_query QueryStatus.succeeded none now q
closed now (err x) q =
    if is_cancelled x
    then close_query QueryStatus.cancelled none now q
    else close_query QueryStatus.failed (some "Query failed") now q

-- What the caller is given.
abbrev pub told : (ℕ → String) → ℕ → Result Answer → Result QueryResponse
told print id (ok answer) = ok (id, answer, false)
told print id (err x) = if is_cancelled x then err x else err (query_failed print id)

module _ (print : ℕ → String) where
  -- An error of the database leaks nothing: any two errors that are no cancellation give the same
  -- error to the caller and the same catalog.
  pub run_query_hides :
      (saves : Bool) (now target : ℕ) (x y : Error) (context : AuthContext) (sql : String)
      (c : Catalog)
      → is_cancelled x ≡ false
      → is_cancelled y ≡ false
      → run_query print saves now (err x) target context sql c
        ≡ run_query print saves now (err y) target context sql c
  unfolding run_query finish_query
  run_query_hides saves now target x y context sql c hx hy = rw (hx, hy) refl
