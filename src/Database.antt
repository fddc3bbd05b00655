-- ===== src/Database.antt =====
-- connectors/database.py: `execute` from its arguments to its answer. The driver (asyncpg) is a
-- parameter: what a statement yields once the connection is open. Its rows are read by Fetch.
pub mod Arguments
mod Tests
use trolley.Base.{
  ℕ, ◌+◌, ◌*◌, String, Bool, true, false, not, ◌&&◌, ◌||◌, Option, none, some, List, [], ◌∷◌, ◌++◌,
  filter, length, ltb, leb, ◌==◌, codes, contains, is_empty, cat, decimal, map, value_error,
  external_error, Error, Result, ok, err, raise_if, or_raise, Json, bool, str, int, pos, Dict, get,
  keys, if◌then◌else◌,
}
use trolley.Base.Chain.{◌>>=◌, ◌>>◌}
use trolley.Executions.{Answer, is_given}
use trolley.Groups.{sorted_set}
use trolley.Limits.{Floats, ExecutionLimits, execution_limits}
use trolley.Sql.{pagination_query}
use trolley.Fetch.{fetch_rows}
use trolley.Caller.{text_of, list_of, dict_of, traverse, at, subset}
use trolley.Definitions.{fetches, listed_names}

-- `set(xs) - set(ys)`
abbrev pub minus : List String → List String → List String
minus xs ys = filter (λ x. not (contains ys x)) xs

abbrev pub listing : List String → String
listing [] = ""
listing (x ∷ []) = cat ("'" ∷ x ∷ "'" ∷ [])
listing (x ∷ y ∷ xs) = cat ("'" ∷ x ∷ "', " ∷ listing (y ∷ xs) ∷ [])

abbrev pub mismatch : List String → List String → Error
mismatch missing unknown = value_error (
    cat (
      "Arguments do not match parameters; missing=["
      ∷ listing (sorted_set missing)
      ∷ "], unknown=["
      ∷ listing (sorted_set unknown)
      ∷ "]"
      ∷ []))

-- The values of the parameters, in the order of their placeholders.
unfoldable pub argument_values : List String → Dict Json → Result (List Json)
argument_values names arguments = do
  raise_if (not (subset (keys arguments) names) || not (subset names (keys arguments)))
      (mismatch (minus names (keys arguments)) (minus (keys arguments) names))
  ok (map (λ name. at name arguments) names)

-- `column.replace('"', '""')`, by code points.
abbrev pub double_quotes : List ℕ → List ℕ
double_quotes [] = []
double_quotes (c ∷ cs) = if c == b'"' then c ∷ c ∷ double_quotes cs else c ∷ double_quotes cs

abbrev pub ordering : List String → List ℕ
ordering [] = []
ordering (column ∷ []) = b'"' ∷ double_quotes (codes column) ++ codes "\" ASC"
ordering (column ∷ next ∷ columns) =
    (b'"' ∷ double_quotes (codes column)) ++ (codes "\" ASC, " ++ ordering (next ∷ columns))

-- What is sent to the database.
pub record Statement : Type 0 where
  pub sql : List ℕ
  pub values : List Json
  pub readonly : Bool

-- The page that is asked for: its offset and its size.
abbrev pub PageOptions : Type 0
PageOptions = Option (ℕ × ℕ)

abbrev pub page_bounds : ℕ → PageOptions → Result (ℕ × ℕ)
page_bounds max_rows none = err (value_error "Invalid internal pagination bounds")
page_bounds max_rows (some (offset, size)) =
    if leb 1 size && leb size max_rows
    then ok (offset, size)
    else err (value_error "Invalid internal pagination bounds")

-- Around the statement of a page: `count` values stand in front of its own two.
abbrev pub page_sql : List ℕ → List String → ℕ → List ℕ
page_sql inner columns count =
    codes "SELECT * FROM (\n"
    ++ (inner
        ++ (codes "\n) AS trolley_page ORDER BY "
            ++ (ordering columns
                ++ codes (
                    cat (
                      " LIMIT $"
                      ∷ decimal (count + 1)
                      ∷ "::bigint OFFSET $"
                      ∷ decimal (count + 2)
                      ∷ "::bigint"
                      ∷ [])))))

-- `definition["pagination"]["order_by"]`, which the validation has checked.
unfoldable pub page_columns : Dict Json → Result (List String)
page_columns definition = do
  pagination ← or_raise (dict_of (at "pagination" definition)) (external_error "TypeError")
  columns ← or_raise (list_of (at "order_by" pagination)) (external_error "TypeError")
  traverse (λ v. or_raise (text_of v) (external_error "TypeError")) columns

abbrev pub timeout_error : Error
timeout_error =
    value_error "Query timed out; database outcome may be unknown. Do not blindly retry writes."

-- What the driver does: it connects, yields the records of a statement's cursor or runs it for its
-- status, and closes; `is_timeout` tells a `TimeoutError`.
pub record Driver (Record : Type 0) : Type 0 where
  pub connect : Dict Json → Result (Unit {0})
  pub cursor : Statement → Result (List Record)
  pub run : Statement → Result String
  pub is_timeout : Error → Bool

-- `except TimeoutError`
abbrev pub translated {ℓ} : {A : Type ℓ} → (Error → Bool) → Result A → Result A
translated is_timeout (ok a) = ok a
translated is_timeout (err e) = if is_timeout e then err timeout_error else err e

-- The inner statement of a page; the fuel of the lexer is always enough.
abbrev pub inner_sql : (ℕ → Bool) → String → Result (List ℕ)
inner_sql is_alnum sql = elim (pagination_query is_alnum (codes sql)) [
  | none ↦ err (external_error "exhausted")
  | some r ↦ r
]

-- The statement for a page.
unfoldable pub paged :
    (ℕ → Bool) → Dict Json → String → List Json → ℕ → PageOptions → Result Statement
paged is_alnum definition sql values max_rows page = do
  (offset, size) ← page_bounds max_rows page
  columns ← page_columns definition
  inner ← inner_sql is_alnum sql
  ok (record {
    sql = page_sql inner columns (length values);
    values = values ++ int (pos (size + 1)) ∷ int (pos offset) ∷ [];
    readonly = true;
  })

unfoldable pub statement :
    (ℕ → Bool) → Dict Json → String → List Json → ℕ → Bool → PageOptions → Result Statement
statement is_alnum definition sql values max_rows readonly page =
    elim (is_given "pagination" definition) [
      | true ↦ paged is_alnum definition sql values max_rows page
      | false ↦ ok (record { sql = codes sql; values = values; readonly = readonly })
    ]

-- The statement's text and the values of its parameters.
unfoldable pub checked_arguments : Dict Json → Dict Json → Result (String × List Json)
checked_arguments definition arguments = do
  sql ← or_raise (text_of (at "sql" definition)) (value_error "A database operation needs 'sql'")
  raise_if (is_empty sql) (value_error "A database operation needs 'sql'")
  names ← listed_names definition
  values ← argument_values names arguments
  ok (sql, values)

-- The page's size, by which the rows are cut off.
abbrev pub size_of : Bool → PageOptions → Option ℕ
size_of paginated none = none
size_of paginated (some (_, size)) = if paginated then some size else none

module _ {Record : Type 0} (floats : Floats) (is_alnum : ℕ → Bool)
    (row_value : Record → Result Json) (row_size : Json → ℕ) (driver : Driver Record) where
  open driver use {connect, cursor, run, is_timeout}

  -- Inside the transaction.
  unfoldable pub answered :
      Dict Json → ExecutionLimits floats → PageOptions → Statement → Result Answer
  answered definition limits page s = elim (fetches definition) [
    | true ↦ do
      records ← cursor s
      (rows, more) ←
          fetch_rows row_value row_size (size_of (is_given "pagination" definition) page)
            (ExecutionLimits.max_rows limits) (ExecutionLimits.max_result_bytes limits) records
      ok (Answer.rows rows more)
    | false ↦ do status ← run s; ok (Answer.status status)
  ]

  unfoldable pub execute : Dict Json → Dict Json → Dict Json → Bool → PageOptions → Result Answer
  execute configuration definition arguments readonly page = do
    (sql, values) ← checked_arguments definition arguments
    limits ← execution_limits floats configuration
    s ← statement is_alnum definition sql values (ExecutionLimits.max_rows limits) readonly page
    connect configuration
    translated is_timeout (answered definition limits page s)
