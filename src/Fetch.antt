-- ===== src/Fetch.antt =====
-- The loop of connectors/database.py that reads the rows of a query under its limits. A record is
-- what the cursor yields, `row_value` makes it a row (`json_value(dict(record))`), and `row_size`
-- is the length of the row's JSON text in bytes.
pub mod Prefix
pub mod Bounds
pub mod Walk
mod Tests
use trolley.Base.{
  ℕ, zero, suc, ◌+◌, Bool, true, false, ◌&&◌, Option, none, some, List, [], ◌∷◌, ◌++◌, length, take,
  drop, leb, ltb, if◌then◌else◌, Error, value_error, Result, ok, err, ◌>>=◌,
}

abbrev pub row_limit_error : Error
row_limit_error = value_error "Result row limit exceeded; narrow the query or paginate"

abbrev pub byte_limit_error : Error
byte_limit_error = value_error "Result byte limit exceeded; narrow the query or paginate"

-- `len(b'{"rows":[]}') + 256`
abbrev pub envelope : ℕ
envelope = 267

module _ {Row : Type 0} where
  -- `paginated and len(rows) >= page_size`, where `page` is the page size if there are pages.
  abbrev pub is_full : Option ℕ → List Row → Bool
  is_full none rows = false
  is_full (some page_size) rows = leb page_size (length rows)

  -- `paginated and rows`
  abbrev pub is_paged : Option ℕ → List Row → Bool
  is_paged none rows = false
  is_paged (some page_size) [] = false
  is_paged (some page_size) (_ ∷ _) = true

module _ {Record Row : Type 0} (row_value : Record → Result Row) (row_size : Row → ℕ) where
  -- The rows so far, their size, and the records to come.
  pub fetch : Option ℕ → ℕ → ℕ → List Row → ℕ → List Record → Result (List Row × Bool)
  fetch page max_rows max_bytes rows size [] = ok (rows, false)
  fetch page max_rows max_bytes rows size (r ∷ records) =
      if is_full page rows
      then ok (rows, true)
      else if leb max_rows (length rows)
      then err row_limit_error
      else elim (row_value r) [
        | err e ↦ err e
        | ok row ↦ elim (ltb max_bytes (size + (row_size row + 2))) [
          | true ↦ if is_paged page rows then ok (rows, true) else err byte_limit_error
          | false ↦
              fetch page max_rows max_bytes (rows ++ row ∷ []) (size + (row_size row + 2)) records
        ]
      ]

  unfoldable pub fetch_rows : Option ℕ → ℕ → ℕ → List Record → Result (List Row × Bool)
  unfolding fetch
  fetch_rows page max_rows max_bytes records = fetch page max_rows max_bytes [] envelope records
