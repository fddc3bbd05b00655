-- ===== src/Writer.antt =====
-- connectors/export.py: the rows of a query, written as compressed lines of JSON under limits. The text
-- of a row, the sizes that the compression gives and the driver are parameters; a file is the list of
-- the lines that were written to it.
pub mod Bounds
mod Tests
use trolley.Base.{
  ℕ, ◌+◌, String, Bool, true, ◌||◌, List, [], ◌∷◌, ◌++◌, length, codes, ltb, value_error,
  external_error, Result, ok, err, Error, ◌>>=◌, ◌>>◌, raise_if, or_raise, Json, Dict, get,
}
use trolley.Caller.{at, text_of, traverse}
use trolley.Definitions.{listed_names}
use trolley.Database.{Statement, Driver, inner_sql}

abbrev pub Line : Type 0
Line = List ℕ

-- `ExportSettings`, as far as the writer reads it.
pub record WriterLimits : Type 0 where
  pub max_rows : ℕ
  pub max_bytes : ℕ

-- What the writer counts, and the lines of the file.
pub record Written : Type 0 where
  pub rows : ℕ
  pub size : ℕ
  pub lines : List Line

abbrev pub add_line : Line → Written → Written
add_line line w = record {
  rows = w.rows + 1;
  size = w.size + length line;
  lines = w.lines ++ line ∷ [];
}

-- What the compression of a file's lines comes to: so far, and when it is closed.
pub record Compression : Type 0 where
  pub tell : List Line → ℕ
  pub closed_size : List Line → ℕ

module _ {Record : Type 0} (encode : Record → Result Line) (compression : Compression)
    (limits : WriterLimits) where
  open compression use {tell, closed_size}
  open limits use {max_rows, max_bytes}

  -- One round of the loop over the records.
  unfoldable pub write_row : Written → Record → Result Written
  write_row w r = do
    line ← encode r
    let w' = add_line line w
    raise_if (ltb max_rows w'.rows || ltb max_bytes w'.size) (value_error "Export limit exceeded")
    raise_if (ltb max_bytes (tell w'.lines)) (value_error "Compressed export limit exceeded")
    ok w'

  unfoldable pub write_rows : Written → List Record → Result Written
  write_rows w [] = ok w
  write_rows w (r ∷ rs) = do w' ← write_row w r; write_rows w' rs

  abbrev pub nothing_written : Written
  nothing_written = record { rows = 0; size = 0; lines = [] }

  -- After the loop: the counts and the size of the file, whose lines are kept along.
  unfoldable pub write_file : List Record → Result (Written × ℕ)
  write_file records = do
    w ← write_rows nothing_written records
    raise_if (ltb max_bytes (closed_size w.lines)) (value_error "Compressed export limit exceeded")
    ok (w, closed_size w.lines)

  abbrev pub export_sql : List ℕ → List ℕ
  export_sql inner = codes "SELECT * FROM (\n" ++ (inner ++ codes "\n) AS trolley_export")

  module _ (is_alnum : ℕ → Bool) (driver : Driver Record) where
    open driver use {connect, cursor}

    unfoldable pub export_jsonl : Dict Json → Dict Json → Dict Json → Result (Written × ℕ)
    export_jsonl configuration definition arguments = do
      sql ← or_raise (text_of (at "sql" definition)) (external_error "KeyError")
      inner ← inner_sql is_alnum sql
      names ← listed_names definition
      values ← traverse (λ name. or_raise (get name arguments) (external_error "KeyError")) names
      connect configuration
      records ← cursor (record { sql = export_sql inner; values = values; readonly = true })
      write_file records
