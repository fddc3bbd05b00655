-- ===== src/Writer/Tests.antt =====
-- An export of two small rows.
use trolley.Base.{ℕ, ◌+◌, ◌≤◌, List, [], ◌∷◌, length, map, ok, Result, ◌≡◌, refl}
use trolley.Writer.{Line, WriterLimits, Written, Compression, write_row, write_rows, write_file}
use trolley.Writer.Bounds.{total, IsWithin, write_file-IsWritten}

-- A row is a digit, and a line is its digit and a line feed.
abbrev encode : ℕ → Result Line
encode n = ok ((48 + n) ∷ 10 ∷ [])

abbrev records : List ℕ
records = 1 ∷ 2 ∷ []

abbrev compression : Compression
compression = record { tell = length; closed_size = λ lines. length lines + 1 }

abbrev limits : WriterLimits
limits = record { max_rows = 2; max_bytes = 4 }

abbrev written : Written
written = record { rows = 2; size = 4; lines = (49 ∷ 10 ∷ []) ∷ (50 ∷ 10 ∷ []) ∷ [] }

writes_two : write_file encode compression limits records ≡ ok (written, 3)
unfolding write_file write_rows write_row
writes_two = refl

write_file-IsWritten_example :
    (map encode records ≡ map ok written.lines)
    × (written.rows ≡ length records)
    × (written.size ≡ total written.lines)
    × IsWithin encode compression limits written
    × (3 ≤ limits.max_bytes)
write_file-IsWritten_example =
    write_file-IsWritten encode compression limits records written 3 writes_two
