-- ===== src/Fetch/Tests.antt =====
-- Reading rows of ten bytes each under limits.
use trolley.Base.{
  ℕ, ◌+◌, ◌≤◌, ◌≡◌, ◌⊎◌, refl, arith, true, none, some, List, [], ◌∷◌, map, Result, ok, err,
}
use trolley.Fetch.{fetch, fetch_rows, row_limit_error, envelope}
use trolley.Fetch.Bounds.{total_size, WithinCount, Fits, fetch_rows_bounds}
use trolley.Fetch.Walk.{walk, walk_complete}

abbrev row_value : ℕ → Result ℕ
row_value r = ok (r + 100)

abbrev row_size : ℕ → ℕ
row_size _ = 10

abbrev table : List ℕ
table = 1 ∷ 2 ∷ 3 ∷ []

abbrev two_rows : List ℕ
two_rows = 101 ∷ 102 ∷ []

abbrev all_rows : List ℕ
all_rows = 101 ∷ 102 ∷ 103 ∷ []

table-Fits : Fits row_value row_size 1000 table
table-Fits = ((101, refl, omega arith), ((102, refl, omega arith), ((103, refl, omega arith), tt)))

over_the_row_limit : fetch_rows row_value row_size none 2 1000 table ≡ err row_limit_error
unfolding fetch_rows fetch
over_the_row_limit = refl

fetch_rows_bounds_example :
    WithinCount (some 2) 10 two_rows
    × ((two_rows ≡ []) ⊎ (envelope + total_size row_size two_rows ≤ 1000))
unfolding fetch_rows fetch
fetch_rows_bounds_example =
    fetch_rows_bounds row_value row_size (some 2) 10 1000 table two_rows true refl

walk_complete_example :
    (rows : List ℕ) × (walk row_value row_size 2 10 1000 table 4 0 ≡ some (ok rows))
    × (map row_value table ≡ map ok rows)
walk_complete_example =
    walk_complete row_value row_size 2 10 1000 table (omega arith) (omega arith) table-Fits
