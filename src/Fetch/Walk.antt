-- ===== src/Fetch/Walk.antt =====
-- Reading a whole query page by page. Each page asks for `LIMIT page_size + 1 OFFSET offset`, and
-- the next offset is the last one plus the number of rows (application/execution.py). The query is
-- a table that does not change meanwhile.
use trolley.Base.{
  ℕ, zero, suc, ◌+◌, ◌≤◌, ◌<◌, Bool, true, false, ◌≡◌, refl, Option, none, some, List, [], ◌∷◌,
  ◌++◌, map, length, length-append, take, drop, Result, ok, err, arith, ap, sym, ◌∙◌,
}
use mathlib.Core.List.{map-append, append-nil}
use native.Mathlib.Numerals.{add-one}
use Prim.Native.Nat.add
use trolley.Fetch.{fetch_rows}
use trolley.Fetch.Prefix.{fetch_rows-IsPrefix}
use trolley.Fetch.Bounds.{fetch_rows_bounds, fetch_rows_progress, Fits, fetch_rows-Fits}

module _ {A : Type 0} where
  length-map : {B : Type 0} (f : A → B) (xs : List A) → length (map f xs) ≡ length xs
  length-map f [] = refl
  length-map f (x ∷ xs) = ap suc (length-map f xs)

  take_short : (n : ℕ) (xs : List A) → length (take (suc n) xs) ≤ n → take (suc n) xs ≡ xs
  take_short n [] h = refl
  take_short zero (x ∷ xs) h = absurd (omega arith)
  take_short (suc n) (x ∷ xs) h = ap (λ l. x ∷ l) (take_short n xs (omega arith))

  drop-length : (xs ys : List A) → drop (length xs) (xs ++ ys) ≡ ys
  drop-length [] ys = refl
  drop-length (x ∷ xs) ys = drop-length xs ys

  -- A prefix of a prefix begins the list.
  prefix_of_take :
      (n : ℕ) (xs kept rest : List A)
      → take n xs ≡ kept ++ rest
      → xs ≡ kept ++ drop (length kept) xs
  prefix_of_take n xs [] rest e = refl
  prefix_of_take zero xs (k ∷ kept) rest e = cc
  prefix_of_take (suc n) [] (k ∷ kept) rest e = cc
  prefix_of_take (suc n) (x ∷ xs) (k ∷ kept) rest e = ground (arith, prefix_of_take n xs kept rest)

  length-drop : (n : ℕ) (xs : List A) → length (drop n xs) ≤ length xs
  length-drop zero xs = omega arith
  length-drop (suc n) [] = omega arith
  length-drop (suc n) (x ∷ xs) = omega (arith, length-drop n xs)

  drop-nil : (n : ℕ) → drop n (let e : List A = [] in e) ≡ []
  drop-nil zero = refl
  drop-nil (suc n) = refl

  drop-drop : (m n : ℕ) (xs : List A) → drop n (drop m xs) ≡ drop (m + n) xs
  drop-drop zero n xs = rw add.zero
  drop-drop (suc m) n [] = rw (drop-nil n, drop-nil (suc m + n))
  drop-drop (suc m) n (x ∷ xs) = rw add.suc (drop-drop m n xs)

module _ {Record Row : Type 0} (row_value : Record → Result Row) (row_size : Row → ℕ)
    (page_size max_rows max_bytes : ℕ) (table : List Record) where
  -- One page of the query, as the database answers it.
  abbrev pub page_at : ℕ → Result (List Row × Bool)
  page_at offset =
      fetch_rows row_value row_size (some page_size) max_rows max_bytes
        (take (page_size + 1) (drop offset table))

  abbrev prepend : List Row → Option (Result (List Row)) → Option (Result (List Row))
  prepend rows none = none
  prepend rows (some (ok more)) = some (ok (rows ++ more))
  prepend rows (some (err e)) = some (err e)

  -- A client that follows the cursors to the end; `none` means that the fuel ran out.
  pub walk : ℕ → ℕ → Option (Result (List Row))
  walk zero offset = none
  walk (suc fuel) offset = elim (page_at offset) [
    | err e ↦ some (err e)
    | ok (rows, more) ↦ elim more [
      | false ↦ some (ok rows)
      | true ↦ prepend rows (walk fuel (offset + length rows))
    ]
  ]

  -- A page without more is all that is left.
  page_at_last :
      (offset : ℕ) (rows : List Row)
      → page_at offset ≡ ok (rows, false)
      → map row_value (drop offset table) ≡ map ok rows
  page_at_last offset rows h =
      let xs = drop offset table in
      let p =
        fetch_rows-IsPrefix row_value row_size (some page_size) max_rows max_bytes
          (take (page_size + 1) xs) rows false h in
      let ((short, _), _) =
        fetch_rows_bounds row_value row_size (some page_size) max_rows max_bytes
          (take (page_size + 1) xs) rows false h in
      let none_left : p.rest ≡ [] = p.more_iff.0 refl in
      let whole : take (page_size + 1) xs ≡ p.kept =
        ground (arith, p.split, none_left, append-nil p.kept) in
      let count : length p.kept ≡ length rows = omega (
        arith,
        ap length p.converted,
        length-map row_value p.kept,
        length-map {B = Result Row} ok rows,
      ) in
      let few : length (take (page_size + 1) xs) ≤ page_size = omega (arith, ap length whole) in
      let same : take (page_size + 1) xs ≡ xs =
        rw add-one (take_short page_size xs (rw add-one at few)) in
      rw (sym same ∙ whole) p.converted

  -- A page with more is what the next offset leaves out.
  page_at_more :
      (offset : ℕ) (rows : List Row)
      → page_at offset ≡ ok (rows, true)
      → map row_value (drop offset table)
        ≡ map ok rows ++ map row_value (drop (offset + length rows) table)
  page_at_more offset rows h =
      let xs = drop offset table in
      let p =
        fetch_rows-IsPrefix row_value row_size (some page_size) max_rows max_bytes
          (take (page_size + 1) xs) rows true h in
      let count : length p.kept ≡ length rows = omega (
        arith,
        ap length p.converted,
        length-map row_value p.kept,
        length-map {B = Result Row} ok rows,
      ) in
      let parts = prefix_of_take (page_size + 1) xs p.kept p.rest p.split in
      ap (map row_value) parts
      ∙ map-append row_value p.kept (drop (length p.kept) xs)
      ∙ rw (p.converted, count, drop-drop) refl

  Fits-take-drop :
      (m n : ℕ) (xs : List Record)
      → Fits row_value row_size max_bytes xs
      → Fits row_value row_size max_bytes (take n (drop m xs))
  Fits-take-drop zero zero xs f = tt
  Fits-take-drop zero (suc n) [] f = tt
  Fits-take-drop zero (suc n) (x ∷ xs) (h, f) = (h, Fits-take-drop zero n xs f)
  Fits-take-drop (suc m) zero [] f = tt
  Fits-take-drop (suc m) (suc n) [] f = tt
  Fits-take-drop (suc m) n (x ∷ xs) (h, f) = Fits-take-drop m n xs f

  -- The walk from an offset returns what is left from there.
  walk_from :
      (fuel offset : ℕ)
      → length (drop offset table) < fuel
      → 1 ≤ page_size
      → page_size ≤ max_rows
      → Fits row_value row_size max_bytes table
      → (rows : List Row) × (walk fuel offset ≡ some (ok rows))
        × (map row_value (drop offset table) ≡ map ok rows)
  unfolding walk
  walk_from zero offset h low high f = elim h [ ]
  walk_from (suc fuel) offset h low high f =
      let (rows, more, page) =
        fetch_rows-Fits row_value row_size page_size max_rows max_bytes
          (take (page_size + 1) (drop offset table)) high
          (Fits-take-drop offset (page_size + 1) table f) in
      go rows more page (λ lt. walk_from fuel (offset + length rows) lt low high f)
    where
      go :
          (rows : List Row) (more : Bool)
          → page_at offset ≡ ok (rows, more)
          → (length (drop (offset + length rows) table) < fuel
              → (rest : List Row) × (walk fuel (offset + length rows) ≡ some (ok rest))
                × (map row_value (drop (offset + length rows) table) ≡ map ok rest))
          → (all : List Row) × (walk (suc fuel) offset ≡ some (ok all))
            × (map row_value (drop offset table) ≡ map ok all)
      go rows false page ih = (rows, rw (page, walk), page_at_last offset rows page)
      go rows true page ih =
          let parts = page_at_more offset rows page in
          let some_rows =
            fetch_rows_progress row_value row_size page_size max_rows max_bytes
              (take (page_size + 1) (drop offset table)) rows low page in
          let left = drop (offset + length rows) table in
          let taken : List (Result Row) = map ok rows in
          let shorter : length left < fuel = omega (
            arith,
            some_rows,
            ap length parts,
            length-append {0} taken (map row_value left),
            length-map row_value (drop offset table),
            length-map {B = Result Row} ok rows,
            length-map row_value left,
          ) in
          let (rest, walked, same) = ih shorter in
          (rows ++ rest, rw (page, walked, walk), parts ∙ rw (same, map-append))

  -- Following the cursors of an unchanging query whose rows convert and fit one by one ends, within
  -- as many pages as there are rows and one more, and returns every row exactly once and in order.
  pub walk_complete :
      1 ≤ page_size
      → page_size ≤ max_rows
      → Fits row_value row_size max_bytes table
      → (rows : List Row) × (walk (length table + 1) 0 ≡ some (ok rows))
        × (map row_value table ≡ map ok rows)
  walk_complete low high f = walk_from (length table + 1) 0 (omega arith) low high f
