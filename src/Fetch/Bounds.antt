-- ===== src/Fetch/Bounds.antt =====
-- The limits that a result keeps to, and when reading stops.
use trolley.Base.{
  Result-cases, ℕ, ◌+◌, ◌≤◌, Bool, true, false, ◌≡◌, refl, ◌⊎◌, inl, inr, Option, none, some, List,
  [], ◌∷◌, ◌++◌, length, length-append, leb, ltb, Result, ok, arith, Bool-cases, ap, subst,
}
use trolley.Fetch.Prefix.{fetch-Adds}
use trolley.Fetch.{fetch, fetch_rows, is_full, envelope}

module _ {Row : Type 0} (row_size : Row → ℕ) where
  -- The bytes of the rows, with a separator each.
  abbrev pub total_size : List Row → ℕ
  total_size [] = 0
  total_size (row ∷ rows) = row_size row + 2 + total_size rows

  total_size-append : (xs ys : List Row) → total_size (xs ++ ys) ≡ total_size xs + total_size ys
  total_size-append [] ys = omega arith
  total_size-append (x ∷ xs) ys = omega (arith, total_size-append xs ys)

-- The row count is within the page size, if there are pages, and within the limit.
abbrev pub WithinCount : {Row : Type 0} → Option ℕ → ℕ → List Row → Type 0
WithinCount none max_rows rows = length rows ≤ max_rows
WithinCount (some page_size) max_rows rows = (length rows ≤ page_size) × (length rows ≤ max_rows)

WithinCount-push :
    {Row : Type 0} (page : Option ℕ) (max_rows : ℕ) (rows : List Row) (row : Row)
    → is_full page rows ≡ false
    → leb max_rows (length rows) ≡ false
    → WithinCount page max_rows (rows ++ row ∷ [])
WithinCount-push none max_rows rows row room low = ground (arith, length-append rows (row ∷ []))
WithinCount-push (some page_size) max_rows rows row room low =
    ground (arith, length-append rows (row ∷ []))

module _ {Record Row : Type 0} (row_value : Record → Result Row) (row_size : Row → ℕ) where
  fetch-count :
      (page : Option ℕ) (max_rows max_bytes : ℕ) (before : List Row) (size : ℕ)
      (records : List Record) (rows : List Row) (more : Bool)
      → fetch row_value row_size page max_rows max_bytes before size records ≡ ok (rows, more)
      → WithinCount page max_rows before
      → WithinCount page max_rows rows
  unfolding fetch
  fetch-count page max_rows max_bytes before size [] rows more h c =
      let same : before ≡ rows = ground arith in subst (WithinCount page max_rows) same c
  fetch-count page max_rows max_bytes before size (r ∷ records) rows more h c =
      elim (Bool-cases (is_full page before)) [
        | inl full ↦
            let same : before ≡ rows = ground arith in subst (WithinCount page max_rows) same c
        | inr room ↦ elim (Result-cases (row_value r)) [
          | inr (e, failed) ↦ absurd (ground arith)
          | inl (row, value) ↦ elim (Bool-cases (ltb max_bytes (size + (row_size row + 2)))) [
            | inl over ↦
                let same : before ≡ rows = ground arith in subst (WithinCount page max_rows) same c
            | inr fits ↦
                fetch-count page max_rows max_bytes (before ++ row ∷ []) (size + (row_size row + 2))
                  records rows more (ground arith)
                  (WithinCount-push page max_rows before row room (ground arith))
          ]
        ]
      ]

  fetch-size :
      (page : Option ℕ) (max_rows max_bytes : ℕ) (before : List Row) (size : ℕ)
      (records : List Record) (rows : List Row) (more : Bool)
      → fetch row_value row_size page max_rows max_bytes before size records ≡ ok (rows, more)
      → size ≡ envelope + total_size row_size before
      → (before ≡ []) ⊎ (size ≤ max_bytes)
      → (rows ≡ []) ⊎ (envelope + total_size row_size rows ≤ max_bytes)
  unfolding fetch
  fetch-size page max_rows max_bytes before size [] rows more h s c = ground arith
  fetch-size page max_rows max_bytes before size (r ∷ records) rows more h s c =
      elim (Bool-cases (is_full page before)) [
        | inl full ↦ ground arith
        | inr room ↦ elim (Result-cases (row_value r)) [
          | inr (e, failed) ↦ absurd (ground arith)
          | inl (row, value) ↦ elim (Bool-cases (ltb max_bytes (size + (row_size row + 2)))) [
            | inl over ↦ ground arith
            | inr fits ↦
                fetch-size page max_rows max_bytes (before ++ row ∷ []) (size + (row_size row + 2))
                  records rows more (ground arith)
                  (omega (arith, total_size-append row_size before (row ∷ []))) (inr (ground arith))
          ]
        ]
      ]

  -- A result holds no more rows than the limit and the page allow, and unless it is empty its size,
  -- with the reserve for the envelope, is within the limit on bytes.
  pub fetch_rows_bounds :
      (page : Option ℕ) (max_rows max_bytes : ℕ) (records : List Record) (rows : List Row)
      (more : Bool)
      → fetch_rows row_value row_size page max_rows max_bytes records ≡ ok (rows, more)
      → WithinCount page max_rows rows
        × ((rows ≡ []) ⊎ (envelope + total_size row_size rows ≤ max_bytes))
  unfolding fetch_rows
  fetch_rows_bounds page max_rows max_bytes records rows more h = (
    fetch-count page max_rows max_bytes [] envelope records rows more h (empty page),
    fetch-size page max_rows max_bytes [] envelope records rows more h (omega arith) (inl refl),
  )
    where
      empty : (p : Option ℕ) → WithinCount {Row = Row} p max_rows []
      empty none = omega arith
      empty (some page_size) = omega arith

  -- A page that announces more is not empty, so the next page starts further on.
  pub fetch_rows_progress :
      (page_size max_rows max_bytes : ℕ) (records : List Record) (rows : List Row)
      → 1 ≤ page_size
      → fetch_rows row_value row_size (some page_size) max_rows max_bytes records ≡ ok (rows, true)
      → 1 ≤ length rows
  unfolding fetch_rows
  fetch_rows_progress page_size max_rows max_bytes [] rows p h = absurd (ground arith)
  fetch_rows_progress page_size max_rows max_bytes (r ∷ records) rows p h =
      elim (Result-cases (row_value r)) [
        | inr (e, failed) ↦ absurd (ground arith)
        | inl (row, value) ↦
            let (added, same, _) =
              fetch-Adds row_value row_size (some page_size) max_rows max_bytes (row ∷ [])
                (envelope + (row_size row + 2)) records rows true (ground arith) in
            omega (arith, ap length same)
      ]

  -- Every record converts, and its row fits the byte limit by itself.
  abbrev pub Fits : ℕ → List Record → Type 0
  Fits max_bytes [] = Unit
  Fits max_bytes (r ∷ records) =
      ((row : Row) × (row_value r ≡ ok row) × (envelope + (row_size row + 2) ≤ max_bytes))
      × Fits max_bytes records

  fetch-Fits :
      (page_size max_rows max_bytes : ℕ) (before : List Row) (size : ℕ) (records : List Record)
      → page_size ≤ max_rows
      → Fits max_bytes records
      → (size ≡ envelope) ⊎ (1 ≤ length before)
      → (rows : List Row) × (more : Bool) × (fetch row_value row_size
            (some page_size)
            max_rows
            max_bytes
            before
            size
            records
          ≡ ok (rows, more))
  unfolding fetch
  fetch-Fits page_size max_rows max_bytes before size [] p f s = (before, false, refl)
  fetch-Fits page_size max_rows max_bytes before size (r ∷ records) p ((row, value, fit), f) s =
      elim (Bool-cases (leb page_size (length before))) [
        | inl full ↦ (before, true, rw full)
        | inr room ↦
            let low : leb max_rows (length before) ≡ false = ground arith in
            elim (Bool-cases (ltb max_bytes (size + (row_size row + 2)))) [
              | inl over ↦ (before, true, paged before s room low over)
              | inr fits ↦
                  rw (room, low, value, fits)
                    (fetch-Fits page_size max_rows max_bytes (before ++ row ∷ [])
                      (size + (row_size row + 2)) records p f
                      (inr (omega (arith, length-append {0} before (row ∷ [])))))
            ]
      ]
    where
      paged :
          (bs : List Row)
          → (size ≡ envelope) ⊎ (1 ≤ length bs)
          → leb page_size (length bs) ≡ false
          → leb max_rows (length bs) ≡ false
          → ltb max_bytes (size + (row_size row + 2)) ≡ true
          → fetch row_value row_size (some page_size) max_rows max_bytes bs size (r ∷ records)
            ≡ ok (bs, true)
      paged [] t room low over = absurd (ground arith)
      paged (b ∷ bs) t room low over = ground arith

  -- A paged read of records that fit one by one never raises.
  pub fetch_rows-Fits :
      (page_size max_rows max_bytes : ℕ) (records : List Record)
      → page_size ≤ max_rows
      → Fits max_bytes records
      → (rows : List Row) × (more : Bool) × (fetch_rows row_value row_size
            (some page_size)
            max_rows
            max_bytes
            records
          ≡ ok (rows, more))
  unfolding fetch_rows
  fetch_rows-Fits page_size max_rows max_bytes records p f =
      fetch-Fits page_size max_rows max_bytes [] envelope records p f (inl refl)
