-- ===== src/Fetch/Prefix.antt =====
-- The rows that come back are the first records of the query, and `has_more` says whether any are
-- left.
use trolley.Base.{
  Result-cases, ℕ, ◌+◌, Bool, true, false, ◌≡◌, refl, ◌↔◌, inl, inr, Option, none, List, [], ◌∷◌,
  ◌++◌, map, ltb, Result, ok, arith, Bool-cases, ap, sym, ◌∙◌, subst,
}
use mathlib.Core.List.{append_assoc, append-nil}
use trolley.Fetch.{fetch, fetch_rows, is_full}

module _ {Record Row : Type 0} (row_value : Record → Result Row) (row_size : Row → ℕ) where
  -- The records split into those that gave the rows and the rest, which is empty exactly when
  -- nothing more is announced.
  pub record IsPrefix (records : List Record) (rows : List Row) (more : Bool) : Type 0 where
    pub kept : List Record
    pub rest : List Record
    pub split : records ≡ kept ++ rest
    pub converted : map row_value kept ≡ map ok rows
    pub more_iff : (more ≡ false) ↔ (rest ≡ [])

  -- What the loop adds to the rows that it began with.
  abbrev pub Adds : List Record → List Row → List Row → Bool → Type 0
  Adds records before rows more =
      (added : List Row) × (rows ≡ before ++ added) × IsPrefix records added more

  Adds-none :
      (r : Record) (records : List Record) (before rows : List Row) (more : Bool)
      → rows ≡ before
      → more ≡ true
      → Adds (r ∷ records) before rows more
  Adds-none r records before rows more e m = (
    [],
    e ∙ sym (append-nil before),
    record {
      kept = [];
      rest = r ∷ records;
      split = refl;
      converted = refl;
      more_iff = ground arith;
    },
  )

  Adds-row :
      (r : Record) (row : Row) (records : List Record) (before rows : List Row) (more : Bool)
      → row_value r ≡ ok row
      → Adds records (before ++ row ∷ []) rows more
      → Adds (r ∷ records) before rows more
  Adds-row r row records before rows more value (added, e, p) = (
    row ∷ added,
    e ∙ append_assoc before (row ∷ []) added,
    record {
      kept = r ∷ p.kept;
      rest = p.rest;
      split = ap (λ l. r ∷ l) p.split;
      converted = rw (value, p.converted);
      more_iff = p.more_iff;
    },
  )

  pub fetch-Adds :
      (page : Option ℕ) (max_rows max_bytes : ℕ) (before : List Row) (size : ℕ)
      (records : List Record) (rows : List Row) (more : Bool)
      → fetch row_value row_size page max_rows max_bytes before size records ≡ ok (rows, more)
      → Adds records before rows more
  unfolding fetch
  fetch-Adds page max_rows max_bytes before size [] rows more h = (
    [],
    ground (arith, append-nil before),
    record { kept = []; rest = []; split = refl; converted = refl; more_iff = ground arith },
  )
  fetch-Adds page max_rows max_bytes before size (r ∷ records) rows more h =
      elim (Bool-cases (is_full page before)) [
        | inl full ↦ Adds-none r records before rows more (ground arith) (ground arith)
        | inr room ↦ elim (Result-cases (row_value r)) [
          | inr (e, failed) ↦ absurd (ground arith)
          | inl (row, value) ↦ elim (Bool-cases (ltb max_bytes (size + (row_size row + 2)))) [
            | inl over ↦ Adds-none r records before rows more (ground arith) (ground arith)
            | inr fits ↦ Adds-row r row records before rows more value (
                fetch-Adds page max_rows max_bytes (before ++ row ∷ []) (size + (row_size row + 2))
                  records rows more (ground arith))
          ]
        ]
      ]

  -- The rows of a successful read are the first records of the query, converted and in order, and
  -- `has_more` is false exactly when no record is left: nothing is dropped without a notice.
  pub fetch_rows-IsPrefix :
      (page : Option ℕ) (max_rows max_bytes : ℕ) (records : List Record) (rows : List Row)
      (more : Bool)
      → fetch_rows row_value row_size page max_rows max_bytes records ≡ ok (rows, more)
      → IsPrefix records rows more
  unfolding fetch_rows
  fetch_rows-IsPrefix page max_rows max_bytes records rows more h =
      let (added, same, p) = fetch-Adds page max_rows max_bytes [] _ records rows more h in
      subst (λ l. IsPrefix records l more) (sym same) p

  fetch-unpaged :
      (max_rows max_bytes : ℕ) (before : List Row) (size : ℕ) (records : List Record)
      (rows : List Row) (more : Bool)
      → fetch row_value row_size none max_rows max_bytes before size records ≡ ok (rows, more)
      → more ≡ false
  unfolding fetch
  fetch-unpaged max_rows max_bytes before size [] rows more h = ground arith
  fetch-unpaged max_rows max_bytes before size (r ∷ records) rows more h =
      elim (Result-cases (row_value r)) [
        | inr (e, failed) ↦ ground arith
        | inl (row, value) ↦ ground (
          arith,
          fetch-unpaged max_rows max_bytes (before ++ row ∷ []) (size + (row_size row + 2)) records
              rows more,
        )
      ]

  -- Without pages a successful read is complete: every record of the query is in the result.
  fetch_rows_complete :
      (max_rows max_bytes : ℕ) (records : List Record) (rows : List Row) (more : Bool)
      → fetch_rows row_value row_size none max_rows max_bytes records ≡ ok (rows, more)
      → (more ≡ false) × (map row_value records ≡ map ok rows)
  unfolding fetch_rows
  fetch_rows_complete max_rows max_bytes records rows more h =
      let all = fetch-unpaged max_rows max_bytes [] _ records rows more h in
      let (added, same, p) = fetch-Adds none max_rows max_bytes [] _ records rows more h in
      let none_left : p.rest ≡ [] = p.more_iff.0 all in
      (all, ground (arith, p.split, p.converted, none_left, append-nil p.kept))
