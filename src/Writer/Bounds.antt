-- ===== src/Writer/Bounds.antt =====
-- What an export that returns has written.
use trolley.Base.{
  ℕ, ◌+◌, ◌≤◌, ◌||◌, List, [], ◌∷◌, ◌++◌, length, map, ltb, ◌≡◌, refl, sym, ap, ◌∙◌, inl, inr,
  Result, ok, ok-injective, subst, arith, Result-cases, Bool-cases,
}
use mathlib.Core.List.{append_assoc, append-nil}
use trolley.Writer.{
  Line, WriterLimits, Written, Compression, add_line, write_row, write_rows, nothing_written,
  write_file,
}

abbrev pub total : List Line → ℕ
total [] = 0
total (line ∷ lines) = length line + total lines

module _ {Record : Type 0} (encode : Record → Result Line) (compression : Compression)
    (limits : WriterLimits) where
  -- From one state of the file to a later one: all of the records are on it, in their order.
  pub record IsWritten (records : List Record) (w w' : Written) : Type 0 where
    pub lines : List Line
    pub encoded : map encode records ≡ map ok lines
    pub file : w'.lines ≡ w.lines ++ lines
    pub rows : w'.rows ≡ w.rows + length records
    pub size : w'.size ≡ w.size + total lines

  abbrev pub IsWithin : Written → Type 0
  IsWithin w = (w.rows ≤ limits.max_rows) × (w.size ≤ limits.max_bytes)

  write_row-ok :
      (w w' : Written) (r : Record)
      → write_row encode compression limits w r ≡ ok w'
      → (line : Line) × (encode r ≡ ok line) × (w' ≡ add_line line w) × IsWithin w'
  unfolding write_row
  write_row-ok w w' r h = elim (Result-cases (encode r)) [
    | inr (e, failed) ↦ absurd (ground (arith, failed, h))
    | inl (line, encoded) ↦
        elim (Bool-cases
          (ltb limits.max_rows (w.rows + 1) || ltb limits.max_bytes (w.size + length line))) [
            | inl over ↦ absurd (ground (arith, encoded, over, h))
            | inr fits ↦
                elim (Bool-cases (ltb limits.max_bytes (compression.tell (w.lines ++ line ∷ [])))) [
                  | inl large ↦ absurd (ground (arith, encoded, fits, large, h))
                  | inr small ↦
                      let run : write_row encode compression limits w r ≡ ok (add_line line w) =
                        rw (encoded, fits, small) refl in
                      let same : add_line line w ≡ w' = ok-injective (sym run ∙ h) in
                      (line, encoded, sym same, subst IsWithin same (ground arith, ground arith))
                ]
          ]
  ]

  write_rows-IsWritten :
      (w w' : Written) (records : List Record)
      → IsWithin w
      → write_rows encode compression limits w records ≡ ok w'
      → IsWritten records w w' × IsWithin w'
  unfolding write_rows
  write_rows-IsWritten w w' [] within h =
      let same : w ≡ w' = ok-injective h in
      (
        subst (IsWritten [] w) same (record {
          lines = [];
          encoded = refl;
          file = sym (append-nil w.lines);
          rows = omega arith;
          size = omega arith;
        }),
        subst IsWithin same within,
      )
  write_rows-IsWritten w w' (r ∷ rs) within h =
      elim (Result-cases (write_row encode compression limits w r)) [
        | inr (e, failed) ↦ absurd (ground (arith, failed, h))
        | inl (v, first) ↦
            let (line, encoded, made, fits) = write_row-ok w v r first in
            let (rest, within') = write_rows-IsWritten v w' rs fits (rw first at h) in
            (
              record {
                lines = line ∷ rest.lines;
                encoded = rw (encoded, rest.encoded) refl;
                file =
                    rest.file
                    ∙ ap (λ (x : Written). x.lines ++ rest.lines) made
                    ∙ append_assoc w.lines _ _;
                rows = rest.rows ∙ rw made (omega arith);
                size = rest.size ∙ rw made (omega arith);
              },
              within',
            )
      ]

  -- An export that returns has every record of the query on its file, in their order, and tells how
  -- many there are and how long their lines are; rows, bytes and the compressed file are within the
  -- limits. There is no export of a part.
  pub write_file-IsWritten :
      (records : List Record) (w : Written) (file_size : ℕ)
      → write_file encode compression limits records ≡ ok (w, file_size)
      → (map encode records ≡ map ok w.lines)
        × (w.rows ≡ length records)
        × (w.size ≡ total w.lines)
        × IsWithin w
        × (file_size ≤ limits.max_bytes)
  unfolding write_file
  write_file-IsWritten records w file_size h =
      elim (Result-cases (write_rows encode compression limits nothing records)) [
        | inr (e, failed) ↦ absurd (ground (arith, failed, h))
        | inl (v, looped) ↦
            elim (Bool-cases (ltb limits.max_bytes (compression.closed_size v.lines))) [
              | inl large ↦ absurd (ground (arith, looped, large, h))
              | inr small ↦
                  let run : write_file encode compression limits records
                      ≡ ok (v, compression.closed_size v.lines) =
                    rw (looped, small) refl in
                  let same = ok-injective (sym run ∙ h) in
                  let (all, within) =
                    write_rows-IsWritten nothing v records (omega arith, omega arith) looped in
                  subst Promise same (
                    all.encoded ∙ ap (map ok) (sym all.file),
                    omega (arith, all.rows),
                    omega (arith, all.size, ap total (sym all.file)),
                    within,
                    ground (arith, small),
                  )
            ]
      ]
    where
      nothing : Written
      nothing = nothing_written encode compression limits

      Promise : Written × ℕ → Type 0
      Promise (x, n) =
          (map encode records ≡ map ok x.lines)
          × (x.rows ≡ length records)
          × (x.size ≡ total x.lines)
          × IsWithin x
          × (n ≤ limits.max_bytes)
