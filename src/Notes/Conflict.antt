-- ===== src/Notes/Conflict.antt =====
-- Optimistic locking: a write at the version that was read goes through once, and a write at any
-- other version is refused.
use trolley.Base.{
  Result, ℕ, ◌+◌, ◌≡◌, refl, ◌≢◌, inl, inr, String, false, Option, some, [], ◌∷◌, ◌++◌, find-In,
  ◌==◌, ok, err, Option-cases, arith, ap, sym, ◌∙◌,
}
use trolley.Catalog.{Catalog, TargetNotes, TargetNotesRevision, NotesView}
use trolley.Notes.{
  notes_view, present, notes_of, get_or_create_notes, changed, write_notes, conflict,
}
use trolley.Notes.Rows.{find_notes, AreUnique, find_notes-update_where}
use trolley.Notes.Update.{
  IsOpened, get_or_create_notes-IsOpened, get_or_create_notes_ne, committed, is_filed, written_view,
  write_notes_opened,
}

module _ (target : ℕ) (description data_notes : Option String) (user now : ℕ) where
  -- The revision that a write files.
  abbrev pub revision : Catalog → TargetNotesRevision
  revision c = record {
    id = c.next_id;
    target = target;
    version = (present (notes_of target c)).version + 1;
    before = present (notes_of target c);
    after = written_view target description data_notes user now c;
    updated_by = user;
  }

  committed-notes_of :
      (version : ℕ) (before : NotesView) (n : TargetNotes) (c : Catalog)
      → notes_of target c ≡ some n
      → n.version ≡ version
      → let f = changed n version description data_notes user now in
        notes_of target (committed target version f before user n c) ≡ some (f n)
  unfolding notes_of
  committed-notes_of version before n c found same =
      let f = changed n version description data_notes user now in
      let (_, key) = find-In (λ m. m.target == target) c.target_notes n found in
      find_notes-update_where target version target f c.target_notes (λ m. refl) ∙ ground arith

  committed-notes_of_ne :
      (version s : ℕ) (before : NotesView) (n : TargetNotes) (c : Catalog)
      → s ≢ target
      → let f = changed n version description data_notes user now in
        notes_of s (committed target version f before user n c) ≡ notes_of s c
  unfolding notes_of
  committed-notes_of_ne version s before n c ne =
      let f = changed n version description data_notes user now in
      find_notes-update_where target version s f c.target_notes (λ m. refl)
      ∙ elim (Option-cases (find_notes s c.target_notes)) [
        | inl missing ↦ rw missing
        | inr (m, here) ↦
            let (_, key) = find-In (λ m. m.target == s) c.target_notes m here in ground arith
      ]

  -- What the commit does to a catalog that `get_or_create` has opened.
  opened_effects :
      (version s : ℕ) (c c' : Catalog) (n : TargetNotes)
      → get_or_create_notes target c ≡ (ok n, c')
      → IsOpened c target n c'
      → (present (notes_of target c)).version ≡ version
      → s ≢ target
      → let f = changed n version description data_notes user now in
        let c'' = committed target version f (present (notes_of target c)) user n c' in
        (present (notes_of target c'') ≡ written_view target description data_notes user now c)
        × (c''.revisions ≡ c.revisions ++ revision c ∷ [])
        × (notes_of s c'' ≡ notes_of s c)
  unfolding present notes_view
  opened_effects version s c c' n step o current ne =
      let before = present (notes_of target c) in
      let same : n.version ≡ version = ap (λ (v : NotesView). v.version) o.same_view ∙ current in
      (
        rw (committed-notes_of version before n c' o.found same)
            (ground (arith, o.same_view, current)),
        ground (arith, o.same_view, o.revisions_eq, o.id_eq, current),
        committed-notes_of_ne version s before n c' ne
            ∙ ap (λ (r : Result TargetNotes × Catalog). notes_of s r.1) (sym step)
            ∙ get_or_create_notes_ne target s c ne,
      )

  -- A write at the current version of notes whose next revision is not filed yet succeeds: the notes
  -- of the target read as asked for, with omitted fields kept, the version raised by one and the
  -- writer and time recorded; exactly one revision with the views before and after is filed; and the
  -- notes of every other target are untouched.
  pub write_notes_current :
      (version s : ℕ) (c : Catalog)
      → AreUnique c.target_notes
      → (present (notes_of target c)).version ≡ version
      → is_filed target (version + 1) c ≡ false
      → s ≢ target
      → let (r, c') = write_notes target version description data_notes user now c in
        (r ≡ ok (written_view target description data_notes user now c))
        × (present (notes_of target c') ≡ written_view target description data_notes user now c)
        × (c'.revisions ≡ c.revisions ++ revision c ∷ [])
        × (notes_of s c' ≡ notes_of s c)
  write_notes_current version s c u current fresh ne =
      let (n, c', step, o) = get_or_create_notes-IsOpened target c u in
      let (view, filed, others) = opened_effects version s c c' n step o current ne in
      rw
        (write_notes_opened target description data_notes user now version c c' n step o current
          fresh)
        (refl, view, filed, others)

  -- A write at another version is refused and changes nothing.
  write_notes_stale :
      (version : ℕ) (c : Catalog)
      → (present (notes_of target c)).version ≢ version
      → write_notes target version description data_notes user now c ≡ (err conflict, c)
  unfolding write_notes get_or_create_notes present notes_view
  write_notes_stale version c stale = elim (Option-cases (notes_of target c)) [
    | inl missing ↦ ground arith
    | inr (n, found) ↦ ground arith
  ]

-- Of two writers that read the same version only the first one gets through: once a write at a
-- version has succeeded, any write at that version is refused and changes nothing.
pub write_notes_once :
    (target version : ℕ) (description data_notes description' data_notes' : Option String)
    (user user' now now' : ℕ) (c : Catalog)
    → AreUnique c.target_notes
    → (present (notes_of target c)).version ≡ version
    → is_filed target (version + 1) c ≡ false
    → let c' = (write_notes target version description data_notes user now c).1 in
      write_notes target version description' data_notes' user' now' c' ≡ (err conflict, c')
write_notes_once target version description data_notes description' data_notes' user user' now now'
      c u current fresh =
    let (_, view, _, _) =
      write_notes_current target description data_notes user now version (target + 1) c u current
        fresh (λ e. omega arith) in
    let raised = ap (λ (v : NotesView). v.version) view in
    write_notes_stale target description' data_notes' user' now' version _
      (λ e. omega (arith, raised, e, current))
