-- ===== src/Notes/Update.antt =====
-- What a successful update leaves behind.
use trolley.Base.{
  find-In, ℕ, ◌+◌, ◌≡◌, refl, ◌≢◌, inl, inr, String, Bool, false, ◌&&◌, Option, some, [], ◌∷◌, ◌++◌,
  any, filter, length, update_where, ◌==◌, ==_refl, ok, Option-cases, arith, ap, ◌∙◌,
}
use trolley.Catalog.{Catalog, TargetNotes, NotesView}
use trolley.Notes.{
  notes_view, present, notes_of, blank_notes, get_or_create_notes, given_or, changed, is_row,
  commit_notes, write_notes,
}
use trolley.Notes.Rows.{
  find_notes, AreUnique, find_notes-append, AreUnique-append, one_row, find_notes-update_where,
}

-- The state after `get_or_create`: the row is there, and reads as the notes did before.
pub record IsOpened (c : Catalog) (target : ℕ) (n : TargetNotes) (c' : Catalog) : Type 0 where
  pub found : notes_of target c' ≡ some n
  pub same_view : notes_view n ≡ present (notes_of target c)
  pub unique : AreUnique c'.target_notes
  pub revisions_eq : c'.revisions ≡ c.revisions
  pub id_eq : c'.next_id ≡ c.next_id

pub get_or_create_notes-IsOpened :
    (target : ℕ) (c : Catalog)
    → AreUnique c.target_notes
    → (n : TargetNotes) × (c' : Catalog) × (get_or_create_notes target c ≡ (ok n, c'))
      × IsOpened c target n c'
unfolding get_or_create_notes present notes_of
get_or_create_notes-IsOpened target c u = elim (Option-cases (notes_of target c)) [
  | inl missing ↦ (
    blank_notes target,
    record c { target_notes = c.target_notes ++ blank_notes target ∷ [] },
    rw (missing, get_or_create_notes),
    record {
      found = find_notes-append target c.target_notes (blank_notes target) ∙ rw (missing, ==_refl);
      same_view = rw missing;
      unique = AreUnique-append c.target_notes (blank_notes target) u missing;
      revisions_eq = refl;
      id_eq = refl;
    },
  )
  | inr (n, found) ↦ (
    n,
    c,
    rw (found, get_or_create_notes),
    record { found = found; same_view = rw found; unique = u; revisions_eq = refl; id_eq = refl },
  )
]

pub get_or_create_notes_ne :
    (target s : ℕ) (c : Catalog)
    → s ≢ target
    → notes_of s (get_or_create_notes target c).1 ≡ notes_of s c
unfolding get_or_create_notes notes_of
get_or_create_notes_ne target s c ne = elim (Option-cases (notes_of target c)) [
  | inl missing ↦
      rw (missing, get_or_create_notes)
        (find_notes-append s c.target_notes (blank_notes target)
          ∙ elim (Option-cases (find_notes s c.target_notes)) [
            | inl none_here ↦ ground arith
            | inr (m, here) ↦ rw here
          ])
  | inr (n, found) ↦ rw (found, get_or_create_notes)
]

-- The view that an update of the view `old` leads to.
abbrev pub next_view : NotesView → Option String → Option String → ℕ → ℕ → NotesView
next_view old description data_notes user now = record {
  description = given_or description old.description;
  data_notes = given_or data_notes old.data_notes;
  version = old.version + 1;
  updated_by = some user;
  updated_at = some now;
}

-- The target's revisions hold no version yet above the current one.
abbrev pub is_filed : ℕ → ℕ → Catalog → Bool
is_filed target version c = any (λ r. r.target == target && r.version == version) c.revisions

-- The catalog after the commit of the row `n` as `f n`.
abbrev pub committed :
    ℕ → ℕ → (TargetNotes → TargetNotes) → NotesView → ℕ → TargetNotes → Catalog → Catalog
committed target version f before user n c = record c {
  target_notes = update_where (is_row target version) f c.target_notes;
  revisions =
      c.revisions
      ++ record {
        id = c.next_id;
        target = target;
        version = (f n).version;
        before = before;
        after = notes_view (f n);
        updated_by = user;
      }
        ∷ [];
  next_id = c.next_id + 1;
}

-- A commit at the version that the row still has.
commit_notes_current :
    (target version : ℕ) (f : TargetNotes → TargetNotes) (before : NotesView) (user : ℕ)
    (n : TargetNotes) (c : Catalog)
    → AreUnique c.target_notes
    → notes_of target c ≡ some n
    → n.version ≡ version
    → ((m : TargetNotes) → (f m).target ≡ m.target)
    → is_filed target (f n).version c ≡ false
    → commit_notes target version f before user c
      ≡ (ok (notes_view (f n)), committed target version f before user n c)
unfolding commit_notes notes_of
commit_notes_current target version f before user n c u found same keeps fresh =
    let count : length (filter (is_row target version) c.target_notes) ≡ 1 =
      one_row target version c.target_notes n u found ∙ ground arith in
    let (_, key) = find-In (λ m. m.target == target) c.target_notes n found in
    let after : find_notes target (update_where (is_row target version) f c.target_notes)
        ≡ some (f n) =
      find_notes-update_where target version target f c.target_notes keeps ∙ ground arith in
    ground (arith, count, after, fresh)

module _ (target : ℕ) (description data_notes : Option String) (user now : ℕ) where
  -- The notes after a write at the current version of `c`.
  abbrev pub written_view : Catalog → NotesView
  written_view c = next_view (present (notes_of target c)) description data_notes user now

  pub write_notes_opened :
      (version : ℕ) (c c' : Catalog) (n : TargetNotes)
      → get_or_create_notes target c ≡ (ok n, c')
      → IsOpened c target n c'
      → (present (notes_of target c)).version ≡ version
      → is_filed target (version + 1) c ≡ false
      → write_notes target version description data_notes user now c ≡ (
        ok (written_view c),
        committed target version
            (changed n version description data_notes user now)
            (present (notes_of target c))
            user
            n
            c',
      )
  unfolding write_notes notes_view
  write_notes_opened version c c' n step o current fresh =
      let f = changed n version description data_notes user now in
      let same : n.version ≡ version = ap (λ (v : NotesView). v.version) o.same_view ∙ current in
      let new : is_filed target (version + 1) c' ≡ false = rw (o.revisions_eq) fresh in
      let commit =
        commit_notes_current target version f (notes_view n) user n c' o.unique o.found same
          (λ m. refl) new in
      ground (arith, step, commit, same, o.same_view, current)
