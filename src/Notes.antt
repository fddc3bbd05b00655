-- ===== src/Notes.antt =====
-- application/target_notes.py: the notes of a target, with a version that an update must name, and
-- the audit trail of its revisions. The time of the update is an argument.
pub mod Rows
pub mod Update
pub mod Conflict
mod Tests
use trolley.Base.{
  ℕ, ◌+◌, ◌≡◌, String, Bool, true, false, not, ◌&&◌, ◌||◌, Option, none, some, List, [], ◌∷◌, ◌++◌,
  any, filter, find, length, update_where, codes, ◌==◌, ltb, if◌then◌else◌, value_error, Error, ℤ,
  pos, negsuc, integrity_error, does_not_exist,
}
use trolley.Catalog.{Catalog, Target, TargetNotes, TargetNotesRevision, NotesView}
use trolley.Catalog.Monad.{
  Action, ◌>>=◌, ◌>>◌, pure, gets, get_or_raise, modify, guard, raise, in_transaction,
}
use trolley.Access.{AuthContext, require_target}

unfoldable pub notes_view : TargetNotes → NotesView
notes_view n = record {
  description = n.description;
  data_notes = n.data_notes;
  version = n.version;
  updated_by = n.updated_by;
  updated_at = n.updated_at;
}

-- `present`
unfoldable pub present : Option TargetNotes → NotesView
unfolding notes_view
present none = record {
  description = "";
  data_notes = "";
  version = 0;
  updated_by = none;
  updated_at = none;
}
present (some n) = notes_view n

-- `TargetNotes.get_or_none(target=…)`
unfoldable pub notes_of : ℕ → Catalog → Option TargetNotes
notes_of target c = find (λ n. n.target == target) c.target_notes

unfoldable pub get_target_notes : AuthContext → String → Action (String × NotesView)
unfolding present notes_of
get_target_notes context name = do
  target ← require_target context name
  notes ← gets (notes_of target.id)
  pure (name, present notes)

abbrev pub blank_notes : ℕ → TargetNotes
blank_notes target = record {
  target = target;
  description = "";
  data_notes = "";
  version = 0;
  updated_by = none;
  updated_at = none;
}

-- `TargetNotes.get_or_create(target=…)`
unfoldable pub get_or_create_notes : ℕ → Action TargetNotes
unfolding notes_of
get_or_create_notes target c = elim (notes_of target c) [
  | some n ↦ pure n c
  | none ↦
      pure (blank_notes target)
        (record c { target_notes = c.target_notes ++ blank_notes target ∷ [] })
]

abbrev pub is_too_long : Option String → ℕ → Bool
is_too_long none limit = false
is_too_long (some s) limit = ltb limit (length (codes s))

abbrev pub given_or : Option String → String → String
given_or none old = old
given_or (some new) old = new

abbrev is_none : Option String → Bool
is_none none = true
is_none (some _) = false

abbrev pub conflict : Error
conflict = value_error "Target notes version conflict; fetch notes again before updating"

-- The row `n` after the update, where an omitted field keeps what was read.
abbrev pub changed :
    TargetNotes → ℕ → Option String → Option String → ℕ → ℕ → TargetNotes → TargetNotes
changed read version description data_notes user now n = record n {
  description = given_or description read.description;
  data_notes = given_or data_notes read.data_notes;
  version = version + 1;
  updated_by = some user;
  updated_at = some now;
}

abbrev pub is_row : ℕ → ℕ → TargetNotes → Bool
is_row target version n = n.target == target && n.version == version

-- The second half of the transaction: it writes if the row still has the version, and files the
-- revision, whose pair of target and version is unique.
unfoldable pub commit_notes : ℕ → ℕ → (TargetNotes → TargetNotes) → NotesView → ℕ → Action NotesView
unfolding present notes_of notes_view
commit_notes target version change before user = do
  c ← gets (λ c. c)
  let count = length (filter (is_row target version) c.target_notes)
  modify
      (λ c. record c { target_notes = update_where (is_row target version) change c.target_notes })
  guard (not (count == 1)) conflict
  notes ← get_or_raise (notes_of target) does_not_exist
  let after = notes_view notes
  guard (any (λ r. r.target == target && r.version == notes.version) c.revisions) integrity_error
  modify (λ c. record c {
    revisions =
        c.revisions
        ++ record {
          id = c.next_id;
          target = target;
          version = notes.version;
          before = before;
          after = after;
          updated_by = user;
        }
          ∷ [];
    next_id = c.next_id + 1;
  })
  pure after

-- The transaction. `version` is the expected version, which is not negative.
unfoldable pub write_notes : ℕ → ℕ → Option String → Option String → ℕ → ℕ → Action NotesView
write_notes target version description data_notes user now = in_transaction (do
  notes ← get_or_create_notes target
  guard (not (notes.version == version)) conflict
  commit_notes target version (changed notes version description data_notes user now)
      (notes_view notes) user)

unfoldable pub update_target_notes :
    AuthContext → String → ℤ → Option String → Option String → ℕ → Action (String × NotesView)
update_target_notes context name (negsuc _) description data_notes now = do
  _ ← require_target context name
  raise (value_error "expected_version must be non-negative")
update_target_notes context name (pos version) description data_notes now = do
  target ← require_target context name
  guard (is_none description && is_none data_notes)
      (value_error "Provide description or data_notes; empty string clears a field")
  guard (is_too_long description 2000) (value_error "Field exceeds 2000 characters")
  guard (is_too_long data_notes 20000) (value_error "Field exceeds 20000 characters")
  after ← write_notes target.id version description data_notes context.user_id now
  pure (name, after)
