-- ===== src/Notes/Rows.antt =====
-- The rows of notes, keyed by their target: finding, adding and updating one.
use trolley.Base.{
  ℕ, ◌≡◌, refl, inl, inr, false, Option, none, some, List, [], ◌∷◌, ◌++◌, filter, find, length,
  update_where, ◌==◌, if◌then◌else◌, Bool-cases, arith, ◌∙◌,
}
use trolley.Catalog.{TargetNotes}
use trolley.Notes.{is_row}

abbrev pub find_notes : ℕ → List TargetNotes → Option TargetNotes
find_notes target = find (λ n. n.target == target)

-- At most one row for each target: the target is the primary key.
abbrev pub AreUnique : List TargetNotes → Type 0
AreUnique [] = Unit
AreUnique (n ∷ ns) = (find_notes n.target ns ≡ none) × AreUnique ns

pub find_notes-append :
    (target : ℕ) (ns : List TargetNotes) (n : TargetNotes)
    → find_notes target (ns ++ n ∷ []) ≡ (elim (find_notes target ns) [
      | none ↦ (if n.target == target then some n else none)
      | some m ↦ some m
    ])
find_notes-append target [] n = refl
find_notes-append target (m ∷ ns) n = ground (arith, find_notes-append target ns n)

pub AreUnique-append :
    (ns : List TargetNotes) (n : TargetNotes)
    → AreUnique ns
    → find_notes n.target ns ≡ none
    → AreUnique (ns ++ n ∷ [])
AreUnique-append [] n u h = (refl, tt)
AreUnique-append (m ∷ ns) n (e, u) h =
    let other : (m.target == n.target) ≡ false = ground arith in
    let back : (n.target == m.target) ≡ false = ground arith in
    (find_notes-append m.target ns n ∙ rw (e, back), AreUnique-append ns n u (rw other at h))

-- Without the key there is no row to change.
no_row :
    (target version : ℕ) (ns : List TargetNotes)
    → find_notes target ns ≡ none
    → length (filter (is_row target version) ns) ≡ 0
no_row target version [] h = refl
no_row target version (n ∷ ns) h = ground (arith, no_row target version ns)

pub one_row :
    (target version : ℕ) (ns : List TargetNotes) (n : TargetNotes)
    → AreUnique ns
    → find_notes target ns ≡ some n
    → length (filter (is_row target version) ns) ≡ (if n.version == version then 1 else 0)
one_row target version [] n u h = cc
one_row target version (m ∷ ns) n (e, u) h = elim (Bool-cases (m.target == target)) [
  | inl here ↦
      let same : m ≡ n = ground arith in
      let key : m.target ≡ target = ground arith in
      let rest = no_row target version ns (rw key at e) in ground (arith, rest)
  | inr away ↦ ground (arith, one_row target version ns n u)
]

pub find_notes-update_where :
    (target version s : ℕ) (f : TargetNotes → TargetNotes) (ns : List TargetNotes)
    → ((n : TargetNotes) → (f n).target ≡ n.target)
    → find_notes s (update_where (is_row target version) f ns) ≡ (elim (find_notes s ns) [
      | none ↦ none
      | some n ↦ some (if is_row target version n then f n else n)
    ])
find_notes-update_where target version s f [] keeps = refl
find_notes-update_where target version s f (n ∷ ns) keeps =
    ground (arith, keeps n, find_notes-update_where target version s f ns keeps)
