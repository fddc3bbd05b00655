-- ===== src/Targets/Rounds.antt =====
-- The rounds of the first loop of the synchronisation: they do not raise, and they write only rows
-- that the configuration names.
use trolley.Base.{
  ◌+◌, ◌≡◌, refl, ap, String, Bool, true, false, not, ◌||◌, none, List, [], ◌∷◌, ◌++◌, any, find,
  contains, contains_iff, update_where, ◌==◌, ok, Dict, keys, arith, inl, inr, In, update_where-In,
  find-In, In-find, In-append, Option-cases, ◌∙◌, subst, Bool-cases,
}
use trolley.Catalog.{Catalog, Target, TargetKind, kind_eq}
use trolley.Targets.{
  named, save_target, create_target, sync_target, sync_each, retire_each, sync_definitions,
}
use trolley.Targets.Sync.{AllSettled, retire_each-settles}
use trolley.Catalog.Monad.{>>-ok, >>-keeps, modify}
use text.Mathlib.TextEquality.{eq_iff}

-- A configured name without a row when the loop starts is still free.
abbrev pub AreFree : List Target → List String → Catalog → Type 0
AreFree existing names c =
    (name : String)
    → In name names
    → find (named name) existing ≡ none
    → any (named name) c.targets ≡ false

-- Names of which none comes twice, as the keys of a dict.
abbrev pub AreDistinct : List String → Type 0
AreDistinct [] = Unit
AreDistinct (name ∷ names) = (contains names name ≡ false) × AreDistinct names

any-update_where :
    (p q : Target → Bool) (new : Target) (ts : List Target)
    → p new ≡ false
    → any p ts ≡ false
    → any p (update_where q (λ _. new) ts) ≡ false
any-update_where p q new [] h k = refl
any-update_where p q new (x ∷ ts) h k = ground (arith, any-update_where p q new ts h)

any-append_one :
    (p : Target → Bool) (new : Target) (ts : List Target)
    → p new ≡ false
    → any p ts ≡ false
    → any p (ts ++ new ∷ []) ≡ false
any-append_one p new [] h k = ground (arith, h)
any-append_one p new (x ∷ ts) h k = ground (arith, any-append_one p new ts h)

unnamed :
    (existing : List Target) (name : String) (t : Target)
    → find (named name) existing ≡ none
    → In t existing
    → named name t ≡ false
unnamed existing name t missing there = elim (Bool-cases (named name t)) [
  | inl same ↦
      let (b, found) = In-find (named name) existing t there same in ground (arith, missing, found)
  | inr other ↦ other
]

-- What one round does, by whether the name has a row.
sync_target-ok :
    (existing : List Target) (name : String) (kind : TargetKind) (names : List String) (c : Catalog)
    → contains names name ≡ false
    → AreFree existing (name ∷ names) c
    → (c' : Catalog) × (sync_target existing name kind c ≡ (ok tt, c')) × AreFree existing names c'
unfolding sync_target create_target
sync_target-ok existing name kind names c distinct free =
    elim (Option-cases (find (named name) existing)) [
      | inl e ↦
          let free_name : any (named name) c.targets ≡ false = free name (inl refl) e in
          (
            record c {
              targets =
                  c.targets
                  ++ record { id = c.next_id; name = name; kind = kind; is_active = true } ∷ [];
              next_id = c.next_id + 1;
            },
            rw (sync_target, e, create_target, free_name) refl,
            λ other m missing.
                any-append_one (named other) _ c.targets
                  (ground (arith, eq_iff name other, contains_iff names name))
                  (free other (inr m) missing),
          )
      | inr (target, e) ↦
          let (there, is_name) = find-In (named name) existing target e in
          elim (Bool-cases (not (kind_eq target.kind kind) || not target.is_active)) [
            | inl stale ↦ (
              save_target (record target { kind = kind; is_active = true }) c,
              rw (sync_target, e, stale) refl,
              λ other m missing.
                  any-update_where (named other) (λ x. x.id == target.id)
                    (record target { kind = kind; is_active = true }) c.targets
                    (unnamed existing other target missing there) (free other (inr m) missing),
            )
            | inr current ↦ (
              c,
              rw (sync_target, e, current) refl,
              λ other m missing. free other (inr m) missing,
            )
          ]
    ]

sync_target-AllSettled :
    (existing : List Target) (name : String) (kind : TargetKind) (names : List String) (c : Catalog)
    → In name names
    → AllSettled names existing c
    → AllSettled names existing (sync_target existing name kind c).1
unfolding sync_target create_target
sync_target-AllSettled existing name kind names c listed settled t m =
    elim (Option-cases (find (named name) existing)) [
      | inl e ↦ elim (Bool-cases (any (named name) c.targets)) [
        | inl taken ↦ settled t (ground (arith, e, taken))
        | inr free_name ↦
            let m' : In t (
                c.targets
                ++ record { id = c.next_id; name = name; kind = kind; is_active = true } ∷ []) =
              ground (arith, e, free_name) in
            elim ((In-append t c.targets _).0 m') [
              | inl old ↦ settled t old
              | inr (inl new) ↦ inl (rw new ((contains_iff names name).1 listed))
              | inr (inr nothing) ↦ absurd nothing
            ]
      ]
      | inr (target, e) ↦
          let (there, is_name) = find-In (named name) existing target e in
          elim (Bool-cases (not (kind_eq target.kind kind) || not target.is_active)) [
            | inl stale ↦
                let m' : In t
                    (save_target (record target { kind = kind; is_active = true }) c).targets =
                  ground (arith, e, stale) in
                elim (update_where-In (λ x. x.id == target.id)
                  (record target { kind = kind; is_active = true }) c.targets t m') [
                    | inl new ↦
                        let same : target.name ≡ name = (eq_iff target.name name).0 is_name in
                        inl (rw (new, same) ((contains_iff names name).1 listed))
                    | inr (old, _) ↦ settled t old
                  ]
            | inr current ↦ settled t (ground (arith, e, current))
          ]
    ]

sync_each-ok :
    (existing : List Target) (definitions : Dict TargetKind) (c : Catalog)
    → AreDistinct (keys definitions)
    → AreFree existing (keys definitions) c
    → (c' : Catalog) × (sync_each existing definitions c ≡ (ok tt, c'))
unfolding sync_each
sync_each-ok existing [] c distinct free = (c, refl)
sync_each-ok existing ((name, kind) ∷ definitions) c (new, distinct) free =
    let (c', e, free') = sync_target-ok existing name kind (keys definitions) c new free in
    let (c'', rest) = sync_each-ok existing definitions c' distinct free' in
    (c'', >>-ok (sync_target existing name kind) (sync_each existing definitions) c c' e ∙ rest)

sync_each-AllSettled :
    (existing : List Target) (definitions : Dict TargetKind) (names : List String) (c : Catalog)
    → ((name : String) → In name (keys definitions) → In name names)
    → AllSettled names existing c
    → AllSettled names existing (sync_each existing definitions c).1
unfolding sync_each
sync_each-AllSettled existing [] names c listed settled = settled
sync_each-AllSettled existing ((name, kind) ∷ definitions) names c listed settled =
    >>-keeps (AllSettled names existing) (sync_target existing name kind)
      (sync_each existing definitions) c
      (sync_target-AllSettled existing name kind names c (listed name (inl refl)) settled)
      (sync_each-AllSettled existing definitions names _ (λ n m. listed n (inr m)))

missing-find :
    (name : String) (ts : List Target) → find (named name) ts ≡ none → any (named name) ts ≡ false
missing-find name [] e = refl
missing-find name (t ∷ ts) e = ground (arith, missing-find name ts)

-- A synchronisation does not raise, and after it every row whose name is not configured is
-- inactive, whatever the rows were before, duplicates included. The configured names are the keys
-- of a dict, so none comes twice.
pub sync_definitions_retires :
    (definitions : Dict TargetKind) (c : Catalog)
    → AreDistinct (keys definitions)
    → ((sync_definitions definitions c).0 ≡ ok tt)
      × ((t : Target)
          → In t (sync_definitions definitions c).1.targets
          → contains (keys definitions) t.name ≡ false
          → t.is_active ≡ false)
unfolding sync_definitions
sync_definitions_retires definitions c distinct =
    let (c', e) =
      sync_each-ok c.targets definitions c distinct (λ name m e. missing-find name c.targets e) in
    let run : sync_definitions definitions c
        ≡ (ok tt, retire_each (keys definitions) c.targets c') =
      >>-ok (sync_each c.targets definitions) (modify (retire_each (keys definitions) c.targets)) c
        c' e in
    let settled : AllSettled (keys definitions) c.targets c' =
      subst (λ p. AllSettled (keys definitions) c.targets p.1) e
        (sync_each-AllSettled c.targets definitions (keys definitions) c (λ _ m. m)
          (λ t m. inr (inr m))) in
    (
      ap (λ p. p.0) run,
      λ t m missing.
          let m' : In t (retire_each (keys definitions) c.targets c').targets =
            subst (λ p. In t p.1.targets) run m in
          elim (retire_each-settles (keys definitions) c.targets c' settled t m') [
            | inl listed ↦ absurd (ground (arith, listed, missing))
            | inr (inl off) ↦ off
            | inr (inr nothing) ↦ absurd nothing
          ],
    )
