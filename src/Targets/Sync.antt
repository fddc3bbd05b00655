-- ===== src/Targets/Sync.antt =====
-- No active target is left behind that the configuration does not name.
use trolley.Base.{
  ◌≡◌, refl, String, true, false, not, ◌&&◌, List, [], ◌∷◌, contains, ◌==◌, if◌then◌else◌, arith,
  ◌⊎◌, inl, inr, In, update_where-In, Bool-cases,
}
use trolley.Catalog.{Catalog, Target}
use trolley.Targets.{save_target, retire_each}

-- A row that may be active: a configured one, or one that still waits for its round.
abbrev pub Settled : List String → List Target → Target → Type 0
Settled names waiting t = (contains names t.name ≡ true) ⊎ (t.is_active ≡ false) ⊎ In t waiting

abbrev pub AllSettled : List String → List Target → Catalog → Type 0
AllSettled names waiting c = (t : Target) → In t c.targets → Settled names waiting t

pub retire_each-settles :
    (names : List String) (waiting : List Target) (c : Catalog)
    → AllSettled names waiting c
    → AllSettled names [] (retire_each names waiting c)
unfolding retire_each
retire_each-settles names [] c settled = settled
retire_each-settles names (target ∷ waiting) c settled =
    retire_each-settles names waiting
      (if not (contains names target.name) && target.is_active
        then save_target (record target { is_active = false }) c
        else c)
      step
  where
    step : AllSettled names waiting (
        if not (contains names target.name) && target.is_active
        then save_target (record target { is_active = false }) c
        else c)
    step t m = elim (Bool-cases (not (contains names target.name) && target.is_active)) [
      | inl stale ↦
          let m' : In t (save_target (record target { is_active = false }) c).targets =
            ground (arith, stale) in
          elim (update_where-In (λ x. x.id == target.id) (record target { is_active = false })
            c.targets t m') [
              | inl e ↦ inr (inl (rw e refl))
              | inr (old, other) ↦ ground (arith, settled t old, other)
            ]
      | inr kept ↦
          let m' : In t c.targets = ground (arith, kept) in
          elim (settled t m') [
            | inl listed ↦ inl listed
            | inr (inl off) ↦ inr (inl off)
            | inr (inr (inl e)) ↦ rw e (elim (Bool-cases (contains names target.name)) [
              | inl listed ↦ inl listed
              | inr missing ↦ inr (inl (ground (arith, kept, missing)))
            ])
            | inr (inr (inr rest)) ↦ inr (inr rest)
          ]
    ]
