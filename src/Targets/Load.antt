-- ===== src/Targets/Load.antt =====
-- What the loaded definitions satisfy.
use trolley.Base.{
  ◌≡◌, refl, ap, String, Bool, true, false, [], ◌∷◌, is_empty, strip, ok, Json, Fields, null, bool,
  int, float, str, arr, obj, Dict, get, keys, fields, arith, inl, inr, Option-cases, Result-cases,
  Bool-cases, subst,
}
use trolley.Limits.{Floats, execution_limits}
use trolley.Limits.Ranges.{InRanges, execution_limits_range}
use trolley.Targets.{
  TargetDefinition, load_target, load_each, load_targets, is_truthy, without_kind, target_kind,
}

module _ (floats : Floats) (is_zero : String → Bool) where
  -- A definition under its own name, which is not blank, with a URL and limits in their ranges.
  abbrev pub IsUsable : String → TargetDefinition floats is_zero → Type 0
  IsUsable name d =
      (TargetDefinition.name d ≡ name)
      × (is_empty (strip name) ≡ false)
      × (is_truthy floats is_zero (get "url" (TargetDefinition.configuration d)) ≡ true)
      × InRanges floats (TargetDefinition.limits d)

  abbrev pub AreUsable : Dict (TargetDefinition floats is_zero) → Type 0
  AreUsable [] = Unit
  AreUsable ((name, d) ∷ ds) = IsUsable name d × AreUsable ds

  load_target-IsUsable :
      (name : String) (value : Json) (d : TargetDefinition floats is_zero)
      → load_target floats is_zero name value ≡ ok d
      → IsUsable name d
  unfolding load_target
  load_target-IsUsable name (obj value) d h = elim (Bool-cases (is_empty (strip name))) [
    | inl blank ↦ absurd (ground (arith, blank))
    | inr named ↦ elim (Option-cases (target_kind (get "kind" (fields value)))) [
      | inl e ↦ absurd (ground (arith, named, e))
      | inr (kind, e) ↦
          elim (Bool-cases
            (is_truthy floats is_zero (get "url" (without_kind floats is_zero (fields value))))) [
              | inr missing ↦ absurd (ground (arith, named, e, missing))
              | inl url ↦
                  elim (Result-cases
                    (execution_limits floats (without_kind floats is_zero (fields value)))) [
                      | inr (x, f) ↦ absurd (ground (arith, named, e, url, f))
                      | inl (limits, f) ↦
                          let made : record {
                            name = name;
                            kind = kind;
                            configuration = without_kind floats is_zero (fields value);
                            limits = limits;
                          }
                              ≡ d =
                            ground (arith, h, named, e, url, f) in
                          subst (IsUsable name) made
                            (refl, named, url, execution_limits_range floats _ limits f)
                    ]
            ]
    ]
  ]
  load_target-IsUsable name null d h = absurd (ground arith)
  load_target-IsUsable name (bool b) d h = absurd (ground arith)
  load_target-IsUsable name (int n) d h = absurd (ground arith)
  load_target-IsUsable name (float n) d h = absurd (ground arith)
  load_target-IsUsable name (str n) d h = absurd (ground arith)
  load_target-IsUsable name (arr n) d h = absurd (ground arith)

  load_each-AreUsable :
      (targets : Dict Json) (definitions : Dict (TargetDefinition floats is_zero))
      → load_each floats is_zero targets ≡ ok definitions
      → (keys definitions ≡ keys targets) × AreUsable definitions
  unfolding load_each
  load_each-AreUsable [] definitions h =
      let none_left : [] ≡ definitions = ground (arith, h) in
      subst (λ ds. (keys ds ≡ []) × AreUsable ds) none_left (refl, tt)
  load_each-AreUsable ((name, value) ∷ targets) definitions h =
      elim (Result-cases (load_target floats is_zero name value)) [
        | inr (x, e) ↦ absurd (ground (arith, e))
        | inl (d, e) ↦ elim (Result-cases (load_each floats is_zero targets)) [
          | inr (x, f) ↦ absurd (ground (arith, e, f))
          | inl (ds, f) ↦
              let made : (name, d) ∷ ds ≡ definitions = ground (arith, h, e, f) in
              let (same, usable) = load_each-AreUsable targets ds f in
              subst (λ xs. (keys xs ≡ name ∷ keys targets) × AreUsable xs) made
                (ap (λ ns. name ∷ ns) same, (load_target-IsUsable name value d e, usable))
        ]
      ]

  -- A configuration that loads is a mapping, and gives one definition for each of its targets, in
  -- their order: each under its own name, which is not blank, with a URL that is not empty and
  -- limits in their ranges.
  pub load_targets-AreUsable :
      (targets : Json) (definitions : Dict (TargetDefinition floats is_zero))
      → load_targets floats is_zero targets ≡ ok definitions
      → (ts : Fields) × (targets ≡ obj ts)
        × (keys definitions ≡ keys (fields ts))
        × AreUsable definitions
  unfolding load_targets
  load_targets-AreUsable (obj ts) definitions h =
      let (same, usable) = load_each-AreUsable (fields ts) definitions h in (ts, refl, same, usable)
  load_targets-AreUsable null definitions h = absurd (ground arith)
  load_targets-AreUsable (bool b) definitions h = absurd (ground arith)
  load_targets-AreUsable (int n) definitions h = absurd (ground arith)
  load_targets-AreUsable (float n) definitions h = absurd (ground arith)
  load_targets-AreUsable (str n) definitions h = absurd (ground arith)
  load_targets-AreUsable (arr n) definitions h = absurd (ground arith)
