-- ===== src/Targets.antt =====
-- targets.py and the synchronisation of application/targets.py: the configured targets, and the
-- catalog's rows brought in line with them. A definition keeps its limits beside the rest of the
-- configuration, which the source updates with them.
pub mod Load
pub mod Sync
pub mod Rounds
mod Tests
use trolley.Base.{
  ℕ, ◌+◌, ◌≡◌, String, Bool, true, false, not, ◌&&◌, ◌||◌, Option, none, some, List, [], ◌∷◌, ◌++◌,
  map, any, filter, find, contains, update_where, codes, strip, is_empty, str_eq, ◌==◌,
  if◌then◌else◌, value_error, integrity_error, Error, Result, ok, err, ◌>>=◌, ◌>>◌, raise_if,
  or_raise, ℤ, pos, negsuc, Json, Items, Fields, null, bool, int, float, str, arr, obj, nil, cons,
  end, field, Dict, get, keys, fields, eq_ℤ,
}
use trolley.Catalog.{Catalog, Target, TargetKind, kind_eq}
use trolley.Limits.{Floats, ExecutionLimits, execution_limits}
use trolley.Catalog.Monad.{Action, ◌>>=◌ as bind, ◌>>◌ as seq, pure, lift, gets, modify, guard}

-- `TargetKind(value)`
abbrev pub target_kind : Option Json → Option TargetKind
target_kind (some (str s)) = if str_eq s "postgresql" then some TargetKind.postgresql else none
target_kind _ = none

module _ (floats : Floats) (is_zero : String → Bool) where
  -- `bool(value)`, where `is_zero` reads the text of a number that is no integer.
  abbrev pub is_truthy : Option Json → Bool
  is_truthy none = false
  is_truthy (some null) = false
  is_truthy (some (bool b)) = b
  is_truthy (some (int n)) = not (eq_ℤ n (pos 0))
  is_truthy (some (float s)) = not (is_zero s)
  is_truthy (some (str s)) = not (is_empty s)
  is_truthy (some (arr nil)) = false
  is_truthy (some (arr (cons _ _))) = true
  is_truthy (some (obj end)) = false
  is_truthy (some (obj (field _ _ _))) = true

  pub record TargetDefinition : Type 0 where
    pub name : String
    pub kind : TargetKind
    pub configuration : Dict Json
    pub limits : ExecutionLimits floats

  -- The items but `kind`.
  abbrev pub without_kind : Dict Json → Dict Json
  without_kind value = filter (λ item. not (str_eq item.0 "kind")) value

  -- One round of the loop of `load_targets`.
  unfoldable pub load_target : String → Json → Result TargetDefinition
  load_target name (obj value) = do
    raise_if (is_empty (strip name)) (value_error "target names must be non-empty strings")
    kind ←
        or_raise (target_kind (get "kind" (fields value))) (value_error "unsupported target kind")
    let configuration = without_kind (fields value)
    raise_if (not (is_truthy (get "url" configuration)))
        (value_error "PostgreSQL target needs 'url'")
    limits ← execution_limits floats configuration
    ok (record { name = name; kind = kind; configuration = configuration; limits = limits })
  load_target name _ = do
    raise_if (is_empty (strip name)) (value_error "target names must be non-empty strings")
    err (value_error "target configuration must be a mapping")

  unfoldable pub load_each : Dict Json → Result (Dict TargetDefinition)
  unfolding load_target
  load_each [] = ok []
  load_each ((name, value) ∷ targets) = do
    definition ← load_target name value
    definitions ← load_each targets
    ok ((name, definition) ∷ definitions)

  unfoldable pub load_targets : Json → Result (Dict TargetDefinition)
  unfolding load_each
  load_targets (obj targets) = load_each (fields targets)
  load_targets _ = err (value_error "targets must be a mapping")

-- `existing.get(name)`
abbrev pub named : String → Target → Bool
named name t = str_eq t.name name

-- `target.save()`
abbrev pub save_target : Target → Catalog → Catalog
save_target target c = record c {
  targets = update_where (λ t. t.id == target.id) (λ _. target) c.targets;
}

-- `Target.create(name=…, kind=…)`, whose name is unique.
unfoldable pub create_target : String → TargetKind → Action (Unit {0})
create_target name kind c = if any (named name) c.targets then (err integrity_error, c) else (
  ok tt,
  record c {
    targets =
        c.targets ++ record { id = c.next_id; name = name; kind = kind; is_active = true } ∷ [];
    next_id = c.next_id + 1;
  },
)

-- One round of the first loop.
unfoldable pub sync_target : List Target → String → TargetKind → Action (Unit {0})
unfolding create_target
sync_target existing name kind c = elim (find (named name) existing) [
  | none ↦ create_target name kind c
  | some target ↦
      if not (kind_eq target.kind kind) || not target.is_active
      then (ok tt, save_target (record target { kind = kind; is_active = true }) c)
      else (ok tt, c)
]

unfoldable pub sync_each : List Target → Dict TargetKind → Action (Unit {0})
unfolding sync_target
sync_each existing [] = pure tt
sync_each existing ((name, kind) ∷ definitions) =
    seq (sync_target existing name kind) (sync_each existing definitions)

-- The second loop: `names` are the keys of the definitions.
unfoldable pub retire_each : List String → List Target → Catalog → Catalog
retire_each names [] c = c
retire_each names (target ∷ existing) c = retire_each names existing (
    if not (contains names target.name) && target.is_active
    then save_target (record target { is_active = false }) c
    else c)

-- `sync_targets` after its first line, given the kind of each definition.
unfoldable pub sync_definitions : Dict TargetKind → Action (Unit {0})
unfolding sync_each retire_each
sync_definitions definitions = bind (gets (λ c. c.targets)) (λ existing.
    seq (sync_each existing definitions) (modify (retire_each (keys definitions) existing)))

module _ (floats : Floats) (is_zero : String → Bool) where
  abbrev pub kinds : Dict (TargetDefinition floats is_zero) → Dict TargetKind
  kinds definitions = map (λ item. (item.0, TargetDefinition.kind item.1)) definitions

  unfoldable pub sync_targets : Json → Action (Unit {0})
  unfolding load_targets sync_definitions
  sync_targets targets =
      bind (lift (load_targets floats is_zero targets))
        (λ definitions. sync_definitions (kinds definitions))
