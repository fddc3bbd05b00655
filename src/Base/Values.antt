-- ===== src/Base/Values.antt =====
-- JSON values as the program holds them: a dict keeps its keys in insertion order, and its keys
-- are distinct. A number that is no integer is kept by its text, since nothing computes with it.
use Prim.Native.String.{String}
use mathlib.Core.Bool.{Bool}
use mathlib.Core.Option.{Option, none, some}
use mathlib.Core.List.{List, [], ◌∷◌}
use text.Mathlib.Text.{◌==◌ as str_eq}
use trolley.Base.Logic.{if◌then◌else◌}
use trolley.Base.Int.{ℤ}

mutual
  pub data Json : Type 0 where
    null : Json
    bool : Bool → Json
    int : ℤ → Json
    float : String → Json
    str : String → Json
    arr : Items → Json
    obj : Fields → Json

  pub data Items : Type 0 where
    nil : Items
    cons : Json → Items → Items

  pub data Fields : Type 0 where
    end : Fields
    field : String → Json → Fields → Fields

abbrev pub items : Items → List Json
items nil = []
items (cons v vs) = v ∷ items vs

abbrev pub to_items : List Json → Items
to_items [] = nil
to_items (v ∷ vs) = cons v (to_items vs)

-- A dict with string keys.
abbrev pub Dict {ℓ} : Type ℓ → Type ℓ
Dict V = List (String × V)

abbrev pub fields : Fields → Dict Json
fields end = []
fields (field k v fs) = (k, v) ∷ fields fs

abbrev pub to_fields : Dict Json → Fields
to_fields [] = end
to_fields ((k, v) ∷ d) = field k v (to_fields d)

module _ {ℓ} {V : Type ℓ} where
  -- `d.get(key)`
  abbrev pub get : String → Dict V → Option V
  get key [] = none
  get key ((k, v) ∷ d) = if str_eq k key then some v else get key d

  -- `set(d)`
  abbrev pub keys : Dict V → List String
  keys [] = []
  keys ((k, _) ∷ d) = k ∷ keys d

  -- `d[key] = v`
  abbrev pub put : String → V → Dict V → Dict V
  put key v [] = (key, v) ∷ []
  put key v ((k, w) ∷ d) = if str_eq k key then (k, v) ∷ d else (k, w) ∷ put key v d
