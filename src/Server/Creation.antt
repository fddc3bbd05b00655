-- ===== src/Server/Creation.antt =====
-- The creation of an operation as the tool that publishes runs it, and the name it is found by.
use trolley.Base.{
  String, Bool, Option, none, some, List, [], ◌∷◌, ◌++◌, find, ◌≡◌, refl, sym, ◌∙◌, inl, inr, ok,
  err, Error, does_not_exist, str_eq, arith, Dict, Json, ok-injective, if◌then◌else◌, subst, Result,
}
use trolley.Catalog.{Catalog, Operation}
use trolley.Executions.{operation_named}
use trolley.Operations.{Rules, create_operation}
use trolley.Operations.Create.{IsPublished, create_operation-IsPublished}
use trolley.Registry.{ToolServer, Registry, reload}

-- The new operation is found under its name, where none had the name before.
find-append_one :
    (p : Operation → Bool) (os : List Operation) (o : Operation)
    → find p os ≡ none
    → find p (os ++ o ∷ []) ≡ (if p o then some o else none)
find-append_one p [] o h = refl
find-append_one p (x ∷ os) o h = ground (arith, find-append_one p os o)

pub ok-err : {A : Type 0} {a : A} {e : Error} → ok a ≡ err e → ⊥
ok-err h = cc

module _ (tools : ToolServer) where
  pub reload_absent :
      (name : String) (c : Catalog) (r : Registry tools)
      → operation_named name c ≡ none
      → reload tools name c r ≡ (err does_not_exist, r)
  unfolding reload
  reload_absent name c r h = rw (h, reload) refl

module _ (rules : Rules) (raw target_name : String) (definition : Dict Json) (description : String)
    (schema : Option (Dict Json)) where
  abbrev pub creation : Catalog → Result Operation × Catalog
  creation = create_operation rules raw target_name definition description schema

  pub creation-IsPublished :
      (c : Catalog) (o : Operation)
      → (creation c).0 ≡ ok o
      → IsPublished rules c (creation c).1 target_name definition o
  creation-IsPublished c o h =
      elim (create_operation-IsPublished rules raw target_name definition description schema c) [
        | inl (made, e, p) ↦
            subst (IsPublished rules c (creation c).1 target_name definition)
              (ok-injective (sym e ∙ h)) p
        | inr (x, e, _) ↦ absurd (ground (arith, e, h))
      ]

  -- The stored operation is found by the given name exactly if it has it.
  pub creation-operation_named :
      (c : Catalog) (o : Operation) (name : String)
      → operation_named name c ≡ none
      → (creation c).0 ≡ ok o
      → operation_named name (creation c).1 ≡ (if str_eq o.name name then some o else none)
  creation-operation_named c o name new h =
      rw ((creation-IsPublished c o h).stored)
        (find-append_one (λ x. str_eq x.name name) c.operations o new)
