-- ===== src/Registry/Unions.antt =====
-- A property whose type is a list of types, as JSON Schema allows.
use trolley.Base.{
  String, true, false, ◌≡◌, refl, ap, ◌∙◌, inl, inr, some, List, [], ◌∷◌, In, contains, eq_iff, ok,
  err, Error, Result, external_error, Json, Dict, arr, obj, Items, Fields, fields, arith,
  Result-cases,
}
use trolley.Base.Chain.{◌>>=◌}
use trolley.Catalog.{Catalog, Operation}
use trolley.Caller.{at, properties_of, required_of, traverse}
use trolley.Executions.{operation_named}
use trolley.Registry.{
  ToolServer, Registry, is_reserved, is_offered, register, reload, forget, parameter_of,
  tool_signature,
}
use trolley.Registry.Synced.{forget_names}

-- The schema has a property whose type is a list.
pub record HasUnion (schema : Dict Json) : Type 0 where
  pub properties : Dict Json
  pub required : List String
  pub name : String
  pub property : Fields
  pub types : Items
  pub declares : properties_of schema ≡ ok properties
  pub requires : required_of schema ≡ ok required
  pub member : In (name, obj property) properties
  pub union : at "type" (fields property) ≡ arr types

traverse-raises :
    {B : Type 0} (f : String × Json → Result B) (xs : Dict Json) (x : String × Json) (e : Error)
    → In x xs
    → f x ≡ err e
    → (e' : Error) × (traverse f xs ≡ err e')
unfolding ◌>>=◌
traverse-raises f [] x e m h = absurd m
traverse-raises f (y ∷ xs) x e (inl same) h = (e, ground (arith, ap f same, h))
traverse-raises f (y ∷ xs) x e (inr m) h = elim (Result-cases (f y)) [
  | inr (e', failed) ↦ (e', ground (arith, failed))
  | inl (b, done) ↦
      let (e', rest) = traverse-raises f xs x e m h in (e', ground (arith, done, rest))
]

tool_signature-raises :
    (schema : Dict Json) → HasUnion schema → (e : Error) × (tool_signature schema ≡ err e)
unfolding tool_signature ◌>>=◌
tool_signature-raises schema h =
    let (e, raised) =
      traverse-raises (parameter_of h.required) h.properties (h.name, obj h.property)
        (external_error "TypeError") h.member (rw h.union refl) in
    (e, rw (h.declares, h.requires, raised) refl)

module _ (server : ToolServer) where
  -- An active operation of an active target with such a property cannot be offered: reloading it
  -- raises, and leaves the registry without its tool.
  pub reload_union :
      (name : String) (c : Catalog) (r : Registry server) (o : Operation)
      → operation_named name c ≡ some o
      → o.name ≡ name
      → is_offered c o ≡ true
      → is_reserved name ≡ false
      → HasUnion o.input_schema
      → (e : Error) × (reload server name c r ≡ (err e, forget server name r))
        × (contains (Registry.names (reload server name c r).1) name ≡ false)
  unfolding reload register
  reload_union name c r o found same on free union =
      let (e, raised) = tool_signature-raises o.input_schema union in
      let gone : contains (Registry.names (forget server name r)) name ≡ false =
        forget_names server name r name ∙ ground (arith, eq_iff name name) in
      let run : reload server name c r ≡ (err e, forget server name r) =
        rw (found, reload, on, same, free, gone, raised) refl in
      (e, run, rw run gone)
