-- ===== src/Server/Publish.antt =====
-- What the tool that publishes an operation leaves.
use trolley.Base.{
  String, false, Option, none, some, ◌≡◌, sym, ap, ◌∙◌, inl, inr, ok, str_eq, eq_iff, arith, Dict,
  Json, contains, ok-injective, if◌then◌else◌, subst, Bool-cases, Result,
}
use trolley.Catalog.{Catalog, Operation, Target}
use trolley.Access.{AuthContext, accessible_target_names, require_target}
use trolley.Access.Reach.{Reaches}
use trolley.Access.Roles.{
  MayExplore, accessible_target_names_iff, require_target-refused, require_target_iff,
}
use trolley.Executions.{operation_named, is_some}
use trolley.Operations.{Rules}
use trolley.Operations.Create.{IsPublished}
use trolley.Registry.{ToolServer, is_reserved, is_offered, reload}
use trolley.Registry.Synced.{IsSynced, has_tool}
use trolley.Registry.Offered.{reload_tools}
use trolley.Server.Creation.{
  ok-err, reload_absent, creation, creation-IsPublished, creation-operation_named,
}
use trolley.Server.{World, create_tool, >>=-inv}

module _ (tools : ToolServer) (rules : Rules) where
  -- What a publication that returns has done to the server.
  pub record IsOpened (w w' : World tools) (name target_name : String) (definition : Dict Json)
      (o : Operation) : Type 0 where
    pub published : IsPublished rules w.catalog w'.catalog target_name definition o
    pub named : o.name ≡ name
    pub synced : IsSynced tools w'.registry
    pub offered : has_tool tools name w'.registry ≡ is_offered w'.catalog o
    pub others :
        (n : String)
        → str_eq name n ≡ false
        → has_tool tools n w'.registry ≡ has_tool tools n w.registry

  -- After the creation on the catalog and the reload of the registry.
  opened :
      (name target_name : String) (definition : Dict Json) (description : String)
      (schema : Option (Dict Json)) (w : World tools) (o : Operation)
      → operation_named name w.catalog ≡ none
      → IsSynced tools w.registry
      → let (made, c') = creation rules name target_name definition description schema w.catalog in
        let (reloaded, r') = reload tools name c' w.registry in
        made ≡ ok o
        → reloaded ≡ ok tt
        → IsOpened w (record { catalog = c'; registry = r' }) name target_name definition o
  opened name target_name definition description schema w o new synced made reloaded =
      elim (Bool-cases (str_eq o.name name)) [
        | inr other ↦ absurd (
            ok-err (
              sym reloaded
              ∙ ap (λ p. p.0)
                  (reload_absent tools name _ w.registry (at_name ∙ ground (arith, other)))))
        | inl same ↦
            let found : operation_named name (run w.catalog).1 ≡ some o =
              at_name ∙ ground (arith, same) in
            let (synced', tools') =
              reload_tools tools name (run w.catalog).1 w.registry o found synced in
            let named = (eq_iff o.name name).0 same in
            record {
              published = published;
              named = named;
              synced = synced';
              offered =
                  tools' name reloaded
                  ∙ ground (arith, eq_iff name name, subst (λ n. is_reserved n ≡ false) named free);
              others = λ n e. tools' n reloaded ∙ ground (arith, e);
            }
      ]
    where
      run : Catalog → Result Operation × Catalog
      run = creation rules name target_name definition description schema

      published : IsPublished rules w.catalog (run w.catalog).1 target_name definition o
      published =
          creation-IsPublished rules name target_name definition description schema w.catalog o made

      at_name :
          operation_named name (run w.catalog).1 ≡ (if str_eq o.name name then some o else none)
      at_name =
          creation-operation_named rules name target_name definition description schema w.catalog o
            name new made

      free : is_reserved o.name ≡ false
      free = ap is_some published.not_reserved

  -- Where no operation has the name yet and the registry is in step with its table, a publication that
  -- returns has stored its operation under exactly that name, validated and on the named target; the
  -- registry is in step again, its tool is there exactly if the target is active, and every other
  -- tool is there exactly if it was.
  pub create_tool-IsOpened :
      (name target_name : String) (definition : Dict Json) (description : String)
      (schema : Option (Dict Json)) (context : AuthContext) (w w' : World tools) (o : Operation)
      → operation_named name w.catalog ≡ none
      → IsSynced tools w.registry
      → create_tool tools rules name target_name definition description schema context w
        ≡ (ok o, w')
      → IsOpened w w' name target_name definition o
  unfolding create_tool
  create_tool-IsOpened name target_name definition description schema context w w' o new synced h =
      let (_, _, h1) = >>=-inv _ _ w w' h in
      let (result, made, h2) = >>=-inv _ _ _ w' h1 in
      let (_, reloaded, h3) = >>=-inv _ _ _ w' h2 in
      let (_, kept) = require_target_iff context w.catalog target_name in
      subst (λ v. IsOpened w v name target_name definition o) (ap (λ p. p.1) h3)
        (subst
          (λ x.
            IsOpened w (after (require_target context target_name w.catalog).1) name target_name
              definition x)
          (ok-injective (ap (λ p. p.0) h3))
          (subst
            (λ c.
              (run c).0 ≡ ok result
              → (reload tools name (run c).1 w.registry).0 ≡ ok tt
              → IsOpened w (after c) name target_name definition result)
            (sym kept) (opened name target_name definition description schema w result new synced)
            made reloaded))
    where
      run : Catalog → Result Operation × Catalog
      run = creation rules name target_name definition description schema

      after : Catalog → World tools
      after c = record {
        catalog = (run c).1;
        registry = (reload tools name (run c).1 w.registry).1;
      }

  -- The target of a publication that returns is in the caller's reach.
  pub create_tool-reach :
      (name target_name : String) (definition : Dict Json) (description : String)
      (schema : Option (Dict Json)) (context : AuthContext) (w w' : World tools) (o : Operation)
      → create_tool tools rules name target_name definition description schema context w
        ≡ (ok o, w')
      → MayExplore w.catalog context
        × ((t : Target) × (target_name ≡ t.name) × Reaches w.catalog context.user_id t)
  unfolding create_tool
  create_tool-reach name target_name definition description schema context w w' o h =
      let (t, open_to, _) = >>=-inv _ _ w w' h in
      elim (Bool-cases (contains (accessible_target_names context w.catalog) target_name)) [
        | inl allowed ↦ (accessible_target_names_iff context w.catalog target_name).0 allowed
        | inr closed ↦ absurd (
            ok-err (
              sym open_to
              ∙ ap (λ p. p.0) (require_target-refused context w.catalog target_name closed)))
      ]
