-- ===== src/Server/Retire.antt =====
-- What the tool that disables an operation leaves.
use trolley.Base.{
  String, false, some, List, [], ◌∷◌, find, In, ◌≡◌, refl, ap, ◌∙◌, inl, inr, ok, str_eq, eq_iff,
  ◌==◌, arith, update_where, Bool-cases, find-In,
}
use trolley.Catalog.{Operation, Target}
use trolley.Access.{AuthContext, can_access_operation}
use trolley.Executions.{operation_named}
use trolley.Operations.{save_operation}
use trolley.Operations.Disable.{off, disable_operation-ok, disable_operation_revokes}
use trolley.Registry.{ToolServer, is_reserved, reload, forget}
use trolley.Registry.Synced.{IsSynced, has_tool}
use trolley.Registry.Offered.{reload_tools}
use trolley.Server.{World, require_operation_target, disable_tool, ◌>>=◌}

-- The changed row is found under its name, where no other row has it.
find-save :
    (name : String) (o : Operation) (os : List Operation)
    → ((x : Operation) → In x os → x.name ≡ name → x.id ≡ o.id)
    → o.name ≡ name
    → find (λ x. str_eq x.name name) os ≡ some o
    → find (λ x. str_eq x.name name) (update_where (λ x. x.id == o.id) (λ _. off o) os)
      ≡ some (off o)
find-save name o [] unique same h = cc
find-save name o (x ∷ os) unique same h = elim (Bool-cases (x.id == o.id)) [
  | inl here ↦ ground (arith, here, same, eq_iff o.name name)
  | inr away ↦
      let rest = find-save name o os (λ y m. unique y (inr m)) same in
      ground (arith, away, rest, h, eq_iff x.name name, unique x (inl refl))
]

module _ (tools : ToolServer) where
  -- The tool that disables an operation whose target is open to the caller, and whose name no other
  -- row has, succeeds: the registry stays in step with its table, the tool is gone, every other tool
  -- is there exactly if it was, and no caller has access to an operation of that name any more.
  pub disable_tool_retires :
      (name : String) (context : AuthContext) (w : World tools) (o : Operation) (t : Target)
      → operation_named name w.catalog ≡ some o
      → require_operation_target name context w.catalog ≡ (ok t, w.catalog)
      → ((x : Operation) → In x w.catalog.operations → x.name ≡ name → x.id ≡ o.id)
      → IsSynced tools w.registry
      → is_reserved name ≡ false
      → let (r, w') = disable_tool tools name context w in
        (r ≡ ok (off o))
        × IsSynced tools w'.registry
        × (has_tool tools name w'.registry ≡ false)
        × ((n : String)
            → str_eq name n ≡ false
            → has_tool tools n w'.registry ≡ has_tool tools n w.registry)
        × ((caller : AuthContext) (operation : Operation)
            → operation.name ≡ name
            → can_access_operation caller operation w'.catalog ≡ false)
  unfolding disable_tool ◌>>=◌ reload
  disable_tool_retires name context w o t found allowed unique synced free =
      let called = (find-In (λ x. str_eq x.name name) w.catalog.operations o found).1 in
      let saved = disable_operation-ok name o w.catalog found in
      let found' : operation_named name (save_operation (off o) w.catalog) ≡ some (off o) =
        find-save name o w.catalog.operations unique ((eq_iff o.name name).0 called) found in
      let reloaded : reload tools name (save_operation (off o) w.catalog) w.registry
          ≡ (ok tt, forget tools name w.registry) =
        rw (found', reload) refl in
      let (synced', there) =
        reload_tools tools name (save_operation (off o) w.catalog) w.registry (off o) found'
          synced in
      let run : disable_tool tools name context w ≡ (
        ok (off o),
        record {
          catalog = save_operation (off o) w.catalog;
          registry = (reload tools name (save_operation (off o) w.catalog) w.registry).1;
        },
      ) =
        rw (allowed, saved, reloaded) refl in
      (
        ap (λ p. p.0) run,
        rw run synced',
        rw run (there name (ap (λ p. p.0) reloaded) ∙ ground (arith, eq_iff name name, free)),
        (λ n other. rw run (there n (ap (λ p. p.0) reloaded) ∙ ground (arith, other))),
        (λ caller operation same. rw run (
            rw saved at
              (disable_operation_revokes name o w.catalog caller operation found unique same).1)),
      )
