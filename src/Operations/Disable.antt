-- ===== src/Operations/Disable.antt =====
-- A disabled operation is out of everybody's reach.
use trolley.Base.{
  String, true, false, some, In, update_where-In, ◌==◌, ◌≡◌, sym, ◌∙◌, inl, inr, ap, ok, arith,
  does_not_exist, Bool-cases,
}
use trolley.Catalog.{Catalog, Operation}
use trolley.Catalog.Monad.{get_or_raise, get_or_raise-ok, >>=-ok, pure, modify, ◌>>◌ as seq}
use trolley.Access.{AuthContext, can_access_operation}
use trolley.Access.Roles.{can_access_operation_iff}
use trolley.Executions.{operation_named}
use trolley.Operations.{save_operation, disable_operation}

abbrev pub off : Operation → Operation
off o = record o { is_active = false }

pub disable_operation-ok :
    (name : String) (o : Operation) (c : Catalog)
    → operation_named name c ≡ some o
    → disable_operation name c ≡ (ok (off o), save_operation (off o) c)
unfolding disable_operation
disable_operation-ok name o c found =
    >>=-ok (get_or_raise (operation_named name) does_not_exist)
      (λ operation. seq (modify (save_operation (off operation))) (pure (off operation))) {c = c}
      (get_or_raise-ok (operation_named name) does_not_exist {c = c} found)

-- Disabling an operation that is found, where no other row has its name, succeeds, and from then on
-- no context has access to an operation of that name.
pub disable_operation_revokes :
    (name : String) (o : Operation) (c : Catalog) (context : AuthContext) (operation : Operation)
    → operation_named name c ≡ some o
    → ((x : Operation) → In x c.operations → x.name ≡ name → x.id ≡ o.id)
    → operation.name ≡ name
    → ((disable_operation name c).0 ≡ ok (off o))
      × (can_access_operation context operation (disable_operation name c).1 ≡ false)
disable_operation_revokes name o c context operation found unique same =
    let run = disable_operation-ok name o c found in
    (ap (λ p. p.0) run, ap (λ p. can_access_operation context operation p.1) run ∙ closed)
  where
    closed : can_access_operation context operation (save_operation (off o) c) ≡ false
    closed = elim (Bool-cases (can_access_operation context operation (save_operation (off o) c))) [
      | inr h ↦ h
      | inl h ↦
          let (x, m, e, active, _) =
            (can_access_operation_iff context (save_operation (off o) c) operation).0 h in
          elim (update_where-In (λ y. y.id == o.id) (off o) c.operations x m) [
            | inl new ↦
                let absurd_path : false ≡ true =
                  sym (ap (λ (y : Operation). y.is_active) new) ∙ active in
                cc
            | inr (old, other) ↦ ground (arith, unique x old (sym e ∙ same), other)
          ]
    ]
