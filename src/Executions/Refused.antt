-- ===== src/Executions/Refused.antt =====
-- Who gets an operation run, and what an attempt may write.
use trolley.Base.{
  ℕ, String, Bool, true, not, ◌||◌, Option, some, ◌≡◌, ◌⊎◌, inl, inr, Result, ok, err, Error, arith,
  Dict, Json, ℤ, Bool-cases, Option-cases, Result-cases, does_not_exist, value_error,
  permission_error,
}
use trolley.Catalog.{Catalog, Operation, Target}
use trolley.Access.{AuthContext, can_access_operation}
use trolley.Limits.{Floats}
use trolley.Targets.{TargetDefinition}
use trolley.Pagination.{UuidText, Digest, Page, next_page}
use trolley.Executions.{
  Compiled, Response, Services, operation_named, target_by_id, configured, attempt_once,
  page_outcome, attempt_page, execute_operation,
}
use trolley.Executions.Audit.{KeepsExecutions}

module _ (floats : Floats) (is_zero : String → Bool) (uuid : UuidText) (digest : Digest)
    (services : Services (TargetDefinition floats is_zero)) where
  pub attempt_once-KeepsExecutions :
      (definition : TargetDefinition floats is_zero) (compiled : Compiled) (operation : Operation)
      (arguments : Dict Json)
      → KeepsExecutions
          (attempt_once floats is_zero uuid digest services definition compiled operation arguments)
  unfolding attempt_once
  attempt_once-KeepsExecutions definition compiled operation arguments e c = ground arith

  pub attempt_page-KeepsExecutions :
      (definition : TargetDefinition floats is_zero) (compiled : Compiled) (operation : Operation)
      (arguments : Dict Json) (context : AuthContext) (page : Page) (cursor : Option String)
      (now : ℕ)
      → KeepsExecutions (
          attempt_page floats is_zero uuid digest services definition compiled operation arguments
            context page cursor now)
  unfolding attempt_page page_outcome next_page
  attempt_page-KeepsExecutions definition compiled operation arguments context page cursor now e c =
      ground arith

  -- What a call needs before it writes anything.
  pub record MayRun (targets : Result (Dict (TargetDefinition floats is_zero))) (name : String)
      (context : AuthContext) (c : Catalog) : Type 0 where
    pub operation : Operation
    pub named : operation_named name c ≡ some operation
    pub operation_active : operation.is_active ≡ true
    pub target : Target
    pub owner : target_by_id operation.target c ≡ some target
    pub target_active : target.is_active ≡ true
    pub access : can_access_operation context operation c ≡ true
    pub loaded : Dict (TargetDefinition floats is_zero)
    pub loads : targets ≡ ok loaded
    pub definition : TargetDefinition floats is_zero
    pub is_configured :
        configured floats is_zero uuid digest services target loaded ≡ some definition

  module _ (targets : Result (Dict (TargetDefinition floats is_zero))) (name : String)
      (given : Dict Json) (context : AuthContext) (page_size : Option ℤ) (cursor : Option String)
      (saves : Bool) (now : ℕ) (c : Catalog) where
    abbrev run : Result Response × Catalog
    run =
        execute_operation floats is_zero uuid digest services targets name given context page_size
          cursor saves now c

    checked :
        (o : Operation)
        → operation_named name c ≡ some o
        → (t : Target) → target_by_id o.target c ≡ some t
        → MayRun targets name context c ⊎ ((x : Error) × (run ≡ (err x, c)))
    unfolding execute_operation
    checked o e t f = elim (Bool-cases (not o.is_active || not t.is_active)) [
      | inl off ↦ inr (value_error "Operation or target is inactive", ground (arith, e, f, off))
      | inr on ↦ elim (Bool-cases (can_access_operation context o c)) [
        | inr denied ↦
            inr (permission_error "Operation access denied", ground (arith, e, f, on, denied))
        | inl access ↦ elim (Result-cases targets) [
          | inr (x, g) ↦ inr (x, ground (arith, e, f, on, access, g))
          | inl (loaded, g) ↦
              elim (Option-cases (configured floats is_zero uuid digest services t loaded)) [
                | inl h ↦ inr (
                  value_error "Operation target is not configured",
                  ground (arith, e, f, on, access, g, h),
                )
                | inr (definition, h) ↦ inl (record {
                  operation = o;
                  named = e;
                  operation_active = ground (arith, on);
                  target = t;
                  owner = f;
                  target_active = ground (arith, on);
                  access = access;
                  loaded = loaded;
                  loads = g;
                  definition = definition;
                  is_configured = h;
                })
              ]
        ]
      ]
    ]

    -- A call is for an active operation of an active, configured target that the caller's groups
    -- reach; any other call raises, and writes nothing.
    pub execute_operation-MayRun :
        MayRun targets name context c ⊎ ((x : Error) × (run ≡ (err x, c)))
    unfolding execute_operation
    execute_operation-MayRun = elim (Option-cases (operation_named name c)) [
      | inl e ↦ inr (does_not_exist, ground (arith, e))
      | inr (o, e) ↦ elim (Option-cases (target_by_id o.target c)) [
        | inl f ↦ inr (does_not_exist, ground (arith, e, f))
        | inr (t, f) ↦ checked o e t f
      ]
    ]
