-- ===== src/Server/Authorised.antt =====
-- Whom a tool serves.
use trolley.Base.{
  ℕ, ok-injective, ap, true, Bool-cases, String, true, Option, none, some, ◌≡◌, refl, sym, ◌∙◌, ◌⊎◌,
  inl, inr, ok, err, Result, Error, Result-cases, Option-cases, Dict, Json, arith,
}
use trolley.Access.{AuthContext}
use trolley.Auth.{AccessToken}
use trolley.Tools.{
  SystemToolName, tool_policy, validate_tool, current_tool_context, has_scope, require_text,
  claimed_role,
}
use trolley.Registry.{ToolServer}
use trolley.Catalog.{Operation, Target}
use trolley.Access.Reach.{Reaches}
use trolley.Access.Roles.{MayExplore}
use trolley.Executions.{operation_named}
use trolley.Operations.{Rules}
use trolley.Registry.Synced.{IsSynced}
use trolley.Server.Creation.{ok-err}
use trolley.Server.Publish.{IsOpened, create_tool-IsOpened, create_tool-reach}
use trolley.Server.{create_tool, World, Task, ToolAnswer, returned, guarded, answer, is_caught}

-- The caller of a tool that ran.
pub record IsServed (name : SystemToolName) (auth : Option AccessToken) (context : AuthContext)
    : Type 0 where
  pub token : AccessToken
  pub carried : auth ≡ some token
  pub allowed : has_scope (tool_policy name).scope token.scopes ≡ true
  pub subject : token.subject ≡ some context.user_id
  pub key : token.client_id ≡ context.api_key_id

-- Who calls by a token.
abbrev context_by : AccessToken → ℕ → AuthContext
context_by token user = record {
  user_id = user;
  api_key_id = token.client_id;
  role = claimed_role token.claims;
}

validate_tool-IsServed :
    (name : SystemToolName) (values : Dict Json) (auth : Option AccessToken) (context : AuthContext)
    → validate_tool name values auth ≡ ok context
    → IsServed name auth context
unfolding validate_tool current_tool_context
validate_tool-IsServed name values none context h = cc
validate_tool-IsServed name values (some token) context h = elim (Option-cases token.subject) [
  | inl e ↦ absurd (ground (arith, e, h))
  | inr (user, e) ↦ elim (Bool-cases (has_scope (tool_policy name).scope token.scopes)) [
    | inr refused ↦ absurd (ground (arith, e, refused, h))
    | inl allowed ↦ elim (Result-cases (require_text (tool_policy name).required_text values)) [
      | inr (x, bad) ↦ absurd (ground (arith, e, allowed, bad, h))
      | inl (u, texts) ↦
          let run : validate_tool name values (some token) ≡ ok (context_by token user) =
            rw (e, allowed, texts) refl in
          let made : context_by token user ≡ context = ok-injective (sym run ∙ h) in
          record {
            token = token;
            carried = refl;
            allowed = allowed;
            subject = e ∙ ap (λ (c : AuthContext). some c.user_id) made;
            key = ap (λ (c : AuthContext). c.api_key_id) made;
          }
    ]
  ]
]

module _ (tools : ToolServer) (error_text : Error → String) where
  answer-returned :
      {A : Type 0} (p : Result A × World tools) (w : World tools) (a : A)
      → ◌≡◌ {A = ToolAnswer A × World tools} (answer tools error_text p.0, p.1) (returned a, w)
      → p ≡ (ok a, w)
  answer-returned (ok b, v) w a h = cc
  answer-returned (err e, v) w a h = elim (Bool-cases (is_caught e)) [
    | inl caught ↦ absurd (ground (arith, caught, ap (λ q. q.0) h))
    | inr other ↦ absurd (ground (arith, other, ap (λ q. q.0) h))
  ]

  pub guarded-runs :
      {A : Type 0} (name : SystemToolName) (values : Dict Json) (auth : Option AccessToken)
      (body : AuthContext → Task tools A) (w : World tools) (context : AuthContext)
      → validate_tool name values auth ≡ ok context
      → guarded tools error_text name values auth body w
        ≡ (answer tools error_text (body context w).0, (body context w).1)
  unfolding guarded
  guarded-runs name values auth body w context let_in = rw (let_in, guarded) refl

  -- Either a tool runs, for a caller whose token has the scope of the tool, or the caller gets an error
  -- and the catalog and the registry stay as they were.
  pub guarded-IsServed :
      {A : Type 0} (name : SystemToolName) (values : Dict Json) (auth : Option AccessToken)
      (body : AuthContext → Task tools A) (w : World tools)
      → let (answered, w') = guarded tools error_text name values auth body w in
        ((context : AuthContext) × IsServed name auth context
          × (guarded tools error_text name values auth body w
              ≡ (answer tools error_text (body context w).0, (body context w).1)))
        ⊎ ((e : Error) × (answered ≡ answer tools error_text {A = A} (err e)) × (w' ≡ w))
  unfolding guarded
  guarded-IsServed name values auth body w = elim (Result-cases (validate_tool name values auth)) [
    | inr (e, refused) ↦ inr (e, rw (refused, guarded) refl, rw (refused, guarded) refl)
    | inl (context, let_in) ↦
        inl (
          context,
          validate_tool-IsServed name values auth context let_in,
          rw (let_in, guarded) refl,
        )
  ]

module _ (tools : ToolServer) (error_text : Error → String) (rules : Rules) where
  -- Where no operation has the name yet and the registry is in step with its table, a publication that
  -- returns was called with a token of the scope for administrators; it has stored its operation under
  -- exactly the given name, validated and on the named target, which is in the caller's reach; the
  -- registry is in step again, the new tool is there exactly if the operation is offered, and every
  -- other tool is there exactly if it was.
  pub create_guarded-IsOpened :
      (values : Dict Json) (auth : Option AccessToken) (name target_name : String)
      (definition : Dict Json) (description : String) (schema : Option (Dict Json))
      (w w' : World tools) (o : Operation)
      → operation_named name w.catalog ≡ none
      → IsSynced tools w.registry
      → guarded tools error_text SystemToolName.create_operation values auth
          (create_tool tools rules name target_name definition description schema)
          w
        ≡ (returned o, w')
      → (context : AuthContext) × IsServed SystemToolName.create_operation auth context
        × MayExplore w.catalog context
        × ((t : Target) × (target_name ≡ t.name) × Reaches w.catalog context.user_id t)
        × IsOpened tools rules w w' name target_name definition o
  create_guarded-IsOpened values auth name target_name definition description schema w w' o new
        synced h =
      elim (guarded-IsServed tools error_text SystemToolName.create_operation values auth
        (create_tool tools rules name target_name definition description schema) w) [
          | inr (e, refused, same) ↦ absurd (
              ok-err (
                sym (
                  ap (λ p. p.0)
                    (answer-returned tools error_text (err e, w') w' o
                      (ap (λ x. (x, w')) (sym refused ∙ ap (λ p. p.0) h))))))
          | inl (context, served, run) ↦
              let ran =
                answer-returned tools error_text
                  (create_tool tools rules name target_name definition description schema context w)
                  w' o (sym run ∙ h) in
              (
                context,
                served,
                (create_tool-reach tools rules name target_name definition description schema
                    context w w' o ran).0,
                (create_tool-reach tools rules name target_name definition description schema
                    context w w' o ran).1,
                create_tool-IsOpened tools rules name target_name definition description schema
                    context w w' o new synced ran,
              )
        ]
