-- ===== src/Operations/Create.antt =====
-- What a successful creation stores.
use trolley.Base.{
  String, true, false, none, some, Option, [], ◌∷◌, ◌++◌, any, ◌≡◌, refl, ◌⊎◌, inl, inr, ok, err,
  Error, does_not_exist, integrity_error, str_eq, strip, arith, Dict, Json, Bool-cases,
  Option-cases, Result-cases, subst,
}
use trolley.Catalog.{Catalog, Operation, Target}
use trolley.Tools.{system_tool}
use trolley.Operations.{
  Rules, is_tool_name, validate_operation_name, validate_input_schema, or_default, check_new,
  target_named, new_operation, create_operation,
}

validate_operation_name-ok :
    (raw name : String)
    → validate_operation_name raw ≡ ok name
    → (is_tool_name name ≡ true) × (system_tool name ≡ none)
unfolding validate_operation_name
validate_operation_name-ok raw name h = elim (Bool-cases (is_tool_name (strip raw))) [
  | inr bad ↦ absurd (ground (arith, bad, h))
  | inl good ↦ elim (Option-cases (system_tool (strip raw))) [
    | inr (t, e) ↦ absurd (ground (arith, good, e, h))
    | inl e ↦
        let same : strip raw ≡ name = ground (arith, good, e, h) in
        subst (λ n. (is_tool_name n ≡ true) × (system_tool n ≡ none)) same (good, e)
  ]
]

module _ (rules : Rules) where
  check_new-ok :
      (target : Target) (raw name : String) (definition : Dict Json) (given : Option (Dict Json))
      (schema : Dict Json)
      → check_new rules target raw definition given ≡ ok (schema, name)
      → (rules.validate_definition target definition schema ≡ ok tt)
        × (is_tool_name name ≡ true)
        × (system_tool name ≡ none)
  unfolding check_new
  check_new-ok target raw name definition given schema h =
      elim (Result-cases (validate_input_schema rules (or_default given))) [
        | inr (x, e) ↦ absurd (ground (arith, e, h))
        | inl (s, e) ↦ elim (Result-cases (rules.validate_definition target definition s)) [
          | inr (x, f) ↦ absurd (ground (arith, e, f, h))
          | inl (u, f) ↦ elim (Result-cases (validate_operation_name raw)) [
            | inr (x, g) ↦ absurd (ground (arith, e, f, g, h))
            | inl (n, g) ↦
                let same : s ≡ schema = ground (arith, e, f, g, h) in
                let named : n ≡ name = ground (arith, e, f, g, h) in
                let (good, free) = validate_operation_name-ok raw n g in
                (
                  subst (λ x. rules.validate_definition target definition x ≡ ok tt) same f,
                  subst (λ x. is_tool_name x ≡ true) named good,
                  subst (λ x. system_tool x ≡ none) named free,
                )
          ]
        ]
      ]

  -- What a creation promises of the operation that it returns.
  pub record IsPublished (c c' : Catalog) (target_name : String) (definition : Dict Json)
      (o : Operation) : Type 0 where
    pub target : Target
    pub target_found : target_named rules target_name c ≡ some target
    pub on_target : o.target ≡ target.id
    pub well_named : is_tool_name o.name ≡ true
    pub not_reserved : system_tool o.name ≡ none
    pub defined : o.definition ≡ definition
    pub unused : any (λ x. str_eq x.name o.name) c.operations ≡ false
    pub validated : rules.validate_definition target definition o.input_schema ≡ ok tt
    pub stored : c'.operations ≡ c.operations ++ o ∷ []

  -- A creation that returns has added exactly its operation: on the named target, with a definition
  -- that the validation accepted under the stored schema, and under a well-formed name that no
  -- operation had and that is not the name of a system tool. One that raises writes nothing.
  pub create_operation-IsPublished :
      (raw target_name : String) (definition : Dict Json) (description : String)
      (given : Option (Dict Json)) (c : Catalog)
      → let (r, c') = create_operation rules raw target_name definition description given c in
        ((o : Operation) × (r ≡ ok o) × IsPublished c c' target_name definition o)
        ⊎ ((x : Error) × (r ≡ err x) × (c' ≡ c))
  unfolding create_operation
  create_operation-IsPublished raw target_name definition description given c =
      elim (Option-cases (target_named rules target_name c)) [
        | inl e ↦ inr (does_not_exist, ground (arith, e), ground (arith, e))
        | inr (t, e) ↦ elim (Result-cases (check_new rules t raw definition given)) [
          | inr (x, f) ↦ inr (x, ground (arith, e, f), ground (arith, e, f))
          | inl ((schema, name), f) ↦
              elim (Bool-cases (any (λ o. str_eq o.name name) c.operations)) [
                | inl used ↦
                    inr (integrity_error, ground (arith, e, f, used), ground (arith, e, f, used))
                | inr unused ↦
                    let (valid, good, free) = check_new-ok t raw name definition given schema f in
                    inl (
                      new_operation rules c.next_id t name description schema definition,
                      ground (arith, e, f, unused),
                      record {
                        target = t;
                        target_found = e;
                        on_target = refl;
                        well_named = good;
                        not_reserved = free;
                        defined = refl;
                        unused = unused;
                        validated = valid;
                        stored = ground (arith, e, f, unused);
                      },
                    )
              ]
        ]
      ]
