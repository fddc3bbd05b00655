-- ===== src/Operations.antt =====
-- application/operations.py, with the checks of a name and of an input schema of
-- validation/operations.py: publishing, changing and disabling operations. The validation of a
-- definition, the schema of JSON Schema and Python's identifiers are parameters.
pub mod Disable
pub mod Create
mod Tests
use trolley.Base.{
  ℕ, ◌+◌, String, Bool, true, false, not, ◌&&◌, ◌||◌, Option, none, some, List, [], ◌∷◌, ◌++◌, all,
  any, find, filter, map, length, codes, contains, strip, str_eq, str_append, ◌==◌, leb,
  if◌then◌else◌, value_error, does_not_exist, integrity_error, Result, ok, err, Error, ◌>>=◌, ◌>>◌,
  raise_if, update_where, Json, Dict, get, keys, str, obj, end, fields,
}
use trolley.Catalog.{Catalog, Operation, Target, UserRole, role_eq}
use trolley.Catalog.Monad.{
  Action, pure, lift, gets, get_or_raise, modify, guard, ◌>>=◌ as bind, ◌>>◌ as seq,
}
use trolley.Access.{AuthContext, accessible_operation_names}
use trolley.Tools.{system_tool}
use trolley.Executions.{operation_named, target_by_id, is_some, is_text_of}

-- One character of `TOOL_NAME_PATTERN`.
abbrev pub is_name_char : ℕ → Bool
is_name_char c =
    (leb b'A' c && leb c b'Z')
    || ((leb b'a' c && leb c b'z') || ((leb b'0' c && leb c b'9') || (c == b'_' || c == b'-')))

-- `TOOL_NAME_PATTERN.fullmatch(name)`
abbrev pub is_tool_name : String → Bool
is_tool_name name =
    leb 1 (length (codes name)) && (leb (length (codes name)) 128 && all is_name_char (codes name))

unfoldable pub validate_operation_name : String → Result String
validate_operation_name raw_name = do
  let name = strip raw_name
  raise_if (not (is_tool_name name))
      (value_error "name must contain only letters, numbers, underscores, or hyphens")
  raise_if (is_some (system_tool name))
      (value_error (str_append "Operation name is reserved by a system tool: " name))
  ok name

abbrev pub property_names : Option Json → List String
property_names (some (obj ps)) = keys (fields ps)
property_names _ = []

-- What the checks of a definition rely on.
pub record Rules : Type 0 where
  -- `Draft202012Validator.check_schema`
  pub check_schema : Dict Json → Result (Unit {0})
  -- `name.isidentifier() and not keyword.iskeyword(name)`
  pub is_identifier : String → Bool
  pub validate_definition : Target → Dict Json → Dict Json → Result (Unit {0})

-- `operation.save()`
abbrev pub save_operation : Operation → Catalog → Catalog
save_operation o c = record c {
  operations = update_where (λ x. x.id == o.id) (λ _. o) c.operations;
}

abbrev pub default_schema : Dict Json
default_schema =
    ("type", str "object")
    ∷ ("properties", obj end)
    ∷ ("additionalProperties", Json.bool false)
    ∷ []

-- `input_schema or DEFAULT_INPUT_SCHEMA`
abbrev pub or_default : Option (Dict Json) → Dict Json
or_default none = default_schema
or_default (some []) = default_schema
or_default (some (item ∷ items)) = item ∷ items

abbrev pub given_or {ℓ} : {A : Type ℓ} → Option A → A → A
given_or none old = old
given_or (some new) old = new

module _ (rules : Rules) where
  open rules use {check_schema, is_identifier, validate_definition}

  unfoldable pub validate_input_schema : Dict Json → Result (Dict Json)
  validate_input_schema schema = do
    check_schema schema
    raise_if (not (is_text_of "type" "object" schema))
        (value_error "input_schema root type must be 'object'")
    raise_if (not (all is_identifier (property_names (get "properties" schema))))
        (value_error "input property must be a valid identifier")
    ok schema

  abbrev pub new_operation : ℕ → Target → String → String → Dict Json → Dict Json → Operation
  new_operation id target name description schema definition = record {
    id = id;
    target = target.id;
    name = name;
    description = description;
    input_schema = schema;
    definition = definition;
    is_active = true;
  }

  -- `Operation.create(…)`, whose name is unique.
  abbrev pub insert_operation : Target → String → String → Dict Json → Dict Json → Action Operation
  insert_operation target name description schema definition c =
      if any (λ o. str_eq o.name name) c.operations then (err integrity_error, c) else (
        ok (new_operation c.next_id target name description schema definition),
        record c {
          operations =
              c.operations
              ++ new_operation c.next_id target name description schema definition ∷ [];
          next_id = c.next_id + 1;
        },
      )

  -- The checks of `create_operation`, in their order: the schema and the name to store.
  unfoldable pub check_new :
      Target → String → Dict Json → Option (Dict Json) → Result (Dict Json × String)
  unfolding validate_input_schema validate_operation_name
  check_new target raw_name definition given_schema = do
    schema ← validate_input_schema (or_default given_schema)
    validate_definition target definition schema
    name ← validate_operation_name raw_name
    ok (schema, name)

  abbrev pub target_named : String → Catalog → Option Target
  target_named name c = find (λ t. str_eq t.name name) c.targets

  unfoldable pub create_operation :
      String → String → Dict Json → String → Option (Dict Json) → Action Operation
  unfolding check_new
  create_operation raw_name target_name definition description given_schema =
      bind (get_or_raise (target_named target_name) does_not_exist) (λ target.
        bind (lift (check_new target raw_name definition given_schema))
          (λ checked. insert_operation target checked.1 description checked.0 definition))

  -- The checks of `update_operation`: the schema to store.
  abbrev pub check_change :
      Operation → Target → Option (Dict Json) → Option (Dict Json) → Result (Dict Json)
  check_change operation target given_schema given_definition = do
    schema ← (elim given_schema [
      | none ↦ ok operation.input_schema
      | some s ↦ validate_input_schema s
    ])
    validate_definition target (given_or given_definition operation.definition) schema
    ok schema

  unfoldable pub update_operation :
      String → Option String → Option (Dict Json) → Option (Dict Json) → Action Operation
  unfolding validate_input_schema
  update_operation name description given_schema given_definition =
      bind (get_or_raise (operation_named name) does_not_exist) (λ operation.
        bind (get_or_raise (target_by_id operation.target) does_not_exist) (λ target.
          bind (lift (check_change operation target given_schema given_definition)) (λ schema.
            let changed : Operation = record operation {
              description = given_or description operation.description;
              input_schema = schema;
              definition = given_or given_definition operation.definition;
              is_active = true;
            } in
            seq (modify (save_operation changed)) (pure changed))))

unfoldable pub disable_operation : String → Action Operation
disable_operation name = bind (get_or_raise (operation_named name) does_not_exist) (λ operation.
    seq (modify (save_operation (record operation { is_active = false })))
      (pure (record operation { is_active = false })))
