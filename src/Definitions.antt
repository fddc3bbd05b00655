-- ===== src/Definitions.antt =====
-- validation/operations.py: `validate_definition`, which compiles a definition and checks what comes
-- out. `name.isidentifier() and not keyword.iskeyword(name)` is a parameter.
pub mod Accepted
pub mod Tests
use trolley.Base.{
  ℕ, String, Bool, true, false, not, ◌&&◌, ◌||◌, none, some, List, [], ◌∷◌, ◌++◌, all, any, length,
  ◌==◌, contains, strip, is_empty, str_eq, value_error, Error, Result, ok, raise_if, or_raise, Json,
  bool, str, obj, end, Dict, get, keys,
}
use trolley.Base.Chain.{◌>>=◌, ◌>>◌}
use trolley.Executions.{is_given}
use trolley.Caller.{
  text_of, list_of, dict_of, at, subset, same_set, is_distinct, traverse, is_simple, is_text,
  email_identity, required_of, properties_of, list_or_empty, compile_definition,
}

-- `definition.get("fetch", True)`, where it is a boolean.
-- `definition.get("fetch", True)`, which the validation has checked to be a Boolean.
abbrev pub fetches : Dict Json → Bool
fetches definition = elim (get "fetch" definition) [
  | none ↦ true
  | some v ↦ elim v [ bool b ↦ b | _ ↦ true ]
]

abbrev pub is_boolean : Json → Bool
is_boolean v = elim v [ bool _ ↦ true | _ ↦ false ]

abbrev pub or_else : Json → String → Dict Json → Json
or_else default key d = elim (get key d) [ none ↦ default | some v ↦ v ]

-- `definition.get("output", "inline") == "file"`
abbrev pub is_file : Dict Json → Bool
is_file definition = is_text "file" (or_else (str "inline") "output" definition)

abbrev pub sql_error : Error
sql_error = value_error "PostgreSQL operation needs a non-empty SQL string"

-- The statement, its `fetch` flag and its output.
unfoldable pub check_statement : Dict Json → Result String
check_statement definition = do
  sql ← or_raise (text_of (at "sql" definition)) sql_error
  raise_if (is_empty (strip sql)) sql_error
  raise_if (not (is_boolean (or_else (bool true) "fetch" definition)))
      (value_error "PostgreSQL fetch must be a boolean")
  raise_if (contains (keys definition) "export")
      (value_error "Use output: 'file' instead of the export option")
  raise_if
      (not (is_text "inline" (or_else (str "inline") "output" definition) || is_file definition))
      (value_error "output must be 'inline' or 'file'")
  raise_if (is_file definition && not (fetches definition))
      (value_error "File output requires fetch: true")
  raise_if (is_file definition && is_given "pagination" definition)
      (value_error "File output does not support pagination")
  ok sql

abbrev pub order_error : Error
order_error = value_error "pagination.order_by must list unique output column identifiers"

-- The columns that a page is ordered by.
unfoldable pub order_columns : Dict Json → Result (List String)
order_columns definition = do
  pagination ←
      or_raise (dict_of (at "pagination" definition))
        (value_error "pagination must contain only order_by")
  raise_if (not (same_set (keys pagination) ("order_by" ∷ [])))
      (value_error "pagination must contain only order_by")
  values ← or_raise (list_of (at "order_by" pagination)) order_error
  raise_if (length values == 0) order_error
  columns ← traverse (λ v. or_raise (text_of v) order_error) values
  raise_if (not (all is_simple columns) || not (is_distinct columns)) order_error
  ok columns

unfoldable pub check_pagination : Dict Json → Result (Unit {0})
check_pagination definition = elim (is_given "pagination" definition) [
  | false ↦ ok tt
  | true ↦ do
    raise_if (not (fetches definition))
        (value_error "Pagination is only supported for read queries")
    _ ← order_columns definition
    ok tt
]

abbrev pub names_error : Error
names_error = value_error "PostgreSQL operation parameters must be a list of names"

-- `definition.get("parameters", [])`, a list of names.
unfoldable pub listed_names : Dict Json → Result (List String)
listed_names definition = do
  values ← list_or_empty "parameters" names_error definition
  traverse (λ v. or_raise (text_of v) names_error) values

-- The names of the parameters, none twice.
unfoldable pub parameter_names : Dict Json → Result (List String)
parameter_names definition = do
  names ← listed_names definition
  raise_if (not (is_distinct names)) (value_error "PostgreSQL operation parameters must be unique")
  ok names

abbrev pub bindings_error : Error
bindings_error = value_error "bindings must map parameter identifiers to authenticated_user.email"

abbrev pub all_email : Dict Json → Bool
all_email [] = true
all_email ((_, v) ∷ d) = is_text email_identity v && all_email d

module _ (is_identifier : String → Bool) where
  -- The parameters that the server binds.
  unfoldable pub binding_names : Dict Json → Result (List String)
  binding_names definition = do
    bindings ← or_raise (dict_of (or_else (obj end) "bindings" definition)) bindings_error
    raise_if (not (all is_identifier (keys bindings)) || not (all_email bindings)) bindings_error
    ok (keys bindings)

  unfoldable pub check_parameters : Dict Json → Dict Json → Result (Unit {0})
  check_parameters definition schema = do
    parameters ← parameter_names definition
    bindings ← binding_names definition
    required ← required_of schema
    properties ← properties_of schema
    raise_if (any (contains (keys properties ++ required)) bindings)
        (value_error "Server-bound parameters must not appear in input_schema")
    raise_if (not (same_set parameters (required ++ bindings)))
        (value_error "PostgreSQL parameters must match input_schema.required plus bindings")

  unfoldable pub validate_definition : Dict Json → Dict Json → Result (Unit {0})
  validate_definition given schema = do
    definition ← compile_definition given schema
    _ ← check_statement definition
    check_pagination definition
    check_parameters definition schema
