-- ===== src/Caller/Selection.antt =====
-- validation/caller.py: the rows of a relation that belong to the caller.
use trolley.Base.{
  ℕ, ◌+◌, String, Bool, false, not, ◌||◌, none, some, List, [], ◌∷◌, ◌++◌, map, length, ◌==◌,
  contains, str_eq, cat, join, value_error, external_error, Error, Result, ok, raise_if, or_raise,
  Json, Dict, get, keys, if◌then◌else◌,
}
use trolley.Base.Chain.{◌>>=◌, ◌>>◌}
use trolley.Executions.{is_text_of}
use trolley.Caller.Parts.{
  text_of, list_of, dict_of, at, subset, same_set, is_distinct, traverse, simple_name, quoted,
  email_identity, is_text, source_relation, mapped_predicate, caller, sql_operator, properties_of,
  is_closed, list_or_empty, placeholder, check_inputs, with_sql,
}

-- `isinstance(ownership, dict) and "source" in ownership`
abbrev pub is_mapped : Json → Bool
is_mapped ownership = elim (dict_of ownership) [
  | none ↦ false
  | some owner ↦ contains (keys owner) "source"
]

abbrev pub direct_text : String → String
direct_text column = cat (quoted column ∷ " = $1" ∷ [])

-- The predicate of an ownership that names a column of the relation itself.
unfoldable pub direct_predicate : Json → Result String
direct_predicate v = do
  owner ←
      or_raise (dict_of v)
        (value_error "Caller ownership requires column and authenticated_user.email identity")
  raise_if
      (not (same_set (keys owner) ("column" ∷ "identity" ∷ []))
        || not (is_text email_identity (at "identity" owner)))
      (value_error "Caller ownership requires column and authenticated_user.email identity")
  column ← simple_name (at "column" owner)
  ok (direct_text column)

abbrev pub owner_predicate : Json → Result String
owner_predicate ownership =
    if is_mapped ownership then mapped_predicate ownership else direct_predicate ownership

-- `ownership["column"]`, once the predicate is built.
abbrev pub owner_column : Json → String
owner_column ownership = elim (dict_of ownership) [
  | none ↦ ""
  | some owner ↦ elim (text_of (at "column" owner)) [ none ↦ "" | some s ↦ s ]
]

-- The placeholder of a filter, cast if its item has a type.
unfoldable pub filter_placeholder : Dict Json → Dict Json → String → ℕ → Result String
filter_placeholder properties item parameter n = elim (get "type" item) [
  | none ↦ ok (placeholder n)
  | some v ↦ do
    let wrong = value_error "Filter type must be date, timestamp or timestamptz"
    cast ← or_raise (text_of v) wrong
    raise_if (not (contains ("date" ∷ "timestamp" ∷ "timestamptz" ∷ []) cast)) wrong
    property ← or_raise (dict_of (at parameter properties)) (external_error "AttributeError")
    raise_if (not (is_text_of "type" "string" property))
        (value_error "Temporal filter inputs must be strings")
    ok (cat (placeholder n ∷ "::text::" ∷ cast ∷ []))
]

-- The predicates and the parameters so far.
abbrev pub Filters : Type 0
Filters = List String × List String

abbrev pub filter_error : Error
filter_error = value_error "Caller filters require column, operator and parameter; optional type"

abbrev pub condition_text : String → String → String → String → String
condition_text prefix column operator value =
    cat (prefix ∷ quoted column ∷ " " ∷ operator ∷ " " ∷ value ∷ [])

-- One round of the loop over the filters.
unfoldable pub add_filter : String → String → Dict Json → Filters → Json → Result Filters
add_filter prefix owner properties (predicates, parameters) v = do
  item ← or_raise (dict_of v) filter_error
  raise_if
      (not (subset ("column" ∷ "operator" ∷ "parameter" ∷ []) (keys item))
        || not (subset (keys item) ("column" ∷ "operator" ∷ "parameter" ∷ "type" ∷ [])))
      filter_error
  column ← simple_name (at "column" item)
  raise_if (str_eq column owner) (value_error "Owner column cannot be filtered by public input")
  name ← or_raise (text_of (at "operator" item)) (value_error "Unsupported caller filter operator")
  operator ← or_raise (sql_operator name) (value_error "Unsupported caller filter operator")
  parameter ←
      or_raise (text_of (at "parameter" item))
        (value_error "Filter parameter must be a declared public input")
  raise_if (not (contains (keys properties) parameter) || str_eq parameter caller)
      (value_error "Filter parameter must be a declared public input")
  raise_if (contains parameters parameter) (value_error "Caller filter parameters must be unique")
  value ← filter_placeholder properties item parameter (length parameters + 1)
  ok (predicates ++ condition_text prefix column operator value ∷ [], parameters ++ parameter ∷ [])

unfoldable pub add_filters : String → String → Dict Json → Filters → List Json → Result Filters
add_filters prefix owner properties so_far [] = ok so_far
add_filters prefix owner properties so_far (v ∷ vs) =
    add_filter prefix owner properties so_far v >>= λ next.
    add_filters prefix owner properties next vs

-- `parameters[1:]`
abbrev pub tail_of {ℓ} : {A : Type ℓ} → List A → List A
tail_of [] = []
tail_of (_ ∷ xs) = xs

abbrev pub selection_keys : List String
selection_keys =
    "data_scope" ∷ "source" ∷ "ownership" ∷ "columns" ∷ "filters" ∷ "output" ∷ "pagination" ∷ []

abbrev pub row_prefix : Bool → String
row_prefix mapped = if mapped then "s." else ""

abbrev pub projected : String → List String → List String
projected prefix columns = map (λ column. cat (prefix ∷ quoted column ∷ [])) columns

abbrev pub selection_text : Bool → String → List String → List String → String
selection_text mapped relation columns predicates = cat (
    "SELECT "
    ∷ join ", " (projected (row_prefix mapped) columns)
    ∷ " FROM "
    ∷ relation
    ∷ (if mapped then " AS s" else "")
    ∷ " WHERE "
    ∷ join " AND " predicates
    ∷ [])

-- The columns of the projection, at least one and none twice.
unfoldable pub selected_columns : Dict Json → Result (List String)
selected_columns definition = do
  values ←
      or_raise (list_of (at "columns" definition))
        (value_error "Caller columns must be a non-empty list")
  raise_if (length values == 0) (value_error "Caller columns must be a non-empty list")
  columns ← traverse simple_name values
  raise_if (not (is_distinct columns)) (value_error "Caller columns must be unique")
  ok columns

-- The branch of `compile_definition` for rows.
unfoldable pub compile_selection : Dict Json → Dict Json → Result (Dict Json)
compile_selection definition schema = do
  raise_if (not (subset (keys definition) selection_keys)) (
      value_error
        "Caller Operations accept only structured source/columns/filters; no SQL or bindings")
  relation ←
      source_relation (value_error "Caller source requires schema and relation")
        (at "source" definition)
  let ownership = at "ownership" definition
  predicate ← owner_predicate ownership
  columns ← selected_columns definition
  properties ← properties_of schema
  raise_if
      (contains (keys properties) caller || contains (keys properties) (owner_column ownership))
      (value_error "Owner identity must not be a public input")
  raise_if (not (is_closed schema))
      (value_error "Caller input_schema requires additionalProperties: false")
  filters ← list_or_empty "filters" (value_error "Caller filters must be a list") definition
  (predicates, inputs) ←
      add_filters (row_prefix (is_mapped ownership)) (owner_column ownership) properties
        (predicate ∷ [], caller ∷ []) filters
  check_inputs schema properties (tail_of inputs)
  let text = selection_text (is_mapped ownership) relation columns predicates
  ok (with_sql definition text inputs)
