-- ===== src/Caller/Usage.antt =====
-- validation/caller_usage.py: aggregates over the rows that belong to the caller.
use trolley.Base.{
  ℕ, ◌+◌, String, Bool, not, ◌&&◌, ◌||◌, none, some, List, [], ◌∷◌, ◌++◌, any, length, ◌==◌,
  contains, cat, join, value_error, Error, Result, ok, err, raise_if, or_raise, Json, Dict, get,
  keys, put, if◌then◌else◌,
}
use trolley.Base.Chain.{◌>>=◌, ◌>>◌}
use trolley.Caller.Parts.{
  text_of, list_of, dict_of, at, subset, same_set, simple_name, quoted, is_text, source_relation,
  mapped_predicate, caller, sql_operator, properties_of, is_closed, list_or_empty, placeholder,
  check_inputs, with_sql,
}
use trolley.Caller.Selection.{Filters, tail_of}

-- `expressions`, `projections` and `aliases`.
pub record Outputs : Type 0 where
  pub expressions : Dict String
  pub projections : List String
  pub aliases : List String

abbrev pub alias_error : Error
alias_error = value_error "Output aliases must be unique"

abbrev pub as_text : String → String → String
as_text expression alias = cat (expression ∷ " AS " ∷ quoted alias ∷ [])

-- The expression of a dimension.
unfoldable pub transformed : Json → String → Result String
transformed transform column =
    if is_text "date" transform
    then ok (cat ("s." ∷ quoted column ∷ "::date" ∷ []))
    else if is_text "identity" transform
    then ok (cat ("s." ∷ quoted column ∷ []))
    else err (value_error "Dimension transform must be identity or date")

-- One round of the loop over the dimensions.
unfoldable pub add_dimension : Outputs → Json → Result Outputs
add_dimension so_far v = do
  item ← or_raise (dict_of v) (value_error "Dimension requires column, transform and as")
  raise_if (not (same_set (keys item) ("column" ∷ "transform" ∷ "as" ∷ [])))
      (value_error "Dimension requires column, transform and as")
  alias ← simple_name (at "as" item)
  column ← simple_name (at "column" item)
  expression ← transformed (at "transform" item) column
  raise_if (contains so_far.aliases alias) alias_error
  ok (record {
    expressions = put alias expression so_far.expressions;
    projections = so_far.projections ++ as_text expression alias ∷ [];
    aliases = so_far.aliases ++ alias ∷ [];
  })

unfoldable pub add_dimensions : Outputs → List Json → Result Outputs
add_dimensions so_far [] = ok so_far
add_dimensions so_far (v ∷ vs) = add_dimension so_far v >>= λ next. add_dimensions next vs

abbrev pub is_sum : Dict Json → Bool
is_sum item = is_text "sum" (at "function" item)

-- The expression of a metric.
unfoldable pub aggregate : Dict Json → Result String
aggregate item = elim (is_sum item) [
  | Bool.false ↦ ok "COUNT(*)"
  | Bool.true ↦ do
    column ← simple_name (at "column" item)
    ok (cat ("COALESCE(SUM(s." ∷ quoted column ∷ "), 0)" ∷ []))
]

-- One round of the loop over the metrics.
unfoldable pub add_metric : Outputs → Json → Result Outputs
add_metric so_far v = do
  item ← or_raise (dict_of v) (value_error "Metric function must be count or sum")
  raise_if (not (is_text "count" (at "function" item) || is_sum item))
      (value_error "Metric function must be count or sum")
  raise_if
      (not (same_set (keys item) ("function" ∷ "as" ∷ (if is_sum item then "column" ∷ [] else []))))
      (value_error "Unexpected metric fields")
  alias ← simple_name (at "as" item)
  raise_if (contains so_far.aliases alias) alias_error
  expression ← aggregate item
  ok (record so_far {
    projections = so_far.projections ++ as_text expression alias ∷ [];
    aliases = so_far.aliases ++ alias ∷ [];
  })

unfoldable pub add_metrics : Outputs → List Json → Result Outputs
add_metrics so_far [] = ok so_far
add_metrics so_far (v ∷ vs) = add_metric so_far v >>= λ next. add_metrics next vs

-- `d["as"] == dimension and d["transform"] == "date"`, for a dimension of the definition.
abbrev pub is_date_of : String → Json → Bool
is_date_of dimension v = elim (dict_of v) [
  | none ↦ Bool.false
  | some d ↦ is_text dimension (at "as" d) && is_text "date" (at "transform" d)
]

abbrev pub usage_placeholder : List Json → String → ℕ → String
usage_placeholder dimensions dimension n =
    if any (is_date_of dimension) dimensions
    then cat (placeholder n ∷ "::text::date" ∷ [])
    else placeholder n

abbrev pub usage_condition : String → String → String → String
usage_condition expression operator value = cat (expression ∷ " " ∷ operator ∷ " " ∷ value ∷ [])

-- One round of the loop over the filters.
unfoldable pub add_usage_filter :
    List Json → Dict String → Dict Json → Filters → Json → Result Filters
add_usage_filter dimensions expressions properties (predicates, parameters) v = do
  let malformed = value_error "Aggregate filters require dimension, operator and parameter"
  item ← or_raise (dict_of v) malformed
  raise_if (not (same_set (keys item) ("dimension" ∷ "operator" ∷ "parameter" ∷ []))) malformed
  dimension ← or_raise (text_of (at "dimension" item)) (value_error "Filter fields must be strings")
  name ← or_raise (text_of (at "operator" item)) (value_error "Filter fields must be strings")
  parameter ← or_raise (text_of (at "parameter" item)) (value_error "Filter fields must be strings")
  expression ← or_raise (get dimension expressions) (value_error "Unknown dimension or operator")
  operator ← or_raise (sql_operator name) (value_error "Unknown dimension or operator")
  raise_if (not (contains (keys properties) parameter) || contains parameters parameter)
      (value_error "Filter parameter must be a unique public input")
  let value = usage_placeholder dimensions dimension (length parameters + 1)
  ok (predicates ++ usage_condition expression operator value ∷ [], parameters ++ parameter ∷ [])

unfoldable pub add_usage_filters :
    List Json → Dict String → Dict Json → Filters → List Json → Result Filters
add_usage_filters dimensions expressions properties so_far [] = ok so_far
add_usage_filters dimensions expressions properties so_far (v ∷ vs) =
    add_usage_filter dimensions expressions properties so_far v >>= λ next.
    add_usage_filters dimensions expressions properties next vs

abbrev pub usage_keys : List String
usage_keys =
    "data_scope" ∷ "source" ∷ "ownership" ∷ "dimensions" ∷ "metrics" ∷ "filters" ∷ "output"
    ∷ "pagination" ∷ []

abbrev pub values_of : Dict String → List String
values_of [] = []
values_of ((_, v) ∷ d) = v ∷ values_of d

-- `" GROUP BY " + …`, if there are dimensions.
abbrev pub grouping : List String → String
grouping [] = ""
grouping (e ∷ es) = cat (" GROUP BY " ∷ join ", " (e ∷ es) ∷ [])

abbrev pub usage_text : String → Outputs → List String → String
usage_text relation outputs predicates = cat (
    "SELECT "
    ∷ join ", " (Outputs.projections outputs)
    ∷ " FROM "
    ∷ relation
    ∷ " AS s WHERE "
    ∷ join " AND " predicates
    ∷ grouping (values_of (Outputs.expressions outputs))
    ∷ [])

abbrev pub no_outputs : Outputs
no_outputs = record { expressions = []; projections = []; aliases = [] }

-- The dimensions and the metrics, of which there is at least one.
unfoldable pub usage_outputs : Dict Json → List Json → Result Outputs
usage_outputs definition dimensions = do
  let malformed = value_error "Dimensions must be a list and metrics a non-empty list"
  metrics ← or_raise (list_of (at "metrics" definition)) malformed
  raise_if (length metrics == 0) malformed
  grouped ← add_dimensions no_outputs dimensions
  add_metrics grouped metrics

unfoldable pub compile_usage : Dict Json → Dict Json → Result (Dict Json)
compile_usage definition schema = do
  raise_if (not (subset (keys definition) usage_keys))
      (value_error "Caller aggregates accept only structured fields; no SQL or bindings")
  relation ←
      source_relation (value_error "Source requires schema and relation") (at "source" definition)
  predicate ← mapped_predicate (at "ownership" definition)
  dimensions ←
      list_or_empty "dimensions"
        (value_error "Dimensions must be a list and metrics a non-empty list") definition
  outputs ← usage_outputs definition dimensions
  properties ← properties_of schema
  raise_if (not (is_closed schema) || contains (keys properties) caller)
      (value_error "Caller inputs must be closed and cannot include caller identity")
  filters ← list_or_empty "filters" (value_error "Filters must be a list") definition
  (predicates, inputs) ←
      add_usage_filters dimensions (Outputs.expressions outputs) properties
        (predicate ∷ [], caller ∷ []) filters
  check_inputs schema properties (tail_of inputs)
  ok (with_sql definition (usage_text relation outputs predicates) inputs)
