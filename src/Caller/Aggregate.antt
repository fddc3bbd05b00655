-- ===== src/Caller/Aggregate.antt =====
-- What a definition of aggregates stands for: a query over one relation, grouped by its dimensions,
-- of the rows that belong to the caller, and the text of such a query.
use trolley.Base.{
  ℕ, ◌+◌, String, Bool, true, false, List, [], ◌∷◌, ◌++◌, map, ◌≡◌, In, cat, if◌then◌else◌,
}
use trolley.Caller.{quoted, qualified, placeholder, as_text, usage_condition, usage_text, Outputs}
use trolley.Caller.Query.{Owner, owner_text, through_relation, IsSafeOwner, IsSimple, IsOperator}

pub record Dimension : Type 0 where
  pub column : String
  pub by_date : Bool
  pub alias : String

pub data Metric : Type 0 where
  count : String → Metric
  sum : String → String → Metric

abbrev pub dimension_text : Bool → String → String
dimension_text true column = cat ("s." ∷ quoted column ∷ "::date" ∷ [])
dimension_text false column = cat ("s." ∷ quoted column ∷ [])

abbrev pub expression : Dimension → String
expression d = dimension_text (Dimension.by_date d) (Dimension.column d)

abbrev pub metric_text : Metric → String
metric_text (count alias) = "COUNT(*)"
metric_text (sum column alias) = cat ("COALESCE(SUM(s." ∷ quoted column ∷ "), 0)" ∷ [])

abbrev pub metric_alias : Metric → String
metric_alias (count alias) = alias
metric_alias (sum column alias) = alias

-- A comparison of a dimension with the next parameter.
pub record Comparison : Type 0 where
  pub dimension : Dimension
  pub operator : String
  pub as_date : Bool

abbrev pub compared_text : Bool → ℕ → String
compared_text as_date n =
    if as_date then cat (placeholder n ∷ "::text::date" ∷ []) else placeholder n

abbrev pub comparison_texts : ℕ → List Comparison → List String
comparison_texts n [] = []
comparison_texts n (x ∷ xs) =
    usage_condition (expression (Comparison.dimension x)) (Comparison.operator x)
      (compared_text (Comparison.as_date x) (n + 1))
    ∷ comparison_texts (n + 1) xs

abbrev pub dimension_output : Dimension → String
dimension_output d = as_text (expression d) (Dimension.alias d)

abbrev pub metric_output : Metric → String
metric_output m = as_text (metric_text m) (metric_alias m)

abbrev pub named_expression : Dimension → String × String
named_expression d = (Dimension.alias d, expression d)

abbrev pub outputs_of : List Dimension → List Metric → Outputs
outputs_of ds ms = record {
  expressions = map named_expression ds;
  projections = map dimension_output ds ++ map metric_output ms;
  aliases = map (λ (d : Dimension). d.alias) ds ++ map metric_alias ms;
}

pub record AggregateQuery : Type 0 where
  pub schema : String
  pub relation : String
  pub owner : Owner
  pub dimensions : List Dimension
  pub metrics : List Metric
  pub comparisons : List Comparison

abbrev pub render_aggregate : AggregateQuery → String
render_aggregate q =
    usage_text (qualified q.schema q.relation) (outputs_of q.dimensions q.metrics)
      (owner_text q.owner ∷ comparison_texts 1 q.comparisons)

abbrev pub IsSafeDimension : Dimension → Type 0
IsSafeDimension d = IsSimple (Dimension.column d) × IsSimple (Dimension.alias d)

abbrev pub IsSafeMetric : Metric → Type 0
IsSafeMetric (count alias) = IsSimple alias
IsSafeMetric (sum column alias) = IsSimple column × IsSimple alias

abbrev pub AreSafeDimensions : List Dimension → Type 0
AreSafeDimensions [] = Unit
AreSafeDimensions (d ∷ ds) = IsSafeDimension d × AreSafeDimensions ds

abbrev pub AreSafeMetrics : List Metric → Type 0
AreSafeMetrics [] = Unit
AreSafeMetrics (m ∷ ms) = IsSafeMetric m × AreSafeMetrics ms

-- Only dimensions of the query are compared.
abbrev pub AreSafeComparisons : List Dimension → List Comparison → Type 0
AreSafeComparisons ds [] = Unit
AreSafeComparisons ds (x ∷ xs) =
    In (Comparison.dimension x) ds × IsOperator (Comparison.operator x) × AreSafeComparisons ds xs

pub record IsSafeAggregate (q : AggregateQuery) : Type 0 where
  pub safe_schema : IsSimple q.schema
  pub safe_relation : IsSimple q.relation
  pub safe_owner : IsSafeOwner q.owner
  pub mapped_owner : through_relation q.owner ≡ true
  pub safe_dimensions : AreSafeDimensions q.dimensions
  pub safe_metrics : AreSafeMetrics q.metrics
  pub safe_comparisons : AreSafeComparisons q.dimensions q.comparisons
