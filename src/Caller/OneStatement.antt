-- ===== src/Caller/OneStatement.antt =====
-- Whatever a caller's definition says, its text is one statement.
use trolley.Base.{
  ℕ, ◌+◌, String, Bool, true, false, ◌≡◌, refl, sym, subst, inl, inr, some, List, [], ◌∷◌, ◌++◌, In,
  codes, codes-append, join, str_append, map, ok, Json, Dict, Bool-cases, contains, keys, ◌||◌,
  arith,
}
use trolley.Executions.{is_text_of}
use trolley.Sql.{pagination_query, strip}
use trolley.Sql.Calm.{pagination_query-IsCalm}
use trolley.Caller.{
  placeholder, qualified, as_text, grouping, values_of, caller, text_of, at, compile_usage,
  compile_definition,
}
use trolley.Caller.Query.{owner_text, IsSimple}
use trolley.Caller.Aggregate.{
  Dimension, dimension_text, Metric, count, sum, Comparison, expression, metric_text, compared_text,
  comparison_texts, named_expression, dimension_output, metric_output, AggregateQuery,
  render_aggregate, IsSafeDimension, IsSafeMetric, AreSafeDimensions, AreSafeMetrics,
  AreSafeComparisons, IsSafeAggregate,
}
use trolley.Caller.Comparisons.{compile_usage-IsCompiledUsage}
use trolley.Caller.Lexical.{
  Calms, Opens, Opens-append, Opens-nil, Calms-plain, Calms-append, Calms-plain_alone, Calms-nil,
  placeholder-is_plain,
}
use trolley.Caller.Statement.{
  Calms-name, Calms-last, Calms-qualified, IsOperator-is_plain, AllCalm, join-Calms, Calms-IsCalm,
  owner_text-Calms, at-with_sql, compile_selection_single,
}

dimension_text-Calms :
    (by_date : Bool) (column : String) → IsSimple column → Calms (dimension_text by_date column)
dimension_text-Calms true column h =
    Calms-plain "s." _ refl (Calms-name column "::date" "" h refl refl Calms-nil)
dimension_text-Calms false column h = Calms-plain "s." _ refl (Calms-last column h)

expression-Calms : (d : Dimension) → IsSafeDimension d → Calms (expression d)
expression-Calms d h = dimension_text-Calms d.by_date d.column h.0

metric_text-Calms : (m : Metric) → IsSafeMetric m → Calms (metric_text m)
metric_text-Calms (count alias) h = Calms-plain_alone "COUNT(*)" refl
metric_text-Calms (sum column alias) h =
    Calms-plain "COALESCE(SUM(s." _ refl (Calms-name column "), 0)" "" h.0 refl refl Calms-nil)

as_text-Calms : (text alias : String) → Calms text → IsSimple alias → Calms (as_text text alias)
as_text-Calms text alias h k =
    Calms-append text _ h (Calms-plain " AS " _ refl (Calms-last alias k))
      (Opens-append " AS " _ refl)

metric_output-Calms : (m : Metric) → IsSafeMetric m → Calms (metric_output m)
metric_output-Calms (count alias) h =
    as_text-Calms "COUNT(*)" alias (metric_text-Calms (count alias) h) h
metric_output-Calms (sum column alias) h =
    as_text-Calms (metric_text (sum column alias)) alias (metric_text-Calms (sum column alias) h)
      h.1

metrics-AllCalm : (ms : List Metric) → AreSafeMetrics ms → AllCalm (map metric_output ms)
metrics-AllCalm [] h = tt
metrics-AllCalm (m ∷ ms) h = (metric_output-Calms m h.0, metrics-AllCalm ms h.1)

outputs-AllCalm :
    (ds : List Dimension) (ms : List Metric)
    → AreSafeDimensions ds
    → AreSafeMetrics ms
    → AllCalm (map dimension_output ds ++ map metric_output ms)
outputs-AllCalm [] ms h k = metrics-AllCalm ms k
outputs-AllCalm (d ∷ ds) ms h k = (
  as_text-Calms (expression d) d.alias (expression-Calms d h.0) h.0.1,
  outputs-AllCalm ds ms h.1 k,
)

In-safe : (ds : List Dimension) (d : Dimension) → AreSafeDimensions ds → In d ds → IsSafeDimension d
In-safe [] d h m = absurd m
In-safe (e ∷ ds) d h (inl same) = subst IsSafeDimension (sym same) h.0
In-safe (e ∷ ds) d h (inr m) = In-safe ds d h.1 m

compared_text-Calms : (as_date : Bool) (n : ℕ) → Calms (compared_text as_date n)
compared_text-Calms true n =
    Calms-plain (placeholder n) _ (placeholder-is_plain n)
      (Calms-plain "::text::date" "" refl Calms-nil)
compared_text-Calms false n = Calms-plain_alone (placeholder n) (placeholder-is_plain n)

comparison_texts-AllCalm :
    (n : ℕ) (ds : List Dimension) (xs : List Comparison)
    → AreSafeDimensions ds
    → AreSafeComparisons ds xs
    → AllCalm (comparison_texts n xs)
comparison_texts-AllCalm n ds [] h k = tt
comparison_texts-AllCalm n ds (x ∷ xs) h k =
    let value = compared_text x.as_date (n + 1) in
    (
      Calms-append (expression x.dimension) _
          (expression-Calms x.dimension (In-safe ds x.dimension h k.0))
          (Calms-plain " " _ refl (
            Calms-plain x.operator _ (IsOperator-is_plain x.operator k.1) (
              Calms-plain " " _ refl (
                Calms-append value "" (compared_text-Calms x.as_date (n + 1)) Calms-nil
                  Opens-nil))))
          (Opens-append " " _ refl),
      comparison_texts-AllCalm (n + 1) ds xs h k.2,
    )

expressions-AllCalm :
    (ds : List Dimension) → AreSafeDimensions ds → AllCalm (values_of (map named_expression ds))
expressions-AllCalm [] h = tt
expressions-AllCalm (d ∷ ds) h = (expression-Calms d h.0, expressions-AllCalm ds h.1)

grouping-Calms : (es : List String) → AllCalm es → Calms (grouping es)
grouping-Calms [] h = Calms-nil
grouping-Calms (e ∷ es) h = Calms-plain " GROUP BY " _ refl (
    Calms-append (join ", " (e ∷ es)) "" (join-Calms ", " (e ∷ es) refl refl h) Calms-nil Opens-nil)

grouping-Opens : (es : List String) → Opens (str_append (grouping es) "")
grouping-Opens [] rest o = o
grouping-Opens (e ∷ es) rest o = Opens-append (grouping (e ∷ es)) "" (rw codes-append refl) rest o

render_aggregate-Calms : (q : AggregateQuery) → IsSafeAggregate q → Calms (render_aggregate q)
render_aggregate-Calms q h =
    let es = values_of (map named_expression q.dimensions) in
    let outputs = map dimension_output q.dimensions ++ map metric_output q.metrics in
    let conditions = owner_text q.owner ∷ comparison_texts 1 q.comparisons in
    let all_conditions : AllCalm conditions = (
      owner_text-Calms q.owner h.safe_owner,
      comparison_texts-AllCalm 1 q.dimensions q.comparisons h.safe_dimensions h.safe_comparisons,
    ) in
    let groups : Calms (str_append (grouping es) "") =
      Calms-append (grouping es) ""
        (grouping-Calms es (expressions-AllCalm q.dimensions h.safe_dimensions)) Calms-nil
        Opens-nil in
    Calms-plain "SELECT " _ refl (
      Calms-append (join ", " outputs) _
        (join-Calms ", " outputs refl refl
          (outputs-AllCalm q.dimensions q.metrics h.safe_dimensions h.safe_metrics))
        (Calms-plain " FROM " _ refl (
          Calms-append (qualified q.schema q.relation) _
            (Calms-qualified q.schema q.relation h.safe_schema h.safe_relation)
            (Calms-plain " AS s WHERE " _ refl (
              Calms-append (join " AND " conditions) _
                (join-Calms " AND " conditions refl refl all_conditions) groups
                (grouping-Opens es)))
            (Opens-append " AS s WHERE " _ refl)))
        (Opens-append " FROM " _ refl))

-- The statement of a compiled definition, which the lexer takes for a single one.
abbrev pub IsOneStatement : (ℕ → Bool) → Dict Json → Type 0
IsOneStatement is_alnum compiled =
    (sql : String) × (text_of (at "sql" compiled) ≡ some sql)
    × (pagination_query is_alnum (codes sql) ≡ some (ok (strip (codes sql))))

compile_usage_single :
    (is_alnum : ℕ → Bool) (definition schema compiled : Dict Json)
    → compile_usage definition schema ≡ ok compiled
    → IsOneStatement is_alnum compiled
compile_usage_single is_alnum definition schema compiled h =
    let q = compile_usage-IsCompiledUsage definition schema compiled h in
    (
      render_aggregate q.query,
      subst (λ c. text_of (at "sql" c) ≡ some (render_aggregate q.query)) (sym q.result)
          (at-with_sql definition (render_aggregate q.query) (caller ∷ q.inputs)),
      pagination_query-IsCalm is_alnum (codes (render_aggregate q.query))
          (Calms-IsCalm (render_aggregate q.query) (render_aggregate-Calms q.query q.safe)),
    )

-- Whatever a definition of the caller's data says, the statement that it compiles to is a single one:
-- the lexer of the pages accepts it, finds no terminator and cuts nothing out of it.
pub compile_definition_single :
    (is_alnum : ℕ → Bool) (definition schema compiled : Dict Json)
    → is_text_of "data_scope" "shared" definition ≡ false
    → compile_definition definition schema ≡ ok compiled
    → IsOneStatement is_alnum compiled
unfolding compile_definition
compile_definition_single is_alnum definition schema compiled personal h =
    elim (Bool-cases (is_text_of "data_scope" "caller" definition)) [
      | inr neither ↦ absurd (ground (arith, personal, neither, h))
      | inl owned ↦
          elim (Bool-cases
            (contains (keys definition) "metrics" || contains (keys definition) "dimensions")) [
              | inl usage ↦
                  compile_usage_single is_alnum definition schema compiled
                    (ground (arith, personal, owned, usage, h))
              | inr rows ↦
                  compile_selection_single is_alnum definition schema compiled
                    (ground (arith, personal, owned, rows, h))
            ]
    ]
