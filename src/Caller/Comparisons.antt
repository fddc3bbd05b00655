-- ===== src/Caller/Comparisons.antt =====
-- What the loop over the filters of aggregates adds, and the query that such a definition is.
use trolley.Base.{
  ◌+◌, subst, sym, ap, ◌∙◌, String, true, false, ◌≡◌, refl, inl, inr, some, List, [], ◌∷◌, ◌++◌,
  any, length, map, Json, Dict, get, contains, str_eq, ok, arith, ok-injective, or_raise-eq-ok,
  raise_if-eq-ok, not_or-false, Bool-cases, In, length-append, some-injective,
}
use mathlib.Core.List.{append_assoc, append-nil}
use mathlib.Core.Path.{ap₂}
use trolley.Base.Chain.{>>=-inv}
use trolley.Caller.{
  Filters, add_usage_filter, add_usage_filters, is_distinct, usage_condition, is_date_of, Outputs,
  compile_usage, with_sql, usage_text, usage_placeholder, caller, at,
}
use trolley.Caller.Names.{
  sql_operator-IsOperator, source_relation-IsSimple, mapped_predicate-IsOwner,
}
use trolley.Caller.Conditions.{is_distinct-append}
use trolley.Caller.Aggregate.{
  Dimension, Comparison, expression, named_expression, comparison_texts, AggregateQuery,
  render_aggregate, AreSafeComparisons, IsSafeAggregate,
}
use trolley.Caller.Grouping.{usage_outputs-safe}

get-named :
    (ds : List Dimension) (alias text : String)
    → get alias (map named_expression ds) ≡ some text
    → (d : Dimension) × In d ds × (text ≡ expression d)
get-named [] alias text h = cc
get-named (d ∷ ds) alias text h = elim (Bool-cases (str_eq d.alias alias)) [
  | inl here ↦ (d, inl refl, sym (some-injective (rw (here, get) at h)))
  | inr away ↦ let (e, m, same) = get-named ds alias text (rw (away, get) at h) in (e, inr m, same)
]

-- One filter adds one comparison and one parameter that was not there.
pub record IsCompared (ds : List Dimension) (before after : Filters) : Type 0 where
  pub comparison : Comparison
  pub parameter : String
  pub safe : AreSafeComparisons ds (comparison ∷ [])
  pub fresh : contains before.1 parameter ≡ false
  pub texts : after.0 ≡ before.0 ++ comparison_texts (length before.1) (comparison ∷ [])
  pub inputs : after.1 ≡ before.1 ++ parameter ∷ []

add_usage_filter-IsCompared :
    (values : List Json) (ds : List Dimension) (properties : Dict Json) (before : Filters)
    (v : Json) (after : Filters)
    → add_usage_filter values (map named_expression ds) properties before v ≡ ok after
    → IsCompared ds before after
unfolding add_usage_filter
add_usage_filter-IsCompared values ds properties (texts, inputs) v after h =
    let (item, _, h1) = >>=-inv _ _ h in
    let (_, _, h2) = >>=-inv _ _ h1 in
    let (name, _, h3) = >>=-inv _ _ h2 in
    let (operator_name, _, h4) = >>=-inv _ _ h3 in
    let (parameter, _, h5) = >>=-inv _ _ h4 in
    let (text, found, h6) = >>=-inv _ _ h5 in
    let (operator, listed, h7) = >>=-inv _ _ h6 in
    let (_, unused, h8) = >>=-inv _ _ h7 in
    let (d, member, same) = get-named ds name text (or_raise-eq-ok _ _ found) in
    let result = ok-injective h8 in
    record {
      comparison = record {
        dimension = d;
        operator = operator;
        as_date = any (is_date_of name) values;
      };
      parameter = parameter;
      safe =
          (member, sql_operator-IsOperator operator_name operator (or_raise-eq-ok _ _ listed), tt);
      fresh = (not_or-false _ _ (raise_if-eq-ok _ _ unused)).1;
      texts =
          sym (ap (λ (p : Filters). p.0) result)
          ∙ ap
              (λ t.
                texts
                ++ usage_condition t operator (usage_placeholder values name (length inputs + 1))
                  ∷ [])
              same;
      inputs = sym (ap (λ (p : Filters). p.1) result);
    }

-- The filters add their comparisons in order, each with a parameter of its own.
pub record AreCompared (ds : List Dimension) (before after : Filters) : Type 0 where
  pub comparisons : List Comparison
  pub parameters : List String
  pub safe : AreSafeComparisons ds comparisons
  pub as_many : length parameters ≡ length comparisons
  pub texts : after.0 ≡ before.0 ++ comparison_texts (length before.1) comparisons
  pub inputs : after.1 ≡ before.1 ++ parameters
  pub distinct : is_distinct before.1 ≡ true → is_distinct after.1 ≡ true

add_usage_filters-AreCompared :
    (values : List Json) (ds : List Dimension) (properties : Dict Json) (before : Filters)
    (vs : List Json) (after : Filters)
    → add_usage_filters values (map named_expression ds) properties before vs ≡ ok after
    → AreCompared ds before after
unfolding add_usage_filters
add_usage_filters-AreCompared values ds properties before [] after h =
    subst (AreCompared ds before) (ok-injective h) (record {
      comparisons = [];
      parameters = [];
      safe = tt;
      as_many = refl;
      texts = sym (append-nil before.0);
      inputs = sym (append-nil before.1);
      distinct = λ d. d;
    })
add_usage_filters-AreCompared values ds properties before (v ∷ vs) after h =
    let (next, e, h1) = >>=-inv _ _ h in
    let one = add_usage_filter-IsCompared values ds properties before v next e in
    let rest = add_usage_filters-AreCompared values ds properties next vs after h1 in
    let count : length next.1 ≡ length before.1 + 1 =
      ap length one.inputs ∙ length-append before.1 (one.parameter ∷ []) in
    record {
      comparisons = one.comparison ∷ rest.comparisons;
      parameters = one.parameter ∷ rest.parameters;
      safe = (one.safe.0, one.safe.1, rest.safe);
      as_many = omega (arith, rest.as_many);
      texts =
          rest.texts
          ∙ ap₂ (λ ts n. ts ++ comparison_texts n rest.comparisons) one.texts count
          ∙ append_assoc before.0 _ _;
      inputs =
          rest.inputs ∙ ap (λ ps. ps ++ rest.parameters) one.inputs ∙ append_assoc before.1 _ _;
      distinct = λ d.
          rest.distinct (rw one.inputs (is_distinct-append before.1 one.parameter d one.fresh));
    }

-- The compiled definition carries the text of a safe query, and its parameters: the caller's own in
-- front, then one for each comparison, none twice.
pub record IsCompiledUsage (definition compiled : Dict Json) : Type 0 where
  pub query : AggregateQuery
  pub inputs : List String
  pub safe : IsSafeAggregate query
  pub as_many : length inputs ≡ length query.comparisons
  pub distinct : is_distinct (caller ∷ inputs) ≡ true
  pub result : compiled ≡ with_sql definition (render_aggregate query) (caller ∷ inputs)

-- Where compile_usage returns, its SQL is the text of an aggregate query all of whose names are
-- simple identifiers, whose owner is found through a relation, whose comparisons are with its own
-- dimensions, and whose inputs are distinct and one for each comparison; the rest of the definition
-- is as it was.
pub compile_usage-IsCompiledUsage :
    (definition schema compiled : Dict Json)
    → compile_usage definition schema ≡ ok compiled
    → IsCompiledUsage definition compiled
unfolding compile_usage
compile_usage-IsCompiledUsage definition schema compiled h =
    let (_, _, h1) = >>=-inv _ _ h in
    let (relation, from_source, h2) = >>=-inv _ _ h1 in
    let (predicate, owned, h3) = >>=-inv _ _ h2 in
    let (values, _, h4) = >>=-inv _ _ h3 in
    let (outputs, put_out, h5) = >>=-inv _ _ h4 in
    let (properties, _, h6) = >>=-inv _ _ h5 in
    let (_, _, h7) = >>=-inv _ _ h6 in
    let (filters, _, h8) = >>=-inv _ _ h7 in
    let (added, loop, h9) = >>=-inv _ _ h8 in
    let (_, _, h10) = >>=-inv _ _ h9 in
    let (owner, safe_owner, same, kind) =
      mapped_predicate-IsOwner (at "ownership" definition) predicate owned in
    let (schema_name, relation_name, a, b, named) =
      source_relation-IsSimple _ _ relation from_source in
    let (ds, ms, safe_ds, safe_ms, made) = usage_outputs-safe definition values outputs put_out in
    let all =
      add_usage_filters-AreCompared values ds properties (predicate ∷ [], caller ∷ []) filters added
        (subst
          (λ (o : Outputs).
            add_usage_filters values o.expressions properties (predicate ∷ [], caller ∷ []) filters
            ≡ ok added)
          made loop) in
    record {
      query = record {
        schema = schema_name;
        relation = relation_name;
        owner = owner;
        dimensions = ds;
        metrics = ms;
        comparisons = all.comparisons;
      };
      inputs = all.parameters;
      safe = record {
        safe_schema = a;
        safe_relation = b;
        safe_owner = safe_owner;
        mapped_owner = kind;
        safe_dimensions = safe_ds;
        safe_metrics = safe_ms;
        safe_comparisons = all.safe;
      };
      as_many = all.as_many;
      distinct = subst (λ ps. is_distinct ps ≡ true) all.inputs (all.distinct refl);
      result =
          sym (ok-injective h10)
          ∙ ap₂ (λ ts ps. with_sql definition (usage_text relation outputs ts) ps) all.texts
              all.inputs
          ∙ (λ i.
              with_sql definition
                (usage_text (named i) (made i) (same i ∷ comparison_texts 1 all.comparisons))
                (caller ∷ all.parameters));
    }
