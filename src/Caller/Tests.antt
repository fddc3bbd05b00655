-- ===== src/Caller/Tests.antt =====
-- The statements that are built for two definitions.
use trolley.Base.{ℕ, Bool, false, [], ◌∷◌, ok, Json, Dict, ◌≡◌, refl, decimal}
use trolley.Base.Chain.{◌>>=◌}
use trolley.Caller.{
  caller, simple_name, source_relation, mapped_predicate, direct_predicate, selected_columns,
  filter_placeholder, add_filter, add_filters, compile_selection, transformed, add_dimension,
  add_dimensions, aggregate, add_metric, add_metrics, usage_outputs, add_usage_filter,
  add_usage_filters, compile_usage, check_inputs, with_sql, compile_definition,
}
use trolley.Caller.Sample.{orders, orders_schema, calls}
use trolley.Caller.Comparisons.{IsCompiledUsage, compile_usage-IsCompiledUsage}
use trolley.Caller.OneStatement.{IsOneStatement, compile_definition_single}

abbrev no_alnum : ℕ → Bool
no_alnum _ = false

abbrev compiled_orders : Dict Json
compiled_orders =
    with_sql orders
      "SELECT \"id\", \"total\" FROM \"public\".\"orders\" WHERE \"owner\" = $1 AND \"day\" >= $2::text::date"
      (caller ∷ "since" ∷ [])

compiles_orders : compile_selection orders orders_schema ≡ ok compiled_orders
unfolding compile_selection selected_columns direct_predicate add_filters add_filter
    filter_placeholder simple_name source_relation check_inputs decimal ◌>>=◌
compiles_orders = refl

compiles_caller_orders : compile_definition orders orders_schema ≡ ok compiled_orders
unfolding compile_definition
compiles_caller_orders = compiles_orders

abbrev compiled_calls : Dict Json
compiled_calls =
    with_sql calls
      "SELECT s.\"created\"::date AS \"day\", COUNT(*) AS \"calls\", COALESCE(SUM(s.\"cost\"), 0) AS \"cost\" FROM \"public\".\"calls\" AS s WHERE EXISTS (SELECT 1 FROM \"auth\".\"api_keys\" AS o WHERE o.\"id\" = s.\"key_id\" AND jsonb_typeof(o.\"metadata\" -> 'email') = 'string' AND lower(btrim(o.\"metadata\" ->> 'email')) = $1) AND s.\"created\"::date >= $2::text::date GROUP BY s.\"created\"::date"
      (caller ∷ "since" ∷ [])

compiles_calls : compile_usage calls orders_schema ≡ ok compiled_calls
unfolding compile_usage usage_outputs add_dimensions add_dimension transformed add_metrics
    add_metric aggregate mapped_predicate add_usage_filters add_usage_filter simple_name
    source_relation check_inputs decimal ◌>>=◌
compiles_calls = refl

compile_usage-IsCompiledUsage_example : IsCompiledUsage calls compiled_calls
compile_usage-IsCompiledUsage_example =
    compile_usage-IsCompiledUsage calls orders_schema compiled_calls compiles_calls

compile_definition_single_example : IsOneStatement no_alnum compiled_orders
compile_definition_single_example =
    compile_definition_single no_alnum orders orders_schema compiled_orders refl
      compiles_caller_orders
