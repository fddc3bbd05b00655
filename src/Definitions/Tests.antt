-- ===== src/Definitions/Tests.antt =====
-- The definition of the sample of Caller is accepted.
use trolley.Base.{String, Bool, true, ok, ◌≡◌, refl, decimal, strip}
use trolley.Base.Chain.{◌>>=◌}
use trolley.Caller.{
  simple_name, source_relation, direct_predicate, selected_columns, filter_placeholder, add_filter,
  add_filters, compile_selection, check_inputs, with_sql, compile_definition,
}
use trolley.Caller.Sample.{orders, orders_schema}
use trolley.Definitions.{
  check_statement, check_pagination, listed_names, parameter_names, binding_names, check_parameters,
  validate_definition,
}

abbrev pub any_identifier : String → Bool
any_identifier _ = true

pub accepts_orders : validate_definition any_identifier orders orders_schema ≡ ok tt
unfolding compile_definition compile_selection selected_columns direct_predicate add_filters
    add_filter filter_placeholder simple_name source_relation check_inputs with_sql decimal ◌>>=◌
    check_statement check_pagination listed_names parameter_names binding_names check_parameters
    validate_definition strip
accepts_orders = refl
