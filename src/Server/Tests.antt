-- ===== src/Server/Tests.antt =====
-- Calls of the tools on the sample catalog.
use trolley.Base.{
  String, Bool, false, none, some, List, [], ◌∷◌, ◌≡◌, refl, ap, ◌∙◌, inl, inr, ok, Error, Result,
  Dict, Json, str, is_space, strip, str_eq,
}
use trolley.Catalog.{Catalog, Operation, UserRole, Scope}
use trolley.Catalog.Sample.{sample, sales, report}
use trolley.Access.{AuthContext, accessible_target_names, require_target}
use trolley.Auth.{AccessToken}
use trolley.Tools.{
  SystemToolName, tool_policy, validate_tool, current_tool_context, require_text, is_text,
  system_tool,
}
use trolley.Operations.{
  Rules, create_operation, check_new, validate_input_schema, validate_operation_name, new_operation,
}
use trolley.Caller.Sample.{orders, orders_schema}
use trolley.Definitions.Tests.{any_identifier, accepts_orders}
use trolley.Registry.{reload, register, tool_signature}
use trolley.Registry.Sample.{server, started, started-IsSynced}
use trolley.Access.{can_access_operation}
use trolley.Access.Reach.{Reaches}
use trolley.Access.Roles.{MayExplore}
use trolley.Catalog.{Target}
use trolley.Operations.Disable.{off}
use trolley.Registry.Synced.{IsSynced, has_tool}
use trolley.Registry.{is_reserved}
use trolley.Server.{
  World, returned, guarded, answer, create_tool, disable_tool, require_operation_target, ◌>>=◌,
}
use trolley.Server.Authorised.{IsServed, guarded-runs, create_guarded-IsOpened}
use trolley.Server.Publish.{IsOpened}
use trolley.Server.Retire.{disable_tool_retires}
use trolley.Server.Capabilities.{Capabilities}
use trolley.Server.Callable.{server_rules}

abbrev world : World server
world = record { catalog = sample; registry = started }

abbrev ann_token : AccessToken
ann_token = record {
  client_id = 10;
  subject = some 1;
  scopes = Scope.use_tools ∷ Scope.query ∷ Scope.admin ∷ [];
  claims = some UserRole.admin;
}

abbrev ann_context : AuthContext
ann_context = record { user_id = 1; api_key_id = 10; role = UserRole.admin }

abbrev any_schema : Dict Json → Result (Unit {0})
any_schema _ = ok tt

abbrev no_text : Error → String
no_text _ = ""

abbrev rules : Rules
rules = server_rules any_schema any_identifier

abbrev daily : Operation
daily = new_operation rules 100 sales "daily" "" orders_schema orders

abbrev with_daily : Catalog
with_daily = record sample { operations = report ∷ daily ∷ []; next_id = 101 }

opens_sales : require_target ann_context "sales" sample ≡ (ok sales, sample)
unfolding require_target accessible_target_names
opens_sales = refl

creates_daily :
    create_operation rules "daily" "sales" orders "" (some orders_schema) sample
    ≡ (ok daily, with_daily)
unfolding create_operation check_new validate_input_schema validate_operation_name is_space strip
    system_tool
creates_daily = rw accepts_orders refl

reloads_daily : (reload server "daily" with_daily started).0 ≡ ok tt
unfolding reload register tool_signature system_tool trolley.Base.Chain.◌>>=◌
reloads_daily = refl

abbrev after : World server
after = record { catalog = with_daily; registry = (reload server "daily" with_daily started).1 }

publishes_daily :
    create_tool server rules "daily" "sales" orders "" (some orders_schema) ann_context world
    ≡ (ok daily, after)
unfolding create_tool ◌>>=◌
publishes_daily = rw (opens_sales, creates_daily, reloads_daily) refl

abbrev call : Dict Json
call = ("name", str "daily") ∷ ("target_name", str "sales") ∷ []

lets_in_ann : validate_tool SystemToolName.create_operation call (some ann_token) ≡ ok ann_context
unfolding validate_tool current_tool_context tool_policy require_text is_text is_space strip
lets_in_ann = refl

serves_ann :
    guarded server no_text SystemToolName.create_operation call
      (some ann_token)
      (create_tool server rules "daily" "sales" orders "" (some orders_schema))
      world
    ≡ (returned daily, after)
serves_ann =
    guarded-runs server no_text SystemToolName.create_operation call (some ann_token)
      (create_tool server rules "daily" "sales" orders "" (some orders_schema)) world ann_context
      lets_in_ann
    ∙ ap (λ p. (answer server no_text p.0, p.1)) publishes_daily

create_guarded-IsOpened_example :
    (context : AuthContext) × IsServed SystemToolName.create_operation (some ann_token) context
    × MayExplore sample context
    × ((t : Target) × ("sales" ≡ t.name) × Reaches sample context.user_id t)
    × IsOpened server rules world after "daily" "sales" orders daily
create_guarded-IsOpened_example =
    create_guarded-IsOpened server no_text rules call (some ann_token) "daily" "sales" orders ""
      (some orders_schema) world after daily refl started-IsSynced serves_ann

abbrev given : Dict Json
given = ("since", str "2026-01-01") ∷ []

reports_free : is_reserved "report" ≡ false
unfolding system_tool
reports_free = refl

opens_report : require_operation_target "report" ann_context sample ≡ (ok sales, sample)
unfolding require_operation_target
opens_report = rw opens_sales refl

disable_tool_retires_example :
    let (r, w) = disable_tool server "report" ann_context world in
    (r ≡ ok (off report))
    × IsSynced server w.registry
    × (has_tool server "report" w.registry ≡ false)
    × ((n : String)
        → str_eq "report" n ≡ false
        → has_tool server n w.registry ≡ has_tool server n started)
    × ((caller : AuthContext) (operation : Operation)
        → operation.name ≡ "report"
        → can_access_operation caller operation w.catalog ≡ false)
disable_tool_retires_example =
    disable_tool_retires server "report" ann_context world report sales refl opens_report
      (λ x m e. elim m [
        | inl same ↦ ap (λ (y : Operation). y.id) same
        | inr nothing ↦ absurd nothing
      ])
      started-IsSynced reports_free

abbrev registered : List String
registered = "execute" ∷ "report" ∷ []
