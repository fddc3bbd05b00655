-- ===== src/Views.antt =====
-- application/presenters.py and `list_operations` of application/operations.py: what the tools and the
-- command line show of a row.
pub mod Listed
mod Tests
use trolley.Base.{
  ℕ, String, Bool, true, false, ◌&&◌, Option, none, some, List, [], ◌∷◌, ◌++◌, map, filter,
  contains, Json, bool, str, obj, field, end, to_fields, Dict,
}
use trolley.Catalog.{Catalog, User, ApiKey, Target, TargetKind, Operation, UserRole, role_eq}
use trolley.Access.{AuthContext, accessible_operation_names}
use trolley.Pagination.{UuidText}
use trolley.Executions.{is_given, target_by_id}
use trolley.Caller.{at}
use trolley.Definitions.{or_else}
use trolley.Registry.{is_offered, by_name}

abbrev pub role_text : UserRole → String
role_text UserRole.admin = "admin"
role_text UserRole.developer = "developer"
role_text UserRole.user = "user"

abbrev pub kind_text : TargetKind → String
kind_text TargetKind.postgresql = "postgresql"

module _ (uuid : UuidText) where
  open uuid use {print}

  abbrev pub present_user : User → Dict Json
  present_user u =
      ("id", str (print u.id))
      ∷ ("email", str u.email)
      ∷ ("name", str u.name)
      ∷ ("role", str (role_text u.role))
      ∷ ("is_active", bool u.is_active)
      ∷ []

  abbrev pub present_api_key : ApiKey → Dict Json
  present_api_key k =
      ("id", str (print k.id))
      ∷ ("name", str k.name)
      ∷ ("key_prefix", str k.key_prefix)
      ∷ ("is_active", bool k.is_active)
      ∷ []

  abbrev pub present_target : Target → Dict Json
  present_target t =
      ("id", str (print t.id))
      ∷ ("name", str t.name)
      ∷ ("kind", str (kind_text t.kind))
      ∷ ("is_active", bool t.is_active)
      ∷ []

  -- What everybody is shown of an operation.
  abbrev pub public_fields : Operation → Dict Json
  public_fields o =
      ("id", str (print o.id))
      ∷ ("name", str o.name)
      ∷ ("description", str o.description)
      ∷ ("authorization", str "group_target")
      ∷ ("input_schema", obj (to_fields o.input_schema))
      ∷ ("output", or_else (str "inline") "output" o.definition)
      ∷ ("data_scope", at "data_scope" o.definition)
      ∷ (
        "pagination",
        obj (
            field "enabled" (bool (is_given "pagination" o.definition))
              (field "continuation_tool" (str "execute") end)),
      )
      ∷ ("is_active", bool o.is_active)
      ∷ []

  -- `include_definition` and the row of the target.
  abbrev pub present_operation : Bool → Operation → String → Dict Json
  present_operation false o target = public_fields o
  present_operation true o target =
      public_fields o ++ ("target", str target) ∷ ("definition", obj (to_fields o.definition)) ∷ []

  abbrev pub target_name_of : Catalog → Operation → String
  target_name_of c o = elim (target_by_id o.target c) [ none ↦ "" | some t ↦ t.name ]

  abbrev pub view_for : AuthContext → Catalog → Operation → Dict Json
  view_for context c o =
      present_operation (role_eq context.role UserRole.admin) o (target_name_of c o)

  unfoldable pub list_operations : AuthContext → Catalog → List (Dict Json)
  list_operations context c = map (view_for context c) (
      by_name (
        filter (λ o. is_offered c o && contains (accessible_operation_names context c) o.name)
          c.operations))
