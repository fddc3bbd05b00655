-- ===== src/Registry/Tests.antt =====
-- The sample catalog on a table of tools.
use trolley.Base.{
  String, false, ◌≡◌, refl, ◌||◌, inl, [], ◌∷◌, str_eq, if◌then◌else◌, ok, err, Error, str, arr,
  obj, cons, nil, end, field, contains, ℕ,
}
use trolley.Catalog.{Catalog, Operation}
use trolley.Catalog.Sample.{sample, report}
use trolley.Registry.{Registry, is_reserved, is_offered, load, reload, forget}
use trolley.Registry.Synced.{IsSynced, has_tool}
use trolley.Registry.Offered.{is_offered_name, load_tools, reload_tools}
use trolley.Registry.Unions.{HasUnion, reload_union}
use trolley.Tools.{system_tool}
use trolley.Registry.Sample.{server, started, started-IsSynced}

load_tools_example :
    IsSynced server (load server sample started).1
    × ((k : ℕ) (n : String)
        → (load server sample started).0 ≡ ok k
        → has_tool server n (load server sample started).1
          ≡ (is_reserved n || is_offered_name sample n))
load_tools_example = load_tools server sample started started-IsSynced

reload_tools_example :
    IsSynced server (reload server "report" sample started).1
    × ((n : String)
        → (reload server "report" sample started).0 ≡ ok tt
        → has_tool server n (reload server "report" sample started).1 ≡ (
            if str_eq "report" n
            then is_reserved n || is_offered sample report
            else has_tool server n started))
reload_tools_example = reload_tools server "report" sample started report refl started-IsSynced

-- A report on a customer that may be null.
abbrev nullable : Operation
nullable = record report {
  input_schema =
      (
        "properties",
        obj (
            field "customer"
              (obj (field "type" (arr (cons (str "string") (cons (str "null") nil))) end)) end),
      )
      ∷ [];
}

abbrev with_nullable : Catalog
with_nullable = record sample { operations = nullable ∷ [] }

nullable-HasUnion : HasUnion nullable.input_schema
nullable-HasUnion = record {
  properties =
      ("customer", obj (field "type" (arr (cons (str "string") (cons (str "null") nil))) end)) ∷ [];
  required = [];
  name = "customer";
  property = field "type" (arr (cons (str "string") (cons (str "null") nil))) end;
  types = cons (str "string") (cons (str "null") nil);
  declares = refl;
  requires = refl;
  member = inl refl;
  union = refl;
}

reload_union_example :
    (e : Error) × (reload server "report" with_nullable started
      ≡ (err e, forget server "report" started))
    × (contains (Registry.names (reload server "report" with_nullable started).1) "report" ≡ false)
unfolding system_tool
reload_union_example =
    reload_union server "report" with_nullable started nullable refl refl refl refl
      nullable-HasUnion
