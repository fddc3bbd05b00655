-- ===== src/Database/Tests.antt =====
-- A call of the sample operation of Caller.
use trolley.Base.{[], ◌∷◌, str, Dict, Json, refl}
use trolley.Base.Chain.{◌>>=◌}
use trolley.Caller.Sample.{orders, orders_schema}
use trolley.Definitions.Tests.{any_identifier, accepts_orders}
use trolley.Database.Arguments.{IsBound, validate_definition-IsBound}

abbrev given : Dict Json
given = ("since", str "2026-01-01") ∷ []

validate_definition-IsBound_example :
    IsBound any_identifier orders orders_schema "ann@example.com" given
unfolding ◌>>=◌
validate_definition-IsBound_example =
    validate_definition-IsBound any_identifier orders orders_schema "ann@example.com" given
      ("since" ∷ []) accepts_orders refl refl
