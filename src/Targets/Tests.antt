-- ===== src/Targets/Tests.antt =====
-- Loading a configuration with one target, and synchronising the sample catalog with it.
use trolley.Base.{
  ℕ, ◌≡◌, refl, String, Bool, true, false, none, some, Option, [], ◌∷◌, In, contains, ltb, ok, str,
  obj, field, end, pos, negsuc, ℤ, Dict, Fields, keys,
}
use trolley.Catalog.{Target, TargetKind}
use trolley.Catalog.Sample.{sample}
use trolley.Limits.{Floats}
use trolley.Targets.{TargetDefinition, sync_definitions}
use trolley.Targets.Rounds.{sync_definitions_retires}

abbrev float_of_int : ℤ → Option ℕ
float_of_int (pos n) = some n
float_of_int (negsuc n) = none

abbrev floats : Floats
floats = record {
  Float = ℕ;
  of_int = float_of_int;
  of_number = λ _. none;
  of_text = λ _. none;
  is_finite = λ _. true;
  is_positive = λ n. ltb 0 n;
}

abbrev is_zero : String → Bool
is_zero _ = false

abbrev configured : Fields
configured =
    field "crm" (obj (field "kind" (str "postgresql") (field "url" (str "postgresql://db") end)))
      end

abbrev crm : TargetDefinition floats is_zero
crm = record {
  name = "crm";
  kind = TargetKind.postgresql;
  configuration = ("url", str "postgresql://db") ∷ [];
  limits = record {
    timeout = 30;
    query_timeout = 30;
    max_rows = 1000;
    max_result_bytes = 1_000_000;
  };
}

abbrev definitions : Dict TargetKind
definitions = ("crm", TargetKind.postgresql) ∷ []

sync_definitions_retires_example :
    ((sync_definitions definitions sample).0 ≡ ok tt)
    × ((t : Target)
        → In t (sync_definitions definitions sample).1.targets
        → contains (keys definitions) t.name ≡ false
        → t.is_active ≡ false)
sync_definitions_retires_example = sync_definitions_retires definitions sample (refl, tt)
