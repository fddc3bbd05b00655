-- ===== src/Executions/Sample.antt =====
-- Services that the tests share: a connector that answers one row.
use trolley.Base.{ℕ, String, Bool, true, false, none, [], ◌∷◌, ok, int, pos}
use trolley.Catalog.{UserRole, TargetKind}
use trolley.Access.{AuthContext}
use trolley.Limits.{Floats}
use trolley.Targets.{TargetDefinition}
use trolley.Pagination.{Digest}
use trolley.Executions.{Compiled, Answer, Services}

abbrev pub floats : Floats
floats = record {
  Float = ℕ;
  of_int = λ _. none;
  of_number = λ _. none;
  of_text = λ _. none;
  is_finite = λ _. true;
  is_positive = λ _. true;
}

abbrev pub is_zero : String → Bool
is_zero _ = false

abbrev pub digest : Digest
digest _ _ _ _ = "fingerprint"

abbrev pub definition : TargetDefinition floats is_zero
definition = record {
  name = "sales";
  kind = TargetKind.postgresql;
  configuration = [];
  limits = record { timeout = 30; query_timeout = 30; max_rows = 1000; max_result_bytes = 1000 };
}

abbrev pub services : Services (TargetDefinition floats is_zero)
services = record {
  validate_definition = λ _ _ _. ok tt;
  compile_definition = λ d _. ok (record { definition = d; bindings = [] });
  validate_arguments = λ _ _. ok tt;
  execute = λ _ _ _ _ _. ok (Answer.rows (int (pos 1) ∷ []) false);
  start_export = none;
  error_text = λ _. "error";
}

abbrev pub compiled : Compiled
compiled = record { definition = []; bindings = [] }

abbrev pub admin : AuthContext
admin = record { user_id = 1; api_key_id = 10; role = UserRole.admin }

abbrev pub stranger : AuthContext
stranger = record { user_id = 9; api_key_id = 11; role = UserRole.admin }
