-- ===== src/Operations/Tests.antt =====
-- Publishing an operation on the sample target, and disabling the one that is there.
use trolley.Base.{◌≡◌, refl, true, ok, is_space, strip}
use trolley.Catalog.{UserRole}
use trolley.Access.{AuthContext}
use trolley.Operations.{Rules, validate_operation_name}
use trolley.Tools.{system_tool}

abbrev rules : Rules
rules = record {
  check_schema = λ _. ok tt;
  is_identifier = λ _. true;
  validate_definition = λ _ _ _. ok tt;
}

abbrev viewer : AuthContext
viewer = record { user_id = 2; api_key_id = 11; role = UserRole.user }

accepts_a_plain_name : validate_operation_name " daily-report " ≡ ok "daily-report"
unfolding validate_operation_name system_tool is_space strip
accepts_a_plain_name = refl
