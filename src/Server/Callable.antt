-- ===== src/Server/Callable.antt =====
-- The tool that publishes, with the server's own validation of definitions.
use trolley.Base.{String, Bool, Result, Dict, Json}
use trolley.Operations.{Rules}
use trolley.Definitions.{validate_definition}

-- The checks of the server.
abbrev pub server_rules : (Dict Json → Result (Unit {0})) → (String → Bool) → Rules
server_rules check_schema is_identifier = record {
  check_schema = check_schema;
  is_identifier = is_identifier;
  validate_definition = λ _ definition schema. validate_definition is_identifier definition schema;
}
