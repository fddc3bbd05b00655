-- ===== src/Caller.antt =====
-- validation/caller.py, validation/caller_usage.py and validation/ownership.py: the SQL of an
-- operation whose rows belong to its caller, built from a structured definition.
pub mod Parts
pub mod Selection
pub mod Usage
pub mod Query
pub mod Dicts
pub mod Names
pub mod Conditions
pub mod Refinement
pub mod Lexical
pub mod Statement
pub mod Aggregate
pub mod Grouping
pub mod Comparisons
pub mod OneStatement
pub mod Sample
mod Tests
use trolley.Base.{
  String, ◌||◌, List, [], ◌∷◌, contains, value_error, Result, ok, Json, Dict, get, keys, raise_if,
  if◌then◌else◌, any,
}
use trolley.Base.Chain.{◌>>=◌, ◌>>◌}
use trolley.Executions.{is_text_of}
unfoldable pub use Parts.*
unfoldable pub use Selection.*
unfoldable pub use Usage.*

-- The fields that a definition of shared data must not have.
abbrev pub caller_fields : List String
caller_fields = "ownership" ∷ "source" ∷ "filters" ∷ "columns" ∷ "dimensions" ∷ "metrics" ∷ []

unfoldable pub compile_shared : Dict Json → Result (Dict Json)
compile_shared definition = do
  raise_if (any (contains caller_fields) (keys definition))
      (value_error "Ownership/source/filters/columns require caller data_scope")
  raise_if (contains (keys definition) "bindings")
      (value_error "Personal data requires caller data_scope, not SQL bindings")
  ok definition

unfoldable pub compile_definition : Dict Json → Dict Json → Result (Dict Json)
compile_definition definition schema =
    if is_text_of "data_scope" "shared" definition
    then compile_shared definition
    else if is_text_of "data_scope" "caller" definition
    then if contains (keys definition) "metrics" || contains (keys definition) "dimensions"
      then compile_usage definition schema
      else compile_selection definition schema
    else Result.err (value_error "data_scope must explicitly be 'caller' or 'shared'")
