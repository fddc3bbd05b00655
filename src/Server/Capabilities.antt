-- ===== src/Server/Capabilities.antt =====
-- `get_my_capabilities`: what a caller is told of the server.
use trolley.Base.{String, Option, List, [], ◌∷◌, filter, contains, ok, Result, ◌>>=◌, if◌then◌else◌}
use trolley.Catalog.{Catalog, UserRole}
use trolley.Access.{AuthContext}
use trolley.Auth.{AccessToken}
use trolley.Groups.{sorted_set}
use trolley.Tools.{list_tools}
use trolley.Registry.{is_reserved}

-- The texts of the next steps, by the tool that they are about.
abbrev pub guidance : List (String × String)
guidance =
    ("list_targets", "Discover configured databases with list_targets.")
    ∷ ("get_target_schema", "Inspect a selected database with get_target_schema.")
    ∷ ("query_target", "Explore an accessible Target with read-only SQL using query_target.")
    ∷ (
      "create_operation",
      "Review SQL, inputs, and access policy, then create an Operation with create_operation.",
    )
    ∷ ("list_operations", "Discover accessible database Operations with list_operations.")
    ∷ ("execute", "Run a suitable Operation with execute and its declared inputs.")
    ∷ []

abbrev pub role_guidance : UserRole → String
role_guidance UserRole.admin =
    "You have administrator access. Use the available system tools below to inspect group-accessible databases and create Operations. Identity and access management use CLI only."
role_guidance UserRole.developer =
    "You can inspect and query granted Targets, and run accessible Operations. Only administrators can publish Operations."
role_guidance UserRole.user = "You can discover and run Operations available to your account."

abbrev pub steps_for : List String → List (String × String) → List String
steps_for names [] = []
steps_for names ((name, text) ∷ more) =
    if contains names name then text ∷ steps_for names more else steps_for names more

-- The answer, less its constant note.
pub record Capabilities : Type 0 where
  pub role : UserRole
  pub system_tools : List String
  pub text : String
  pub next_steps : List String

abbrev pub capabilities : AuthContext → List String → Capabilities
capabilities context names = record {
  role = context.role;
  system_tools = sorted_set names;
  text = role_guidance context.role;
  next_steps = steps_for (sorted_set names) guidance;
}

-- The caller's token and context are those of the request; `tools` are the names that are registered,
-- which are distinct.
unfoldable pub get_my_capabilities :
    List String → Option AccessToken → AuthContext → Catalog → Result Capabilities
get_my_capabilities tools auth context c = do
  visible ← list_tools tools auth c
  ok (capabilities context (filter is_reserved visible))
