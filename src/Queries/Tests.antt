-- ===== src/Queries/Tests.antt =====
-- Queries of the sample target.
use trolley.Base.{
  ℕ, ◌≡◌, refl, String, true, false, List, [], ◌∷◌, Result, ok, err, external_error,
  permission_error, Json,
}
use trolley.Catalog.{UserRole}
use trolley.Catalog.Sample.{sample}
use trolley.Access.{
  AuthContext, active_user, is_granted, member_target_names, accessible_target_names,
  require_target,
}
use trolley.Executions.{Answer}
use trolley.Queries.{run_query, query_target}
use trolley.Queries.Audit.{run_query_hides}

abbrev print : ℕ → String
print _ = "id"

abbrev admin : AuthContext
admin = record { user_id = 1; api_key_id = 10; role = UserRole.admin }

abbrev viewer : AuthContext
viewer = record { user_id = 2; api_key_id = 11; role = UserRole.user }

abbrev refused : Result Answer
refused = err (external_error "password=secret")

abbrev answer_all : Unit {0} → String → List Json → Result Answer
answer_all _ _ _ = ok (Answer.rows [] false)

viewer_may_not_query :
    query_target print answer_all
      (ok (("sales", tt) ∷ []))
      viewer
      "sales"
      "select 1"
      []
      true
      5
      sample
    ≡ (err (permission_error "Target unavailable or access denied"), sample)
unfolding query_target require_target accessible_target_names member_target_names active_user
    is_granted
viewer_may_not_query = refl

run_query_hides_example :
    run_query print true 5 (err (external_error "password=secret")) 20 admin "select 1" sample
    ≡ run_query print true 5 (err (external_error "timeout")) 20 admin "select 1" sample
run_query_hides_example =
    run_query_hides print true 5 20 (external_error "password=secret") (external_error "timeout")
      admin "select 1" sample refl refl
