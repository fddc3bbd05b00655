-- ===== src/Access/Tests.antt =====
-- The access rules on the sample catalog.
use trolley.Base.{◌≡◌, refl, ◌↔◌, ◌==◌, ◌&&◌, ◌||◌, true, [], In, contains}
use trolley.Catalog.{Target, Operation, UserRole}
use trolley.Catalog.Sample.{sample, report}
use trolley.Access.{
  AuthContext, active_user, is_granted, member_target_names, accessible_target_names, grant_target,
  accessible_operation_names, can_access_operation,
}
use trolley.Access.Reach.{Reaches}
use trolley.Access.Roles.{MayExplore, accessible_target_names_iff, can_access_operation_iff}
use trolley.Access.Grants.{has_grant, has_grant-grant_target}

abbrev admin : AuthContext
admin = record { user_id = 1; api_key_id = 10; role = UserRole.admin }

abbrev viewer : AuthContext
viewer = record { user_id = 2; api_key_id = 11; role = UserRole.user }

viewer_runs_but_does_not_explore :
    (can_access_operation viewer report sample ≡ true)
    × (accessible_target_names viewer sample ≡ [])
unfolding can_access_operation accessible_operation_names accessible_target_names
    member_target_names active_user is_granted
viewer_runs_but_does_not_explore = (refl, refl)

accessible_target_names_iff_example :
    (contains (accessible_target_names admin sample) "sales" ≡ true)
    ↔ (MayExplore sample admin × ((t : Target) × ("sales" ≡ t.name) × Reaches sample 1 t))
accessible_target_names_iff_example = accessible_target_names_iff admin sample "sales"

can_access_operation_iff_example : (can_access_operation viewer report sample ≡ true) ↔ (
    (o : Operation) × In o sample.operations
    × ("report" ≡ o.name)
    × (o.is_active ≡ true)
    × ((t : Target) × In t sample.targets
        × (t.id ≡ o.target)
        × (t.is_active ≡ true)
        × ((s : Target) × (t.name ≡ s.name) × Reaches sample 2 s)))
can_access_operation_iff_example = can_access_operation_iff viewer sample report

has_grant-grant_target_example :
    has_grant (grant_target 31 20 sample) 31 20 ≡ ((31 == 31 && 20 == 20) || has_grant sample 31 20)
has_grant-grant_target_example = has_grant-grant_target 31 20 31 20 sample
