-- ===== src/Access.antt =====
-- application/target_access.py and application/access.py over the catalog, with auth/context.py.
-- A join of the ORM is read as a test that rows with the joined ids exist, and a set of names is a
-- list of which only membership matters.
pub mod Reach
pub mod Roles
pub mod Grants
mod Tests
use trolley.Base.{
  ℕ, ◌+◌, String, Bool, true, false, not, ◌&&◌, ◌||◌, Option, none, some, List, [], ◌∷◌, ◌++◌, map,
  any, filter, find, contains, strip, is_empty, str_eq, ◌==◌, if◌then◌else◌, value_error,
  permission_error, does_not_exist,
}
use trolley.Catalog.{
  Catalog, User, Target, Group, GroupTargetGrant, GroupMembership, Operation, UserRole, role_eq,
}
use trolley.Catalog.Monad.{Action, ◌>>=◌, ◌>>◌, pure, gets, get_or_raise, modify, guard}

pub record AuthContext : Type 0 where
  pub user_id : ℕ
  pub api_key_id : ℕ
  pub role : UserRole

-- `User.get_or_none(id=…, is_active=True)`
unfoldable pub active_user : ℕ → Catalog → Option User
active_user i c = find (λ u. u.id == i && u.is_active) c.users

-- `GroupTargetGrant.filter(group__memberships__user=…)`, for one target.
unfoldable pub is_granted : Catalog → ℕ → ℕ → Bool
is_granted c user target =
    any (λ g. g.target == target && any (λ m. m.group == g.group && m.user == user) c.memberships)
      c.grants

unfoldable pub member_target_names : AuthContext → Catalog → List String
unfolding active_user is_granted
member_target_names context c = elim (active_user context.user_id c) [
  | none ↦ []
  | some u ↦ map (λ t. t.name) (filter (λ t. t.is_active && is_granted c u.id t.id) c.targets)
]

-- `role in (UserRole.ADMIN, UserRole.DEVELOPER)`
abbrev pub is_exploring : UserRole → Bool
is_exploring role = role_eq role UserRole.admin || role_eq role UserRole.developer

unfoldable pub accessible_target_names : AuthContext → Catalog → List String
unfolding member_target_names
accessible_target_names context c = elim (active_user context.user_id c) [
  | none ↦ []
  | some u ↦
      if not (is_exploring context.role)
      then []
      else if not (role_eq u.role context.role)
      then []
      else member_target_names context c
]

abbrev pub active_target : String → Catalog → Option Target
active_target name c = find (λ t. str_eq t.name name && t.is_active) c.targets

unfoldable pub require_target : AuthContext → String → Action Target
unfolding accessible_target_names
require_target context name = do
  allowed ← gets (accessible_target_names context)
  guard (not (contains allowed name)) (permission_error "Target unavailable or access denied")
  get_or_raise (active_target name) does_not_exist

-- `GroupTargetGrant.get_or_create(target=…, group=…)`
unfoldable pub grant_target : ℕ → ℕ → Catalog → Catalog
grant_target group target c =
    if any (λ g. g.group == group && g.target == target) c.grants then c else record c {
      grants = c.grants ++ record { id = c.next_id; group = group; target = target } ∷ [];
      next_id = c.next_id + 1;
    }

-- `GroupTargetGrant.filter(target=…, group=…).delete()`
unfoldable pub revoke_target : ℕ → ℕ → Catalog → Catalog
revoke_target group target c = record c {
  grants = filter (λ g. not (g.group == group && g.target == target)) c.grants;
}

-- `email is not None or not group_name`
abbrev is_refused : Option String → Option String → Bool
is_refused (some _) _ = true
is_refused none none = true
is_refused none (some name) = is_empty name

abbrev text_or_empty : Option String → String
text_or_empty none = ""
text_or_empty (some s) = s

-- `Group.get(name=….strip())`
abbrev pub named_group : String → Catalog → Option Group
named_group name c = find (λ g. str_eq g.name (strip name)) c.groups

unfoldable pub set_target_access :
    String → Bool → Option String → Option String → Action (String × Option String × Bool)
unfolding grant_target revoke_target
set_target_access name allowed email group_name = do
  guard (is_refused email group_name)
      (value_error "Target access requires a group; direct user grants are unsupported")
  target ← get_or_raise (active_target name) does_not_exist
  group ← get_or_raise (named_group (text_or_empty group_name)) does_not_exist
  modify (if allowed then grant_target group.id target.id else revoke_target group.id target.id)
  pure (name, group_name, allowed)

-- access.py. The last test is `target__name__in=allowed`.
unfoldable pub accessible_operation_names : AuthContext → Catalog → List String
unfolding member_target_names
accessible_operation_names context c =
    let allowed = member_target_names context c in
    map (λ o. o.name)
      (filter
        (λ o.
          o.is_active
          && any (λ t. t.id == o.target && (t.is_active && contains allowed t.name)) c.targets)
        c.operations)

unfoldable pub can_access_operation : AuthContext → Operation → Catalog → Bool
unfolding accessible_operation_names
can_access_operation context operation c =
    contains (accessible_operation_names context c) operation.name
