-- ===== src/Provisioning.antt =====
-- provisioning.py: a key for an account that the master credential asks for, with access to the
-- targets that it names. The e-mail and the names of the request are those that its validators
-- return. Target names are unique, so going through the sorted names is going through the rows.
pub mod Reach
pub mod Promise
mod Tests
use trolley.Base.{
  ℕ, ◌+◌, String, Bool, true, false, not, ◌&&◌, ◌||◌, Option, none, some, List, [], ◌∷◌, ◌++◌, all,
  any, find, contains, str_eq, ◌==◌, if◌then◌else◌, http_exception, integrity_error, Error, Result,
  ok, err,
}
use trolley.Catalog.{Catalog, User, UserRole, Target, Group, ApiKey}
use trolley.Catalog.Monad.{
  Action, ◌>>=◌, ◌>>◌, pure, gets, get_or_raise, modify, guard, in_transaction,
}
use trolley.Access.{is_granted, grant_target, active_target}
use trolley.Auth.{create_api_key}
use trolley.Groups.{join_group}

abbrev pub unavailable : Error
unavailable = http_exception 404 "Target unavailable"

-- The active targets of the names; one that is missing makes the count of the rows too small.
unfoldable pub find_targets : List String → Action (List Target)
find_targets [] = pure []
find_targets (name ∷ names) = do
  target ← get_or_raise (active_target name) unavailable
  targets ← find_targets names
  pure (target ∷ targets)

-- `User.get_or_create(email=…, defaults={"name": …})`
unfoldable pub get_or_create_user : String → Catalog → User × Catalog
get_or_create_user email c = elim (find (λ u. str_eq u.email email) c.users) [
  | some u ↦ (u, c)
  | none ↦
      let u : User = record {
        id = c.next_id;
        email = email;
        name = email;
        role = UserRole.user;
        is_active = true;
      } in
      (u, record c { users = c.users ++ u ∷ []; next_id = c.next_id + 1 })
]

-- `Group.get_or_create(name=…)`
unfoldable pub get_or_create_group : String → Catalog → Group × Catalog
get_or_create_group name c = elim (find (λ g. str_eq g.name name) c.groups) [
  | some g ↦ (g, c)
  | none ↦
      let g : Group = record { id = c.next_id; name = name; description = "" } in
      (g, record c { groups = c.groups ++ g ∷ []; next_id = c.next_id + 1 })
]

-- `GroupTargetGrant.filter(group=group).exclude(target=target).exists()`
abbrev pub has_other_targets : ℕ → ℕ → Catalog → Bool
has_other_targets group target c = any (λ g. g.group == group && not (g.target == target)) c.grants

module _ (managed_name : ℕ → String) (hash_secret : String → String) where
  -- One round of the loop: `managed_name` is the name of the target's managed group.
  unfoldable pub open_target : ℕ → Target → Action (Unit {0})
  unfolding get_or_create_group
  open_target user target c =
      if is_granted c user target.id
      then (ok tt, c)
      else let (group, c') = get_or_create_group (managed_name target.id) c in
        if has_other_targets group.id target.id c'
        then (
          err (http_exception 409 "Managed group has other Targets; operator review required"),
          c',
        )
        else (ok tt, join_group user group.id (grant_target group.id target.id c'))

  unfoldable pub open_targets : ℕ → List Target → Action (Unit {0})
  unfolding open_target
  open_targets user [] = pure tt
  open_targets user (target ∷ targets) = open_target user target >> open_targets user targets

  abbrev pub issue_key : String → User → Action String
  issue_key secret user =
      create_api_key hash_secret user "provisioning" secret true >>= λ made. pure made.1

  -- The block of the transaction, after the targets and the account are found.
  abbrev pub provision_account : String → List Target → User → Action String
  provision_account secret targets user = do
    guard (not user.is_active) (http_exception 409 "User is inactive")
    open_targets user.id targets
    issue_key secret user

  abbrev pub provision_user : String → String → List Target → Action String
  provision_user email secret targets c =
      let (user, c') = get_or_create_user email c in provision_account secret targets user c'

  unfoldable pub provision : List String → String → List String → String → Action String
  unfolding find_targets open_targets get_or_create_user
  provision settings email names secret = do
    guard (not (all (contains settings) names)) unavailable
    in_transaction (find_targets names >>= provision_user email secret)
