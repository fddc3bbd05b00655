-- ===== src/Groups.antt =====
-- application/groups.py, with auth/roles.py: the groups of the catalog and who belongs to them.
-- Deleting a group takes its memberships and grants along, as the foreign keys say. The case
-- mapping `str.lower` is a parameter.
pub mod Members
mod Tests
use trolley.Base.{
  ℕ, ◌+◌, String, Bool, true, false, not, ◌&&◌, ◌||◌, Option, none, some, List, [], ◌∷◌, ◌++◌, any,
  filter, find, map, length, codes, strip, is_empty, str_eq, str_append, ◌==◌, ltb, if◌then◌else◌,
  value_error, does_not_exist, integrity_error, Result, ok, err, Error, update_where,
}
use trolley.Catalog.{Catalog, User, Group, GroupMembership}
use trolley.Catalog.Monad.{
  Action, ◌>>=◌, ◌>>◌, pure, gets, get_or_raise, modify, guard, in_transaction, raise,
}

-- `a < b` of two texts, by their code points.
abbrev pub is_before : List ℕ → List ℕ → Bool
is_before [] [] = false
is_before [] (b ∷ bs) = true
is_before (a ∷ more) [] = false
is_before (a ∷ more) (b ∷ bs) = ltb a b || (a == b && is_before more bs)

abbrev pub insert_name : String → List String → List String
insert_name name [] = name ∷ []
insert_name name (other ∷ names) =
    if str_eq name other
    then other ∷ names
    else if is_before (codes name) (codes other)
    then name ∷ other ∷ names
    else other ∷ insert_name name names

-- `sorted(set(names))`
abbrev pub sorted_set : List String → List String
sorted_set [] = []
sorted_set (name ∷ names) = insert_name name (sorted_set names)

-- `Group.get_or_none(name=name.strip())`
abbrev pub group_named : String → Catalog → Option Group
group_named name c = find (λ g. str_eq g.name (strip name)) c.groups

-- The loop of `resolve_groups`.
unfoldable pub resolve_each : List String → Action (List Group)
resolve_each [] = pure []
resolve_each (name ∷ names) = do
  group ← get_or_raise (group_named name) (value_error (str_append "Unknown group: " name))
  result ← resolve_each names
  pure (group ∷ result)

unfoldable pub resolve_groups : List String → Action (List Group)
unfolding resolve_each
resolve_groups names = resolve_each (sorted_set names)

unfoldable pub create_group : String → String → Action (String × String)
create_group raw_name description = do
  let name = strip raw_name
  guard (is_empty name || ltb 255 (length (codes name)))
      (value_error "Group name must contain 1 to 255 characters")
  c ← gets (λ c. c)
  guard (any (λ g. str_eq g.name name) c.groups) integrity_error
  modify (λ c. record c {
    groups =
        c.groups ++ record { id = c.next_id; name = name; description = strip description } ∷ [];
    next_id = c.next_id + 1;
  })
  pure (name, strip description)

-- `(await resolve_groups([name]))[0]`
abbrev the_group : String → Action Group
the_group name = get_or_raise (group_named name) (value_error (str_append "Unknown group: " name))

unfoldable pub update_group : String → String → Action (String × String)
update_group name description = do
  group ← the_group name
  modify (λ c. record c {
    groups =
        update_where (λ g. g.id == group.id) (λ _. record group { description = strip description })
          c.groups;
  })
  pure (group.name, strip description)

unfoldable pub delete_group : String → Action String
delete_group name = do
  group ← the_group name
  modify (λ c. record c {
    groups = filter (λ g. not (g.id == group.id)) c.groups;
    memberships = filter (λ m. not (m.group == group.id)) c.memberships;
    grants = filter (λ g. not (g.group == group.id)) c.grants;
  })
  pure group.name

-- `GroupMembership.get_or_create(group=…, user=…)`
unfoldable pub join_group : ℕ → ℕ → Catalog → Catalog
join_group user group c =
    if any (λ m. m.group == group && m.user == user) c.memberships then c else record c {
      memberships = c.memberships ++ record { id = c.next_id; group = group; user = user } ∷ [];
      next_id = c.next_id + 1;
    }

unfoldable pub join_each : ℕ → List Group → Catalog → Catalog
unfolding join_group
join_each user [] c = c
join_each user (group ∷ groups) c = join_each user groups (join_group user group.id c)

-- `GroupMembership.filter(user=user).delete()`
abbrev pub leave_all : ℕ → Catalog → Catalog
leave_all user c = record c { memberships = filter (λ m. not (m.user == user)) c.memberships }

module _ (lower : String → String) where
  abbrev pub normalize_email : String → String
  normalize_email email = lower (strip email)

  -- `User.get(email=…, is_active=True)`
  abbrev pub active_by_email : String → Catalog → Option User
  active_by_email email c =
      find (λ u. str_eq u.email (normalize_email email) && u.is_active) c.users

  -- The block of the transaction, in parts.
  abbrev pub replace_memberships : List Group → User → Action (String × List String)
  replace_memberships selected user = do
    modify (leave_all user.id)
    modify (join_each user.id selected)
    pure (user.email, sorted_set (map (λ g. g.name) selected))

  abbrev pub replace_groups : String → List Group → Action (String × List String)
  replace_groups email selected =
      get_or_raise (active_by_email email) does_not_exist >>= replace_memberships selected

  unfoldable pub set_user_groups : String → List String → Action (String × List String)
  unfolding resolve_groups join_each
  set_user_groups email group_names =
      in_transaction (resolve_groups group_names >>= replace_groups email)
