-- ===== src/Access/Roles.antt =====
-- Exploring a target, which also takes the role, and running its operations, which does not.
use trolley.Base.{
  err, permission_error, ◌&&◌, List, map, filter, any, contains_iff, ap, String, Bool, true, false,
  ◌≡◌, ◌↔◌, In, any-In, In-any, find-In, In-find, filter-In, In-map, map-In, contains, Option-cases,
  Bool-cases, ◌==◌, eq_iff, arith, inl, inr, str_eq, ok, ◌≢◌, some,
}
use trolley.Catalog.{Catalog, User, Target, Operation, UserRole, role_eq}
use trolley.Access.{
  AuthContext, active_user, member_target_names, accessible_target_names, is_exploring,
  active_target, can_access_operation, require_target,
}
use trolley.Access.Reach.{Reaches, member_target_names_iff}

role_eq_iff : (r s : UserRole) → (role_eq r s ≡ true) ↔ (r ≡ s)
role_eq_iff r s = ground arith

is_exploring_iff : (r : UserRole) → (is_exploring r ≡ true) ↔ (r ≢ UserRole.user)
is_exploring_iff r = ground arith

-- What a context needs to explore: a role that explores, which the active user still has.
abbrev pub MayExplore : Catalog → AuthContext → Type 0
MayExplore c context =
    (context.role ≢ UserRole.user)
    × ((u : User) × (active_user context.user_id c ≡ some u) × (u.role ≡ context.role))

-- A target is open to exploration exactly when a group of the user leads to it and the user is an
-- administrator or a developer by the context and by the catalog: no role opens a target alone.
pub accessible_target_names_iff :
    (context : AuthContext) (c : Catalog) (name : String)
    → (contains (accessible_target_names context c) name ≡ true)
      ↔ (MayExplore c context × ((t : Target) × (name ≡ t.name) × Reaches c context.user_id t))
unfolding accessible_target_names
accessible_target_names_iff context c name = (to, from)
  where
    to :
        contains (accessible_target_names context c) name ≡ true
        → MayExplore c context × ((t : Target) × (name ≡ t.name) × Reaches c context.user_id t)
    to h = elim (Option-cases (active_user context.user_id c)) [
      | inl missing ↦ cc (rw (missing, accessible_target_names) at h)
      | inr (u, found) ↦
          let h' = rw (found, accessible_target_names) at h in
          let exploring : context.role ≢ UserRole.user = ground (arith, h') in
          let same : u.role ≡ context.role = (role_eq_iff _ _).0 (ground (arith, h')) in
          let member : contains (member_target_names context c) name ≡ true = ground (arith, h') in
          ((exploring, (u, found, same)), (member_target_names_iff context c name).0 member)
    ]

    from :
        MayExplore c context × ((t : Target) × (name ≡ t.name) × Reaches c context.user_id t)
        → contains (accessible_target_names context c) name ≡ true
    from ((exploring, (u, found, same)), reached) =
        rw
          (
            found,
            accessible_target_names,
            (is_exploring_iff context.role).1 exploring,
            (role_eq_iff _ _).1 same,
          )
          ((member_target_names_iff context c name).1 reached)

pub require_target-refused :
    (context : AuthContext) (c : Catalog) (name : String)
    → contains (accessible_target_names context c) name ≡ false
    → require_target context name c
      ≡ (err (permission_error "Target unavailable or access denied"), c)
unfolding require_target
require_target-refused context c name h = rw h

-- A row that `require_target` returns, as the database finds it.
abbrev pub IsNamed : Catalog → String → Target → Type 0
IsNamed c name t = In t c.targets × (t.name ≡ name) × (t.is_active ≡ true)

active_target-IsNamed :
    (c : Catalog) (name : String) (t : Target) → active_target name c ≡ some t → IsNamed c name t
active_target-IsNamed c name t e =
    let (listed, h) = find-In (λ t. str_eq t.name name && t.is_active) c.targets t e in
    (listed, ground (arith, eq_iff t.name name), ground arith)

require_target-open :
    (context : AuthContext) (c : Catalog) (name : String) (t : Target)
    → contains (accessible_target_names context c) name ≡ true
    → name ≡ t.name
    → Reaches c context.user_id t
    → (u : Target) × (require_target context name c ≡ (ok u, c)) × IsNamed c name u
unfolding require_target
require_target-open context c name t h e r =
    let (u, found) =
      In-find (λ t. str_eq t.name name && t.is_active) c.targets t r.target_listed
        (ground (arith, eq_iff t.name name, r.target_active)) in
    (u, rw (h, found), active_target-IsNamed c name u found)

-- `require_target` returns a row, active and of the name asked for, exactly when the target is open
-- to exploration; it never writes.
pub require_target_iff :
    (context : AuthContext) (c : Catalog) (name : String)
    → (((u : Target) × (require_target context name c ≡ (ok u, c)) × IsNamed c name u)
        ↔ (MayExplore c context × ((t : Target) × (name ≡ t.name) × Reaches c context.user_id t)))
      × ((require_target context name c).1 ≡ c)
require_target_iff context c name =
    ((to, from), elim (Bool-cases allowed) [ inl h ↦ opened h | inr h ↦ closed h ])
  where
    allowed : Bool
    allowed = contains (accessible_target_names context c) name

    closed : allowed ≡ false → (require_target context name c).1 ≡ c
    closed h = ap (λ r. r.1) (require_target-refused context c name h)

    from :
        (MayExplore c context × ((t : Target) × (name ≡ t.name) × Reaches c context.user_id t))
        → (u : Target) × (require_target context name c ≡ (ok u, c)) × IsNamed c name u
    from (may, (t, e, r)) =
        require_target-open context c name t
          ((accessible_target_names_iff context c name).1 (may, (t, e, r))) e r

    opened : allowed ≡ true → (require_target context name c).1 ≡ c
    opened h =
        let (u, e, _) = from ((accessible_target_names_iff context c name).0 h) in ap (λ r. r.1) e

    to :
        ((u : Target) × (require_target context name c ≡ (ok u, c)) × IsNamed c name u)
        → MayExplore c context × ((t : Target) × (name ≡ t.name) × Reaches c context.user_id t)
    to (u, e, _) = elim (Bool-cases allowed) [
      | inl h ↦ (accessible_target_names_iff context c name).0 h
      | inr h ↦ cc (require_target-refused context c name h)
    ]

-- An operation is open to a user exactly when it is active and its active target is reached through
-- one of the user's groups: the role takes no part, and there is no grant of a single operation.
pub can_access_operation_iff :
    (context : AuthContext) (c : Catalog) (operation : Operation)
    → (can_access_operation context operation c ≡ true) ↔ (
        (o : Operation) × In o c.operations
        × (operation.name ≡ o.name)
        × (o.is_active ≡ true)
        × ((t : Target) × In t c.targets
            × (t.id ≡ o.target)
            × (t.is_active ≡ true)
            × ((s : Target) × (t.name ≡ s.name) × Reaches c context.user_id s)))
unfolding can_access_operation
can_access_operation_iff context c operation = (to, from)
  where
    allowed : List String
    allowed = member_target_names context c

    is_open : Operation → Bool
    is_open o =
        o.is_active
        && any (λ t. t.id == o.target && (t.is_active && contains allowed t.name)) c.targets

    to :
        can_access_operation context operation c ≡ true
        → (o : Operation) × In o c.operations
          × (operation.name ≡ o.name)
          × (o.is_active ≡ true)
          × ((t : Target) × In t c.targets
              × (t.id ≡ o.target)
              × (t.is_active ≡ true)
              × ((s : Target) × (t.name ≡ s.name) × Reaches c context.user_id s))
    to h =
        let (o, m, e) =
          map-In (λ (o : Operation). o.name) operation.name (filter is_open c.operations)
            ((contains_iff (map (λ (o : Operation). o.name) (filter is_open c.operations))
                operation.name).0
              h) in
        let (listed, good) = (filter-In is_open c.operations o).0 m in
        let (t, t_listed, t_good) =
          any-In (λ t. t.id == o.target && (t.is_active && contains allowed t.name)) c.targets
            (ground arith) in
        (
          o,
          listed,
          e,
          ground arith,
          (
            t,
            t_listed,
            ground arith,
            ground arith,
            (member_target_names_iff context c t.name).0 (ground arith),
          ),
        )

    from :
        ((o : Operation) × In o c.operations
          × (operation.name ≡ o.name)
          × (o.is_active ≡ true)
          × ((t : Target) × In t c.targets
              × (t.id ≡ o.target)
              × (t.is_active ≡ true)
              × ((s : Target) × (t.name ≡ s.name) × Reaches c context.user_id s)))
        → can_access_operation context operation c ≡ true
    from (o, listed, e, active, (t, t_listed, t_id, t_active, reached)) =
        let known : contains allowed t.name ≡ true =
          (member_target_names_iff context c t.name).1 reached in
        let target_found =
          In-any (λ t. t.id == o.target && (t.is_active && contains allowed t.name)) t c.targets
            t_listed (ground arith) in
        (contains_iff _ operation.name).1 (
          rw e (
            In-map (λ (o : Operation). o.name) o _
              ((filter-In _ c.operations o).1 (listed, ground arith))))
