-- ===== src/Access/Reach.antt =====
-- Who may use what: the computed name sets against the rows of the catalog that justify them.
use trolley.Base.{
  contains_iff, ◌∙◌, sym, ◌&&◌, filter, ℕ, String, true, ◌≡◌, ◌↔◌, In, any-In, In-any, find-In,
  In-find, filter-In, In-map, map-In, contains, Option-cases, ◌==◌, arith, inl, inr, some,
}
use trolley.Catalog.{Catalog, User, Target, GroupTargetGrant, GroupMembership}
use trolley.Access.{AuthContext, active_user, is_granted, member_target_names}

-- The rows by which a user's group membership leads to a target.
pub record Reaches (c : Catalog) (user_id : ℕ) (target : Target) : Type 0 where
  pub user : User
  pub user_listed : In user c.users
  pub user_id_eq : user.id ≡ user_id
  pub user_active : user.is_active ≡ true
  pub membership : GroupMembership
  pub membership_listed : In membership c.memberships
  pub member : membership.user ≡ user_id
  pub grant : GroupTargetGrant
  pub grant_listed : In grant c.grants
  pub grant_group : grant.group ≡ membership.group
  pub grant_target : grant.target ≡ target.id
  pub target_listed : In target c.targets
  pub target_active : target.is_active ≡ true

active_user-some :
    (i : ℕ) (c : Catalog) {u : User}
    → active_user i c ≡ some u
    → In u c.users × (u.id ≡ i) × (u.is_active ≡ true)
unfolding active_user
active_user-some i c {u} e =
    let (m, h) = find-In (λ v. v.id == i && v.is_active) c.users u e in
    (m, ground arith, ground arith)

-- The test of the join holds exactly when rows are there to justify it.
is_granted_iff :
    (c : Catalog) (user target : ℕ)
    → (is_granted c user target ≡ true) ↔ (
        (g : GroupTargetGrant) × In g c.grants
        × (g.target ≡ target)
        × ((m : GroupMembership) × In m c.memberships × (m.group ≡ g.group) × (m.user ≡ user)))
unfolding is_granted
is_granted_iff c user target = (to, from)
  where
    to :
        is_granted c user target ≡ true
        → (g : GroupTargetGrant) × In g c.grants
          × (g.target ≡ target)
          × ((m : GroupMembership) × In m c.memberships × (m.group ≡ g.group) × (m.user ≡ user))
    to h =
        let (g, listed, e) = any-In _ c.grants h in
        let (m, member, e') =
          any-In (λ m. m.group == g.group && m.user == user) c.memberships (ground arith) in
        (g, listed, ground arith, (m, member, ground arith, ground arith))

    from :
        ((g : GroupTargetGrant) × In g c.grants
          × (g.target ≡ target)
          × ((m : GroupMembership) × In m c.memberships × (m.group ≡ g.group) × (m.user ≡ user)))
        → is_granted c user target ≡ true
    from (g, listed, e, (m, member, same, own)) =
        let inner =
          In-any (λ m. m.group == g.group && m.user == user) m c.memberships member
            (ground arith) in
        In-any _ g c.grants listed (ground arith)

active_user-Reaches :
    (c : Catalog) (user_id : ℕ) (t : Target)
    → Reaches c user_id t
    → (u : User) × (active_user user_id c ≡ some u)
unfolding active_user
active_user-Reaches c user_id t r =
    let here : r.user.id ≡ user_id = r.user_id_eq in
    In-find _ c.users r.user r.user_listed (ground (arith, r.user_id_eq, r.user_active))

granted-Reaches :
    (c : Catalog) (user_id : ℕ) (u : User) (t : Target)
    → active_user user_id c ≡ some u
    → In t c.targets
    → (t.is_active && is_granted c u.id t.id) ≡ true
    → Reaches c user_id t
granted-Reaches c user_id u t found listed h =
    let (user_listed, same, active) = active_user-some user_id c found in
    let (g, grant_listed, g_target, (m, m_listed, m_group, m_user)) =
      (is_granted_iff c u.id t.id).0 (ground arith) in
    record {
      user = u;
      user_listed = user_listed;
      user_id_eq = same;
      user_active = active;
      membership = m;
      membership_listed = m_listed;
      member = m_user ∙ same;
      grant = g;
      grant_listed = grant_listed;
      grant_group = sym m_group;
      grant_target = g_target;
      target_listed = listed;
      target_active = ground arith;
    }

Reaches-granted :
    (c : Catalog) (user_id : ℕ) (t : Target)
    → Reaches c user_id t
    → (t.is_active && is_granted c user_id t.id) ≡ true
Reaches-granted c user_id t r =
    let h = (is_granted_iff c user_id t.id).1 (
      r.grant,
      r.grant_listed,
      r.grant_target,
      (r.membership, r.membership_listed, sym r.grant_group, r.member),
    ) in
    ground (arith, h, r.target_active)

-- A name is in the computed set exactly when a row of the target with that name is reached by the
-- active user through one of the user's groups.
pub member_target_names_iff :
    (context : AuthContext) (c : Catalog) (name : String)
    → (contains (member_target_names context c) name ≡ true)
      ↔ ((t : Target) × (name ≡ t.name) × Reaches c context.user_id t)
unfolding member_target_names
member_target_names_iff context c name = (to, from)
  where
    to :
        contains (member_target_names context c) name ≡ true
        → (t : Target) × (name ≡ t.name) × Reaches c context.user_id t
    to h = elim (Option-cases (active_user context.user_id c)) [
      | inl missing ↦ cc (rw (missing, member_target_names) at h)
      | inr (u, found) ↦
          let h' = rw (found, member_target_names) at h in
          let (t, m, e) =
            map-In (λ (t : Target). t.name) name
              (filter (λ t. t.is_active && is_granted c u.id t.id) c.targets)
              ((contains_iff _ name).0 h') in
          let (listed, granted) = (filter-In _ c.targets t).0 m in
          (t, e, granted-Reaches c context.user_id u t found listed granted)
    ]

    from :
        ((t : Target) × (name ≡ t.name) × Reaches c context.user_id t)
        → contains (member_target_names context c) name ≡ true
    from (t, e, r) =
        let (u, found) = active_user-Reaches c context.user_id t r in
        let same = (active_user-some context.user_id c found).1 in
        rw (found, member_target_names, same)
          ((contains_iff _ name).1 (
            rw e (
              In-map (λ (t : Target). t.name) t _
                ((filter-In _ c.targets t).1
                  (r.target_listed, Reaches-granted c context.user_id t r)))))
