-- ===== src/Provisioning/Reach.antt =====
-- Every target of a request is within reach once its loop has run.
use trolley.Base.{
  ℕ, String, true, ◌&&◌, List, [], ◌∷◌, any, find, str_eq, ◌==◌, ◌≡◌, ap, sym, subst, ◌∙◌, inl, inr,
  In, ok, arith, Bool-cases, Option-cases, any-In, In-any, In-append,
}
use trolley.Catalog.{Catalog, User, Target, GroupTargetGrant, GroupMembership}
use trolley.Catalog.Monad.{>>=-returns}
use trolley.Access.{is_granted, grant_target}
use trolley.Access.Grants.{is_pair, has_grant, has_grant-grant_target}
use trolley.Groups.{join_group}
use trolley.Groups.Members.{is_member, is_member-join_group}
use trolley.Provisioning.{get_or_create_group, has_other_targets, open_target, open_targets}

-- A catalog that keeps every account, grant and membership of another.
pub record Extends (c c' : Catalog) : Type 0 where
  pub users : (u : User) → In u c.users → In u c'.users
  pub grants : (g : GroupTargetGrant) → In g c.grants → In g c'.grants
  pub memberships : (m : GroupMembership) → In m c.memberships → In m c'.memberships

pub Extends-refl : (c : Catalog) → Extends c c
Extends-refl c = record { users = λ u k. k; grants = λ g m. m; memberships = λ g m. m }

pub Extends-trans : {a b c : Catalog} → Extends a b → Extends b c → Extends a c
Extends-trans p q = record {
  users = λ u k. q.users u (p.users u k);
  grants = λ g m. q.grants g (p.grants g m);
  memberships = λ g m. q.memberships g (p.memberships g m);
}

-- What was granted stays granted.
pub Extends-is_granted :
    {c c' : Catalog} (user target : ℕ)
    → Extends c c'
    → is_granted c user target ≡ true
    → is_granted c' user target ≡ true
unfolding is_granted
Extends-is_granted {c} {c'} user target e h =
    let (g, m, t) =
      any-In
        (λ g. g.target == target && any (λ m. m.group == g.group && m.user == user) c.memberships)
        c.grants h in
    let (k, n, u) =
      any-In (λ m. m.group == g.group && m.user == user) c.memberships (ground (arith, t)) in
    let joined =
      In-any (λ m. m.group == g.group && m.user == user) k c'.memberships (e.memberships k n) u in
    In-any
      (λ g. g.target == target && any (λ m. m.group == g.group && m.user == user) c'.memberships) g
      c'.grants (e.grants g m) (ground (arith, t, joined))

Extends-grant_target : (group target : ℕ) (c : Catalog) → Extends c (grant_target group target c)
unfolding grant_target
Extends-grant_target group target c =
    elim (Bool-cases (any (λ g. g.group == group && g.target == target) c.grants)) [
      | inl old ↦ rw (grant_target, old) (Extends-refl c)
      | inr new ↦
          rw (grant_target, new)
            (record {
              users = λ u k. k;
              grants = λ g m. (In-append g c.grants _).1 (inl m);
              memberships = λ g m. m;
            })
    ]

Extends-join_group : (user group : ℕ) (c : Catalog) → Extends c (join_group user group c)
unfolding join_group
Extends-join_group user group c =
    elim (Bool-cases (any (λ m. m.group == group && m.user == user) c.memberships)) [
      | inl old ↦ rw (join_group, old) (Extends-refl c)
      | inr new ↦
          rw (join_group, new)
            (record {
              users = λ u k. k;
              grants = λ g m. m;
              memberships = λ g m. (In-append g c.memberships _).1 (inl m);
            })
    ]

-- A member of a group with a grant reaches its target.
granted_by :
    (user group target : ℕ) (c : Catalog)
    → has_grant c group target ≡ true
    → is_member c group user ≡ true
    → is_granted c user target ≡ true
unfolding is_granted
granted_by user group target c pair member =
    let (g, m, t) = any-In (is_pair group target) c.grants pair in
    let same : g.group ≡ group = ground (arith, t) in
    In-any
      (λ g. g.target == target && any (λ m. m.group == g.group && m.user == user) c.memberships) g
      c.grants m (rw same (ground (arith, t, member)))

Extends-has_grant :
    {c c' : Catalog} (group target : ℕ)
    → Extends c c'
    → has_grant c group target ≡ true
    → has_grant c' group target ≡ true
Extends-has_grant {c} {c'} group target e h =
    let (g, m, t) = any-In (is_pair group target) c.grants h in
    In-any (is_pair group target) g c'.grants (e.grants g m) t

Extends-get_or_create_group :
    (name : String) (c : Catalog) → Extends c (get_or_create_group name c).1
unfolding get_or_create_group
Extends-get_or_create_group name c = elim (Option-cases (find (λ g. str_eq g.name name) c.groups)) [
  | inl e ↦
      rw (get_or_create_group, e)
        (record { users = λ u k. k; grants = λ g m. m; memberships = λ m n. n })
  | inr (g, e) ↦ rw (get_or_create_group, e) (Extends-refl c)
]

module _ (managed_name : ℕ → String) (hash_secret : String → String) where
  open_target-is_granted :
      (user : ℕ) (target : Target) (c : Catalog)
      → (open_target managed_name hash_secret user target c).0 ≡ ok tt
      → let c' = (open_target managed_name hash_secret user target c).1 in
        Extends c c' × (is_granted c' user target.id ≡ true)
  unfolding open_target
  open_target-is_granted user target c h = elim (Bool-cases (is_granted c user target.id)) [
    | inl there ↦ rw (open_target, there) (Extends-refl c, there)
    | inr missing ↦
        let group = (get_or_create_group (managed_name target.id) c).0 in
        let c1 = (get_or_create_group (managed_name target.id) c).1 in
        elim (Bool-cases (has_other_targets group.id target.id c1)) [
          | inl other ↦ absurd (ground (arith, missing, other, h))
          | inr free ↦
              let c2 = grant_target group.id target.id c1 in
              let joined = Extends-join_group user group.id c2 in
              let pair : has_grant c2 group.id target.id ≡ true =
                has_grant-grant_target group.id target.id group.id target.id c1 ∙ ground arith in
              let member : is_member (join_group user group.id c2) group.id user ≡ true =
                is_member-join_group user group.id group.id user c2 ∙ ground arith in
              rw (open_target, missing, free)
                (
                  Extends-trans (Extends-get_or_create_group (managed_name target.id) c)
                      (Extends-trans (Extends-grant_target group.id target.id c1) joined),
                  granted_by user group.id target.id (join_group user group.id c2)
                      (Extends-has_grant group.id target.id joined pair) member,
                )
        ]
  ]

  -- When the loop over the targets ends without raising, the user reaches every one of them through
  -- a group, and no grant and no membership is lost.
  pub open_targets-is_granted :
      (user : ℕ) (targets : List Target) (c : Catalog)
      → (open_targets managed_name hash_secret user targets c).0 ≡ ok tt
      → let c' = (open_targets managed_name hash_secret user targets c).1 in
        Extends c c' × ((t : Target) → In t targets → is_granted c' user t.id ≡ true)
  unfolding open_targets
  open_targets-is_granted user [] c h = (Extends-refl c, λ t m. absurd m)
  open_targets-is_granted user (target ∷ targets) c h =
      let (_, c1, e, run) =
        >>=-returns (open_target managed_name hash_secret user target)
          (λ _. open_targets managed_name hash_secret user targets) c h in
      let (first, reached) =
        subst (λ p. Extends c p.1 × (is_granted p.1 user target.id ≡ true)) e
          (open_target-is_granted user target c (ap (λ p. p.0) e)) in
      let (rest, others) = open_targets-is_granted user targets c1 (ap (λ p. p.0) (sym run) ∙ h) in
      subst
        (λ p.
          Extends c p.1
          × ((t : Target) → In t (target ∷ targets) → is_granted p.1 user t.id ≡ true))
        (sym run)
        (
          Extends-trans first rest,
          λ t m. elim m [
            | inl same ↦ rw same (Extends-is_granted user target.id rest reached)
            | inr there ↦ others t there
          ],
        )
