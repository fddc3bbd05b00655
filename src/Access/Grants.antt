-- ===== src/Access/Grants.antt =====
-- What granting and revoking a group's access changes: `set_target_access` against the relation
-- between groups and targets that the grants stand for.
use trolley.Base.{
  is_empty, Error, ℕ, String, Bool, true, false, not, ◌&&◌, ◌||◌, Option, none, some, List, [], ◌∷◌,
  ◌++◌, any, filter, ◌==◌, ◌≡◌, refl, inl, inr, ok, err, arith, if◌then◌else◌, Bool-cases,
}
use trolley.Catalog.{Catalog, GroupTargetGrant, Target, Group}
use trolley.Access.{grant_target, revoke_target, set_target_access, active_target, named_group}

-- A grant of the pair of group and target.
abbrev pub is_pair : ℕ → ℕ → GroupTargetGrant → Bool
is_pair group target g = g.group == group && g.target == target

-- The relation that the table of grants stands for.
abbrev pub has_grant : Catalog → ℕ → ℕ → Bool
has_grant c group target = any (is_pair group target) c.grants

any-append :
    {A : Type 0} (p : A → Bool) (xs ys : List A) → any p (xs ++ ys) ≡ (any p xs || any p ys)
any-append p [] ys = refl
any-append p (x ∷ xs) ys = ground (arith, any-append p xs ys)

-- After a grant the pair is there, and every other pair is as it was.
pub has_grant-grant_target :
    (group target g t : ℕ) (c : Catalog)
    → has_grant (grant_target group target c) g t ≡ ((g == group && t == target) || has_grant c g t)
unfolding grant_target
has_grant-grant_target group target g t c = elim (Bool-cases (has_grant c group target)) [
  | inl old ↦ rw old (elim (Bool-cases (g == group && t == target)) [
    | inl same ↦
        let e : g ≡ group = ground arith in
        let e' : t ≡ target = ground arith in rw (same, e, e') old
    | inr other ↦ rw other
  ])
  | inr new ↦ rw (new, any-append) (ground arith)
]

any-filter_other :
    (group target g t : ℕ) (gs : List GroupTargetGrant)
    → any (is_pair g t) (filter (λ x. not (is_pair group target x)) gs)
      ≡ (not (g == group && t == target) && any (is_pair g t) gs)
any-filter_other group target g t [] = ground arith
any-filter_other group target g t (x ∷ gs) = ground (arith, any-filter_other group target g t gs)

-- After a revocation the pair is gone, and every other pair is as it was.
pub has_grant-revoke_target :
    (group target g t : ℕ) (c : Catalog)
    → has_grant (revoke_target group target c) g t
      ≡ (not (g == group && t == target) && has_grant c g t)
unfolding revoke_target
has_grant-revoke_target group target g t c = any-filter_other group target g t c.grants

-- With the target and the group found, an access that is given or taken changes the grant of that
-- pair alone, and to what was asked for.
pub set_target_access-has_grant :
    (name group_name : String) (allowed : Bool) (c : Catalog) (target : Target) (group : Group)
    (g t : ℕ)
    → is_empty group_name ≡ false
    → active_target name c ≡ some target
    → named_group group_name c ≡ some group
    → ((set_target_access name allowed none (some group_name) c).0
        ≡ ok (name, some group_name, allowed))
      × (has_grant (set_target_access name allowed none (some group_name) c).1 g t
          ≡ (if g == group.id && t == target.id then allowed else has_grant c g t))
unfolding set_target_access
set_target_access-has_grant name group_name true c target group g t given found named =
    ground (arith, has_grant-grant_target group.id target.id g t c)
set_target_access-has_grant name group_name false c target group g t given found named =
    ground (arith, has_grant-revoke_target group.id target.id g t c)

-- A call that raises, for a direct grant to a user or for a row that is missing, changes nothing.
set_target_access-raises :
    (name : String) (allowed : Bool) (email group_name : Option String) (c : Catalog) (e : Error)
    → (set_target_access name allowed email group_name c).0 ≡ err e
    → (set_target_access name allowed email group_name c).1 ≡ c
unfolding set_target_access
set_target_access-raises name allowed email group_name c e h = ground arith
