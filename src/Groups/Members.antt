-- ===== src/Groups/Members.antt =====
-- Replacing the groups of a user, against the relation that the memberships stand for.
use trolley.Base.{
  ℕ, String, Bool, not, ◌&&◌, ◌||◌, some, List, [], ◌∷◌, ◌++◌, map, any, filter, ◌==◌, ◌≡◌, refl,
  ◌∙◌, inl, inr, ok, err, Error, arith, ap, does_not_exist, if◌then◌else◌, Bool-cases,
}
use trolley.Catalog.{Catalog, User, Group, GroupMembership}
use trolley.Catalog.Monad.{
  ◌>>=◌, >>=-ok, get_or_raise, get_or_raise-ok, in_transaction-ok, in_transaction-err,
}
use trolley.Groups.{
  sorted_set, resolve_each, resolve_groups, join_group, join_each, leave_all, active_by_email,
  replace_memberships, replace_groups, set_user_groups,
}

abbrev pub is_membership : ℕ → ℕ → GroupMembership → Bool
is_membership group user m = m.group == group && m.user == user

-- The relation that the table of memberships stands for.
abbrev pub is_member : Catalog → ℕ → ℕ → Bool
is_member c group user = any (is_membership group user) c.memberships

any-append_one :
    (p : GroupMembership → Bool) (ms : List GroupMembership) (m : GroupMembership)
    → any p (ms ++ m ∷ []) ≡ (any p ms || p m)
any-append_one p [] m = ground arith
any-append_one p (x ∷ ms) m = ground (arith, any-append_one p ms m)

pub is_member-join_group :
    (user group g u : ℕ) (c : Catalog)
    → is_member (join_group user group c) g u ≡ ((group == g && u == user) || is_member c g u)
unfolding join_group
is_member-join_group user group g u c = elim (Bool-cases (is_member c group user)) [
  | inl old ↦ rw old (elim (Bool-cases (group == g && u == user)) [
    | inl same ↦
        let e : g ≡ group = ground arith in let e' : u ≡ user = ground arith in rw (same, e, e') old
    | inr other ↦ rw other refl
  ])
  | inr new ↦ rw (new, any-append_one) (ground arith)
]

abbrev pub is_selected : ℕ → List Group → Bool
is_selected g groups = any (λ s. s.id == g) groups

is_member-join_each :
    (user : ℕ) (groups : List Group) (g u : ℕ) (c : Catalog)
    → is_member (join_each user groups c) g u
      ≡ ((is_selected g groups && u == user) || is_member c g u)
unfolding join_each
is_member-join_each user [] g u c = refl
is_member-join_each user (group ∷ groups) g u c =
    is_member-join_each user groups g u (join_group user group.id c)
    ∙ rw (is_member-join_group user group.id g u c) (ground arith)

any-leave :
    (user g u : ℕ) (ms : List GroupMembership)
    → any (is_membership g u) (filter (λ m. not (m.user == user)) ms)
      ≡ (not (u == user) && any (is_membership g u) ms)
any-leave user g u [] = ground arith
any-leave user g u (m ∷ ms) = ground (arith, any-leave user g u ms)

resolve_each_reads : (names : List String) (c : Catalog) → (resolve_each names c).1 ≡ c
unfolding resolve_each
resolve_each_reads [] c = refl
resolve_each_reads (name ∷ names) c = ground (arith, resolve_each_reads names c)

-- With every group and the active user found, the groups of the user become exactly those that
-- were named, and the memberships of every other user stay as they were.
pub set_user_groups-is_member :
    (lower : String → String) (email : String) (names : List String) (selected : List Group)
    (user : User) (c : Catalog) (g u : ℕ)
    → (resolve_groups names c).0 ≡ ok selected
    → active_by_email lower email c ≡ some user
    → ((set_user_groups lower email names c).0
        ≡ ok (user.email, sorted_set (map (λ s. s.name) selected)))
      × (is_member (set_user_groups lower email names c).1 g u
          ≡ (if u == user.id then is_selected g selected else is_member c g u))
unfolding set_user_groups resolve_groups
set_user_groups-is_member lower email names selected user c g u found active =
    let run : set_user_groups lower email names c ≡ (
      ok (user.email, sorted_set (map (λ s. s.name) selected)),
      join_each user.id selected (leave_all user.id c),
    ) =
      in_transaction-ok (resolve_groups names >>= replace_groups lower email) (
        >>=-ok (resolve_groups names) (replace_groups lower email) {c = c}
          (λ i. (found i, resolve_each_reads (sorted_set names) c i))
        ∙ >>=-ok (get_or_raise (active_by_email lower email) does_not_exist)
            (replace_memberships lower selected) {c = c}
            (get_or_raise-ok (active_by_email lower email) does_not_exist {c = c} active)) in
    (
      ap (λ p. p.0) run,
      ap (λ p. is_member p.1 g u) run
          ∙ is_member-join_each user.id selected g u (leave_all user.id c)
          ∙ rw (any-leave user.id g u c.memberships) (ground arith),
    )

-- A replacement that raises, for an unknown group or without an active user, changes nothing.
pub set_user_groups-raises :
    (lower : String → String) (email : String) (names : List String) (c : Catalog) (e : Error)
    → (set_user_groups lower email names c).0 ≡ err e
    → (set_user_groups lower email names c).1 ≡ c
unfolding set_user_groups
set_user_groups-raises lower email names c e h =
    in_transaction-err (resolve_groups names >>= replace_groups lower email) c h
