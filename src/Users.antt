-- ===== src/Users.antt =====
-- application/users.py: accounts, their roles and keys. The delivery of the invitation is an
-- argument, the result of `EmailService.send`; so are the random secret and `str.lower`.
pub mod Invitation
mod Tests
use trolley.Base.{
  ℕ, ◌+◌, String, Bool, true, false, not, ◌&&◌, Option, none, some, List, [], ◌∷◌, ◌++◌, any, find,
  map, strip, str_eq, ◌==◌, value_error, does_not_exist, integrity_error, Result, ok, err, Error,
  update_where,
}
use trolley.Catalog.{Catalog, User, UserRole, ApiKey, Group}
use trolley.Catalog.Monad.{
  Action, ◌>>=◌, ◌>>◌, pure, gets, get_or_raise, modify, guard, in_transaction, raise,
}
use trolley.Auth.{create_api_key}
use trolley.Groups.{sorted_set, resolve_groups, join_each, normalize_email, active_by_email}

-- `key.save()`
abbrev pub save_key : ApiKey → Catalog → Catalog
save_key key c = record c { api_keys = update_where (λ k. k.id == key.id) (λ _. key) c.api_keys }

abbrev pub is_nonempty : List String → Bool
is_nonempty [] = false
is_nonempty (_ ∷ _) = true

module _ (lower : String → String) where
  abbrev pub by_email : String → Catalog → Option User
  by_email email c = find (λ u. str_eq u.email (normalize_email lower email)) c.users

  -- The account is returned with the names of its groups.
  unfoldable pub create_user :
      String → String → UserRole → List String → Action (User × List String)
  create_user email name role group_names = in_transaction (do
    selected ← resolve_groups group_names
    c ← gets (λ c. c)
    guard (any (λ u. str_eq u.email (normalize_email lower email)) c.users) integrity_error
    let user : User = record {
      id = c.next_id;
      email = normalize_email lower email;
      name = strip name;
      role = role;
      is_active = true;
    }
    modify (λ c. record c { users = c.users ++ user ∷ []; next_id = c.next_id + 1 })
    modify (join_each user.id selected)
    pure (user, sorted_set (map (λ g. g.name) selected)))

  unfoldable pub set_user_role : String → UserRole → Action User
  set_user_role email role = do
    user ← get_or_raise (active_by_email lower email) does_not_exist
    modify (λ c. record c {
      users = update_where (λ u. u.id == user.id) (λ u. record u { role = role }) c.users;
    })
    pure (record user { role = role })

  module _ (hash_secret : String → String) where
    unfoldable pub issue_api_key : String → String → String → Action (ApiKey × String)
    issue_api_key email name secret = do
      user ← get_or_raise (active_by_email lower email) does_not_exist
      create_api_key hash_secret user (strip name) secret true

    -- The last transaction, which lets the delivered key in. No groups are named by then.
    abbrev pub let_in : ApiKey → Action ApiKey
    let_in key = do
      modify (save_key (record key { is_active = true }))
      pure (record key { is_active = true })

    abbrev pub still_active : User → Catalog → Option User
    still_active user c = find (λ u. u.id == user.id && u.is_active) c.users

    abbrev pub activate : User → ApiKey → Action ApiKey
    activate user key =
        in_transaction (get_or_raise (still_active user) does_not_exist >>= λ _. let_in key)

    -- `send` and what follows it.
    abbrev pub deliver : Result (Unit {0}) → User → ApiKey × String → Action ApiKey
    deliver (err e) user (key, _) = do modify (save_key (record key { is_active = false })); raise e
    deliver (ok _) user (key, _) = activate user key

    abbrev pub invite_account :
        String → String → Result (Unit {0}) → List String → User → Action ApiKey
    invite_account key_name secret sent group_names user = do
      guard (not user.is_active) (value_error "Only an active user can be invited")
      guard (is_nonempty group_names)
          (value_error "Invitation does not change groups; use operator set-groups")
      create_api_key hash_secret user (strip key_name) secret false >>= deliver sent user

    unfoldable pub invite_user :
        String → String → String → Result (Unit {0}) → List String → Action ApiKey
    invite_user email key_name secret sent group_names = do
      _ ← resolve_groups group_names
      get_or_raise (by_email email)
            (value_error "Create the user with operator add-user or create-user before inviting")
          >>= invite_account key_name secret sent group_names
