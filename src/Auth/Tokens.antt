-- ===== src/Auth/Tokens.antt =====
-- What a verified token stands for.
use trolley.Base.{
  String, true, ◌&&◌, some, ◌≡◌, ◌≢◌, ◌↔◌, In, find-In, arith, eq_iff, str_eq, ◌==◌, Option-cases,
  any, inl, inr,
}
use trolley.Catalog.{Catalog, User, ApiKey, UserRole, Scope, scope_eq}
use trolley.Auth.{AccessToken, role_scopes, user_by_id, active_key, verify_token}

-- What a role is for.
abbrev pub RoleAllows : UserRole → Scope → Type 0
RoleAllows role Scope.use_tools = Unit
RoleAllows role Scope.query = role ≢ UserRole.user
RoleAllows role Scope.admin = role ≡ UserRole.admin

pub role_scopes_iff :
    (role : UserRole) (scope : Scope)
    → (any (scope_eq scope) (role_scopes role) ≡ true) ↔ RoleAllows role scope
unfolding role_scopes
role_scopes_iff UserRole.admin scope = ground arith
role_scopes_iff UserRole.developer scope = ground arith
role_scopes_iff UserRole.user scope = ground arith

module _ (hash_secret : String → String) where
  -- The rows that make a token good: an active key with the digest of the secret, and the active
  -- user that it belongs to, with the role of the moment.
  pub record Vouched (c : Catalog) (secret : String) (token : AccessToken) : Type 0 where
    pub key : ApiKey
    pub key_listed : In key c.api_keys
    pub key_hash : key.secret_hash ≡ hash_secret secret
    pub key_active : key.is_active ≡ true
    pub user : User
    pub user_listed : In user c.users
    pub owner : user.id ≡ key.user
    pub user_active : user.is_active ≡ true
    pub client_eq : token.client_id ≡ key.id
    pub subject_eq : token.subject ≡ some user.id
    pub scopes_eq : token.scopes ≡ role_scopes user.role
    pub claims_eq : token.claims ≡ some user.role

  -- A token is issued only for an active key of the secret whose user is active; it names that key
  -- and that user, and carries the scopes of the role that the user has now.
  pub verify_token-Vouched :
      (secret : String) (c : Catalog) (token : AccessToken)
      → verify_token hash_secret secret c ≡ some token
      → Vouched c secret token
  unfolding verify_token
  verify_token-Vouched secret c token h = elim (Option-cases (active_key hash_secret secret c)) [
    | inl missing ↦ cc (rw (missing, verify_token) at h)
    | inr (key, found) ↦ elim (Option-cases (user_by_id key.user c)) [
      | inl missing ↦ ground arith
      | inr (u, owner) ↦
          let (key_listed, k) =
            find-In (λ k. str_eq k.secret_hash (hash_secret secret) && k.is_active) c.api_keys key
              found in
          let (user_listed, same) = find-In (λ u. u.id == key.user) c.users u owner in
          record {
            key = key;
            key_listed = key_listed;
            key_hash = ground (arith, eq_iff key.secret_hash (hash_secret secret));
            key_active = ground arith;
            user = u;
            user_listed = user_listed;
            owner = ground arith;
            user_active = ground arith;
            client_eq = ground arith;
            subject_eq = ground arith;
            scopes_eq = ground arith;
            claims_eq = ground arith;
          }
    ]
  ]
