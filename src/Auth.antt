-- ===== src/Auth.antt =====
-- auth/api_keys.py and mcp/token_verifier.py: from a secret to the token of an active user. The
-- digest of a secret (SHA-256 in hexadecimal) is a parameter, and so are the random secrets.
pub mod Tokens
pub mod Keys
mod Tests
use trolley.Base.{
  ℕ, ◌+◌, String, Bool, true, false, not, ◌&&◌, Option, none, some, List, [], ◌∷◌, ◌++◌, any, find,
  str_eq, ◌==◌, if◌then◌else◌, integrity_error, Error,
}
use trolley.Catalog.{Catalog, User, ApiKey, UserRole, Scope, role_eq}
use trolley.Catalog.Monad.{Action, ◌>>=◌, ◌>>◌, pure, guard, modify, gets}
use trolley.Access.{is_exploring}
use Prim.Native.String

-- `AccessToken`; a token may come without a subject or claims, though the verifier sets both.
pub record AccessToken : Type 0 where
  pub client_id : ℕ
  pub subject : Option ℕ
  pub scopes : List Scope
  pub claims : Option UserRole

-- The scopes that a role is given.
unfoldable pub role_scopes : UserRole → List Scope
role_scopes role =
    Scope.use_tools
    ∷ ((if is_exploring role then Scope.query ∷ [] else [])
        ++ (if role_eq role UserRole.admin then Scope.admin ∷ [] else []))

-- The row of a foreign key.
unfoldable pub user_by_id : ℕ → Catalog → Option User
user_by_id i c = find (λ u. u.id == i) c.users

-- `secret[:20]`
abbrev pub first : ℕ → String → String
first Prim.Native.Nat.zero s = ""
first (Prim.Native.Nat.suc n) String.[] = ""
first (Prim.Native.Nat.suc n) (String.◌∷◌ x s) = String.◌∷◌ x (first n s)

module _ (hash_secret : String → String) where
  unfoldable pub active_key : String → Catalog → Option ApiKey
  active_key token c =
      find (λ k. str_eq k.secret_hash (hash_secret token) && k.is_active) c.api_keys

  unfoldable pub verify_token : String → Catalog → Option AccessToken
  unfolding active_key role_scopes user_by_id
  verify_token token c = elim (active_key token c) [
    | none ↦ none
    | some key ↦ elim (user_by_id key.user c) [
      | none ↦ none
      | some u ↦
          if not u.is_active
          then none
          else some (record {
            client_id = key.id;
            subject = some u.id;
            scopes = role_scopes u.role;
            claims = some u.role;
          })
    ]
  ]

  abbrev pub new_key : User → String → String → Bool → ℕ → ApiKey
  new_key user name secret is_active id = record {
    id = id;
    user = user.id;
    name = name;
    secret_hash = hash_secret secret;
    key_prefix = first 20 secret;
    is_active = is_active;
  }

  -- `secret` is the caller's, or a new random one. The column of digests is unique.
  unfoldable pub create_api_key : User → String → String → Bool → Action (ApiKey × String)
  create_api_key user name secret is_active = do
    c ← gets (λ c. c)
    guard (any (λ k. str_eq k.secret_hash (hash_secret secret)) c.api_keys) integrity_error
    modify (λ c. record c {
      api_keys = c.api_keys ++ new_key user name secret is_active c.next_id ∷ [];
      next_id = c.next_id + 1;
    })
    pure (new_key user name secret is_active c.next_id, secret)
