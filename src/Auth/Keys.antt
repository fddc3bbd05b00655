-- ===== src/Auth/Keys.antt =====
-- A key that was just created, seen by the verifier.
use trolley.Base.{
  String, Bool, true, false, ◌&&◌, none, some, List, [], ◌∷◌, ◌++◌, ◌≡◌, refl, ◌≢◌, find, arith,
  eq_iff, eq_refl, str_eq, Option-cases, Bool-cases, if◌then◌else◌, any, inl, inr,
}
use trolley.Catalog.{Catalog, User, ApiKey}
use trolley.Auth.{AccessToken, role_scopes, user_by_id, verify_token, create_api_key, new_key}

find-append_new {ℓ} :
    {A : Type ℓ} (p : A → Bool) (xs : List A) (a : A)
    → find p (xs ++ a ∷ [])
      ≡ (elim (find p xs) [ none ↦ (if p a then some a else none) | some b ↦ some b ])
find-append_new p [] a = refl
find-append_new p (x ∷ xs) a = ground (arith, find-append_new p xs a)

module _ (hash_secret : String → String) where
  abbrev pub has_hash : String → Catalog → Bool
  has_hash secret c = any (λ k. str_eq k.secret_hash (hash_secret secret)) c.api_keys

  abbrev is_key : String → ApiKey → Bool
  is_key secret k = str_eq k.secret_hash (hash_secret secret) && k.is_active

  no_active_key :
      (secret : String) (ks : List ApiKey)
      → any (λ k. str_eq k.secret_hash (hash_secret secret)) ks ≡ false
      → find (is_key secret) ks ≡ none
  no_active_key secret [] h = refl
  no_active_key secret (k ∷ ks) h = ground (arith, no_active_key secret ks)

  -- The token of the key that `create_api_key` appends.
  abbrev pub new_token : User → Catalog → AccessToken
  new_token u c = record {
    client_id = c.next_id;
    subject = some u.id;
    scopes = role_scopes u.role;
    claims = some u.role;
  }

  -- A new key whose digest is not yet in use is accepted at once for its active user, and only if
  -- it is created active: an inactive key lets nobody in until it is activated.
  pub create_api_key-verify_token :
      (u : User) (name secret : String) (is_active : Bool) (c : Catalog)
      → has_hash secret c ≡ false
      → user_by_id u.id c ≡ some u
      → u.is_active ≡ true
      → verify_token hash_secret secret (create_api_key hash_secret u name secret is_active c).1
        ≡ (if is_active then some (new_token u c) else none)
  unfolding create_api_key verify_token
  create_api_key-verify_token u name secret is_active c fresh owner active =
      rw
        (
          fresh,
          find-append_new (is_key secret) c.api_keys
              (new_key hash_secret u name secret is_active c.next_id),
          no_active_key secret c.api_keys fresh,
          eq_refl,
        )
        (elim (Bool-cases is_active) [ inl on ↦ rw (on, owner, active) | inr off ↦ rw off ])

  -- A secret with another digest is answered as before, whether or not the key is created.
  create_api_key-verify_token_ne :
      (u : User) (name secret other : String) (is_active : Bool) (c : Catalog)
      → hash_secret secret ≢ hash_secret other
      → verify_token hash_secret other (create_api_key hash_secret u name secret is_active c).1
        ≡ verify_token hash_secret other c
  unfolding create_api_key verify_token
  create_api_key-verify_token_ne u name secret other is_active c ne =
      let other_hash : str_eq (hash_secret secret) (hash_secret other) ≡ false =
        ground (arith, eq_iff (hash_secret secret) (hash_secret other)) in
      elim (Bool-cases (has_hash secret c)) [
        | inl used ↦ rw used
        | inr new ↦
            rw
              (
                new,
                find-append_new (is_key other) c.api_keys
                    (new_key hash_secret u name secret is_active c.next_id),
              )
              (elim (Option-cases (find (is_key other) c.api_keys)) [
                | inl missing ↦ rw (missing, other_hash) (ground arith)
                | inr (k, found) ↦ rw found (ground arith)
              ])
      ]
