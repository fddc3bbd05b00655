-- ===== src/Users/Invitation.antt =====
-- A key that is sent by mail lets its user in only once the mail is delivered.
use trolley.Base.{
  ℕ, ◌+◌, String, Bool, true, false, ◌&&◌, none, some, List, [], ◌∷◌, ◌++◌, any, find, str_eq,
  strip, ◌==◌, ◌≡◌, refl, ap, ◌∙◌, inl, inr, Result, ok, err, Error, value_error, does_not_exist,
  not, arith, update_where, Bool-cases, eq_refl, if◌then◌else◌,
}
use trolley.Catalog.{Catalog, User, ApiKey}
use trolley.Catalog.Monad.{
  ◌>>=◌, >>=-ok, >>-ok, in_transaction-ok, guard, get_or_raise, get_or_raise-ok,
}
use trolley.Auth.{verify_token, active_key, user_by_id, create_api_key, new_key}
use trolley.Auth.Keys.{has_hash, new_token}
use trolley.Groups.{resolve_groups, resolve_each}
use trolley.Users.{by_email, deliver, let_in, still_active, invite_account, invite_user}

module _ (hash_secret : String → String) where
  abbrev is_key : String → ApiKey → Bool
  is_key secret k = str_eq k.secret_hash (hash_secret secret) && k.is_active

  -- Among rows of other digests and a new row, the saved row alone answers the secret.
  find-save_key :
      (secret : String) (key old : ApiKey) (ks : List ApiKey)
      → any (λ k. str_eq k.secret_hash (hash_secret secret)) ks ≡ false
      → str_eq key.secret_hash (hash_secret secret) ≡ true
      → old.id ≡ key.id
      → find (is_key secret) (update_where (λ k. k.id == key.id) (λ _. key) (ks ++ old ∷ []))
        ≡ (if key.is_active then some key else none)
  find-save_key secret key old [] fresh same ids = elim (Bool-cases key.is_active) [
    | inl on ↦ ground (arith, same, ids, on)
    | inr off ↦ ground (arith, same, ids, off)
  ]
  find-save_key secret key old (k ∷ ks) fresh same ids =
      ground (arith, find-save_key secret key old ks, same)

  find-active_user :
      (i : ℕ) (us : List User) (u : User)
      → find (λ x. x.id == i) us ≡ some u
      → u.is_active ≡ true
      → find (λ x. x.id == i && x.is_active) us ≡ some u
  find-active_user i [] u found active = cc
  find-active_user i (x ∷ us) u found active = ground (arith, find-active_user i us u)

  -- The catalog with the key that is about to be sent.
  abbrev sent_key : User → String → String → Catalog → ApiKey
  sent_key u key_name secret c = new_key hash_secret u (strip key_name) secret false c.next_id

  abbrev with_key : User → String → String → Catalog → Catalog
  with_key u key_name secret c = record c {
    api_keys = c.api_keys ++ sent_key u key_name secret c ∷ [];
    next_id = c.next_id + 1;
  }

  deliver-verify_token :
      (lower : String → String) (key_name secret : String) (sent : Result (Unit {0})) (u : User)
      (c : Catalog)
      → u.is_active ≡ true
      → user_by_id u.id c ≡ some u
      → has_hash hash_secret secret c ≡ false
      → verify_token hash_secret secret
          (deliver lower hash_secret sent u
            (sent_key u key_name secret c, secret)
            (with_key u key_name secret c)).1
        ≡ (elim sent [ ok _ ↦ some (new_token hash_secret u c) | err _ ↦ none ])
  unfolding verify_token active_key user_by_id
  deliver-verify_token lower key_name secret (err e) u c active row fresh =
      rw
        (
          verify_token,
          find-save_key secret (sent_key u key_name secret c) (sent_key u key_name secret c)
              c.api_keys fresh (eq_refl (hash_secret secret)) refl,
        )
        refl
  deliver-verify_token lower key_name secret (ok _) u c active row fresh =
      ap (λ p. verify_token hash_secret secret p.1)
        (in_transaction-ok
          (get_or_raise (still_active lower hash_secret u) does_not_exist >>= λ _.
            let_in lower hash_secret key)
          (>>=-ok (get_or_raise (still_active lower hash_secret u) does_not_exist)
            (λ _. let_in lower hash_secret key) {c = with_key u key_name secret c}
            (get_or_raise-ok (still_active lower hash_secret u) does_not_exist
              {c = with_key u key_name secret c} (find-active_user u.id c.users u row active))))
      ∙ rw
          (
            verify_token,
            find-save_key secret (record key { is_active = true }) key c.api_keys fresh
                (eq_refl (hash_secret secret)) refl,
          )
          (ground (arith, row, active))
    where
      key : ApiKey
      key = sent_key u key_name secret c

  create_api_key-ok :
      (u : User) (name secret : String) (is_active : Bool) (c : Catalog)
      → has_hash hash_secret secret c ≡ false
      → create_api_key hash_secret u name secret is_active c ≡ (
        ok (new_key hash_secret u name secret is_active c.next_id, secret),
        record c {
          api_keys = c.api_keys ++ new_key hash_secret u name secret is_active c.next_id ∷ [];
          next_id = c.next_id + 1;
        },
      )
  unfolding create_api_key
  create_api_key-ok u name secret is_active c fresh = rw fresh refl

  invite_user-deliver :
      (lower : String → String) (email key_name secret : String) (sent : Result (Unit {0}))
      (u : User) (c : Catalog)
      → by_email lower email c ≡ some u
      → u.is_active ≡ true
      → has_hash hash_secret secret c ≡ false
      → invite_user lower hash_secret email key_name secret sent [] c
        ≡ deliver lower hash_secret sent u
            (sent_key u key_name secret c, secret)
            (with_key u key_name secret c)
  unfolding invite_user resolve_groups resolve_each
  invite_user-deliver lower email key_name secret sent u c found active fresh =
      >>=-ok (get_or_raise (by_email lower email) missing)
        (invite_account lower hash_secret key_name secret sent []) {c = c}
        (get_or_raise-ok (by_email lower email) missing {c = c} found)
      ∙ >>-ok (guard (not u.is_active) inactive)
          (create_api_key hash_secret u (strip key_name) secret false
            >>= deliver lower hash_secret sent u)
          c c (ap (λ b. guard (not b) inactive c) active)
      ∙ >>=-ok (create_api_key hash_secret u (strip key_name) secret false)
          (deliver lower hash_secret sent u) {c = c}
          (create_api_key-ok u (strip key_name) secret false c fresh)
    where
      missing : Error
      missing = value_error "Create the user with operator add-user or create-user before inviting"

      inactive : Error
      inactive = value_error "Only an active user can be invited"

  -- An invitation of an active account, with a secret whose digest is not in use, makes a key that
  -- the verifier accepts exactly if the mail was delivered; if it was not, the call raises the
  -- error of the delivery and the key stays inactive.
  pub invite_user-verify_token :
      (lower : String → String) (email key_name secret : String) (sent : Result (Unit {0}))
      (u : User) (c : Catalog)
      → by_email lower email c ≡ some u
      → u.is_active ≡ true
      → user_by_id u.id c ≡ some u
      → has_hash hash_secret secret c ≡ false
      → verify_token hash_secret secret
          (invite_user lower hash_secret email key_name secret sent [] c).1
        ≡ (elim sent [ ok _ ↦ some (new_token hash_secret u c) | err _ ↦ none ])
  invite_user-verify_token lower email key_name secret sent u c found active row fresh =
      ap (λ p. verify_token hash_secret secret p.1)
        (invite_user-deliver lower email key_name secret sent u c found active fresh)
      ∙ deliver-verify_token lower key_name secret sent u c active row fresh
