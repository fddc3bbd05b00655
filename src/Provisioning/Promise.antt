-- ===== src/Provisioning/Promise.antt =====
-- What a provisioning that returns has done.
use trolley.Base.{
  ℕ, String, true, not, List, [], ◌∷◌, all, find, In-append, find-In, contains, str_eq, eq_iff,
  ◌&&◌, ◌≡◌, refl, ap, sym, subst, ◌∙◌, ◌⊎◌, inl, inr, In, Result, ok, err, Error, http_exception,
  arith, Bool-cases, Option-cases, Result-cases,
}
use trolley.Catalog.{Catalog, User, Target}
use trolley.Catalog.Monad.{
  Action, ◌>>=◌, ◌>>◌, guard, in_transaction, >>=-returns, in_transaction-returns,
  in_transaction-err,
}
use trolley.Access.{is_granted, active_target}
use trolley.Auth.{create_api_key}
use trolley.Provisioning.{
  unavailable, find_targets, get_or_create_user, open_targets, issue_key, provision_account,
  provision_user, provision,
}
use trolley.Provisioning.Reach.{Extends, Extends-trans, Extends-is_granted, open_targets-is_granted}

-- The rows that the names stand for.
abbrev pub AreFound : List String → List Target → Type 0
AreFound names targets =
    (name : String)
    → In name names
    → (t : Target) × In t targets × (t.name ≡ name) × (t.is_active ≡ true)

find_targets-AreFound :
    (names : List String) (targets : List Target) (c : Catalog)
    → (find_targets names c).0 ≡ ok targets
    → AreFound names targets × ((find_targets names c).1 ≡ c)
unfolding find_targets
find_targets-AreFound [] targets c h = (λ name m. absurd m, refl)
find_targets-AreFound (n ∷ names) targets c h = elim (Option-cases (active_target n c)) [
  | inl e ↦ absurd (ground (arith, e, h))
  | inr (t, e) ↦ elim (Result-cases (find_targets names c).0) [
    | inr (x, f) ↦ absurd (ground (arith, e, f, h))
    | inl (ts, f) ↦
        let (rest, same) = find_targets-AreFound names ts c f in
        let all_of : t ∷ ts ≡ targets = ground (arith, e, f, h) in
        let (_, good) = find-In (λ x. str_eq x.name n && x.is_active) c.targets t e in
        (
          subst (AreFound (n ∷ names)) all_of (λ name m. elim m [
            | inl here ↦
                (t, inl refl, ground (arith, eq_iff t.name n, good, here), ground (arith, good))
            | inr there ↦ let (x, l, named, active) = rest name there in (x, inr l, named, active)
          ]),
          ground (arith, e, f, same),
        )
  ]
]

get_or_create_user-row :
    (email : String) (c : Catalog)
    → let (u, c') = get_or_create_user email c in (u.email ≡ email) × In u c'.users
unfolding get_or_create_user
get_or_create_user-row email c = elim (Option-cases (find (λ u. str_eq u.email email) c.users)) [
  | inl e ↦ rw (get_or_create_user, e) (refl, (In-append _ c.users _).1 (inr (inl refl)))
  | inr (u, e) ↦
      let (m, t) = find-In (λ x. str_eq x.email email) c.users u e in
      rw (get_or_create_user, e) ((eq_iff u.email email).0 t, m)
]

module _ (managed_name : ℕ → String) (hash_secret : String → String) where
  Extends-issue_key :
      (secret : String) (user : User) (c : Catalog)
      → Extends c (issue_key managed_name hash_secret secret user c).1
  unfolding create_api_key
  Extends-issue_key secret user c =
      let c' = (issue_key managed_name hash_secret secret user c).1 in
      let users_eq : c'.users ≡ c.users = ground arith in
      let grants_eq : c'.grants ≡ c.grants = ground arith in
      let memberships_eq : c'.memberships ≡ c.memberships = ground arith in
      record {
        users = λ u k. subst (In u) (sym users_eq) k;
        grants = λ g m. subst (In g) (sym grants_eq) m;
        memberships = λ m n. subst (In m) (sym memberships_eq) n;
      }

  -- What the caller is promised: an active account with the e-mail of the request, which reaches an
  -- active target of every name through its groups.
  abbrev pub IsProvisioned : String → List String → Catalog → Type 0
  IsProvisioned email names c =
      (u : User) × In u c.users
      × (u.email ≡ email)
      × (u.is_active ≡ true)
      × ((name : String)
          → In name names
          → (t : Target) × (t.name ≡ name) × (t.is_active ≡ true) × (is_granted c u.id t.id ≡ true))

  provision_account-IsProvisioned :
      (email secret s : String) (names : List String) (targets : List Target) (user : User)
      (c : Catalog)
      → AreFound names targets
      → In user c.users
      → user.email ≡ email
      → (provision_account managed_name hash_secret secret targets user c).0 ≡ ok s
      → IsProvisioned email names
          (provision_account managed_name hash_secret secret targets user c).1
  provision_account-IsProvisioned email secret s names targets user c found row named h =
      elim (Bool-cases user.is_active) [
        | inr off ↦ absurd (ground (arith, off, h))
        | inl on ↦
            let opens = open_targets managed_name hash_secret user.id targets in
            let issue = issue_key managed_name hash_secret secret user in
            let run : provision_account managed_name hash_secret secret targets user c
                ≡ (opens >>= λ _. issue) c =
              ap
                (λ b.
                  (guard (not b) (http_exception 409 "User is inactive") >> (opens >>= λ _. issue))
                    c)
                on in
            let (_, c1, e, rest) = >>=-returns opens (λ _. issue) c (ap (λ p. p.0) (sym run) ∙ h) in
            let (kept, reached) =
              subst
                (λ p.
                  Extends c p.1
                  × ((t : Target) → In t targets → is_granted p.1 user.id t.id ≡ true))
                e
                (open_targets-is_granted managed_name hash_secret user.id targets c
                  (ap (λ p. p.0) e)) in
            let issued = Extends-issue_key secret user c1 in
            subst (λ p. IsProvisioned email names p.1) (sym (run ∙ rest))
              (
                user,
                (Extends-trans kept issued).users user row,
                named,
                on,
                λ name m.
                    let (t, there, e', active) = found name m in
                    (t, e', active, Extends-is_granted user.id t.id issued (reached t there)),
              )
      ]

  -- A provisioning that returns a key was for configured targets only, and its account, active and
  -- of the e-mail asked for, reaches an active target of every name through a group; one that raises
  -- changes nothing.
  pub provision-IsProvisioned :
      (settings : List String) (email : String) (names : List String) (secret : String)
      (c : Catalog)
      → let (r, c') = provision managed_name hash_secret settings email names secret c in
        ((s : String) × (r ≡ ok s)
          × (all (contains settings) names ≡ true)
          × IsProvisioned email names c')
        ⊎ ((x : Error) × (r ≡ err x) × (c' ≡ c))
  unfolding provision
  provision-IsProvisioned settings email names secret c =
      elim (Bool-cases (all (contains settings) names)) [
        | inr unknown ↦ inr (unavailable, ground (arith, unknown), ground (arith, unknown))
        | inl known ↦
            let run : whole ≡ in_transaction block c =
              ap (λ b. (guard (not b) unavailable >> in_transaction block) c) known in
            elim (Result-cases (in_transaction block c).0) [
              | inr (x, e) ↦
                  inr (x, ap (λ p. p.0) run ∙ e, ap (λ p. p.1) run ∙ in_transaction-err block c e)
              | inl (s, e) ↦
                  let same = in_transaction-returns block c e in
                  let (targets, c1, e1, rest) =
                    >>=-returns (find_targets names)
                      (provision_user managed_name hash_secret email secret) c
                      (ap (λ p. p.0) (sym same) ∙ e) in
                  let (found, _) = find_targets-AreFound names targets c (ap (λ p. p.0) e1) in
                  let (named, row) = get_or_create_user-row email c1 in
                  inl (
                    s,
                    ap (λ p. p.0) run ∙ e,
                    known,
                    subst (λ p. IsProvisioned email names p.1) (sym (run ∙ same ∙ rest))
                        (provision_account-IsProvisioned email secret s names targets
                          (get_or_create_user email c1).0 (get_or_create_user email c1).1 found row
                          named (ap (λ p. p.0) (sym rest) ∙ ap (λ p. p.0) (sym same) ∙ e)),
                  )
            ]
      ]
    where
      block : Action String
      block = find_targets names >>= provision_user managed_name hash_secret email secret

      whole : Result String × Catalog
      whole = provision managed_name hash_secret settings email names secret c
