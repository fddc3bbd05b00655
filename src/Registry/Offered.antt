-- ===== src/Registry/Offered.antt =====
-- Which tools are there after the registry has loaded or reloaded.
use trolley.Base.{
  ℕ, String, Bool, true, false, ◌≡◌, refl, sym, ap, ◌∙◌, inl, inr, ◌&&◌, ◌||◌, some, List, [], ◌∷◌,
  any, filter, contains, str_eq, ok, if◌then◌else◌, arith, Bool-cases, Result-cases, find-In,
  eq_iff,
}
use Prim.Native.String
use Prim.Native.Nat.{Ordering}
use trolley.Catalog.{Catalog, Operation}
use trolley.Executions.{operation_named}
use trolley.Registry.{
  ToolServer, Registry, is_reserved, is_offered, insert_by_name, by_name, offered, conflicts,
  cleared, register_all, load, reload, forget,
}
use trolley.Registry.Synced.{
  IsSynced, has_tool, register_names, register-IsSynced, register_all-IsSynced, register_all_names,
  cleared-IsSynced, forget_names, forget-IsSynced,
}

abbrev pub is_called : String → Operation → Bool
is_called n o = str_eq o.name n

any-insert_by_name :
    (p : Operation → Bool) (o : Operation) (os : List Operation)
    → any p (insert_by_name o os) ≡ (p o || any p os)
any-insert_by_name p o [] = refl
any-insert_by_name p o (q ∷ os) = go (String.compare o.name q.name) (any-insert_by_name p o os)
  where
    go :
        (x : Ordering)
        → any p (insert_by_name o os) ≡ (p o || any p os)
        → any p (elim x [ Ordering.gt ↦ q ∷ insert_by_name o os | _ ↦ o ∷ q ∷ os ])
          ≡ (p o || any p (q ∷ os))
    go Ordering.gt e = ground (arith, e)
    go Ordering.lt e = refl
    go Ordering.eq e = refl

any-by_name : (p : Operation → Bool) (os : List Operation) → any p (by_name os) ≡ any p os
any-by_name p [] = refl
any-by_name p (o ∷ os) = any-insert_by_name p o (by_name os) ∙ ap (λ b. p o || b) (any-by_name p os)

any-filter :
    (p q : Operation → Bool) (os : List Operation) → any p (filter q os) ≡ any (λ o. q o && p o) os
any-filter p q [] = refl
any-filter p q (o ∷ os) = ground (arith, any-filter p q os)

-- An offered operation has that name.
abbrev pub is_offered_name : Catalog → String → Bool
is_offered_name c n = any (λ o. is_offered c o && is_called n o) c.operations

module _ (server : ToolServer) where
  offered_names :
      (c : Catalog) (n : String) → any (is_called n) (offered server c) ≡ is_offered_name c n
  offered_names c n =
      any-by_name (is_called n) (filter (is_offered c) c.operations)
      ∙ any-filter (is_called n) (is_offered c) c.operations

  pub load-IsSynced :
      (c : Catalog) (r : Registry server) → IsSynced server r → IsSynced server (load server c r).1
  unfolding load
  load-IsSynced c r h = go (conflicts server (offered server c)) refl
    where
      go :
          (xs : List String)
          → conflicts server (offered server c) ≡ xs
          → IsSynced server (load server c r).1
      go (x ∷ xs) e = rw (e, load) h
      go [] e =
          let fresh = cleared-IsSynced server r h in
          let all = register_all-IsSynced server (offered server c) (cleared server r) fresh in
          elim (Result-cases (register_all server (offered server c) (cleared server r)).0) [
            | inr (x, failed) ↦ rw (e, load, failed) all
            | inl (u, done) ↦ rw (e, load, done) all
          ]

  load_names :
      (c : Catalog) (r : Registry server) (k : ℕ) (n : String)
      → (load server c r).0 ≡ ok k
      → contains (Registry.names (load server c r).1) n ≡ is_offered_name c n
  unfolding load
  load_names c r k n h = go (conflicts server (offered server c)) refl
    where
      go :
          (xs : List String)
          → conflicts server (offered server c) ≡ xs
          → contains (Registry.names (load server c r).1) n ≡ is_offered_name c n
      go (x ∷ xs) e = absurd (ground (arith, e, h))
      go [] e = elim (Result-cases (register_all server (offered server c) (cleared server r)).0) [
        | inr (x, failed) ↦ absurd (ground (arith, e, failed, h))
        | inl (u, done) ↦
            rw (e, load, done)
              (register_all_names server (offered server c) (cleared server r) n done
                ∙ ground (arith, offered_names c n))
      ]

  -- A registry that was in step with its table is in step after loading, also where loading raises;
  -- where it returns, the tools are exactly the system tools and the active operations of active
  -- targets.
  pub load_tools :
      (c : Catalog) (r : Registry server)
      → IsSynced server r
      → IsSynced server (load server c r).1
        × ((k : ℕ) (n : String)
            → (load server c r).0 ≡ ok k
            → has_tool server n (load server c r).1 ≡ (is_reserved n || is_offered_name c n))
  load_tools c r h = (
    load-IsSynced c r h,
    λ k n e. (load-IsSynced c r h).tools n ∙ ap (λ b. is_reserved n || b) (load_names c r k n e),
  )

  operation_named-called :
      (name : String) (c : Catalog) (o : Operation)
      → operation_named name c ≡ some o
      → str_eq o.name name ≡ true
  operation_named-called name c o h = (find-In (λ x. str_eq x.name name) c.operations o h).1

  reload_names :
      (name : String) (c : Catalog) (r : Registry server) (o : Operation) (n : String)
      → operation_named name c ≡ some o
      → str_eq o.name name ≡ true
      → (reload server name c r).0 ≡ ok tt
      → contains (Registry.names (reload server name c r).1) n
        ≡ (if str_eq name n then is_offered c o else contains (Registry.names r) n)
  unfolding reload
  reload_names name c r o n found called h =
      let same : o.name ≡ name = (eq_iff o.name name).0 called in
      elim (Bool-cases (is_offered c o)) [
        | inl on ↦
            rw (found, reload, on)
              (register_names server o (forget server name r) (rw (found, reload, on) at h) n
                ∙ rw same (ground (arith, forget_names server name r n)))
        | inr off ↦ rw (found, reload, off) (ground (arith, forget_names server name r n))
      ]

  reload-IsSynced :
      (name : String) (c : Catalog) (r : Registry server) (o : Operation)
      → operation_named name c ≡ some o
      → IsSynced server r
      → IsSynced server (reload server name c r).1
  unfolding reload
  reload-IsSynced name c r o found h = elim (Bool-cases (is_offered c o)) [
    | inl on ↦
        rw (found, reload, on)
          (register-IsSynced server o (forget server name r) (forget-IsSynced server name r h))
    | inr off ↦ rw (found, reload, off) (forget-IsSynced server name r h)
  ]

  -- A registry in step with its table is in step after reloading an operation of the catalog, also
  -- where reloading raises; where it returns, the operation has a tool exactly if it is offered (or
  -- its name is a system tool's), and every other tool is there exactly if it was.
  pub reload_tools :
      (name : String) (c : Catalog) (r : Registry server) (o : Operation)
      → operation_named name c ≡ some o
      → IsSynced server r
      → IsSynced server (reload server name c r).1
        × ((n : String)
            → (reload server name c r).0 ≡ ok tt
            → has_tool server n (reload server name c r).1
              ≡ (if str_eq name n then is_reserved n || is_offered c o else has_tool server n r))
  reload_tools name c r o found h = (
    reload-IsSynced name c r o found h,
    λ n e.
        (reload-IsSynced name c r o found h).tools n
        ∙ ap (λ b. is_reserved n || b)
            (reload_names name c r o n found (operation_named-called name c o found) e)
        ∙ two_cases (is_reserved n) (str_eq name n) (is_offered c o) _ _ (h.tools n),
  )
    where
      two_cases :
          (a b x y z : Bool)
          → z ≡ (a || y)
          → (a || (if b then x else y)) ≡ (if b then a || x else z)
      two_cases a true x y z e = refl
      two_cases a false x y z e = sym e
