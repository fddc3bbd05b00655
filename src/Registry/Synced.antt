-- ===== src/Registry/Synced.antt =====
-- The table of tools against the names that the registry keeps and the operations of the catalog.
use trolley.Base.{
  String, Bool, true, false, not, ◌≡◌, refl, sym, ap, ◌∙◌, inl, inr, ◌&&◌, ◌||◌, Option, none, some,
  List, [], ◌∷◌, any, filter, contains, str_eq, eq_iff, ok, if◌then◌else◌, arith, Bool-cases,
  Result-cases, subst,
}
use trolley.Catalog.{Operation}
use trolley.Executions.{is_some}
use trolley.Registry.{
  ToolServer, Tool, Registry, is_reserved, register, register_all, remove_all, cleared, forget,
  tool_of, tool_signature,
}

module _ (server : ToolServer) where
  open server use {Table, find_tool, add_tool, remove_tool, find-add, find-remove}

  abbrev pub has_tool : String → Registry server → Bool
  has_tool n r = is_some (find_tool n (Registry.table r))

  -- A tool is in the table exactly if it is a system tool or the registry keeps its name, and the
  -- registry keeps no name of a system tool.
  pub record IsSynced (r : Registry server) : Type 0 where
    pub tools : (n : String) → has_tool n r ≡ (is_reserved n || contains (Registry.names r) n)
    pub unreserved : (n : String) → contains (Registry.names r) n ≡ true → is_reserved n ≡ false

  is_some-none : {A : Type 0} (o : Option A) → is_some o ≡ false → o ≡ none
  is_some-none none h = refl
  is_some-none (some a) h = cc

  is_some-if :
      {A : Type 0} (b : Bool) (x y : Option A)
      → is_some (if b then x else y) ≡ (if b then is_some x else is_some y)
  is_some-if true x y = refl
  is_some-if false x y = refl

  -- What a registration does to the names.
  pub register_names :
      (o : Operation) (r : Registry server)
      → ((register server o r).0 ≡ ok tt)
      → (n : String)
      → contains (Registry.names (register server o r).1) n
        ≡ (str_eq o.name n || contains (Registry.names r) n)
  unfolding register
  register_names o r h n = elim (Bool-cases (is_reserved o.name)) [
    | inl reserved ↦ absurd (ground (arith, reserved, h))
    | inr free ↦ elim (Bool-cases (contains (Registry.names r) o.name)) [
      | inl old ↦
          rw (free, old)
            (elim (Bool-cases (str_eq o.name n)) [
              | inl same ↦
                  rw same (
                    subst (λ x. contains (Registry.names r) x ≡ true) ((eq_iff o.name n).0 same)
                      old)
              | inr other ↦ rw other refl
            ])
      | inr new ↦ elim (Result-cases (tool_signature o.input_schema)) [
        | inr (e, failed) ↦ absurd (ground (arith, free, new, failed, h))
        | inl (s, made) ↦ ground (arith, free, new, made)
      ]
    ]
  ]

  pub register-IsSynced :
      (o : Operation) (r : Registry server) → IsSynced r → IsSynced (register server o r).1
  unfolding register
  register-IsSynced o r h = elim (Bool-cases (is_reserved o.name)) [
    | inl reserved ↦ rw reserved h
    | inr free ↦ elim (Bool-cases (contains (Registry.names r) o.name)) [
      | inl old ↦ rw (free, old) h
      | inr new ↦ elim (Result-cases (tool_signature o.input_schema)) [
        | inr (e, failed) ↦ rw (free, new, failed) h
        | inl (s, made) ↦
            rw (free, new, made)
              (record {
                tools = λ n.
                    ap is_some (
                      find-add (tool_of server o s) (Registry.table r) n
                        (is_some-none _ (h.tools o.name ∙ ground (arith, free, new))))
                    ∙ is_some-if (str_eq o.name n) _ _
                    ∙ ground (arith, h.tools n);
                unreserved = λ n m. elim (Bool-cases (str_eq o.name n)) [
                  | inl same ↦ subst (λ x. is_reserved x ≡ false) ((eq_iff o.name n).0 same) free
                  | inr other ↦ h.unreserved n (ground (arith, other, m))
                ];
              })
      ]
    ]
  ]

  pub register_all-IsSynced :
      (os : List Operation) (r : Registry server)
      → IsSynced r
      → IsSynced (register_all server os r).1
  unfolding register_all
  register_all-IsSynced [] r h = h
  register_all-IsSynced (o ∷ os) r h = elim (Result-cases (register server o r).0) [
    | inr (e, failed) ↦ rw (failed, register_all) (register-IsSynced o r h)
    | inl (u, done) ↦
        rw (done, register_all)
          (register_all-IsSynced os (register server o r).1 (register-IsSynced o r h))
  ]

  pub register_all_names :
      (os : List Operation) (r : Registry server) (n : String)
      → (register_all server os r).0 ≡ ok tt
      → contains (Registry.names (register_all server os r).1) n
        ≡ (any (λ (o : Operation). str_eq o.name n) os || contains (Registry.names r) n)
  unfolding register_all
  register_all_names [] r n h = refl
  register_all_names (o ∷ os) r n h = elim (Result-cases (register server o r).0) [
    | inr (e, failed) ↦ absurd (ground (arith, failed, h))
    | inl (u, done) ↦
        rw (done, register_all)
          (register_all_names os (register server o r).1 n (rw (done, register_all) at h)
            ∙ ground (arith, register_names o r done n))
  ]

  find-remove_all :
      (ns : List String) (s : Table) (n : String)
      → find_tool n (remove_all server ns s) ≡ (if contains ns n then none else find_tool n s)
  find-remove_all [] s n = refl
  find-remove_all (m ∷ ns) s n =
      find-remove_all ns (remove_tool m s) n
      ∙ rw (find-remove m s n) (two_tests (contains ns n) (str_eq m n) (find_tool n s))
    where
      two_tests :
          (a b : Bool) (x : Option Tool)
          → (if a then none else if b then none else x) ≡ (if b || a then none else x)
      two_tests true true x = refl
      two_tests true false x = refl
      two_tests false true x = refl
      two_tests false false x = refl

  pub cleared-IsSynced : (r : Registry server) → IsSynced r → IsSynced (cleared server r)
  cleared-IsSynced r h = record {
    tools = λ n. elim (Bool-cases (contains (Registry.names r) n)) [
      | inl kept ↦
          ap is_some (find-remove_all (Registry.names r) (Registry.table r) n)
          ∙ rw (kept, h.unreserved n kept) refl
      | inr other ↦
          ap is_some (find-remove_all (Registry.names r) (Registry.table r) n)
          ∙ rw other (h.tools n ∙ ground (arith, other))
    ];
    unreserved = λ n m. cc;
  }

  contains-filter :
      (name : String) (ns : List String) (n : String)
      → contains (filter (λ m. not (str_eq m name)) ns) n ≡ (contains ns n && not (str_eq name n))
  contains-filter name [] n = refl
  contains-filter name (m ∷ ns) n =
      ground (arith, contains-filter name ns n, eq_iff m name, eq_iff m n, eq_iff name n)

  pub forget_names :
      (name : String) (r : Registry server) (n : String)
      → contains (Registry.names (forget server name r)) n
        ≡ (contains (Registry.names r) n && not (str_eq name n))
  forget_names name r n = elim (Bool-cases (contains (Registry.names r) name)) [
    | inl there ↦ rw (there, forget) (contains-filter name (Registry.names r) n)
    | inr absent ↦
        rw (absent, forget)
          (elim (Bool-cases (str_eq name n)) [
            | inl same ↦
                let gone : contains (Registry.names r) n ≡ false =
                  subst (λ x. contains (Registry.names r) x ≡ false) ((eq_iff name n).0 same)
                    absent in
                rw (gone) refl
            | inr other ↦ rw other (ground arith)
          ])
  ]

  pub forget-IsSynced :
      (name : String) (r : Registry server) → IsSynced r → IsSynced (forget server name r)
  forget-IsSynced name r h = elim (Bool-cases (contains (Registry.names r) name)) [
    | inr absent ↦ rw (absent, forget) h
    | inl there ↦
        rw (there, forget)
          (record {
            tools = λ n.
                ap is_some (find-remove name (Registry.table r) n)
                ∙ is_some-if (str_eq name n) none (find_tool n (Registry.table r))
                ∙ (elim (Bool-cases (str_eq name n)) [
                  | inl same ↦
                      let free : is_reserved n ≡ false =
                        subst (λ x. is_reserved x ≡ false) ((eq_iff name n).0 same)
                          (h.unreserved name there) in
                      rw (same, free)
                        (sym (contains-filter name (Registry.names r) n ∙ ground (arith, same)))
                  | inr other ↦ rw other (
                      h.tools n
                      ∙ ap (λ b. is_reserved n || b)
                          (sym (contains-filter name (Registry.names r) n ∙ ground (arith, other))))
                ]);
            unreserved = λ n m.
                h.unreserved n (ground (arith, m, contains-filter name (Registry.names r) n));
          })
  ]
