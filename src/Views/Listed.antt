-- ===== src/Views/Listed.antt =====
-- Which operations are listed, and what of them.
use trolley.Base.{
  Bool, true, false, ◌&&◌, List, [], ◌∷◌, map, filter, filter-In, In, In-map, contains, keys, ◌≡◌,
  refl, sym, ap, ◌∙◌, ◌⊎◌, inl, inr, ◌↔◌, arith, Json, Dict, subst,
}
use Prim.Native.Nat.{Ordering}
use Prim.Native.String
use trolley.Catalog.{Catalog, Operation, UserRole, role_eq}
use trolley.Access.{AuthContext, accessible_operation_names, can_access_operation}
use trolley.Pagination.{UuidText}
use trolley.Registry.{is_offered, insert_by_name, by_name}
use trolley.Views.{present_operation, target_name_of, view_for, list_operations}

-- Sorting keeps the rows.
insert_by_name-In :
    (o : Operation) (os : List Operation) (x : Operation)
    → In x (insert_by_name o os) ↔ ((x ≡ o) ⊎ In x os)
insert_by_name-In o [] x = ((λ m. m), λ m. m)
insert_by_name-In o (p ∷ os) x = go (String.compare o.name p.name) (insert_by_name-In o os x)
  where
    go :
        (r : Ordering)
        → (In x (insert_by_name o os) ↔ ((x ≡ o) ⊎ In x os))
        → In x (elim r [ Ordering.gt ↦ p ∷ insert_by_name o os | _ ↦ o ∷ p ∷ os ])
          ↔ ((x ≡ o) ⊎ In x (p ∷ os))
    go Ordering.gt (to, from) = (
      λ m. elim m [
        | inl e ↦ inr (inl e)
        | inr k ↦ elim (to k) [ inl e ↦ inl e | inr n ↦ inr (inr n) ]
      ],
      λ m. elim m [
        | inl e ↦ inr (from (inl e))
        | inr k ↦ elim k [ inl e ↦ inl e | inr n ↦ inr (from (inr n)) ]
      ],
    )
    go Ordering.lt _ = ((λ m. m), λ m. m)
    go Ordering.eq _ = ((λ m. m), λ m. m)

by_name-In : (os : List Operation) (x : Operation) → In x (by_name os) ↔ In x os
by_name-In [] x = ((λ m. m), λ m. m)
by_name-In (o ∷ os) x =
    let (to, from) = insert_by_name-In o (by_name os) x in
    let (there, back) = by_name-In os x in
    (
      λ m. elim (to m) [ inl e ↦ inl e | inr k ↦ inr (there k) ],
      λ m. elim m [ inl e ↦ from (inl e) | inr k ↦ from (inr (back k)) ],
    )

-- What is in the image comes from the list.
map-In :
    {A B : Type 0} (f : A → B) (b : B) (xs : List A)
    → In b (map f xs)
    → (a : A) × In a xs × (b ≡ f a)
map-In f b [] m = absurd m
map-In f b (x ∷ xs) (inl e) = (x, inl refl, e)
map-In f b (x ∷ xs) (inr m) = let (a, k, e) = map-In f b xs m in (a, inr k, e)

module _ (uuid : UuidText) where
  view_for-definition :
      (context : AuthContext) (c : Catalog) (o : Operation)
      → contains (keys (view_for uuid context c o)) "definition"
        ≡ role_eq context.role UserRole.admin
  view_for-definition context c o = go (role_eq context.role UserRole.admin)
    where
      go :
          (b : Bool)
          → contains (keys (present_operation uuid b o (target_name_of uuid c o))) "definition" ≡ b
      go true = refl
      go false = refl

  -- A caller is listed exactly the operations that are active, on an active target, and open to the
  -- caller; a definition, which has the SQL, is shown to administrators only.
  pub list_operations_iff :
      (context : AuthContext) (c : Catalog) (view : Dict Json)
      → (In view (list_operations uuid context c) ↔ (
          (o : Operation) × In o c.operations
          × (is_offered c o ≡ true)
          × (can_access_operation context o c ≡ true)
          × (view ≡ view_for uuid context c o)))
        × (In view (list_operations uuid context c)
            → contains (keys view) "definition" ≡ role_eq context.role UserRole.admin)
  unfolding list_operations can_access_operation
  list_operations_iff context c view = (
    (to, from),
    λ m.
        let (o, _, _, _, e) = to m in
        ap (λ v. contains (keys v) "definition") e ∙ view_for-definition context c o,
  )
    where
      listed : Operation → Bool
      listed o = is_offered c o && contains (accessible_operation_names context c) o.name

      to :
          In view (list_operations uuid context c)
          → (o : Operation) × In o c.operations
            × (is_offered c o ≡ true)
            × (can_access_operation context o c ≡ true)
            × (view ≡ view_for uuid context c o)
      to m =
          let (o, k, e) =
            map-In (view_for uuid context c) view (by_name (filter listed c.operations)) m in
          let (n, h) =
            (filter-In listed c.operations o).0 ((by_name-In (filter listed c.operations) o).0 k) in
          (o, n, ground (arith, h), ground (arith, h), e)

      from :
          ((o : Operation) × In o c.operations
            × (is_offered c o ≡ true)
            × (can_access_operation context o c ≡ true)
            × (view ≡ view_for uuid context c o))
          → In view (list_operations uuid context c)
      from (o, m, offered, open_to, e) =
          subst (λ v. In v (list_operations uuid context c)) (sym e)
            (In-map (view_for uuid context c) o (by_name (filter listed c.operations)) (
              (by_name-In (filter listed c.operations) o).1
                ((filter-In listed c.operations o).1 (m, ground (arith, offered, open_to)))))
