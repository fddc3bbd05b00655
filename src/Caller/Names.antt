-- ===== src/Caller/Names.antt =====
-- What the readers of names, sources and owners return.
use trolley.Base.{
  subst, ap, ◌∙◌, String, Bool, true, false, not, ◌≡◌, refl, List, [], ◌∷◌, Json, ok, Error, arith,
  sym, ok-injective, Bool-cases, inl, inr, some, or_raise, raise_if,
}
use trolley.Base.Chain.{>>=-inv}
use trolley.Caller.{
  simple_name, source_relation, mapped_predicate, direct_predicate, qualified, is_simple,
  sql_operator, exists_text, traverse, text_of, identifier_error, owner_predicate, is_mapped,
}
use trolley.Caller.Query.{
  Owner, direct, mapped, owner_text, IsSafeOwner, IsSimple, AreSimple, IsOperator, through_relation,
}

pub simple_name-IsSimple : (v : Json) (s : String) → simple_name v ≡ ok s → IsSimple s
unfolding simple_name
simple_name-IsSimple v s h =
    let (a, h0, h1) = >>=-inv (or_raise (text_of v) identifier_error) _ h in
    let (u, h2, h3) = >>=-inv (raise_if (not (is_simple a)) identifier_error) _ h1 in
    elim (Bool-cases (is_simple a)) [
      | inl good ↦ subst IsSimple (ok-injective h3) good
      | inr bad ↦ absurd (ground (arith, bad, h2))
    ]

pub traverse-AreSimple :
    (vs : List Json) (names : List String) → traverse simple_name vs ≡ ok names → AreSimple names
traverse-AreSimple [] names h = subst AreSimple {x = []} (ok-injective h) tt
traverse-AreSimple (v ∷ vs) names h =
    let (s, h0, h1) = >>=-inv _ _ h in
    let (ss, h2, h3) = >>=-inv _ _ h1 in
    subst AreSimple {x = s ∷ ss} (ok-injective h3)
      (simple_name-IsSimple v s h0, traverse-AreSimple vs ss h2)

pub source_relation-IsSimple :
    (malformed : Error) (v : Json) (text : String)
    → source_relation malformed v ≡ ok text
    → (schema : String) × (relation : String) × IsSimple schema
      × IsSimple relation
      × (text ≡ qualified schema relation)
unfolding source_relation
source_relation-IsSimple malformed v text h =
    let (source, _, h1) = >>=-inv _ _ h in
    let (_, _, h2) = >>=-inv _ _ h1 in
    let (schema, e, h3) = >>=-inv _ _ h2 in
    let (relation, f, h4) = >>=-inv _ _ h3 in
    (
      schema,
      relation,
      simple_name-IsSimple _ schema e,
      simple_name-IsSimple _ relation f,
      sym (ok-injective h4),
    )

-- A predicate of an owner, of the kind that the flag tells.
abbrev pub IsOwner : Bool → String → Type 0
IsOwner flag text =
    (o : Owner) × IsSafeOwner o × (text ≡ owner_text o) × (through_relation o ≡ flag)

pub mapped_predicate-IsOwner :
    (v : Json) (text : String) → mapped_predicate v ≡ ok text → IsOwner true text
unfolding mapped_predicate
mapped_predicate-IsOwner v text h =
    let (owner, _, h1) = >>=-inv _ _ h in
    let (_, _, h2) = >>=-inv _ _ h1 in
    let (_, _, h3) = >>=-inv _ _ h2 in
    let (where_from, e, h4) = >>=-inv _ _ h3 in
    let (key, k, h5) = >>=-inv _ _ h4 in
    let (column, c, h6) = >>=-inv _ _ h5 in
    let (match_column, m, h7) = >>=-inv _ _ h6 in
    let (source_column, s, h8) = >>=-inv _ _ h7 in
    let (schema, relation, a, b, same) = source_relation-IsSimple _ _ where_from e in
    (
      mapped schema relation key column match_column source_column,
      (
        a,
        b,
        simple_name-IsSimple _ key k,
        simple_name-IsSimple _ column c,
        simple_name-IsSimple _ match_column m,
        simple_name-IsSimple _ source_column s,
      ),
      sym (ok-injective h8) ∙ ap (λ r. exists_text r key column match_column source_column) same,
      refl,
    )

direct_predicate-IsOwner :
    (v : Json) (text : String) → direct_predicate v ≡ ok text → IsOwner false text
unfolding direct_predicate
direct_predicate-IsOwner v text h =
    let (owner, _, h1) = >>=-inv _ _ h in
    let (_, _, h2) = >>=-inv _ _ h1 in
    let (column, c, h3) = >>=-inv _ _ h2 in
    (direct column, simple_name-IsSimple _ column c, sym (ok-injective h3), refl)

pub owner_predicate-IsOwner :
    (v : Json) (text : String) → owner_predicate v ≡ ok text → IsOwner (is_mapped v) text
owner_predicate-IsOwner v text h = elim (Bool-cases (is_mapped v)) [
  | inl yes_mapped ↦ rw yes_mapped (mapped_predicate-IsOwner v text (rw yes_mapped at h))
  | inr unmapped ↦ rw unmapped (direct_predicate-IsOwner v text (rw unmapped at h))
]

pub sql_operator-IsOperator : (name s : String) → sql_operator name ≡ some s → IsOperator s
sql_operator-IsOperator name s h = ground (arith, h)
