-- ===== src/Caller/Conditions.antt =====
-- What the loop over the filters of a definition of rows adds.
use trolley.Base.{
  ℕ, ◌+◌, eq_iff, subst, sym, ap, ◌∙◌, String, true, false, ◌≡◌, refl, inl, inr, Option, some, none,
  List, [], ◌∷◌, ◌++◌, length, Json, Dict, keys, get, contains, contains_iff, ok, arith,
  ok-injective, or_raise-eq-ok, raise_if-not, not_or-false, raise_if-eq-ok, Option-cases,
  length-append,
}
use mathlib.Core.List.{append_assoc, append-nil}
use mathlib.Core.Path.{ap₂}
use trolley.Base.Chain.{>>=-inv}
use trolley.Caller.Dicts.{contains-append}
use trolley.Caller.{
  Filters, filter_placeholder, add_filter, add_filters, condition_text, is_distinct,
}
use trolley.Caller.Query.{Condition, value_text, condition_texts, IsCast, AreSafe}
use trolley.Caller.Names.{simple_name-IsSimple, sql_operator-IsOperator}

filter_placeholder-IsCast :
    (properties item : Dict Json) (parameter : String) (n : ℕ) (text : String)
    → filter_placeholder properties item parameter n ≡ ok text
    → (cast : Option String) × IsCast cast × (text ≡ value_text cast n)
unfolding filter_placeholder
filter_placeholder-IsCast properties item parameter n text h =
    elim (Option-cases (get "type" item)) [
      | inl e ↦ (none, tt, ground (arith, e, h))
      | inr (v, e) ↦
          let (cast, _, h1) = >>=-inv _ _ (rw (e, filter_placeholder) at h) in
          let (_, listed, h2) = >>=-inv _ _ h1 in
          let (_, _, h3) = >>=-inv _ _ h2 in
          let (_, _, h4) = >>=-inv _ _ h3 in
          (
            some cast,
            (contains_iff ("date" ∷ "timestamp" ∷ "timestamptz" ∷ []) cast).0
                (raise_if-not _ _ listed),
            sym (ok-injective h4),
          )
    ]

-- One filter adds one condition and one parameter, a declared input that was not there.
pub record IsAdded (prefix : String) (properties : Dict Json) (before after : Filters)
    : Type 0 where
  pub condition : Condition
  pub parameter : String
  pub safe : AreSafe (condition ∷ [])
  pub fresh : contains before.1 parameter ≡ false
  pub declared : contains (keys properties) parameter ≡ true
  pub conditions : after.0 ≡ before.0 ++ condition_texts prefix (length before.1) (condition ∷ [])
  pub parameters : after.1 ≡ before.1 ++ parameter ∷ []

add_filter-IsAdded :
    (prefix owner : String) (properties : Dict Json) (before : Filters) (v : Json) (after : Filters)
    → add_filter prefix owner properties before v ≡ ok after
    → IsAdded prefix properties before after
unfolding add_filter
add_filter-IsAdded prefix owner properties (texts, inputs) v after h =
    let (item, _, h1) = >>=-inv _ _ h in
    let (_, _, h2) = >>=-inv _ _ h1 in
    let (column, simple, h3) = >>=-inv _ _ h2 in
    let (_, _, h4) = >>=-inv _ _ h3 in
    let (name, _, h5) = >>=-inv _ _ h4 in
    let (operator, listed, h6) = >>=-inv _ _ h5 in
    let (parameter, _, h7) = >>=-inv _ _ h6 in
    let (_, declared, h8) = >>=-inv _ _ h7 in
    let (_, fresh, h9) = >>=-inv _ _ h8 in
    let (value, placed, h10) = >>=-inv _ _ h9 in
    let (cast, allowed, same) = filter_placeholder-IsCast _ _ _ _ value placed in
    let result = ok-injective h10 in
    record {
      condition = record { column = column; operator = operator; cast = cast };
      parameter = parameter;
      safe = (
        simple_name-IsSimple _ column simple,
        sql_operator-IsOperator name operator (or_raise-eq-ok _ _ listed),
        allowed,
        tt,
      );
      fresh = raise_if-eq-ok _ _ fresh;
      declared = (not_or-false _ _ (raise_if-eq-ok _ _ declared)).0;
      conditions =
          sym (ap (λ (p : Filters). p.0) result)
          ∙ ap (λ t. texts ++ condition_text prefix column operator t ∷ []) same;
      parameters = sym (ap (λ (p : Filters). p.1) result);
    }

pub is_distinct-append :
    (xs : List String) (y : String)
    → is_distinct xs ≡ true
    → contains xs y ≡ false
    → is_distinct (xs ++ y ∷ []) ≡ true
is_distinct-append [] y d f = refl
is_distinct-append (x ∷ xs) y d f =
    ground (arith, contains-append xs (y ∷ []) x, is_distinct-append xs y, eq_iff x y, eq_iff y x)

-- The filters add their conditions in order, each with a parameter of its own.
pub record AreAdded (prefix : String) (before after : Filters) : Type 0 where
  pub conditions : List Condition
  pub parameters : List String
  pub safe : AreSafe conditions
  pub as_many : length parameters ≡ length conditions
  pub texts : after.0 ≡ before.0 ++ condition_texts prefix (length before.1) conditions
  pub inputs : after.1 ≡ before.1 ++ parameters
  pub distinct : is_distinct before.1 ≡ true → is_distinct after.1 ≡ true

pub add_filters-AreAdded :
    (prefix owner : String) (properties : Dict Json) (before : Filters) (vs : List Json)
    (after : Filters)
    → add_filters prefix owner properties before vs ≡ ok after
    → AreAdded prefix before after
unfolding add_filters
add_filters-AreAdded prefix owner properties before [] after h =
    subst (AreAdded prefix before) (ok-injective h) (record {
      conditions = [];
      parameters = [];
      safe = tt;
      as_many = refl;
      texts = sym (append-nil before.0);
      inputs = sym (append-nil before.1);
      distinct = λ d. d;
    })
add_filters-AreAdded prefix owner properties before (v ∷ vs) after h =
    let (next, e, h1) = >>=-inv _ _ h in
    let one = add_filter-IsAdded prefix owner properties before v next e in
    let rest = add_filters-AreAdded prefix owner properties next vs after h1 in
    let count : length next.1 ≡ length before.1 + 1 =
      ap length one.parameters ∙ length-append before.1 (one.parameter ∷ []) in
    record {
      conditions = one.condition ∷ rest.conditions;
      parameters = one.parameter ∷ rest.parameters;
      safe = (one.safe.0, one.safe.1, one.safe.2, rest.safe);
      as_many = omega (arith, rest.as_many);
      texts =
          rest.texts
          ∙ ap₂ (λ ts n. ts ++ condition_texts prefix n rest.conditions) one.conditions count
          ∙ append_assoc before.0 _ _;
      inputs =
          rest.inputs ∙ ap (λ ps. ps ++ rest.parameters) one.parameters ∙ append_assoc before.1 _ _;
      distinct = λ d.
          rest.distinct (rw one.parameters (is_distinct-append before.1 one.parameter d one.fresh));
    }
