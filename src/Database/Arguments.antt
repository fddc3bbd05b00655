-- ===== src/Database/Arguments.antt =====
-- The values that a validated definition is run with.
use trolley.Base.{
  String, Bool, true, false, ◌≡◌, refl, ap, sym, ◌∙◌, inl, inr, ◌||◌, List, [], ◌∷◌, ◌++◌, map,
  contains, is_empty, strip, Json, str, Dict, put, keys, ok, ok-injective, arith, if◌then◌else◌,
  and_split, or_split, subst,
}
use trolley.Base.Chain.{◌>>=◌}
use trolley.Executions.{bind_email}
use trolley.Caller.Dicts.{at-put, contains-put, contains-append, contains-subset, subset-contains}
use trolley.Caller.{at, same_set, subset, required_of}
use mathlib.Core.Path.{fun_ext}
use trolley.Definitions.{validate_definition, listed_names, binding_names}
use trolley.Definitions.Accepted.{IsAccepted, validate_definition-IsAccepted}
use trolley.Database.{argument_values, checked_arguments}

-- A bound name is worth the caller's e-mail address, any other what it was.
at-bind_email :
    (names : List String) (email : String) (d : Dict Json) (j : String)
    → at j (bind_email names email d) ≡ (if contains names j then str email else at j d)
at-bind_email [] email d j = refl
at-bind_email (n ∷ names) email d j =
    at-bind_email names email (put n (str email) d) j ∙ rw (at-put j n (str email) d) (ground arith)

contains-bind_email :
    (names : List String) (email : String) (d : Dict Json) (j : String)
    → contains (keys (bind_email names email d)) j ≡ (contains names j || contains (keys d) j)
contains-bind_email [] email d j = refl
contains-bind_email (n ∷ names) email d j =
    contains-bind_email names email (put n (str email) d) j
    ∙ rw (contains-put j n (str email) d) (ground arith)

-- The arguments of a call, its bound names set to the caller's e-mail address, fit the parameters if
-- the client gives exactly the required inputs; each value is then the address or the client's.
pub argument_values-bind_email :
    (names required bindings : List String) (email : String) (given : Dict Json)
    → same_set names (required ++ bindings) ≡ true
    → same_set (keys given) required ≡ true
    → argument_values names (bind_email bindings email given)
      ≡ ok (map (λ name. at name (bind_email bindings email given)) names)
unfolding argument_values ◌>>=◌
argument_values-bind_email names required bindings email given matched exact =
    let (names_in, in_names) = (and_split _ _).0 matched in
    let (given_in, in_given) = (and_split _ _).0 exact in
    let known : subset (keys (bind_email bindings email given)) names ≡ true =
      contains-subset (keys (bind_email bindings email given)) names (λ a m.
        subset-contains (required ++ bindings) names a in_names
          (elim ((or_split (contains bindings a) (contains (keys given) a)).0
            (sym (contains-bind_email bindings email given a) ∙ m)) [
              | inl b ↦ contains-append required bindings a ∙ ground (arith, b)
              | inr g ↦
                  contains-append required bindings a
                  ∙ ground (arith, subset-contains (keys given) required a given_in g)
            ])) in
    let complete : subset names (keys (bind_email bindings email given)) ≡ true =
      contains-subset names (keys (bind_email bindings email given)) (λ a m.
        contains-bind_email bindings email given a
        ∙ elim ((or_split (contains required a) (contains bindings a)).0 (
            sym (contains-append required bindings a)
            ∙ subset-contains names (required ++ bindings) a names_in m)) [
              | inl r ↦ ground (arith, subset-contains required (keys given) a in_given r)
              | inr b ↦ ground (arith, b)
            ]) in
    rw (known, complete) refl

is_empty-strip : (s : String) → is_empty (strip s) ≡ false → is_empty s ≡ false
unfolding strip
is_empty-strip String.[] h = cc
is_empty-strip (String.◌∷◌ c s) h = refl

-- What a call of a validated definition sends to the database.
pub record IsBound (is_identifier : String → Bool) (definition schema : Dict Json) (email : String)
    (given : Dict Json) : Type 0 where
  pub accepted : IsAccepted is_identifier definition schema
  pub sql : String
  pub names : List String
  pub bindings : List String
  pub listed : listed_names accepted.compiled ≡ ok names
  pub bound : binding_names is_identifier accepted.compiled ≡ ok bindings
  pub sent :
      checked_arguments accepted.compiled (bind_email bindings email given)
      ≡ ok (sql, map (λ name. if contains bindings name then str email else at name given) names)

-- A definition that the validation accepts is never refused its arguments: where the client gives
-- exactly the required inputs, its statement goes out with a value for each parameter in order, the
-- caller's e-mail address for a bound one and the client's value for any other.
pub validate_definition-IsBound :
    (is_identifier : String → Bool) (definition schema : Dict Json) (email : String)
    (given : Dict Json) (required : List String)
    → validate_definition is_identifier definition schema ≡ ok tt
    → required_of schema ≡ ok required
    → same_set (keys given) required ≡ true
    → IsBound is_identifier definition schema email given
unfolding checked_arguments ◌>>=◌
validate_definition-IsBound is_identifier definition schema email given required valid requires
      exact =
    let accepted = validate_definition-IsAccepted is_identifier definition schema valid in
    let matched = accepted.matched in
    let stated = accepted.stated in
    let same : matched.required ≡ required = ok-injective (sym matched.requires ∙ requires) in
    let fits =
      argument_values-bind_email matched.names required matched.bindings email given
        (subst (λ r. same_set matched.names (r ++ matched.bindings) ≡ true) same matched.matched)
        exact in
    record {
      accepted = accepted;
      sql = stated.sql;
      names = matched.names;
      bindings = matched.bindings;
      listed = matched.listed;
      bound = matched.bound;
      sent =
          rw (stated.has_sql, is_empty-strip stated.sql stated.not_blank, matched.listed, fits)
            (ap (λ f. ok (stated.sql, map f matched.names))
              (fun_ext (at-bind_email matched.bindings email given)));
    }
