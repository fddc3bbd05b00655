-- ===== src/Definitions/Accepted.antt =====
-- What the validation of a definition lets through.
use trolley.Base.{
  ◌∙◌, all, not_or-false, not-false, String, Bool, true, false, ◌≡◌, ap, ◌&&◌, some, List, ◌++◌,
  any, contains, strip, is_empty, Json, Dict, keys, ok, ok-injective, arith, subst, raise_if-eq-ok,
  raise_if-not, or_raise-eq-ok,
}
use trolley.Base.Chain.{>>=-inv}
use trolley.Executions.{is_given}
use trolley.Caller.{
  text_of, at, is_simple, same_set, is_distinct, required_of, properties_of, compile_definition,
}
use trolley.Definitions.{
  fetches, is_file, check_statement, check_pagination, order_columns, listed_names, parameter_names,
  binding_names, check_parameters, validate_definition,
}

pub record IsStatement (compiled : Dict Json) : Type 0 where
  pub sql : String
  pub has_sql : text_of (at "sql" compiled) ≡ some sql
  pub not_blank : is_empty (strip sql) ≡ false
  pub not_export : contains (keys compiled) "export" ≡ false
  -- A file is written of the rows of a query, and has no pages.
  pub file_fetches : is_file compiled ≡ true → fetches compiled ≡ true
  pub file_has_no_pages : is_file compiled ≡ true → is_given "pagination" compiled ≡ false

and_true : (a b : Bool) → (a && b) ≡ false → a ≡ true → b ≡ false
and_true a b h k = ground arith

check_statement-IsStatement :
    (compiled : Dict Json) (sql : String) → check_statement compiled ≡ ok sql → IsStatement compiled
unfolding check_statement
check_statement-IsStatement compiled sql h =
    let (text, found, h1) = >>=-inv _ _ h in
    let (_, blank, h2) = >>=-inv _ _ h1 in
    let (_, _, h3) = >>=-inv _ _ h2 in
    let (_, export, h4) = >>=-inv _ _ h3 in
    let (_, _, h5) = >>=-inv _ _ h4 in
    let (_, fetched, h6) = >>=-inv _ _ h5 in
    let (_, pages, _) = >>=-inv _ _ h6 in
    record {
      sql = text;
      has_sql = or_raise-eq-ok _ _ found;
      not_blank = raise_if-eq-ok _ _ blank;
      not_export = raise_if-eq-ok _ _ export;
      file_fetches = λ f. ground (arith, and_true _ _ (raise_if-eq-ok _ _ fetched) f);
      file_has_no_pages = λ f. and_true _ _ (raise_if-eq-ok _ _ pages) f;
    }

-- A page is ordered by simple columns, none twice, of a query.
pub record IsPaged (compiled : Dict Json) : Type 0 where
  pub reads : fetches compiled ≡ true
  pub columns : List String
  pub ordered : order_columns compiled ≡ ok columns
  pub simple : all is_simple columns ≡ true
  pub unique : is_distinct columns ≡ true

order_columns-simple :
    (compiled : Dict Json) (columns : List String)
    → order_columns compiled ≡ ok columns
    → (all is_simple columns ≡ true) × (is_distinct columns ≡ true)
unfolding order_columns
order_columns-simple compiled columns h =
    let (_, _, h1) = >>=-inv _ _ h in
    let (_, _, h2) = >>=-inv _ _ h1 in
    let (_, _, h3) = >>=-inv _ _ h2 in
    let (_, _, h4) = >>=-inv _ _ h3 in
    let (names, _, h5) = >>=-inv _ _ h4 in
    let (_, checked, h6) = >>=-inv _ _ h5 in
    let (simple, distinct) = not_or-false _ _ (raise_if-eq-ok _ _ checked) in
    subst (λ ns. (all is_simple ns ≡ true) × (is_distinct ns ≡ true)) {x = names} (ok-injective h6)
      (simple, not-false _ distinct)

check_pagination-IsPaged :
    (compiled : Dict Json)
    → check_pagination compiled ≡ ok tt
    → is_given "pagination" compiled ≡ true
    → IsPaged compiled
unfolding check_pagination
check_pagination-IsPaged compiled h given =
    let (_, reads, h1) = >>=-inv _ _ (rw (given, check_pagination) at h) in
    let (columns, ordered, _) = >>=-inv _ _ h1 in
    let (simple, unique) = order_columns-simple compiled columns ordered in
    record {
      reads = raise_if-not _ _ reads;
      columns = columns;
      ordered = ordered;
      simple = simple;
      unique = unique;
    }

-- The parameters are the required inputs and the bound names, and nothing is both an input and bound.
pub record IsMatched (is_identifier : String → Bool) (compiled schema : Dict Json) : Type 0 where
  pub names : List String
  pub bindings : List String
  pub required : List String
  pub properties : Dict Json
  pub listed : listed_names compiled ≡ ok names
  pub distinct : is_distinct names ≡ true
  pub bound : binding_names is_identifier compiled ≡ ok bindings
  pub requires : required_of schema ≡ ok required
  pub declares : properties_of schema ≡ ok properties
  pub apart : any (contains (keys properties ++ required)) bindings ≡ false
  pub matched : same_set names (required ++ bindings) ≡ true

module _ (is_identifier : String → Bool) where
  check_parameters-IsMatched :
      (compiled schema : Dict Json)
      → check_parameters is_identifier compiled schema ≡ ok tt
      → IsMatched is_identifier compiled schema
  unfolding check_parameters parameter_names
  check_parameters-IsMatched compiled schema h =
      let (names, named, h1) = >>=-inv _ _ h in
      let (bindings, bound, h2) = >>=-inv _ _ h1 in
      let (required, requires, h3) = >>=-inv _ _ h2 in
      let (properties, declares, h4) = >>=-inv _ _ h3 in
      let (_, apart, matched) = >>=-inv _ _ h4 in
      let (listed_as, listed, k1) = >>=-inv _ _ named in
      let (_, distinct, k2) = >>=-inv _ _ k1 in
      let same : listed_as ≡ names = ok-injective k2 in
      record {
        names = names;
        bindings = bindings;
        required = required;
        properties = properties;
        listed = listed ∙ ap ok same;
        distinct = subst (λ ns. is_distinct ns ≡ true) same (raise_if-not _ _ distinct);
        bound = bound;
        requires = requires;
        declares = declares;
        apart = raise_if-eq-ok _ _ apart;
        matched = raise_if-not _ _ matched;
      }

  pub record IsAccepted (definition schema : Dict Json) : Type 0 where
    pub compiled : Dict Json
    pub compiles : compile_definition definition schema ≡ ok compiled
    pub stated : IsStatement compiled
    pub paged : is_given "pagination" compiled ≡ true → IsPaged compiled
    pub matched : IsMatched is_identifier compiled schema

  -- A definition that the validation accepts compiles to one with a statement that is not blank, with
  -- no pages and a fetch where the output is a file, with simple and unique columns to order pages by,
  -- and with distinct parameters that are the required inputs and the bindings, the bindings no input.
  pub validate_definition-IsAccepted :
      (definition schema : Dict Json)
      → validate_definition is_identifier definition schema ≡ ok tt
      → IsAccepted definition schema
  unfolding validate_definition
  validate_definition-IsAccepted definition schema h =
      let (compiled, compiles, h1) = >>=-inv _ _ h in
      let (sql, stated, h2) = >>=-inv _ _ h1 in
      let (_, paged, h3) = >>=-inv _ _ h2 in
      record {
        compiled = compiled;
        compiles = compiles;
        stated = check_statement-IsStatement compiled sql stated;
        paged = check_pagination-IsPaged compiled paged;
        matched = check_parameters-IsMatched compiled schema h3;
      }
