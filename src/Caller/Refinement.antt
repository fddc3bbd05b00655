-- ===== src/Caller/Refinement.antt =====
-- A compiled definition of rows is the query that it stands for.
use trolley.Base.{
  String, true, ◌≡◌, refl, sym, ◌∙◌, subst, List, ◌∷◌, length, Json, Dict, ok, ok-injective,
}
use mathlib.Core.Path.{ap₂}
use trolley.Base.Chain.{>>=-inv}
use trolley.Caller.{
  is_mapped, at, is_distinct, caller, with_sql, row_prefix, selection_text, selected_columns,
  compile_selection,
}
use trolley.Caller.Query.{condition_texts, RowQuery, render, IsSafe, AreSimple}
use trolley.Caller.Names.{owner_predicate-IsOwner, source_relation-IsSimple, traverse-AreSimple}
use trolley.Caller.Conditions.{add_filters-AreAdded}

selected_columns-AreSimple :
    (definition : Dict Json) (columns : List String)
    → selected_columns definition ≡ ok columns
    → AreSimple columns
unfolding selected_columns
selected_columns-AreSimple definition columns h =
    let (values, _, h1) = >>=-inv _ _ h in
    let (_, _, h2) = >>=-inv _ _ h1 in
    let (names, simple, h3) = >>=-inv _ _ h2 in
    let (_, _, h4) = >>=-inv _ _ h3 in
    subst AreSimple {x = names} (ok-injective h4) (traverse-AreSimple values names simple)

-- The compiled definition carries the text of a safe query, and its parameters: the caller's own in
-- front, then one for each condition, none twice.
pub record IsCompiled (definition compiled : Dict Json) : Type 0 where
  pub query : RowQuery
  pub inputs : List String
  pub safe : IsSafe query
  pub as_many : length inputs ≡ length query.conditions
  pub distinct : is_distinct (caller ∷ inputs) ≡ true
  pub result : compiled ≡ with_sql definition (render query) (caller ∷ inputs)

pub compile_selection-IsCompiled :
    (definition schema compiled : Dict Json)
    → compile_selection definition schema ≡ ok compiled
    → IsCompiled definition compiled
unfolding compile_selection
compile_selection-IsCompiled definition schema compiled h =
    let (_, _, h1) = >>=-inv _ _ h in
    let (relation, from_source, h2) = >>=-inv _ _ h1 in
    let (predicate, owned, h3) = >>=-inv _ _ h2 in
    let (columns, selected, h4) = >>=-inv _ _ h3 in
    let (properties, _, h5) = >>=-inv _ _ h4 in
    let (_, _, h6) = >>=-inv _ _ h5 in
    let (_, _, h7) = >>=-inv _ _ h6 in
    let (filters, _, h8) = >>=-inv _ _ h7 in
    let (added, loop, h9) = >>=-inv _ _ h8 in
    let (_, _, h10) = >>=-inv _ _ h9 in
    let (owner, safe_owner, same, kind) =
      owner_predicate-IsOwner (at "ownership" definition) predicate owned in
    let (schema_name, relation_name, a, b, named) =
      source_relation-IsSimple _ _ relation from_source in
    let mapped = sym kind in
    let all = add_filters-AreAdded _ _ _ _ filters added loop in
    record {
      query = record {
        schema = schema_name;
        relation = relation_name;
        owner = owner;
        columns = columns;
        conditions = all.conditions;
      };
      inputs = all.parameters;
      safe = record {
        safe_schema = a;
        safe_relation = b;
        safe_owner = safe_owner;
        safe_columns = selected_columns-AreSimple definition columns selected;
        safe_conditions = all.safe;
      };
      as_many = all.as_many;
      distinct = subst (λ ps. is_distinct ps ≡ true) all.inputs (all.distinct refl);
      result =
          sym (ok-injective h10)
          ∙ ap₂
              (λ ts ps.
                with_sql definition
                  (selection_text (is_mapped (at "ownership" definition)) relation columns ts) ps)
              all.texts all.inputs
          ∙ (λ i.
              with_sql definition
                (selection_text (mapped i) (named i) columns
                  (same i ∷ condition_texts (row_prefix (mapped i)) 1 all.conditions))
                (caller ∷ all.parameters));
    }
