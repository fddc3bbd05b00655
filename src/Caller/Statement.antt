-- ===== src/Caller/Statement.antt =====
-- The text of a safe query is one statement.
use trolley.Base.{
  ℕ, ◌+◌, String, Bool, true, false, ◌≡◌, refl, sym, subst, inl, inr, Option, none, some, List, [],
  ◌∷◌, all, In, codes, codes-append, join, str_append, if◌then◌else◌, and_split, ok, Json, Dict,
}
use mathlib.Core.List.{append-nil}
use trolley.Sql.{pagination_query, strip}
use trolley.Sql.Calm.{IsCalm, stop, pagination_query-IsCalm}
use trolley.Caller.Dicts.{at-put}
use trolley.Caller.Refinement.{compile_selection-IsCompiled}
use trolley.Caller.{
  quoted, literal, qualified, exists_text, direct_text, projected, row_prefix, caller, text_of, at,
  with_sql, compile_selection,
}
use trolley.Caller.Query.{
  Owner, direct, mapped, owner_text, through_relation, IsSafeOwner, IsSimple, AreSimple, IsOperator,
  IsCast, Condition, value_text, condition_texts, AreSafe, RowQuery, render, IsSafe,
}
use trolley.Caller.Lexical.{
  is_plain, is_opening, Calms, Opens, Opens-append, Opens-nil, Calms-plain, Calms-append,
  Calms-plain_alone, Calms-nil, Calms-quoted, Calms-literal, placeholder-is_plain,
}

In-all :
    (p : String → Bool) (xs : List String) (a : String) → all p xs ≡ true → In a xs → p a ≡ true
In-all p [] a h m = absurd m
In-all p (x ∷ xs) a h (inl e) = subst (λ y. p y ≡ true) (sym e) ((and_split _ _).0 h).0
In-all p (x ∷ xs) a h (inr m) = In-all p xs a ((and_split _ _).0 h).1 m

-- A name in quotes, or a literal, with plain text behind it.
pub Calms-name :
    (name next t : String)
    → IsSimple name
    → is_plain (codes next) ≡ true
    → is_opening (codes next) ≡ true
    → Calms t
    → Calms (str_append (quoted name) (str_append next t))
Calms-name name next t h p o k =
    Calms-append _ _ (Calms-quoted name h) (Calms-plain next t p k) (Opens-append next t o)

Calms-key :
    (name next t : String)
    → IsSimple name
    → is_plain (codes next) ≡ true
    → is_opening (codes next) ≡ true
    → Calms t
    → Calms (str_append (literal name) (str_append next t))
Calms-key name next t h p o k =
    Calms-append _ _ (Calms-literal name h) (Calms-plain next t p k) (Opens-append next t o)

pub Calms-last : (name : String) → IsSimple name → Calms (str_append (quoted name) "")
Calms-last name h = Calms-append _ _ (Calms-quoted name h) Calms-nil Opens-nil

pub Calms-qualified :
    (schema relation : String)
    → IsSimple schema
    → IsSimple relation
    → Calms (qualified schema relation)
Calms-qualified schema relation h k = Calms-name schema "." _ h refl refl (Calms-last relation k)

direct_text-Calms : (column : String) → IsSimple column → Calms (direct_text column)
direct_text-Calms column h = Calms-name column " = $1" "" h refl refl Calms-nil

pub exists_text-Calms :
    (relation key column match_column source_column : String)
    → Calms relation
    → IsSimple key
    → IsSimple column
    → IsSimple match_column
    → IsSimple source_column
    → Calms (exists_text relation key column match_column source_column)
exists_text-Calms relation key column match_column source_column r k c m s =
    Calms-plain "EXISTS (SELECT 1 FROM " _ refl (
      Calms-append relation _ r
        (Calms-plain " AS o WHERE o." _ refl (
          Calms-name match_column " = s." _ m refl refl (
            Calms-name source_column " AND jsonb_typeof(o." _ s refl refl (
              Calms-name column " -> " _ c refl refl (
                Calms-key key ") = " _ k refl refl (
                  Calms-key "string" " AND lower(btrim(o." _ refl refl refl (
                    Calms-name column " ->> " _ c refl refl
                      (Calms-key key ")) = $1)" "" k refl refl Calms-nil))))))))
        (Opens-append " AS o WHERE o." _ refl))

pub owner_text-Calms : (o : Owner) → IsSafeOwner o → Calms (owner_text o)
owner_text-Calms (direct column) h = direct_text-Calms column h
owner_text-Calms (mapped schema relation key column match_column source_column) h =
    exists_text-Calms _ key column match_column source_column
      (Calms-qualified schema relation h.0 h.1) h.2 h.3 h.4 h.5

value_text-Calms : (cast : Option String) (n : ℕ) → IsCast cast → Calms (value_text cast n)
value_text-Calms none n h = Calms-plain_alone _ (placeholder-is_plain n)
value_text-Calms (some cast) n h = Calms-plain _ _ (placeholder-is_plain n) (
    Calms-plain "::text::" _ refl (
      Calms-plain cast ""
        (In-all (λ s. is_plain (codes s)) ("date" ∷ "timestamp" ∷ "timestamptz" ∷ []) cast refl h)
        Calms-nil))

pub IsOperator-is_plain :
    (operator : String) → IsOperator operator → is_plain (codes operator) ≡ true
IsOperator-is_plain operator h =
    In-all (λ s. is_plain (codes s)) ("=" ∷ ">=" ∷ ">" ∷ "<=" ∷ "<" ∷ []) operator refl h

-- Texts that are all calm, and their join.
abbrev pub AllCalm : List String → Type 0
AllCalm [] = Unit
AllCalm (s ∷ ss) = Calms s × AllCalm ss

pub join-Calms :
    (separator : String) (ss : List String)
    → is_plain (codes separator) ≡ true
    → is_opening (codes separator) ≡ true
    → AllCalm ss
    → Calms (join separator ss)
join-Calms separator [] p o h = Calms-nil
join-Calms separator (s ∷ []) p o h = h.0
join-Calms separator (s ∷ t ∷ ss) p o h =
    Calms-append s _ h.0 (Calms-plain separator _ p (join-Calms separator (t ∷ ss) p o h.1))
      (Opens-append separator _ o)

row_prefix-is_plain : (b : Bool) → is_plain (codes (row_prefix b)) ≡ true
row_prefix-is_plain true = refl
row_prefix-is_plain false = refl

condition_texts-AllCalm :
    (b : Bool) (n : ℕ) (xs : List Condition)
    → AreSafe xs
    → AllCalm (condition_texts (row_prefix b) n xs)
condition_texts-AllCalm b n [] h = tt
condition_texts-AllCalm b n (x ∷ xs) h =
    let value = value_text (Condition.cast x) (n + 1) in
    (
      Calms-plain (row_prefix b) _ (row_prefix-is_plain b) (
          Calms-name (Condition.column x) " " _ h.0 refl refl (
            Calms-plain (Condition.operator x) _ (IsOperator-is_plain (Condition.operator x) h.1) (
              Calms-plain " " _ refl (
                Calms-append value "" (value_text-Calms (Condition.cast x) (n + 1) h.2) Calms-nil
                  Opens-nil)))),
      condition_texts-AllCalm b (n + 1) xs h.3,
    )

projected-AllCalm :
    (b : Bool) (columns : List String)
    → AreSimple columns
    → AllCalm (projected (row_prefix b) columns)
projected-AllCalm b [] h = tt
projected-AllCalm b (c ∷ cs) h = (
  Calms-plain (row_prefix b) _ (row_prefix-is_plain b) (Calms-last c h.0),
  projected-AllCalm b cs h.1,
)

abbrev source_end : Bool → String
source_end b = if b then " AS s" else ""

source_end-Calms : (b : Bool) (t : String) → Calms t → Calms (str_append (source_end b) t)
source_end-Calms true t k = Calms-plain " AS s" t refl k
source_end-Calms false t k = Calms-plain "" t refl k

source_end-Opens :
    (b : Bool) (t : String) → Opens (str_append (source_end b) (str_append " WHERE " t))
source_end-Opens true t rest o = Opens-append " AS s" (str_append " WHERE " t) refl rest o
source_end-Opens false t rest o = rw codes-append (Opens-append " WHERE " t refl rest o)

-- The text of a safe query.
pub render-Calms : (q : RowQuery) → IsSafe q → Calms (render q)
render-Calms q h =
    let b = through_relation q.owner in
    let named : Calms (qualified q.schema q.relation) =
      Calms-qualified q.schema q.relation h.safe_schema h.safe_relation in
    let columns : Calms (join ", " (projected (row_prefix b) q.columns)) =
      join-Calms ", " _ refl refl (projected-AllCalm b q.columns h.safe_columns) in
    let conditions : AllCalm (owner_text q.owner ∷ condition_texts (row_prefix b) 1 q.conditions) =
      (
        owner_text-Calms q.owner h.safe_owner,
        condition_texts-AllCalm b 1 q.conditions h.safe_conditions,
      ) in
    let tail : Calms (
        str_append
          (join " AND " (owner_text q.owner ∷ condition_texts (row_prefix b) 1 q.conditions)) "") =
      Calms-append _ ""
        (join-Calms " AND " (owner_text q.owner ∷ condition_texts (row_prefix b) 1 q.conditions)
          refl refl conditions)
        Calms-nil Opens-nil in
    Calms-plain "SELECT " _ refl (
      Calms-append _ _ columns
        (Calms-plain " FROM " _ refl (
          Calms-append _ _ named (source_end-Calms b _ (Calms-plain " WHERE " _ refl tail))
            (source_end-Opens b _)))
        (Opens-append " FROM " _ refl))

pub Calms-IsCalm : (s : String) → Calms s → IsCalm (codes s)
Calms-IsCalm s h = subst IsCalm (append-nil (codes s)) (h [] stop tt)

pub at-with_sql :
    (definition : Dict Json) (sql : String) (parameters : List String)
    → text_of (at "sql" (with_sql definition sql parameters)) ≡ some sql
unfolding with_sql
at-with_sql definition sql parameters = simp at-put

-- Whatever a definition of rows says, its statement is a single one: the lexer of the pages accepts
-- it, finds no terminator and cuts nothing out of it.
pub compile_selection_single :
    (is_alnum : ℕ → Bool) (definition schema compiled : Dict Json)
    → compile_selection definition schema ≡ ok compiled
    → (sql : String) × (text_of (at "sql" compiled) ≡ some sql)
      × (pagination_query is_alnum (codes sql) ≡ some (ok (strip (codes sql))))
compile_selection_single is_alnum definition schema compiled h =
    let q = compile_selection-IsCompiled definition schema compiled h in
    (
      render q.query,
      subst (λ c. text_of (at "sql" c) ≡ some (render q.query)) (sym q.result)
          (at-with_sql definition (render q.query) (caller ∷ q.inputs)),
      pagination_query-IsCalm is_alnum (codes (render q.query))
          (Calms-IsCalm (render q.query) (render-Calms q.query q.safe)),
    )
