-- ===== src/Caller/Query.antt =====
-- What a definition of rows stands for: a query over one relation whose first condition is that the
-- row belongs to the caller, and the text of such a query.
use trolley.Base.{
  ℕ, ◌+◌, String, Bool, true, false, Option, none, some, List, [], ◌∷◌, ◌≡◌, In, cat,
}
use trolley.Caller.{
  is_simple, qualified, exists_text, direct_text, condition_text, placeholder, selection_text,
  row_prefix,
}

-- How a row tells its owner: by a column, or by the row of another relation.
pub data Owner : Type 0 where
  direct : String → Owner
  mapped : String → String → String → String → String → String → Owner

abbrev pub through_relation : Owner → Bool
through_relation (direct column) = false
through_relation (mapped schema relation key column match_column source_column) = true

abbrev pub owner_text : Owner → String
owner_text (direct column) = direct_text column
owner_text (mapped schema relation key column match_column source_column) =
    exists_text (qualified schema relation) key column match_column source_column

pub record Condition : Type 0 where
  pub column : String
  pub operator : String
  pub cast : Option String

abbrev pub value_text : Option String → ℕ → String
value_text none n = placeholder n
value_text (some cast) n = cat (placeholder n ∷ "::text::" ∷ cast ∷ [])

-- The texts of the conditions, whose values follow the first `n` parameters in their order.
abbrev pub condition_texts : String → ℕ → List Condition → List String
condition_texts prefix n [] = []
condition_texts prefix n (x ∷ xs) =
    condition_text prefix (Condition.column x) (Condition.operator x)
      (value_text (Condition.cast x) (n + 1))
    ∷ condition_texts prefix (n + 1) xs

pub record RowQuery : Type 0 where
  pub schema : String
  pub relation : String
  pub owner : Owner
  pub columns : List String
  pub conditions : List Condition

abbrev pub render : RowQuery → String
render q =
    selection_text (through_relation q.owner) (qualified q.schema q.relation) q.columns
      (owner_text q.owner ∷ condition_texts (row_prefix (through_relation q.owner)) 1 q.conditions)

-- Every name is a simple identifier, and every operator and cast one of those that the code lists.
abbrev pub IsSimple : String → Type 0
IsSimple s = is_simple s ≡ true

abbrev pub AreSimple : List String → Type 0
AreSimple [] = Unit
AreSimple (s ∷ ss) = IsSimple s × AreSimple ss

abbrev pub IsSafeOwner : Owner → Type 0
IsSafeOwner (direct column) = IsSimple column
IsSafeOwner (mapped schema relation key column match_column source_column) =
    IsSimple schema
    × IsSimple relation
    × IsSimple key
    × IsSimple column
    × IsSimple match_column
    × IsSimple source_column

abbrev pub IsOperator : String → Type 0
IsOperator s = In s ("=" ∷ ">=" ∷ ">" ∷ "<=" ∷ "<" ∷ [])

abbrev pub IsCast : Option String → Type 0
IsCast none = Unit
IsCast (some s) = In s ("date" ∷ "timestamp" ∷ "timestamptz" ∷ [])

abbrev pub AreSafe : List Condition → Type 0
AreSafe [] = Unit
AreSafe (x ∷ xs) =
    IsSimple (Condition.column x)
    × IsOperator (Condition.operator x)
    × IsCast (Condition.cast x)
    × AreSafe xs

pub record IsSafe (q : RowQuery) : Type 0 where
  pub safe_schema : IsSimple q.schema
  pub safe_relation : IsSimple q.relation
  pub safe_owner : IsSafeOwner q.owner
  pub safe_columns : AreSimple q.columns
  pub safe_conditions : AreSafe q.conditions
