-- ===== src/Caller/Parts.antt =====
-- validation/ownership.py, and what validation/caller.py and validation/caller_usage.py share: how
-- they read a definition and an input schema, the caller's parameter and the operators.
--
-- An input schema is one that JSON Schema's own check accepts: its `properties` are an object and
-- its `required` is a list of texts. Any other raises here, as it does in Python at some point.
use trolley.Base.{
  ℕ, String, Bool, true, false, not, ◌&&◌, Option, none, some, List, [], ◌∷◌, all, map, codes,
  contains, str_eq, cat, decimal, value_error, Error, Result, ok, raise_if, or_raise,
  external_error, Json, null, bool, str, arr, obj, items, fields, to_items, to_fields, Dict, get,
  keys, put,
}
use trolley.Base.Chain.{◌>>=◌, ◌>>◌}
use trolley.Sql.{is_word_start, is_word}

-- `isinstance(value, …)`, with the value.
abbrev pub text_of : Json → Option String
text_of v = elim v [ str s ↦ some s | _ ↦ none ]

abbrev pub list_of : Json → Option (List Json)
list_of v = elim v [ arr vs ↦ some (items vs) | _ ↦ none ]

abbrev pub dict_of : Json → Option (Dict Json)
dict_of v = elim v [ obj fs ↦ some (fields fs) | _ ↦ none ]

-- `d.get(key)`; also `d[key]`, where the key is known to be there.
abbrev pub at : String → Dict Json → Json
at key d = elim (get key d) [ none ↦ null | some v ↦ v ]

-- `set(xs) <= set(ys)` and `set(xs) == set(ys)`
abbrev pub subset : List String → List String → Bool
subset xs ys = all (contains ys) xs

abbrev pub same_set : List String → List String → Bool
same_set xs ys = subset xs ys && subset ys xs

-- `len(set(xs)) == len(xs)`
abbrev pub is_distinct : List String → Bool
is_distinct [] = true
is_distinct (x ∷ xs) = not (contains xs x) && is_distinct xs

abbrev pub traverse {ℓ κ} : {A : Type ℓ} {B : Type κ} → (A → Result B) → List A → Result (List B)
traverse f [] = ok []
traverse f (x ∷ xs) = do y ← f x; ys ← traverse f xs; ok (y ∷ ys)

-- `_IDENTIFIER.fullmatch`
abbrev pub is_identifier_codes : List ℕ → Bool
is_identifier_codes [] = false
is_identifier_codes (c ∷ cs) = is_word_start c && all is_word cs

abbrev pub is_simple : String → Bool
is_simple s = is_identifier_codes (codes s)

abbrev pub identifier_error : Error
identifier_error = value_error "Caller query identifiers must be simple SQL identifiers"

-- The name that `identifier` accepts, and the quoted text that it returns for it.
unfoldable pub simple_name : Json → Result String
simple_name v = do
  s ← or_raise (text_of v) identifier_error
  raise_if (not (is_simple s)) identifier_error
  ok s

abbrev pub quoted : String → String
quoted s = cat ("\"" ∷ s ∷ "\"" ∷ [])

abbrev pub email_identity : String
email_identity = "authenticated_user.email"

-- `value == text`
abbrev pub is_text : String → Json → Bool
is_text s v = elim (text_of v) [ none ↦ false | some t ↦ str_eq t s ]

abbrev pub qualified : String → String → String
qualified schema relation = cat (quoted schema ∷ "." ∷ quoted relation ∷ [])

-- The relation of a source, a dict with exactly the keys `schema` and `relation`; the error is the
-- caller's.
unfoldable pub source_relation : Error → Json → Result String
source_relation malformed v = do
  source ← or_raise (dict_of v) malformed
  raise_if (not (same_set (keys source) ("schema" ∷ "relation" ∷ []))) malformed
  schema ← simple_name (at "schema" source)
  relation ← simple_name (at "relation" source)
  ok (qualified schema relation)

abbrev pub mapped_keys : List String
mapped_keys = "source" ∷ "source_column" ∷ "match_column" ∷ "column" ∷ "json_key" ∷ "identity" ∷ []

-- A text in single quotes.
abbrev pub literal : String → String
literal s = cat ("'" ∷ s ∷ "'" ∷ [])

abbrev pub exists_text : String → String → String → String → String → String
exists_text relation key column match_column source_column = cat (
    "EXISTS (SELECT 1 FROM "
    ∷ relation
    ∷ " AS o WHERE o."
    ∷ quoted match_column
    ∷ " = s."
    ∷ quoted source_column
    ∷ " AND jsonb_typeof(o."
    ∷ quoted column
    ∷ " -> "
    ∷ literal key
    ∷ ") = "
    ∷ literal "string"
    ∷ " AND lower(btrim(o."
    ∷ quoted column
    ∷ " ->> "
    ∷ literal key
    ∷ ")) = $1)"
    ∷ [])

unfoldable pub mapped_predicate : Json → Result String
mapped_predicate v = do
  owner ← or_raise (dict_of v) (
      value_error
        "Mapped ownership requires source, source_column, match_column, column, json_key and identity")
  raise_if (not (same_set (keys owner) mapped_keys)) (
      value_error
        "Mapped ownership requires source, source_column, match_column, column, json_key and identity")
  raise_if (not (is_text email_identity (at "identity" owner)))
      (value_error "Ownership must use authenticated_user.email")
  relation ←
      source_relation (value_error "Ownership source requires schema and relation")
        (at "source" owner)
  key ← simple_name (at "json_key" owner)
  column ← simple_name (at "column" owner)
  match_column ← simple_name (at "match_column" owner)
  source_column ← simple_name (at "source_column" owner)
  ok (exists_text relation key column match_column source_column)

-- `_CALLER`
abbrev pub caller : String
caller = "trolley_caller_email"

-- `_OPERATORS.get`
abbrev pub sql_operator : String → Option String
sql_operator name =
    get name (("eq", "=") ∷ ("gte", ">=") ∷ ("gt", ">") ∷ ("lte", "<=") ∷ ("lt", "<") ∷ [])

-- `input_schema.get("properties", {})`
abbrev pub properties_of : Dict Json → Result (Dict Json)
properties_of schema = elim (get "properties" schema) [
  | none ↦ ok []
  | some v ↦ or_raise (dict_of v) (external_error "TypeError")
]

-- `input_schema.get("required", [])`
abbrev pub required_of : Dict Json → Result (List String)
required_of schema = elim (get "required" schema) [
  | none ↦ ok []
  | some v ↦
      or_raise (list_of v) (external_error "TypeError")
      >>= traverse (λ name. or_raise (text_of name) (external_error "TypeError"))
]

-- `input_schema.get("additionalProperties") is False`
abbrev pub is_closed : Dict Json → Bool
is_closed schema = elim (get "additionalProperties" schema) [
  | none ↦ false
  | some v ↦ elim v [ bool b ↦ not b | _ ↦ false ]
]

-- `definition.get(key, [])`, which must be a list.
abbrev pub list_or_empty : String → Error → Dict Json → Result (List Json)
list_or_empty key malformed definition = elim (get key definition) [
  | none ↦ ok []
  | some v ↦ or_raise (list_of v) malformed
]

-- The placeholder of the parameter in position `n`.
abbrev pub placeholder : ℕ → String
placeholder n = cat ("$" ∷ decimal n ∷ [])

-- The last check of both: the inputs are the filters' parameters, all of them required. The caller's
-- own parameter is the first one.
unfoldable pub check_inputs : Dict Json → Dict Json → List String → Result (Unit {0})
check_inputs schema properties inputs = do
  raise_if (not (same_set inputs (keys properties)))
      (value_error "Caller inputs must exactly match required filter parameters")
  required ← required_of schema
  raise_if (not (same_set (keys properties) required))
      (value_error "Caller inputs must exactly match required filter parameters")

-- What both return: the definition with the statement that was built.
unfoldable pub with_sql : Dict Json → String → List String → Dict Json
with_sql definition sql parameters = put "fetch" (bool true) (
    put "bindings" (obj (to_fields ((caller, str email_identity) ∷ [])))
      (put "parameters" (arr (to_items (map str parameters))) (put "sql" (str sql) definition)))
