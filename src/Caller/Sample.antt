-- ===== src/Caller/Sample.antt =====
-- Definitions and schemas for the tests.
use mathlib.Core.Bool.{Bool}
use trolley.Base.{String, List, [], ◌∷◌, Json, bool, str, arr, obj, to_items, to_fields, Dict}
use trolley.Caller.Parts.{email_identity}

abbrev texts : Dict String → Dict Json
texts [] = []
texts ((k, v) ∷ d) = (k, str v) ∷ texts d

abbrev object : Dict Json → Json
object d = obj (to_fields d)

abbrev list : List Json → Json
list vs = arr (to_items vs)

-- The orders of the caller since a day.
abbrev pub orders : Dict Json
orders =
    ("data_scope", str "caller")
    ∷ ("source", object (texts (("schema", "public") ∷ ("relation", "orders") ∷ [])))
    ∷ ("ownership", object (texts (("column", "owner") ∷ ("identity", email_identity) ∷ [])))
    ∷ ("columns", list (str "id" ∷ str "total" ∷ []))
    ∷ (
      "filters",
      list (
          object (
            texts (
              ("column", "day")
              ∷ ("operator", "gte")
              ∷ ("parameter", "since")
              ∷ ("type", "date")
              ∷ []))
          ∷ []),
    )
    ∷ []

abbrev pub orders_schema : Dict Json
orders_schema =
    ("type", str "object")
    ∷ ("properties", object (("since", object (texts (("type", "string") ∷ []))) ∷ []))
    ∷ ("required", list (str "since" ∷ []))
    ∷ ("additionalProperties", bool Bool.false)
    ∷ []

-- The calls of the caller's keys, by day.
abbrev pub calls : Dict Json
calls =
    ("data_scope", str "caller")
    ∷ ("source", object (texts (("schema", "public") ∷ ("relation", "calls") ∷ [])))
    ∷ (
      "ownership",
      object (
          ("source", object (texts (("schema", "auth") ∷ ("relation", "api_keys") ∷ [])))
          ∷ texts (
              ("source_column", "key_id")
              ∷ ("match_column", "id")
              ∷ ("column", "metadata")
              ∷ ("json_key", "email")
              ∷ ("identity", email_identity)
              ∷ [])),
    )
    ∷ (
      "dimensions",
      list (
          object (texts (("column", "created") ∷ ("transform", "date") ∷ ("as", "day") ∷ [])) ∷ []),
    )
    ∷ (
      "metrics",
      list (
          object (texts (("function", "count") ∷ ("as", "calls") ∷ []))
          ∷ object (texts (("function", "sum") ∷ ("column", "cost") ∷ ("as", "cost") ∷ []))
          ∷ []),
    )
    ∷ (
      "filters",
      list (
          object (texts (("dimension", "day") ∷ ("operator", "gte") ∷ ("parameter", "since") ∷ []))
          ∷ []),
    )
    ∷ []
