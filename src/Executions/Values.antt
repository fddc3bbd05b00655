-- ===== src/Executions/Values.antt =====
-- The values that a call of an operation passes around: what the validation and the connector give,
-- the outcome and the response, and the interface of the modules that a call relies on.
use trolley.Base.{
  ℕ, String, Bool, true, false, Option, none, some, List, [], ◌∷◌, find, str_eq, ◌==◌, Result,
  Error, Json, null, bool, str, arr, to_items, Dict, get, put,
}
use trolley.Catalog.{Catalog, Operation, Target}
use trolley.Catalog.Monad.{Action}
use trolley.Access.{AuthContext}

-- What `compile_definition` returns, as far as it is used here.
pub record Compiled : Type 0 where
  pub definition : Dict Json
  pub bindings : List String

-- What the connector answers: rows, or the status of a statement that returns none.
pub data Answer : Type 0 where
  rows : List Json → Bool → Answer
  status : String → Answer

-- The result of an execution: the answer with the cursor of the next page.
pub data Outcome : Type 0 where
  rows : List Json → Bool → Option String → Outcome
  status : String → Outcome

pub data Response : Type 0 where
  -- The id of the execution, its result and whether it carries the audit warning.
  inline : ℕ → Outcome → Bool → Response
  -- What the export service answers.
  file : Dict Json → Response

-- The modules that a call relies on.
pub record Services (Definition : Type 0) : Type 0 where
  pub validate_definition : Target → Dict Json → Dict Json → Result (Unit {0})
  pub compile_definition : Dict Json → Dict Json → Result Compiled
  pub validate_arguments : Dict Json → Dict Json → Result (Unit {0})
  pub execute : Definition → Compiled → Dict Json → Bool → Option (ℕ × ℕ) → Result Answer
  pub start_export : Option (String → Dict Json → AuthContext → Action Response)
  -- `str(error)`
  pub error_text : Error → String

abbrev pub cursor_value : Option String → Json
cursor_value none = null
cursor_value (some s) = str s

abbrev pub outcome_dict : Outcome → Dict Json
outcome_dict (Outcome.rows vs has_more cursor) =
    ("rows", arr (to_items vs))
    ∷ ("has_more", bool has_more)
    ∷ ("next_cursor", cursor_value cursor)
    ∷ []
outcome_dict (Outcome.status s) = ("status", str s) ∷ []

-- `definition.get(key) is not None`
abbrev pub is_given : String → Dict Json → Bool
is_given key d = elim (get key d) [ none ↦ false | some v ↦ elim v [ null ↦ false | _ ↦ true ] ]

-- `definition.get(key) == text`
abbrev pub is_text_of : String → String → Dict Json → Bool
is_text_of key text d = elim (get key d) [
  | none ↦ false
  | some v ↦ elim v [ str s ↦ str_eq s text | _ ↦ false ]
]

abbrev pub is_some {ℓ} : {A : Type ℓ} → Option A → Bool
is_some none = false
is_some (some _) = true

-- `arguments.update({name: user.email for name in bindings})`
abbrev pub bind_email : List String → String → Dict Json → Dict Json
bind_email [] email arguments = arguments
bind_email (name ∷ names) email arguments = bind_email names email (put name (str email) arguments)

abbrev pub operation_named : String → Catalog → Option Operation
operation_named name c = find (λ o. str_eq o.name name) c.operations

abbrev pub target_by_id : ℕ → Catalog → Option Target
target_by_id i c = find (λ t. t.id == i) c.targets
