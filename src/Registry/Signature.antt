-- ===== src/Registry/Signature.antt =====
-- mcp/schema.py: the signature of a tool, and the arguments of a call that were given.
use trolley.Base.{
  String, Bool, true, false, Option, none, some, List, [], ◌∷◌, contains, external_error, Result,
  ok, err, or_raise, Json, str, arr, obj, Dict, get,
}
use trolley.Base.Chain.{◌>>=◌}
use trolley.Caller.{dict_of, at, properties_of, required_of, traverse}

-- `JSON_SCHEMA_TYPES`, and `Any`.
pub data Annotation : Type 0 where
  string_type integer_type number_type boolean_type array_type object_type any_type : Annotation

abbrev pub named_annotation : String → Annotation
named_annotation name =
    elim (get name (
      ("string", string_type)
      ∷ ("integer", integer_type)
      ∷ ("number", number_type)
      ∷ ("boolean", boolean_type)
      ∷ ("array", array_type)
      ∷ ("object", object_type)
      ∷ [])) [ none ↦ any_type | some t ↦ t ]

-- `JSON_SCHEMA_TYPES.get(value, Any)`, where a list and a dict are no keys.
abbrev pub annotation_of : Json → Result Annotation
annotation_of v = elim v [
  | str name ↦ ok (named_annotation name)
  | arr _ ↦ err (external_error "TypeError")
  | obj _ ↦ err (external_error "TypeError")
  | _ ↦ ok any_type
]

-- What stands in for an argument that is not given: nothing, the schema's default, or the mark
-- `MISSING_ARGUMENT`.
pub data Default : Type 0 where
  empty : Default
  given : Json → Default
  missing : Default

pub record Parameter : Type 0 where
  pub name : String
  pub default : Default
  pub annotation : Annotation

abbrev pub default_of : Bool → Dict Json → Default
default_of true property = empty
default_of false property = elim (get "default" property) [ none ↦ missing | some v ↦ given v ]

abbrev pub parameter_of : List String → String × Json → Result Parameter
parameter_of required (name, v) = do
  property ← or_raise (dict_of v) (external_error "AttributeError")
  annotation ← annotation_of (at "type" property)
  ok (record {
    name = name;
    default = default_of (contains required name) property;
    annotation = annotation;
  })

-- `create_tool_signature`
unfoldable pub tool_signature : Dict Json → Result (List Parameter)
tool_signature schema = do
  properties ← properties_of schema
  required ← required_of schema
  traverse (parameter_of required) properties

-- `remove_missing_arguments`; `none` is the mark.
abbrev pub remove_missing_arguments : Dict (Option Json) → Dict Json
remove_missing_arguments [] = []
remove_missing_arguments ((name, none) ∷ arguments) = remove_missing_arguments arguments
remove_missing_arguments ((name, some v) ∷ arguments) =
    (name, v) ∷ remove_missing_arguments arguments
