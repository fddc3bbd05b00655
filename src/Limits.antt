-- ===== src/Limits.antt =====
-- connectors/limits.py: the limits of a configuration. Python's floats are a parameter.
pub mod Ranges
mod Tests
use trolley.Base.{
  ℕ, zero, suc, ◌+◌, ◌-◌, ◌*◌, ◌^◌, ◌≡◌, String, Bool, true, false, not, ◌&&◌, ◌||◌, Option, none,
  some, List, [], ◌∷◌, ◌++◌, length, all, codes, ◌==◌, leb, ltb, if◌then◌else◌, value_error, Error,
  Result, ok, err, ◌>>=◌, ◌>>◌, raise_if, or_raise, ℤ, pos, negsuc, Json, null, bool, int, float,
  str, arr, obj, Dict, get,
}
use Prim.Native.String

-- `float(value)` of an integer, a number that is no integer or a text, with `none` where it raises;
-- whether the result is finite and above 0.
pub record Floats : Type 1 where
  pub Float : Type 0
  pub of_int : ℤ → Option Float
  pub of_number : String → Option Float
  pub of_text : String → Option Float
  pub is_finite : Float → Bool
  pub is_positive : Float → Bool

-- `str.isascii() and str.isdecimal()`
abbrev pub is_digit : ℕ → Bool
is_digit c = leb b'0' c && leb c b'9'

unfoldable pub is_decimal : List ℕ → Bool
is_decimal [] = false
is_decimal (c ∷ cs) = all is_digit (c ∷ cs)

-- The value of a row of digits.
unfoldable pub digits_value : ℕ → List ℕ → ℕ
digits_value acc [] = acc
digits_value acc (c ∷ cs) = digits_value (acc * 10 + (c - b'0')) cs

-- `int(text)` refuses more than 4300 digits.
abbrev pub max_digits : ℕ
max_digits = 4300

abbrev pub too_large : ℕ
too_large = 2 ^ 63 - 1

abbrev field_error : String → String → Error
field_error field what = value_error (String.◌++◌ field what)

abbrev pub in_range : String → ℤ → Result ℕ
in_range field (pos n) =
    if leb 1 n && ltb n too_large
    then ok n
    else err (field_error field " must be a positive integer below 2**63 - 1")
in_range field (negsuc n) = err (field_error field " must be a positive integer below 2**63 - 1")

-- The value of a field: a text of decimal digits is read as an integer first.
unfoldable pub integer_of : String → Json → Result ℕ
unfolding is_decimal digits_value
integer_of field (int n) = in_range field n
integer_of field (str s) =
    if is_decimal (codes s)
    then if leb (length (codes s)) max_digits
      then in_range field (pos (digits_value 0 (codes s)))
      else err (field_error field " must be a positive integer")
    else err (field_error field " must be a positive integer below 2**63 - 1")
integer_of field _ = err (field_error field " must be a positive integer below 2**63 - 1")

-- One round of the second loop.
unfoldable pub integer_limit : String → ℕ → Dict Json → Result ℕ
unfolding integer_of
integer_limit field default configuration = elim (get field configuration) [
  | none ↦ in_range field (pos default)
  | some value ↦ integer_of field value
]

module _ (floats : Floats) where
  open floats use {Float, of_int, of_number, of_text, is_finite, is_positive}

  pub record ExecutionLimits : Type 0 where
    pub timeout : Float
    pub query_timeout : Float
    pub max_rows : ℕ
    pub max_result_bytes : ℕ

  -- `float(value)`, after the test of the type.
  abbrev pub to_float : Json → Option Float
  to_float (int n) = of_int n
  to_float (float s) = of_number s
  to_float (str s) = of_text s
  to_float _ = none

  abbrev pub with_default : ℕ → Option Json → Json
  with_default default none = int (pos default)
  with_default default (some value) = value

  -- One round of the first loop.
  unfoldable pub time_limit : String → ℕ → Dict Json → Result Float
  time_limit field default configuration = do
    value ←
        or_raise (to_float (with_default default (get field configuration)))
          (field_error field " must be a finite positive number")
    raise_if (not (is_finite value && is_positive value))
        (field_error field " must be a finite positive number")
    ok value

  unfoldable pub execution_limits : Dict Json → Result ExecutionLimits
  execution_limits configuration = do
    timeout ← time_limit "timeout" 30 configuration
    query_timeout ← time_limit "query_timeout" 30 configuration
    max_rows ← integer_limit "max_rows" 1000 configuration
    max_result_bytes ← integer_limit "max_result_bytes" 1_000_000 configuration
    ok (record {
      timeout = timeout;
      query_timeout = query_timeout;
      max_rows = max_rows;
      max_result_bytes = max_result_bytes;
    })
