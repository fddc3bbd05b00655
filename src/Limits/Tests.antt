-- ===== src/Limits/Tests.antt =====
-- Limits of small configurations. A float stands in as a natural number, never infinite.
use trolley.Base.{
  ℕ, refl, true, none, some, Option, [], ◌∷◌, ltb, str, int, pos, negsuc, ℤ, Dict, Json, codes,
}
use trolley.Limits.{
  Floats, ExecutionLimits, digits_value, is_decimal, integer_of, integer_limit, time_limit,
  execution_limits,
}
use trolley.Limits.Ranges.{InRanges, execution_limits_range}

abbrev float_of_int : ℤ → Option ℕ
float_of_int (pos n) = some n
float_of_int (negsuc n) = none

abbrev pub floats : Floats
floats = record {
  Float = ℕ;
  of_int = float_of_int;
  of_number = λ _. none;
  of_text = λ s. some (digits_value 0 (codes s));
  is_finite = λ _. true;
  is_positive = λ n. ltb 0 n;
}

abbrev configuration : Dict Json
configuration = ("max_rows", str "250") ∷ ("timeout", int (pos 5)) ∷ []

abbrev limits : ExecutionLimits floats
limits = record { timeout = 5; query_timeout = 30; max_rows = 250; max_result_bytes = 1_000_000 }

execution_limits_range_example : InRanges floats limits
unfolding execution_limits time_limit integer_limit integer_of is_decimal digits_value
execution_limits_range_example = execution_limits_range floats configuration limits refl
