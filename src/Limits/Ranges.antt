-- ===== src/Limits/Ranges.antt =====
-- What accepted limits satisfy.
use trolley.Base.{
  ℕ, ◌+◌, ◌^◌, ◌≤◌, ◌<◌, ◌≡◌, String, true, codes, ok, ℤ, pos, negsuc, Json, null, bool, int, float,
  str, arr, obj, Dict, get, arith, >>=-eq-ok, Option-cases, inl, inr, subst,
}
use trolley.Limits.{
  Floats, ExecutionLimits, integer_limit, integer_of, to_float, with_default, time_limit,
  execution_limits, in_range, digits_value,
}

in_range-ok :
    (field : String) (n : ℤ) (limit : ℕ)
    → in_range field n ≡ ok limit
    → (1 ≤ limit) × (limit + 1 < 2 ^ 63)
in_range-ok field (pos n) limit h = ground arith
in_range-ok field (negsuc n) limit h = cc

integer_of_range :
    (field : String) (value : Json) (limit : ℕ)
    → integer_of field value ≡ ok limit
    → (1 ≤ limit) × (limit + 1 < 2 ^ 63)
unfolding integer_of
integer_of_range field null limit h = cc
integer_of_range field (bool b) limit h = cc
integer_of_range field (int n) limit h = in_range-ok field n limit h
integer_of_range field (float s) limit h = cc
integer_of_range field (str s) limit h =
    ground (arith, in_range-ok field (pos (digits_value 0 (codes s))) limit)
integer_of_range field (arr vs) limit h = cc
integer_of_range field (obj fs) limit h = cc

integer_limit_range :
    (field : String) (default : ℕ) (configuration : Dict Json) (limit : ℕ)
    → integer_limit field default configuration ≡ ok limit
    → (1 ≤ limit) × (limit + 1 < 2 ^ 63)
unfolding integer_limit
integer_limit_range field default configuration limit h =
    elim (Option-cases (get field configuration)) [
      | inl e ↦ in_range-ok field (pos default) limit (ground (arith, e))
      | inr (value, e) ↦ integer_of_range field value limit (ground (arith, e))
    ]

module _ (floats : Floats) where
  open floats use {Float, is_finite, is_positive}

  time_limit-ok :
      (field : String) (default : ℕ) (configuration : Dict Json) (value : Float)
      → time_limit floats field default configuration ≡ ok value
      → (is_finite value ≡ true) × (is_positive value ≡ true)
  unfolding time_limit
  time_limit-ok field default configuration value h =
      elim (Option-cases
        (to_float floats (with_default floats default (get field configuration)))) [
          | inl e ↦ absurd (ground (arith, e))
          | inr (v, e) ↦ ground (arith, e)
        ]

  -- The ranges that the rest of the program relies on.
  abbrev pub InRanges : ExecutionLimits floats → Type 0
  InRanges limits =
      (is_finite (ExecutionLimits.timeout limits) ≡ true)
      × (is_positive (ExecutionLimits.timeout limits) ≡ true)
      × (is_finite (ExecutionLimits.query_timeout limits) ≡ true)
      × (is_positive (ExecutionLimits.query_timeout limits) ≡ true)
      × (1 ≤ ExecutionLimits.max_rows limits)
      × (ExecutionLimits.max_rows limits + 1 < 2 ^ 63)
      × (1 ≤ ExecutionLimits.max_result_bytes limits)
      × (ExecutionLimits.max_result_bytes limits + 1 < 2 ^ 63)

  -- Every configuration that passes gives limits within their ranges: each timeout is finite and
  -- positive, each count is at least 1 and one more than it still fits a signed 64-bit integer,
  -- whether the values are given as integers, as texts or left to their defaults.
  pub execution_limits_range :
      (configuration : Dict Json) (limits : ExecutionLimits floats)
      → execution_limits floats configuration ≡ ok limits
      → InRanges limits
  unfolding execution_limits
  execution_limits_range configuration limits h =
      let (t, ht, h1) = >>=-eq-ok _ _ h in
      let (q, hq, h2) = >>=-eq-ok _ _ h1 in
      let (r, hr, h3) = >>=-eq-ok _ _ h2 in
      let (b, hb, h4) = >>=-eq-ok _ _ h3 in
      let (ft, pt) = time_limit-ok "timeout" 30 configuration t ht in
      let (fq, pq) = time_limit-ok "query_timeout" 30 configuration q hq in
      let (r1, r2) = integer_limit_range "max_rows" 1000 configuration r hr in
      let (b1, b2) = integer_limit_range "max_result_bytes" 1_000_000 configuration b hb in
      let same : record { timeout = t; query_timeout = q; max_rows = r; max_result_bytes = b }
          ≡ limits =
        ground (arith, h4) in
      subst InRanges same (ft, pt, fq, pq, r1, r2, b1, b2)
