-- ===== src/Base/Decimal.antt =====
-- `str(n)` of a number, and that it is written in digits.
use Prim.Native.Nat.{ℕ, zero, suc, ◌/◌, ◌%◌}
use Prim.Native.String.{String, ◌++◌ as append}
use mathlib.Core.Path.{◌≡◌, refl}
use mathlib.Core.Logic.{inl, inr}
use mathlib.Core.Bool.{Bool, true, false, ◌&&◌}
use mathlib.Core.List.{List, [], ◌∷◌, ◌++◌}
use native.Mathlib.Omega.{arith}
use trolley.Base.Logic.{leb, if◌then◌else◌, Bool-cases}
use trolley.Base.Text.{codes, codes-append}

-- The entry of a table, or 9 past its end.
digit_in : List String → ℕ → String
digit_in [] d = "9"
digit_in (s ∷ ss) zero = s
digit_in (s ∷ ss) (suc d) = digit_in ss d

abbrev digit_texts : List String
digit_texts = "0" ∷ "1" ∷ "2" ∷ "3" ∷ "4" ∷ "5" ∷ "6" ∷ "7" ∷ "8" ∷ []

digit : ℕ → String
unfolding digit_in
digit = digit_in digit_texts

-- On fuel: a number has no more digits than itself, but for 0.
digits_of : ℕ → ℕ → String
unfolding digit
digits_of zero n = digit n
digits_of (suc fuel) n =
    let front = digits_of fuel (n / 10) in
    if leb n 9 then digit n else append front (digit (n % 10))

unfoldable pub decimal : ℕ → String
unfolding digits_of
decimal n = digits_of n n

decimal_test : decimal 1024 ≡ "1024"
unfolding decimal
decimal_test = refl

abbrev pub are_digits : List ℕ → Bool
are_digits [] = true
are_digits (c ∷ cs) = (leb b'0' c && leb c b'9') && are_digits cs

abbrev pub is_numeral : List ℕ → Bool
is_numeral [] = false
is_numeral (c ∷ cs) = are_digits (c ∷ cs)

are_digits-append :
    (xs ys : List ℕ) → are_digits xs ≡ true → is_numeral ys ≡ true → are_digits (xs ++ ys) ≡ true
are_digits-append [] (y ∷ ys) a b = b
are_digits-append [] [] a b = refl
are_digits-append (x ∷ xs) ys a b = ground (arith, are_digits-append xs ys)

is_numeral-append :
    (xs ys : List ℕ) → is_numeral xs ≡ true → is_numeral ys ≡ true → is_numeral (xs ++ ys) ≡ true
is_numeral-append [] ys a b = b
is_numeral-append (x ∷ xs) ys a b = are_digits-append (x ∷ xs) ys a b

abbrev AreNumerals : List String → Type 0
AreNumerals [] = Unit
AreNumerals (s ∷ ss) = (is_numeral (codes s) ≡ true) × AreNumerals ss

digit_in-is_numeral :
    (table : List String) (d : ℕ) → AreNumerals table → is_numeral (codes (digit_in table d)) ≡ true
unfolding digit_in
digit_in-is_numeral [] d h = refl
digit_in-is_numeral (s ∷ ss) zero h = h.0
digit_in-is_numeral (s ∷ ss) (suc d) h = digit_in-is_numeral ss d h.1

digit-is_numeral : (d : ℕ) → is_numeral (codes (digit d)) ≡ true
unfolding digit
digit-is_numeral d =
    digit_in-is_numeral digit_texts d
      (refl, (refl, (refl, (refl, (refl, (refl, (refl, (refl, (refl, tt)))))))))

digits_of-is_numeral : (fuel n : ℕ) → is_numeral (codes (digits_of fuel n)) ≡ true
unfolding digits_of
digits_of-is_numeral zero n = digit-is_numeral n
digits_of-is_numeral (suc fuel) n = elim (Bool-cases (leb n 9)) [
  | inl small ↦ rw small (digit-is_numeral n)
  | inr large ↦
      rw (large, codes-append)
        (is_numeral-append (codes (digits_of fuel (n / 10))) (codes (digit (n % 10)))
          (digits_of-is_numeral fuel (n / 10)) (digit-is_numeral (n % 10)))
]

pub decimal-is_numeral : (n : ℕ) → is_numeral (codes (decimal n)) ≡ true
unfolding decimal
decimal-is_numeral n = digits_of-is_numeral n n
