-- ===== src/Pagination/Sample.antt =====
-- A stand-in for UUIDs as text that the tests share: a row of strokes.
use trolley.Base.{ℕ, zero, suc, ◌≡◌, refl, ap, String, some, codes, length}
use trolley.Pagination.{UuidText}

abbrev pub strokes : ℕ → String
strokes zero = ""
strokes (suc n) = String.◌∷◌ "i" (strokes n)

pub length-strokes : (n : ℕ) → length (codes (strokes n)) ≡ n
length-strokes zero = refl
length-strokes (suc n) = ap suc (length-strokes n)

abbrev pub uuid : UuidText
uuid = record {
  parse = λ s. some (length (codes s));
  print = strokes;
  parse-print = λ n. ap some (length-strokes n);
}
