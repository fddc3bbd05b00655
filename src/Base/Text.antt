-- ===== src/Base/Text.antt =====
-- What the program uses of Python's `str`: `strip`, `isspace` and tests of equality.
use Prim.Native.Nat.{ℕ}
use Prim.Native.Char.{Char, code}
use Prim.Native.String.{String, [], ◌∷◌, ◌++◌}
use mathlib.Core.Path.{◌≡◌, refl, ap, ◌∙◌}
use text.Mathlib.TextLemmas.{nil-append, cons-append}
use mathlib.Core.List
use mathlib.Core.Bool.{Bool, true, false, ◌&&◌, ◌||◌}
use mathlib.Core.List.{List}
use trolley.Base.Logic.{leb, ◌==◌, if◌then◌else◌}

-- `str.isspace` of one code point.
unfoldable pub is_space : ℕ → Bool
is_space c =
    (leb 9 c && leb c 13)
    || (leb 28 c && leb c 32)
    || c == 133
    || c == 160
    || c == 5760
    || (leb 8192 c && leb c 8202)
    || c == 8232
    || c == 8233
    || c == 8239
    || c == 8287
    || c == 12288

abbrev pub codes : String → List ℕ
codes [] = List.[]
codes (c ∷ s) = List.◌∷◌ (code c) (codes s)

pub codes-append : (s t : String) → codes (s ++ t) ≡ List.◌++◌ (codes s) (codes t)
codes-append [] t = ap codes (nil-append t)
codes-append (c ∷ s) t = ap codes (cons-append c s t) ∙ ap (List.◌∷◌ (code c)) (codes-append s t)

pub lstrip : String → String
lstrip [] = []
lstrip (c ∷ s) = let rest = lstrip s in if is_space (code c) then rest else c ∷ s

-- Drops `c` in front of a right-stripped rest that is empty, if it is a space.
abbrev trim_end : Char → String → String
trim_end c [] = if is_space (code c) then [] else c ∷ []
trim_end c (d ∷ s) = c ∷ d ∷ s

pub rstrip : String → String
rstrip [] = []
rstrip (c ∷ s) = trim_end c (rstrip s)

unfoldable pub strip : String → String
unfolding lstrip rstrip is_space
strip s = rstrip (lstrip s)

-- `not s`
abbrev pub is_empty : String → Bool
is_empty [] = true
is_empty (c ∷ s) = false

-- The pieces of an f-string.
abbrev pub cat : List String → String
cat List.[] = ""
cat (List.◌∷◌ s ss) = s ++ cat ss

-- `separator.join(…)`
abbrev pub join : String → List String → String
join separator List.[] = ""
join separator (List.◌∷◌ s List.[]) = s
join separator (List.◌∷◌ s (List.◌∷◌ t ss)) = s ++ (separator ++ join separator (List.◌∷◌ t ss))

strip_test : strip " \t ab c\n" ≡ "ab c"
unfolding strip
strip_test = refl
