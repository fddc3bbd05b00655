-- ===== src/Base/Lists.antt =====
-- Lists measured by native numbers and searched by Boolean tests.
use Prim.Native.Nat.{ℕ, zero, suc, ◌+◌, ◌≤◌}
use mathlib.Core.Path.{◌≡◌, refl, ap}
use mathlib.Core.Logic.{◌↔◌, ◌⊎◌, inl, inr}
use mathlib.Core.Bool.{Bool, true, false, ◌&&◌, ◌||◌}
use mathlib.Core.Option.{Option, none, some}
use mathlib.Core.List.{List, [], ◌∷◌, ◌++◌, map}
use native.Mathlib.Omega.{arith}
use Prim.Native.String.{String}
use text.Mathlib.TextEquality.{eq_iff}
use text.Mathlib.Text.{◌==◌ as str_eq}
use trolley.Base.Logic.{if◌then◌else◌, Bool-cases}

module _ {ℓ} {A : Type ℓ} where
  abbrev pub length : List A → ℕ
  length [] = 0
  length (x ∷ xs) = suc (length xs)

  abbrev pub take : ℕ → List A → List A
  take zero xs = []
  take (suc n) [] = []
  take (suc n) (x ∷ xs) = x ∷ take n xs

  abbrev pub drop : ℕ → List A → List A
  drop zero xs = xs
  drop (suc n) [] = []
  drop (suc n) (x ∷ xs) = drop n xs

  abbrev pub any : (A → Bool) → List A → Bool
  any p [] = false
  any p (x ∷ xs) = p x || any p xs

  abbrev pub all : (A → Bool) → List A → Bool
  all p [] = true
  all p (x ∷ xs) = p x && all p xs

  abbrev pub filter : (A → Bool) → List A → List A
  filter p [] = []
  filter p (x ∷ xs) = if p x then x ∷ filter p xs else filter p xs

  abbrev pub find : (A → Bool) → List A → Option A
  find p [] = none
  find p (x ∷ xs) = if p x then some x else find p xs

  -- Rewrites every row that a test selects.
  abbrev pub update_where : (A → Bool) → (A → A) → List A → List A
  update_where p f [] = []
  update_where p f (x ∷ xs) = (if p x then f x else x) ∷ update_where p f xs

module _ {ℓ} {A : Type ℓ} where
  pub length-append : (xs ys : List A) → length (xs ++ ys) ≡ length xs + length ys
  length-append [] ys = omega arith
  length-append (x ∷ xs) ys = omega (arith, length-append xs ys)

  pub length-filter : (p : A → Bool) (xs : List A) → length (filter p xs) ≤ length xs
  length-filter p [] = omega arith
  length-filter p (x ∷ xs) = ground (arith, length-filter p xs)

-- Membership as a predicate by recursion; the empty type of the prelude lives at level 0.
module _ {A : Type 0} where
  abbrev pub In : A → List A → Type 0
  In a [] = ⊥
  In a (x ∷ xs) = (a ≡ x) ⊎ In a xs

  pub any-In : (p : A → Bool) (xs : List A) → any p xs ≡ true → (a : A) × In a xs × (p a ≡ true)
  any-In p [] h = cc
  any-In p (x ∷ xs) h = elim (Bool-cases (p x)) [
    | inl here ↦ (x, inl refl, here)
    | inr away ↦ let (a, m, e) = any-In p xs (ground arith) in (a, inr m, e)
  ]

  pub In-any : (p : A → Bool) (a : A) (xs : List A) → In a xs → p a ≡ true → any p xs ≡ true
  In-any p a [] m h = absurd m
  In-any p a (x ∷ xs) (inl e) h = rw (← e, h)
  In-any p a (x ∷ xs) (inr m) h = ground (arith, In-any p a xs m h)

  pub find-In : (p : A → Bool) (xs : List A) (a : A) → find p xs ≡ some a → In a xs × (p a ≡ true)
  find-In p [] a h = cc
  find-In p (x ∷ xs) a h = elim (Bool-cases (p x)) [
    | inl here ↦ (inl (ground arith), ground arith)
    | inr away ↦ let (m, e) = find-In p xs a (ground arith) in (inr m, e)
  ]

  pub In-find :
      (p : A → Bool) (xs : List A) (a : A) → In a xs → p a ≡ true → (b : A) × (find p xs ≡ some b)
  In-find p [] a m h = absurd m
  In-find p (x ∷ xs) a (inl e) h = (x, rw (← e, h))
  In-find p (x ∷ xs) a (inr m) h = elim (Bool-cases (p x)) [
    | inl here ↦ (x, rw here)
    | inr away ↦ rw away (In-find p xs a m h)
  ]

  pub In-append : (a : A) (xs ys : List A) → In a (xs ++ ys) ↔ (In a xs ⊎ In a ys)
  In-append a [] ys = (inr, λ m. elim m [ inl e ↦ absurd e | inr m' ↦ m' ])
  In-append a (x ∷ xs) ys = ground (arith, In-append a xs ys)

  pub filter-In :
      (p : A → Bool) (xs : List A) (a : A) → In a (filter p xs) ↔ (In a xs × (p a ≡ true))
  filter-In p [] a = (λ m. absurd m, λ m. m.0)
  filter-In p (x ∷ xs) a = elim (Bool-cases (p x)) [
    | inl here ↦ rw here (ground (arith, filter-In p xs a))
    | inr away ↦ rw away (ground (arith, filter-In p xs a))
  ]

  -- Every row that a rewrite leaves was there, or is the row written.
  pub update_where-In :
      (p : A → Bool) (new : A) (xs : List A) (a : A)
      → In a (update_where p (λ _. new) xs)
      → (a ≡ new) ⊎ (In a xs × (p a ≡ false))
  update_where-In p new [] a m = absurd m
  update_where-In p new (x ∷ xs) a m = elim (Bool-cases (p x)) [
    | inl here ↦ ground (arith, here, update_where-In p new xs a)
    | inr away ↦
        let m' : (a ≡ x) ⊎ In a (update_where p (λ _. new) xs) = ground (arith, away) in
        elim m' [
          | inl e ↦ inr (inl e, rw e away)
          | inr rest ↦ ground (arith, update_where-In p new xs a rest)
        ]
  ]

module _ {A B : Type 0} where
  pub In-map : (f : A → B) (a : A) (xs : List A) → In a xs → In (f a) (map f xs)
  In-map f a [] m = absurd m
  In-map f a (x ∷ xs) (inl e) = inl (ap f e)
  In-map f a (x ∷ xs) (inr m) = inr (In-map f a xs m)

  pub map-In : (f : A → B) (b : B) (xs : List A) → In b (map f xs) → (a : A) × In a xs × (b ≡ f a)
  map-In f b [] m = absurd m
  map-In f b (x ∷ xs) (inl e) = (x, inl refl, e)
  map-In f b (x ∷ xs) (inr m) = let (a, m', e) = map-In f b xs m in (a, inr m', e)

-- `a in names`, for a list or a set of strings.
abbrev pub contains : List String → String → Bool
contains names a = any (λ b. str_eq b a) names

pub contains_iff : (names : List String) (a : String) → (contains names a ≡ true) ↔ In a names
contains_iff [] a = (λ h. cc, λ m. absurd m)
contains_iff (b ∷ names) a = ground (arith, eq_iff b a, contains_iff names a)
