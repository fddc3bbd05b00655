-- ===== src/Caller/Dicts.antt =====
-- Sets of names and dicts, as the validation reads them.
use trolley.Base.{
  String, true, false, ◌≡◌, refl, ◌||◌, some, List, [], ◌∷◌, ◌++◌, contains, str_eq, eq_iff, Json,
  Dict, get, put, keys, arith, if◌then◌else◌, Bool-cases, and_split, subst, inl, inr,
}
use trolley.Caller.{at, subset}

module _ {V : Type 0} where
  pub get-put :
      (j k : String) (v : V) (d : Dict V)
      → get j (put k v d) ≡ (if str_eq k j then some v else get j d)
  get-put j k v [] = refl
  get-put j k v ((i, w) ∷ d) = ground (arith, eq_iff k j, eq_iff i k, eq_iff i j, get-put j k v d)

  pub contains-put :
      (j k : String) (v : V) (d : Dict V)
      → contains (keys (put k v d)) j ≡ (str_eq k j || contains (keys d) j)
  contains-put j k v [] = ground arith
  contains-put j k v ((i, w) ∷ d) =
      ground (arith, eq_iff k j, eq_iff i k, eq_iff i j, contains-put j k v d)

  -- A new key goes to the end.
  pub put_new :
      (k : String) (v : V) (d : Dict V) → contains (keys d) k ≡ false → put k v d ≡ d ++ (k, v) ∷ []
  put_new k v [] h = refl
  put_new k v ((i, w) ∷ d) h = ground (arith, put_new k v d)

pub at-put :
    (j k : String) (v : Json) (d : Dict Json)
    → at j (put k v d) ≡ (if str_eq k j then v else at j d)
at-put j k v d = elim (Bool-cases (str_eq k j)) [
  | inl same ↦ rw (at, get-put j k v d, same) refl
  | inr other ↦ rw (at, get-put j k v d, other) refl
]

pub contains-append :
    (xs ys : List String) (a : String) → contains (xs ++ ys) a ≡ (contains xs a || contains ys a)
contains-append [] ys a = refl
contains-append (x ∷ xs) ys a = ground (arith, contains-append xs ys a)

-- A set is in another as soon as each of its members is.
pub contains-subset :
    (xs ys : List String)
    → ((a : String) → contains xs a ≡ true → contains ys a ≡ true)
    → subset xs ys ≡ true
contains-subset [] ys h = refl
contains-subset (x ∷ xs) ys h =
    let first : contains ys x ≡ true = h x (ground (arith, eq_iff x x)) in
    let rest : subset xs ys ≡ true = contains-subset xs ys (λ a m. h a (ground (arith, m))) in
    rw (first, rest) refl

pub subset-contains :
    (xs ys : List String) (a : String)
    → subset xs ys ≡ true
    → contains xs a ≡ true
    → contains ys a ≡ true
subset-contains [] ys a s m = cc
subset-contains (x ∷ xs) ys a s m = elim (Bool-cases (str_eq x a)) [
  | inl same ↦
      let e : x ≡ a = (eq_iff x a).0 same in
      subst (λ z. contains ys z ≡ true) e ((and_split _ _).0 s).0
  | inr other ↦ subset-contains xs ys a ((and_split _ _).0 s).1 (rw other at m)
]
