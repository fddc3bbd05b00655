-- ===== src/Catalog/Monad.antt =====
-- Calls that read and write the catalog and may raise. What was written before a raise stays
-- written, but for a transaction, which takes the whole block back.
use trolley.Base.{
  Bool, Option, Result, ok, err, Error, none, some, true, false, refl, inl, inr, arith,
  Result-cases, ap, ◌≡◌,
}
use trolley.Catalog.{Catalog}

abbrev pub Action {ℓ} : Type ℓ → Type ℓ
Action A = Catalog → Result A × Catalog

infixl 5 ◌>>=◌ ◌>>◌
abbrev pub ◌>>=◌ {ℓ κ} : {A : Type ℓ} {B : Type κ} → Action A → (A → Action B) → Action B
◌>>=◌ m f c = let (r, c') = m c in elim r [ ok a ↦ f a c' | err e ↦ (err e, c') ]

abbrev pub ◌>>◌ {ℓ} : {B : Type ℓ} → Action (Unit {0}) → Action B → Action B
m >> k = m >>= λ _. k

module _ {ℓ} {A : Type ℓ} where
  abbrev pub pure : A → Action A
  pure a c = (ok a, c)

  abbrev pub raise : Error → Action A
  raise e c = (err e, c)

  abbrev pub gets : (Catalog → A) → Action A
  gets f c = (ok (f c), c)

  -- A check that reads nothing.
  abbrev pub lift : Result A → Action A
  lift r c = (r, c)

  -- `Model.get`, or a lookup whose absence is raised as `e`.
  abbrev pub get_or_raise : (Catalog → Option A) → Error → Action A
  get_or_raise f e c = elim (f c) [ none ↦ (err e, c) | some a ↦ (ok a, c) ]

  -- `async with in_transaction()`
  abbrev pub in_transaction : Action A → Action A
  in_transaction m c = let (r, c') = m c in elim r [ ok a ↦ (ok a, c') | err e ↦ (err e, c) ]

abbrev pub modify : (Catalog → Catalog) → Action (Unit {0})
modify f c = (ok tt, f c)

abbrev pub guard : Bool → Error → Action (Unit {0})
guard true e c = (err e, c)
guard false e c = (ok tt, c)

-- What follows a call that succeeds runs on the catalog it leaves.
pub >>-ok {ℓ} :
    {B : Type ℓ} (m : Action (Unit {0})) (k : Action B) (c c' : Catalog)
    → m c ≡ (ok tt, c')
    → (m >> k) c ≡ k c'
>>-ok m k c c' e = ap (λ p. elim p.0 [ ok _ ↦ k p.1 | err x ↦ (err x, p.1) ]) e

-- What both calls keep, their sequence keeps, whether the first succeeds or raises.
pub >>-keeps {ℓ κ} :
    {B : Type ℓ} (P : Catalog → Type κ) (m : Action (Unit {0})) (k : Action B) (c : Catalog)
    → P (m c).1
    → (P (m c).1 → P (k (m c).1).1)
    → P ((m >> k) c).1
>>-keeps {B = B} P m k c first next = go (m c).0
  where
    go :
        (r : Result (Unit {0}))
        → P (elim r as (λ _. Result B × Catalog) [ ok _ ↦ k (m c).1 | err x ↦ (err x, (m c).1) ]).1
    go (ok _) = next first
    go (err _) = first

module _ {ℓ κ} {A : Type ℓ} {B : Type κ} where
  -- What follows a call that returns a value is given it.
  pub >>=-ok :
      (m : Action A) (f : A → Action B) {a : A} {c c' : Catalog}
      → m c ≡ (ok a, c')
      → (m >>= f) c ≡ f a c'
  >>=-ok m f e = ap (λ p. elim p.0 [ ok a ↦ f a p.1 | err x ↦ (err x, p.1) ]) e

module _ {ℓ} {A : Type ℓ} where
  pub get_or_raise-ok :
      (f : Catalog → Option A) (x : Error) {a : A} {c : Catalog}
      → f c ≡ some a
      → get_or_raise f x c ≡ (ok a, c)
  get_or_raise-ok f x {c = c} e = ap (λ o. elim o [ none ↦ (err x, c) | some a ↦ (ok a, c) ]) e

  pub in_transaction-ok :
      (m : Action A) {a : A} {c c' : Catalog} → m c ≡ (ok a, c') → in_transaction m c ≡ (ok a, c')
  in_transaction-ok m {c = c} e = ap (λ p. elim p.0 [ ok a ↦ (ok a, p.1) | err x ↦ (err x, c) ]) e

  -- A transaction that raises is taken back.
  pub in_transaction-err :
      (m : Action A) (c : Catalog) {x : Error}
      → (in_transaction m c).0 ≡ err x
      → (in_transaction m c).1 ≡ c
  in_transaction-err m c h = elim (Result-cases (m c).0) [
    | inl (a, e) ↦ absurd (ground (arith, e))
    | inr (x, e) ↦ rw (in_transaction, e) refl
  ]

-- What a chain that returns has passed through.
pub >>=-returns {ℓ κ} :
    {A : Type ℓ} {B : Type κ} (m : Action A) (f : A → Action B) (c : Catalog) {b : B}
    → ((m >>= f) c).0 ≡ ok b
    → (a : A) × (c' : Catalog) × (m c ≡ (ok a, c')) × ((m >>= f) c ≡ f a c')
>>=-returns m f c h = elim (Result-cases (m c).0) [
  | inl (a, e) ↦
      let step : m c ≡ (ok a, (m c).1) = λ i. (e i, (m c).1) in (a, (m c).1, step, >>=-ok m f step)
  | inr (x, e) ↦ absurd (ground (arith, e, h))
]

pub in_transaction-returns {ℓ} :
    {A : Type ℓ} (m : Action A) (c : Catalog) {a : A}
    → (in_transaction m c).0 ≡ ok a
    → in_transaction m c ≡ m c
in_transaction-returns m c h = elim (Result-cases (m c).0) [
  | inl (a, e) ↦
      let step : m c ≡ (ok a, (m c).1) = λ i. (e i, (m c).1) in rw step (in_transaction-ok m step)
  | inr (x, e) ↦ absurd (ground (arith, e, h))
]
