-- ===== src/Base/Chain.antt =====
-- The chain of calls that may raise, shut: a proof about a long block takes it apart by a lemma
-- instead of computing with it.
use mathlib.Core.Path.{◌≡◌, refl}
use trolley.Base.Results.{Result, ok, err}

infixl 5 ◌>>=◌ ◌>>◌
unfoldable pub ◌>>=◌ {ℓ κ} : {A : Type ℓ} {B : Type κ} → Result A → (A → Result B) → Result B
ok value >>= next = next value
err raised >>= next = err raised

abbrev pub ◌>>◌ {ℓ} : {B : Type ℓ} → Result (Unit {0}) → Result B → Result B
first >> rest = first >>= λ _. rest

-- What a block that returns has passed through.
pub >>=-inv {ℓ κ} :
    {A : Type ℓ} {B : Type κ} (first : Result A) (next : A → Result B) {b : B}
    → (first >>= next) ≡ ok b
    → (a : A) × (first ≡ ok a) × (next a ≡ ok b)
unfolding ◌>>=◌
>>=-inv (ok value) next h = (value, refl, h)
>>=-inv (err raised) next h = cc
