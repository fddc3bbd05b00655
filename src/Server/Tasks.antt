-- ===== src/Server/Tasks.antt =====
-- Calls on the catalog and the registry of tools together.
use trolley.Base.{Result, ok, err, ◌≡◌, refl, ap}
use trolley.Catalog.{Catalog}
use trolley.Catalog.Monad.{Action}
use trolley.Registry.{ToolServer, Registry, Method}

-- What the server keeps.
pub record World (tools : ToolServer) : Type 0 where
  pub catalog : Catalog
  pub registry : Registry tools

abbrev pub Task : ToolServer → Type 0 → Type 0
Task tools A = World tools → Result A × World tools

abbrev pub continue :
    {tools : ToolServer} {A B : Type 0}
    → Result A × World tools
    → (A → Task tools B)
    → Result B × World tools
continue (ok a, w) f = f a w
continue (err e, w) f = (err e, w)

infixl 5 ◌>>=◌ ◌>>◌
-- What was written before a raise stays written.
unfoldable pub ◌>>=◌ :
    {tools : ToolServer} {A B : Type 0} → Task tools A → (A → Task tools B) → Task tools B
◌>>=◌ m f w = continue (m w) f

abbrev pub ◌>>◌ :
    {tools : ToolServer} {B : Type 0} → Task tools (Unit {0}) → Task tools B → Task tools B
m >> k = m >>= λ _. k

module _ (tools : ToolServer) where
  abbrev pub done : {A : Type 0} → A → Task tools A
  done a w = (ok a, w)

  abbrev pub on_catalog : {A : Type 0} → Action A → Task tools A
  on_catalog m w = ((m w.catalog).0, record w { catalog = (m w.catalog).1 })

  -- A method of the registry that reads the catalog.
  abbrev pub on_registry : {A : Type 0} → (Catalog → Method tools A) → Task tools A
  on_registry m w = ((m w.catalog w.registry).0, record w { registry = (m w.catalog w.registry).1 })

module _ {tools : ToolServer} {A B : Type 0} where
  -- A chain that returns has passed through its first call.
  pub >>=-inv :
      (m : Task tools A) (f : A → Task tools B) (w w' : World tools) {b : B}
      → (m >>= f) w ≡ (ok b, w')
      → (a : A) × ((m w).0 ≡ ok a) × (f a (m w).1 ≡ (ok b, w'))
  unfolding ◌>>=◌
  >>=-inv m f w w' {b} h = go (m w) h
    where
      go :
          (p : Result A × World tools)
          → continue p f ≡ (ok b, w')
          → (a : A) × (p.0 ≡ ok a) × (f a p.1 ≡ (ok b, w'))
      go (ok a, v) e = (a, refl, e)
      go (err x, v) e = cc

  -- What follows a call that returns is given its value.
  pub >>=-done :
      (m : Task tools A) (f : A → Task tools B) (w : World tools) {a : A}
      → (m w).0 ≡ ok a
      → (m >>= f) w ≡ f a (m w).1
  unfolding ◌>>=◌
  >>=-done m f w {a} h = ap (λ r. continue (r, (m w).1) f) h
