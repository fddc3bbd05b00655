-- ===== src/Provisioning/Tests.antt =====
-- A key for a new account, with access to the sample target.
use trolley.Base.{ℕ, ◌≡◌, ◌⊎◌, String, [], ◌∷◌, true, ok, err, Error, all, contains}
use trolley.Catalog.Sample.{sample, hash}
use trolley.Provisioning.{provision}
use trolley.Provisioning.Promise.{IsProvisioned, provision-IsProvisioned}

abbrev managed_name : ℕ → String
managed_name _ = "provisioning-target"

provision-IsProvisioned_example :
    let (r, c) =
      provision managed_name hash ("sales" ∷ []) "eve@x.org" ("sales" ∷ []) "secret" sample in
    ((s : String) × (r ≡ ok s)
      × (all (contains ("sales" ∷ [])) ("sales" ∷ []) ≡ true)
      × IsProvisioned managed_name hash "eve@x.org" ("sales" ∷ []) c)
    ⊎ ((x : Error) × (r ≡ err x) × (c ≡ sample))
provision-IsProvisioned_example =
    provision-IsProvisioned managed_name hash ("sales" ∷ []) "eve@x.org" ("sales" ∷ []) "secret"
      sample
