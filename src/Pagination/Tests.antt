-- ===== src/Pagination/Tests.antt =====
-- Pages of a query on the sample catalog.
use trolley.Base.{◌≤◌, ◌<◌, ◌≡◌, refl, arith, none, some, [], ◌∷◌, ok, pos, ◌==◌, if◌then◌else◌}
use trolley.Catalog.{Catalog, UserRole}
use trolley.Catalog.Sample.{sample, report}
use trolley.Access.{AuthContext}
use trolley.Pagination.{
  Digest, Page, query_fingerprint, check_page_size, resume_page, resolve_page, next_page,
}
use trolley.Pagination.Sample.{uuid}
use trolley.Pagination.Bounds.{Origin, resolve_page-Origin}
use trolley.Pagination.Cursors.{resolve_page-next_page}

abbrev digest : Digest
digest _ _ target arguments = if target == 20 then "sales" else "other"

abbrev admin : AuthContext
admin = record { user_id = 1; api_key_id = 10; role = UserRole.admin }

-- The catalog after the second page was announced.
abbrev saved : Catalog
saved = record sample {
  cursors =
      record {
        id = 3;
        operation = 60;
        user_id = 1;
        fingerprint = "sales";
        offset = 10;
        page_size = 10;
        expires_at = 50;
      }
      ∷ [];
  next_id = 4;
}

abbrev second_page : Page
second_page = record { offset = 10; page_size = 10; fingerprint = "sales"; expires_at = 50 }

resolve_page-Origin_example :
    (1 ≤ 10)
    × (10 ≤ 100)
    × (20 < 50)
    × ("sales" ≡ query_fingerprint digest report [])
    × Origin uuid digest report admin [] none 100 20 saved (some "iii") second_page
unfolding resolve_page resume_page check_page_size query_fingerprint
resolve_page-Origin_example =
    resolve_page-Origin uuid digest report admin [] none 100 20 (some "iii") saved second_page refl

resolve_page-next_page_example :
    let fingerprint = query_fingerprint digest report [] in
    let (text, c) = next_page uuid report admin 20 10 fingerprint 50 30 saved in
    (text ≡ ok "iiii")
    × (resolve_page uuid digest report admin [] (some (pos 10)) (some "iiii") 100 40 c ≡ (
      ok (record { offset = 20; page_size = 10; fingerprint = fingerprint; expires_at = 50 }),
      c,
    ))
resolve_page-next_page_example =
    resolve_page-next_page uuid report admin digest [] 20 10 50 30 40 100 (some (pos 10)) saved
      (omega arith, tt) (omega arith) (omega arith) (omega arith) refl
