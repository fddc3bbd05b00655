-- ===== src/Downloads/Tests.antt =====
-- A download of the file of the sample of Exports.
use trolley.Base.{String, ok, some, [], ◌∷◌, ◌≡◌, refl, str_eq, if◌then◌else◌}
use trolley.Catalog.Sample.{hash}
use trolley.Pagination.Sample.{uuid}
use trolley.Executions.Sample.{floats, is_zero, digest, definition, services}
use trolley.Access.{
  active_user, is_granted, member_target_names, accessible_operation_names, can_access_operation,
}
use trolley.Auth.{user_by_id, active_key, role_scopes, verify_token}
use trolley.Pagination.{query_fingerprint}
use trolley.Exports.{check_export, get_export, resolve_export}
use trolley.Exports.Sample.{no_parameters, done, with_file}
use trolley.Downloads.{download_export}
use trolley.Downloads.Released.{IsReleased, download_export-IsReleased}

abbrev lower : String → String
lower s = if str_eq s "Bearer" then "bearer" else s

downloads_done :
    (download_export floats is_zero uuid digest services no_parameters hash lower
      (ok (("sales", definition) ∷ []))
      "iii"
      (some "Bearer ann")
      50
      with_file).0
    ≡ ok done
unfolding download_export verify_token active_key role_scopes get_export check_export resolve_export
    active_user is_granted member_target_names accessible_operation_names can_access_operation
    user_by_id query_fingerprint
downloads_done = refl

download_export-IsReleased_example :
    IsReleased floats is_zero uuid digest services no_parameters hash lower
      (ok (("sales", definition) ∷ []))
      (some "Bearer ann")
      50
      with_file
      (download_export floats is_zero uuid digest services no_parameters hash lower
        (ok (("sales", definition) ∷ []))
        "iii"
        (some "Bearer ann")
        50
        with_file).1
      done
download_export-IsReleased_example =
    download_export-IsReleased floats is_zero uuid digest services no_parameters hash lower
      (ok (("sales", definition) ∷ [])) "iii" (some "Bearer ann") 50 with_file done downloads_done
