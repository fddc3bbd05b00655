-- ===== src/Users/Tests.antt =====
-- An invitation of the sample catalog's user, with and without a working mail server.
use trolley.Base.{
  ◌≡◌, refl, String, none, some, [], ok, err, external_error, Result, is_space, strip,
}
use trolley.Catalog.Sample.{sample, bob, hash}
use trolley.Auth.{verify_token, user_by_id}
use trolley.Auth.Keys.{new_token}
use trolley.Users.{invite_user}
use trolley.Users.Invitation.{invite_user-verify_token}

abbrev lower : String → String
lower s = s

abbrev undelivered : Result (Unit {0})
undelivered = err (external_error "SMTP")

undelivered_key :
    verify_token hash "secret"
      (invite_user lower hash "bob@x.org" "k" "secret" undelivered [] sample).1
    ≡ none
unfolding is_space strip user_by_id
undelivered_key =
    invite_user-verify_token hash lower "bob@x.org" "k" "secret" undelivered bob sample refl refl
      refl refl

invite_user-verify_token_example :
    verify_token hash "secret"
      (invite_user lower hash " bob@x.org" "k" "secret" (ok tt) [] sample).1
    ≡ some (new_token hash bob sample)
unfolding is_space strip user_by_id
invite_user-verify_token_example =
    invite_user-verify_token hash lower " bob@x.org" "k" "secret" (ok tt) bob sample refl refl refl
      refl
