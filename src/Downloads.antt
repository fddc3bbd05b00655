-- ===== src/Downloads.antt =====
-- main.py: the route that hands out the file of an export. `str.lower` and the digest of a secret are
-- parameters.
pub mod Released
mod Tests
use trolley.Base.{
  ℕ, String, Bool, true, false, not, ◌&&◌, ◌||◌, Option, none, some, List, any, ◌==◌, str_eq,
  is_empty, if◌then◌else◌, Result, ok, err, Error, http_exception, external_error, or_raise, ◌>>=◌,
  Dict,
}
use Prim.Native.String
use Prim.Native.Char.{code}
use trolley.Catalog.{ExportJob}
use trolley.Access.{AuthContext}
use trolley.Auth.{AccessToken, verify_token}
use trolley.Limits.{Floats}
use trolley.Targets.{TargetDefinition}
use trolley.Pagination.{UuidText, Digest}
use trolley.Executions.{Services, Compiled}
use trolley.Exports.{Service, get_export, is_succeeded}

-- `text.partition(" ")`, without the separator.
abbrev pub partition : String → String × String
partition String.[] = ("", "")
partition (String.◌∷◌ c s) =
    if code c == b' ' then ("", s) else (String.◌∷◌ c (partition s).0, (partition s).1)

-- `authorization or ""`
abbrev pub header_text : Option String → String
header_text none = ""
header_text (some s) = s

-- The context of a token; the verifier sets its subject and its claims.
abbrev pub token_context : AccessToken → Result AuthContext
token_context token = do
  user ← or_raise token.subject (external_error "TypeError")
  role ← or_raise token.claims (external_error "TypeError")
  ok (record { user_id = user; api_key_id = token.client_id; role = role })

-- `export_manager.path(job).is_file()`
abbrev pub has_file : ExportJob → Service → Bool
has_file job s = any (λ i. i == job.id) s.files

-- The answer to what the manager gave.
abbrev pub release : Result ExportJob × Service → Result ExportJob × Service
release (err _, s) = (err (http_exception 404 "Export unavailable"), s)
release (ok job, s) =
    if not (is_succeeded job) || not (has_file job s)
    then (err (http_exception 409 "Export is not ready or has expired"), s)
    else (ok job, s)

module _ (floats : Floats) (is_zero : String → Bool) (uuid : UuidText) (digest : Digest)
    (services : Services (TargetDefinition floats is_zero)) (parameters : Compiled → List String)
    (hash_secret : String → String) (lower : String → String)
    (targets : Result (Dict (TargetDefinition floats is_zero))) where
  -- With the token of the secret.
  abbrev pub download_as : Option AccessToken → String → ℕ → Service → Result ExportJob × Service
  download_as none job_id now s = (err (http_exception 401 "Invalid credentials"), s)
  download_as (some token) job_id now s = elim (token_context token) [
    | err e ↦ (err e, s)
    | ok context ↦
        release
          (get_export floats is_zero uuid digest services parameters targets job_id context now s)
  ]

  -- `download_export`: the job whose file is sent.
  unfoldable pub download_export : String → Option String → ℕ → Service → Result ExportJob × Service
  download_export job_id authorization now s =
      let (scheme, secret) = partition (header_text authorization) in
      if not (str_eq (lower scheme) "bearer") || is_empty secret
      then (err (http_exception 401 "Bearer authentication required"), s)
      else download_as (verify_token hash_secret secret s.catalog) job_id now s
