-- ===== src/Downloads/Released.antt =====
-- Whose files are sent.
use trolley.Base.{
  ℕ, String, Bool, true, false, not, ◌&&◌, ◌||◌, Option, List, ◌≡◌, refl, sym, ap, ◌∙◌, inl, inr,
  leb, str_eq, is_empty, if◌then◌else◌, Result, ok, err, arith, Dict, ok-injective, Bool-cases,
  Option-cases, subst,
}
use trolley.Catalog.{ExportJob, JobStatus}
use trolley.Auth.{AccessToken, verify_token}
use trolley.Auth.Tokens.{Vouched, verify_token-Vouched}
use trolley.Limits.{Floats}
use trolley.Targets.{TargetDefinition}
use trolley.Pagination.{UuidText, Digest}
use trolley.Executions.{Services, Compiled}
use trolley.Tools.Policies.{context_of}
use trolley.Exports.{Service, get_export, is_succeeded}
use trolley.Exports.Access.{Entitled, get_export-Entitled}
use trolley.Downloads.{partition, header_text, has_file, release, download_export}

release-ok :
    (p : Result ExportJob × Service) (job : ExportJob)
    → (release p).0 ≡ ok job
    → (p.0 ≡ ok job) × (is_succeeded job ≡ true) × (has_file job (release p).1 ≡ true)
release-ok (err e, s) job h = cc
release-ok (ok j, s) job h = elim (Bool-cases (not (is_succeeded j) || not (has_file j s))) [
  | inl bad ↦ absurd (ground (arith, bad, h))
  | inr good ↦
      let same : ◌≡◌ {A = Result ExportJob} (ok j) (ok job) = ground (arith, good, h) in
      (
        same,
        subst (λ x. is_succeeded x ≡ true) (ok-injective same) (ground (arith, good)),
        rw good (subst (λ x. has_file x s ≡ true) (ok-injective same) (ground (arith, good))),
      )
]

-- A job that is given as finished was not due.
not_due :
    (job given : ExportJob) (now : ℕ)
    → given ≡ (
        if is_succeeded job && leb job.expires_at now
        then record job { status = JobStatus.expired }
        else job)
    → is_succeeded given ≡ true
    → (given ≡ job) × (leb given.expires_at now ≡ false)
not_due job given now e done = elim (Bool-cases (is_succeeded job && leb job.expires_at now)) [
  | inl due ↦
      let expired : given ≡ record job { status = JobStatus.expired } = e ∙ ground (arith, due) in
      let impossible : false ≡ true = sym (ap is_succeeded expired) ∙ done in absurd cc
  | inr kept ↦
      let same : given ≡ job = e ∙ ground (arith, kept) in
      let finished : is_succeeded job ≡ true = sym (ap is_succeeded same) ∙ done in
      (same, ap (λ (x : ExportJob). leb x.expires_at now) same ∙ ground (arith, kept, finished))
]

module _ (floats : Floats) (is_zero : String → Bool) (uuid : UuidText) (digest : Digest)
    (services : Services (TargetDefinition floats is_zero)) (parameters : Compiled → List String)
    (hash_secret : String → String) (lower : String → String)
    (targets : Result (Dict (TargetDefinition floats is_zero))) where
  -- Why a file is sent.
  pub record IsReleased (authorization : Option String) (now : ℕ) (s s' : Service) (job : ExportJob)
      : Type 0 where
    pub token : AccessToken
    pub bearer : str_eq (lower (partition (header_text authorization)).0) "bearer" ≡ true
    pub vouched : Vouched hash_secret s.catalog (partition (header_text authorization)).1 token
    pub entitled :
        Entitled floats is_zero uuid digest services parameters targets
          (context_of vouched.user.id token.client_id vouched.user.role)
          s.catalog
          job
    pub succeeded : is_succeeded job ≡ true
    pub fresh : leb job.expires_at now ≡ false
    pub on_disk : has_file job s' ≡ true

  -- A file is sent only for a bearer secret of an active key of an active user, who owns the job and
  -- may still run today what made it; the job has succeeded and is not due, and its file is there.
  pub download_export-IsReleased :
      (job_id : String) (authorization : Option String) (now : ℕ) (s : Service) (job : ExportJob)
      → let (r, s') =
          download_export floats is_zero uuid digest services parameters hash_secret lower targets
            job_id authorization now s in
        r ≡ ok job → IsReleased authorization now s s' job
  unfolding download_export
  download_export-IsReleased job_id authorization now s job h =
      elim (Bool-cases (not (str_eq (lower scheme) "bearer") || is_empty secret)) [
        | inl bad ↦ absurd (ground (arith, bad, h))
        | inr good ↦ elim (Option-cases (verify_token hash_secret secret s.catalog)) [
          | inl missing ↦ absurd (ground (arith, good, missing, h))
          | inr (token, verified) ↦
              let v = verify_token-Vouched hash_secret secret s.catalog token verified in
              let context = context_of v.user.id token.client_id v.user.role in
              let asked =
                get_export floats is_zero uuid digest services parameters targets job_id context now
                  s in
              let run : download_export floats is_zero uuid digest services parameters hash_secret
                    lower targets job_id authorization now s
                  ≡ release asked =
                rw (good, verified, v.subject_eq, v.claims_eq) refl in
              let (given, succeeded, on_disk) =
                release-ok asked job (sym (ap (λ p. p.0) run) ∙ h) in
              let (origin, entitled, e) =
                get_export-Entitled floats is_zero uuid digest services parameters targets job_id
                  context now s job given in
              let (same, fresh) = not_due origin job now e succeeded in
              record {
                token = token;
                bearer = ground (arith, good);
                vouched = v;
                entitled =
                    subst
                      (Entitled floats is_zero uuid digest services parameters targets context
                        s.catalog)
                      (sym same) entitled;
                succeeded = succeeded;
                fresh = fresh;
                on_disk = rw run on_disk;
              }
        ]
      ]
    where
      scheme : String
      scheme = (partition (header_text authorization)).0

      secret : String
      secret = (partition (header_text authorization)).1
