-- ===== src/Iam/Admission.antt =====
-- What stands behind an allowed request of pkg/iam, end to end: trusted and fresh authentication of
-- the subject, and the permission by the directory and the credential.
pub mod Proofs
pub mod Tokens
use cloud_ring.Prelude.{ℕ, ◌<◌, ◌≤◌, ◌+◌, ◌*◌, String, false, true, ◌≡◌, ◌≢◌, Option, some}
use cloud_ring.Prelude.Int.{pos}
use cloud_ring.Prelude.Time.{Time, hour, minute}
use cloud_ring.Iam.Types.{
  AuthorizationRequest, AuthenticationResult, CredentialClass, interactive_session,
  short_lived_api_token,
}
use cloud_ring.Iam.Policy.{Policy}
use cloud_ring.Iam.Subject.{Verifier}

-- A proof that is neither from the future, beyond the skew that the policy grants, nor older than
-- the policy's maximum age, nor expired; the policy's bounds are themselves bounded.
pub record IsFresh (p : Policy) (a : AuthenticationResult) (now : Time) : Type 0 where
  pub max_age : ℕ
  pub max_age_set : p.proof_max_age ≡ pos max_age
  pub max_age_bounded : max_age ≤ 24 * hour
  pub skew : ℕ
  pub skew_set : p.proof_skew ≡ pos skew
  pub skew_bounded : skew ≤ 5 * minute
  pub verified : a.proof.verified_at ≢ 0
  pub live : now < a.proof.expires_at
  pub not_ahead : a.proof.verified_at ≤ now + skew
  pub not_old : now ≤ a.proof.verified_at + max_age

-- The credential class that the kind of request asks for.
abbrev pub ClassFits : AuthorizationRequest → CredentialClass → Type 0
ClassFits r c =
    (r.break_glass ≡ true → c ≡ CredentialClass.break_glass)
    × (r.break_glass ≡ false → r.support_grant_ref ≢ "" → c ≡ CredentialClass.support_grant)
    × (r.break_glass ≡ false
        → r.support_grant_ref ≡ ""
        → r.subject.api_token_ref ≡ ""
        → c ≡ interactive_session)
    × (r.subject.api_token_ref ≢ "" → c ≡ short_lived_api_token)

pub record IsAuthenticated (p : Policy) (v : Option Verifier) (r : AuthorizationRequest)
    (now : Time) : Type 0 where
  pub verify : Verifier
  pub verify_set : v ≡ some verify
  pub result : AuthenticationResult
  pub verified : verify r now ≡ some result
  pub fresh : IsFresh p result now
  pub named : r.subject.id ≢ ""
  pub same_subject : result.subject_id ≡ r.subject.id
  pub class_fits : ClassFits r result.credential_class
