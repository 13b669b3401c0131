-- ===== src/Iam/Admission/Tokens.antt =====
-- Requests of pkg/iam that name an API token.
use cloud_ring.Prelude.{
  false, true, ◌≡◌, ◌≢◌, refl, subst, ◌∙◌, inl, inr, Option, none, some, arith, eq_iff,
  Option-cases,
}
use cloud_ring.Prelude.Lists.{lookup}
use cloud_ring.Prelude.Time.{Time}
use cloud_ring.Iam.Types.{AuthorizationRequest, AuthenticationResult, ApiToken}
use cloud_ring.Iam.Rules.{denied_by}
use cloud_ring.Iam.Policy.{Policy, ResolvedSubject}
use cloud_ring.Iam.Subject.{
  Verifier, authenticate, resolve_subject, token_subject, grant_subject, granted_subject,
}
use cloud_ring.Iam.Authorize.{decide, authorize}
use cloud_ring.Iam.AuditLog.{Sink}
use cloud_ring.Iam.Audited.{authorize-decide}
use cloud_ring.Iam.Permits.{
  CredentialPermits, TokenPermits, by_break_glass, by_support, by_token, by_role,
}
use cloud_ring.Iam.Admission.{IsAuthenticated}
use cloud_ring.Iam.Admission.Proofs.{
  decide-parts, admitted, authorize-Permits, resolve_none, resolve-parts,
}

token_subject-parts :
    (p : Policy) (r : AuthorizationRequest) (a : AuthenticationResult) (now : Time)
    → (token_subject p r a now).1.err ≡ none
    → (token : ApiToken) × (lookup r.subject.api_token_ref p.api_tokens ≡ some token)
      × (token.reference ≡ r.subject.api_token_ref)
      × (token.subject_id ≡ a.subject_id)
      × ((token_subject p r a now).0.api_grant ≡ token)
unfolding token_subject grant_subject granted_subject denied_by
token_subject-parts p r a now h =
    elim (Option-cases (lookup r.subject.api_token_ref p.api_tokens)) [
      | inl e ↦ absurd (ground arith)
      | inr (token, e) ↦ (
        token,
        e,
        ground (arith, eq_iff token.reference r.subject.api_token_ref),
        ground (arith, eq_iff token.subject_id a.subject_id),
        ground arith,
      )
    ]

resolve_subject-token :
    (p : Policy) (r : AuthorizationRequest) (a : AuthenticationResult) (now : Time)
    → (resolve_subject p r (some a) now).1.err ≡ none
    → r.subject.api_token_ref ≢ ""
    → resolve_subject p r (some a) now ≡ token_subject p r a now
unfolding resolve_subject denied_by
resolve_subject-token p r a now h n = ground (arith, eq_iff r.subject.api_token_ref "")

decide-grant :
    (p : Policy) (v : Option Verifier) (r : AuthorizationRequest) (now : Time)
    → (decide p v r now).0.api_grant
      ≡ (resolve_subject p r (authenticate p v r now) now).0.api_grant
unfolding decide
decide-grant p v r now = refl

by_token_only :
    (p : Policy) (v : Option Verifier) (r : AuthorizationRequest) (s : ResolvedSubject) (now : Time)
    → IsAuthenticated p v r now
    → r.subject.api_token_ref ≢ ""
    → CredentialPermits p r s now
    → (r.break_glass ≡ false) × (r.support_grant_ref ≡ "") × TokenPermits r now s.api_grant
by_token_only p v r s now a n (by_break_glass b _ _ _) =
    absurd (cc (a.class_fits.0 b, a.class_fits.3 n))
by_token_only p v r s now a n (by_support b m _ _ _) =
    absurd (cc (a.class_fits.1 b m, a.class_fits.3 n))
by_token_only p v r s now a n (by_token b m _ t) = (b, m, t)
by_token_only p v r s now a n (by_role b m e _) = absurd (n e)

granted :
    (p : Policy) (v : Option Verifier) (r : AuthorizationRequest) (now : Time)
    → (resolve_subject p r (authenticate p v r now) now).1.err ≡ none
    → r.subject.api_token_ref ≢ ""
    → (token : ApiToken) × (lookup r.subject.api_token_ref p.api_tokens ≡ some token)
      × (token.reference ≡ r.subject.api_token_ref)
      × (token.subject_id ≡ r.subject.id)
      × ((decide p v r now).0.api_grant ≡ token)
granted p v r now ok n = elim (Option-cases (authenticate p v r now)) [
  | inl e ↦
      absurd (resolve_none p r now (subst (λ x. (resolve_subject p r x now).1.err ≡ none) e ok))
  | inr (a, e) ↦
      let ok' = subst (λ x. (resolve_subject p r x now).1.err ≡ none) e ok in
      let branch = resolve_subject-token p r a now ok' n in
      let (token, found, reference, subject, grant) =
        token_subject-parts p r a now (subst (λ x. x.1.err ≡ none) branch ok') in
      (
        token,
        found,
        reference,
        subject ∙ (resolve-parts p r a now ok').1,
        cc (decide-grant p v r now, e, branch, grant),
      )
]

module _ {S : Type 0} (p : Policy) (sink : Option (Sink S)) (v : Option Verifier)
    (r : AuthorizationRequest) (now : Time) (s : S) where
  -- If a request that names an API token is allowed then it is neither a break-glass nor a support
  -- request, and the token stands in the directory under that reference, belongs to the subject of
  -- the request, is not revoked, not expired, has a secret, is for the target's tenant and project,
  -- and lists the action.
  pub authorize-token :
      (authorize p sink v r now s).1.allowed ≡ true
      → r.subject.api_token_ref ≢ ""
      → (r.break_glass ≡ false)
        × (r.support_grant_ref ≡ "")
        × ((token : ApiToken) × (lookup r.subject.api_token_ref p.api_tokens ≡ some token)
            × (token.reference ≡ r.subject.api_token_ref)
            × (token.subject_id ≡ r.subject.id)
            × TokenPermits r now token)
  authorize-token h n =
      let ok = (decide-parts p v r now (authorize-decide p sink v r now s h)).0 in
      let (plain, unsupported, t) =
        by_token_only p v r (decide p v r now).0 now (admitted p v r now ok) n
          (authorize-Permits p sink v r now s h).credential in
      let (token, found, reference, subject, grant) = granted p v r now ok n in
      (plain, unsupported, (token, found, reference, subject, subst (TokenPermits r now) grant t))
