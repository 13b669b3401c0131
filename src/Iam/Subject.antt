-- ===== src/Iam/Subject.antt =====
-- pkg/iam/policy.go: authenticate and resolveSubject. The trusted verifier is an argument, `none`
-- where none is configured; its errors are all one to the policy.
use cloud_ring.Prelude.{Bool, not, ◌&&◌, ◌||◌, Option, none, some, ◌==◌, ◌<>◌, if◌then◌else◌}
use cloud_ring.Prelude.Lists.{lookup}
use cloud_ring.Prelude.Time.{Time, is_zero, before}
use cloud_ring.Iam.Types.{
  IamError, interactive_session, short_lived_api_token, CredentialClass, AuthenticationResult,
  AuthorizationRequest, Decision, ApiToken, Principal, credential_eq, no_authentication,
  no_principal, no_api_token, no_decision,
}
use cloud_ring.Iam.Rules.{denied_by}
use cloud_ring.Iam.Policy.{Policy, ResolvedSubject, valid_proof}

abbrev pub Verifier : Type 0
Verifier = AuthorizationRequest → Time → Option AuthenticationResult

-- authenticate: `none` is ErrAuthentication.
unfoldable pub authenticate :
    Policy → Option Verifier → AuthorizationRequest → Time → Option AuthenticationResult
authenticate policy none request now = none
authenticate policy (some verify) request now = elim (verify request now) [
  | none ↦ none
  | some result ↦ if valid_proof policy result now then some result else none
]

abbrev pub given_or_none : Option AuthenticationResult → AuthenticationResult
given_or_none none = no_authentication
given_or_none (some a) = a

-- The subject before a principal is found.
abbrev pub plain_subject : AuthorizationRequest → AuthenticationResult → ResolvedSubject
plain_subject request authentication = record {
  principal = no_principal;
  actor = request.subject.id;
  represented = "";
  api_grant = no_api_token;
  authn_class = authentication.credential_class;
  mfa = authentication.mfa;
  session = authentication.session;
  proof = authentication.proof;
}

-- The subject of a request that names a token, once its principal is found.
unfoldable pub granted_subject : Principal → ApiToken → AuthenticationResult → ResolvedSubject
granted_subject principal grant authentication = record {
  principal = principal;
  actor = "api-grant:" <> grant.reference;
  represented = grant.subject_id;
  api_grant = grant;
  authn_class = authentication.credential_class;
  mfa = authentication.mfa;
  session = authentication.session;
  proof = authentication.proof;
}

unfoldable pub grant_liveness : ApiToken → Time → Decision
unfolding denied_by
grant_liveness grant now =
    if not (is_zero grant.revoked_at)
    then denied_by IamError.token_revoked "api_token_denied"
    else if is_zero grant.expires_at || not (before now grant.expires_at)
    then denied_by IamError.token_expired "api_token_denied"
    else no_decision

-- From the found token on.
unfoldable pub grant_subject :
    Policy
    → AuthorizationRequest
    → AuthenticationResult
    → ApiToken
    → Time
    → ResolvedSubject × Decision
grant_subject policy request authentication grant now =
    let ownerless : ResolvedSubject × Decision = (
      record (plain_subject request authentication) { actor = "api-grant:" <> grant.reference },
      denied_by IamError.unknown_principal "fail_closed",
    ) in
    elim (lookup grant.subject_id policy.principals) [
      | none ↦ ownerless
      | some principal ↦
          if not (principal.id == grant.subject_id)
          then ownerless
          else (granted_subject principal grant authentication, grant_liveness grant now)
    ]

-- The branch of resolveSubject for a request that names an API token.
unfoldable pub token_subject :
    Policy → AuthorizationRequest → AuthenticationResult → Time → ResolvedSubject × Decision
token_subject policy request authentication now =
    let subject = plain_subject request authentication in
    let reference = request.subject.api_token_ref in
    let stranger : ResolvedSubject × Decision = (
      record subject { actor = "api-token-" <> reference },
      denied_by IamError.unknown_principal "fail_closed",
    ) in
    if not (credential_eq authentication.credential_class short_lived_api_token)
      || not (authentication.api_token_ref == reference)
    then (subject, denied_by IamError.authentication "authentication_class_denied")
    else elim (lookup reference policy.api_tokens) [
      | none ↦ stranger
      | some grant ↦
          if not (grant.reference == reference)
            || not (grant.subject_id == authentication.subject_id)
          then stranger
          else grant_subject policy request authentication grant now
    ]

-- The end of resolveSubject, for a request without a token.
unfoldable pub principal_subject :
    Policy → AuthorizationRequest → AuthenticationResult → ResolvedSubject × Decision
principal_subject policy request authentication =
    let subject = plain_subject request authentication in
    elim (lookup request.subject.id policy.principals) [
      | none ↦ (subject, denied_by IamError.unknown_principal "fail_closed")
      | some principal ↦
          if not (principal.id == request.subject.id)
          then (
            record subject { principal = principal },
            denied_by IamError.unknown_principal "fail_closed",
          )
          else (record subject { principal = principal }, no_decision)
    ]

-- Whether the credential class is not the one that the kind of request asks for.
unfoldable pub wrong_class : AuthorizationRequest → CredentialClass → Bool
wrong_class request credential =
    if request.break_glass
    then not (credential_eq credential CredentialClass.break_glass)
    else if not (request.support_grant_ref == "")
    then not (credential_eq credential CredentialClass.support_grant)
    else request.subject.api_token_ref == "" && not (credential_eq credential interactive_session)

-- resolveSubject: an error of `authenticate` is `none`.
unfoldable pub resolve_subject :
    Policy → AuthorizationRequest → Option AuthenticationResult → Time → ResolvedSubject × Decision
resolve_subject policy request none now = (
  plain_subject request no_authentication,
  denied_by IamError.authentication "authentication_required",
)
resolve_subject policy request (some authentication) now =
    if authentication.subject_id == "" || not (authentication.subject_id == request.subject.id)
    then (
      plain_subject request authentication,
      denied_by IamError.authentication "authentication_required",
    )
    else if wrong_class request authentication.credential_class
    then (
      plain_subject request authentication,
      denied_by IamError.authentication "authentication_class_denied",
    )
    else if not (request.subject.api_token_ref == "")
    then token_subject policy request authentication now
    else principal_subject policy request authentication
