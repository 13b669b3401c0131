-- ===== src/Iam/Authorize.antt =====
-- pkg/iam/policy.go and audit_event.go: AuthorizeContext, from the authentication to the audit
-- record.
use cloud_ring.Prelude.{
  String, true, false, not, ◌&&◌, ◌||◌, Option, none, some, ◌==◌, if◌then◌else◌,
}
use cloud_ring.Prelude.Lists.{lookup}
use cloud_ring.Prelude.Time.{Time}
use cloud_ring.Iam.Types.{
  IamError, allow, deny, TenantState, Tenant, AuthorizationRequest, Decision,
}
use cloud_ring.Iam.Rules.{normalized_mfa, principal_requires_mfa}
use cloud_ring.Iam.Policy.{Policy, ResolvedSubject, evaluate}
use cloud_ring.Iam.Subject.{Verifier, authenticate, resolve_subject}
use cloud_ring.Iam.AuditLog.{AuditEvent, Sink}

-- decision.Err.Error() for the errors that a decision can carry
unfoldable pub error_text : Option IamError → String
error_text none = ""
error_text (some IamError.unknown_principal) = "iam: unknown principal"
error_text (some IamError.unknown_action) = "iam: unknown action"
error_text (some IamError.unknown_tenant) = "iam: unknown tenant"
error_text (some IamError.unknown_project) = "iam: unknown project"
error_text (some IamError.cross_tenant) = "iam: cross-tenant access denied"
error_text (some IamError.object_scope) = "iam: object scope denied"
error_text (some IamError.tenant_suspended) = "iam: tenant suspended"
error_text (some IamError.tenant_deleting) = "iam: tenant deleting"
error_text (some IamError.tenant_state) = "iam: invalid tenant lifecycle state"
error_text (some IamError.last_owner) = "iam: last owner removal denied"
error_text (some IamError.reason_required) = "iam: explicit reason required"
error_text (some IamError.ticket_required) = "iam: support ticket reference required"
error_text (some IamError.audit_required) = "iam: durable audit required"
error_text (some IamError.token_expired) = "iam: api token expired"
error_text (some IamError.token_revoked) = "iam: api token revoked"
error_text (some IamError.token_scope) = "iam: api token scope denied"
error_text (some IamError.support_grant) = "iam: support grant denied"
error_text (some IamError.role_denied) = "iam: role denied"
error_text (some IamError.authentication) = "iam: trusted authentication evidence required"
error_text (some IamError.mfa_required) = "iam: multi-factor assurance required"
error_text (some IamError.session_assurance) = "iam: fresh session assurance required"
error_text (some IamError.break_glass) = "iam: break-glass context required"
error_text (some IamError.target_principal) = "iam: target principal is not an owner of the project"
error_text (some IamError.append_audit_event) = "append audit event: iam: durable audit required"

unfoldable pub lifecycle_of : Option Tenant → TenantState
lifecycle_of none = TenantState.other ""
lifecycle_of (some tenant) = tenant.state

-- The event that `audit` appends.
unfoldable pub audit_event :
    Policy → AuthorizationRequest → ResolvedSubject → Decision → Time → AuditEvent
audit_event policy request subject decision now = record {
  actor = if subject.actor == "" then request.subject.id else subject.actor;
  represented_subject = subject.represented;
  action = request.action;
  target = request.target;
  reason = request.context.reason;
  ticket_ref = request.context.ticket_ref;
  correlation_id = request.context.correlation_id;
  result = if decision.allowed then allow else deny;
  policy_rule = decision.policy_rule;
  timestamp = now;
  error = error_text decision.err;
  break_glass = request.break_glass;
  support_grant_ref = request.support_grant_ref;
  api_token_ref = request.subject.api_token_ref;
  target_principal = request.context.target_principal;
  target_lifecycle = lifecycle_of (lookup request.target.tenant_id policy.tenants);
  target_namespace = request.target.namespace;
  target_resource = request.target.resource;
  target_resource_name = request.target.name;
  target_organization = request.target.org_id;
  target_tenant = request.target.tenant_id;
  target_project = request.target.project_id;
  credential_class = decision.credential_class;
  mfa = decision.mfa;
  session = decision.session;
  proof = decision.proof;
}

unfoldable pub audit_denied : Decision → IamError → Decision
audit_denied decision e = record decision {
  allowed = false;
  err = some e;
  policy_rule = "audit_required";
}

-- The decision of AuthorizeContext before its audit, and the subject.
unfoldable pub decide :
    Policy → Option Verifier → AuthorizationRequest → Time → ResolvedSubject × Decision
decide policy verifier request now =
    let (resolved, early) =
      resolve_subject policy request (authenticate policy verifier request now) now in
    let normalized = normalized_mfa request resolved.authn_class resolved.mfa in
    let mfa =
      if principal_requires_mfa resolved.principal
      then record normalized { required = true }
      else normalized in
    let subject = record resolved { mfa = mfa } in
    let decision : Decision = elim early.err [
      | none ↦ evaluate policy request subject now
      | some _ ↦ early
    ] in
    (
      subject,
      record decision {
        credential_class = subject.authn_class;
        mfa = subject.mfa;
        session = subject.session;
        proof = subject.proof;
      },
    )

module _ {S : Type 0} where
  -- `audit`: a nil sink is `none`.
  unfoldable pub audit : Policy → Option (Sink S) → AuditEvent → Decision → S → S × Decision
  unfolding audit_denied
  audit policy none event decision s = (s, audit_denied decision IamError.audit_required)
  audit policy (some sink) event decision s =
      if not sink.is_durable_sink || (not policy.allow_ephemeral_audit && not (sink.durable s))
      then (s, audit_denied decision IamError.audit_required)
      else if not (sink.ready s)
      then (s, audit_denied decision IamError.audit_required)
      else let (s', appended) = sink.append event s in
        (s', if appended then decision else audit_denied decision IamError.append_audit_event)

  -- AuthorizeContext: the sink's state passes through.
  unfoldable pub authorize :
      Policy → Option (Sink S) → Option Verifier → AuthorizationRequest → Time → S → S × Decision
  authorize policy sink verifier request now s =
      let (subject, decision) = decide policy verifier request now in
      audit policy sink (audit_event policy request subject decision now) decision s
