-- ===== src/Iam/Examples.antt =====
-- The theorems of pkg/iam at a small directory.
use cloud_ring.Prelude.{
  String, false, true, ◌≡◌, ◌≢◌, refl, ◌↔◌, ◌⊎◌, inl, inr, none, some, [], ◌∷◌, ◌++◌, ◌==◌, eq_iff,
}
use cloud_ring.Prelude.Lists.{Some, lookup, contains}
use cloud_ring.Prelude.Int.{pos}
use cloud_ring.Prelude.Text.{is_blank}
use cloud_ring.Iam.Types.{
  project_read, project_write, owner_remove, allow, Project, ApiToken, AuthorizationRequest,
  IamError, action_eq, credential_eq, suspended,
}
use cloud_ring.Iam.Rules.{
  allowed_by, denied_by, known_action, known_satisfied_mfa_method, normalized_mfa,
  principal_requires_mfa, session_assurance, evaluate_assurance, lifecycle_allows, action_allowed,
  has_tenant_access, has_access_by, role_allows, role_allows_by, membership_role_allows,
  rule_for_role, rule_by, target_within_project_scope, same_project, principal_owns,
}
use cloud_ring.Iam.Policy.{
  ResolvedSubject, valid_proof, session_age_valid, organization_of, tenant_of, project_of,
  resolve_target, owners_in, removing_last_owner, owner_removal_denied, evaluate_api_token,
  role_decision, evaluate_credential, evaluate_resolved, evaluate,
}
use cloud_ring.Iam.AuditLog.{
  MemoryAuditSink, Sink, SecurityEvent, memory_sink, memory_append, memory_append_security_event,
  new_bounded_memory_audit_sink, failing_sink,
}
use cloud_ring.Iam.Subject.{
  authenticate, resolve_subject, token_subject, grant_subject, granted_subject, grant_liveness,
  principal_subject, wrong_class,
}
use cloud_ring.Iam.Authorize.{decide, audit_event, audit, authorize, error_text, lifecycle_of}
use cloud_ring.Iam.Coherence.{IsCoherent}
use cloud_ring.Iam.Audited.{recorded, authorize-allowed, authorize-IsCoherent}
use cloud_ring.Iam.Trail.{Calls, authorizes, reports, held, Keeps, IsWithin, memory_sink-Keeps}
use cloud_ring.Iam.Roles.{Grants, rule_of, role_allows_iff, rule_for_role-granting}
use cloud_ring.Iam.Denials.{Reaches, role_decision_errors}
use cloud_ring.Iam.Owners.{Owns, removing_last_owner-leaves}
use cloud_ring.Iam.Owners.Converse.{removing_last_owner-passes}
use cloud_ring.Iam.Permits.{Permits, LifecycleMay, TokenPermits}
use cloud_ring.Iam.Admission.Tokens.{authorize-token}
use cloud_ring.Iam.Permits.Guards.{lifecycle_allows_iff}
use cloud_ring.Iam.Permits.Evaluate.{evaluate_iff}
use cloud_ring.Iam.Admission.{IsAuthenticated}
use cloud_ring.Iam.Admission.Proofs.{
  authorize-IsAuthenticated, authorize-Permits, authorize-keeps_owner,
}
use cloud_ring.Iam.Sample.{
  noon, owner_of, project, policy, target, request, browser, robot, empty_log, removal,
}

-- Unfolding this runs the policy.
runs : Unit {0}
unfolding authorize decide audit audit_event memory_append authenticate valid_proof
    session_age_valid credential_eq resolve_subject wrong_class principal_subject lookup
    normalized_mfa action_eq principal_requires_mfa evaluate known_action evaluate_assurance
    known_satisfied_mfa_method session_assurance resolve_target organization_of tenant_of project_of
    evaluate_resolved target_within_project_scope lifecycle_allows owner_removal_denied
    principal_owns same_project removing_last_owner owners_in contains evaluate_credential
    role_decision has_tenant_access has_access_by role_allows role_allows_by membership_role_allows
    rule_for_role allowed_by error_text lifecycle_of rule_by token_subject grant_subject
    granted_subject grant_liveness evaluate_api_token action_allowed is_blank denied_by
runs = tt

removal_allowed :
    (authorize policy (some memory_sink) (some browser) removal noon empty_log).1.allowed ≡ true
unfolding runs
removal_allowed = refl

abbrev alice : ResolvedSubject
alice = (decide policy (some browser) removal noon).0

evaluate_iff_example :
    ((evaluate policy removal alice noon).allowed ≡ true) ↔ Permits policy removal alice noon
evaluate_iff_example = evaluate_iff policy removal alice noon

authorize-IsAuthenticated_example : IsAuthenticated policy (some browser) removal noon
authorize-IsAuthenticated_example =
    authorize-IsAuthenticated policy (some memory_sink) (some browser) removal noon empty_log
      removal_allowed

authorize-Permits_example : Permits policy removal alice noon
authorize-Permits_example =
    authorize-Permits policy (some memory_sink) (some browser) removal noon empty_log
      removal_allowed

authorize-allowed_example :
    let final = authorize policy (some memory_sink) (some browser) removal noon empty_log in
    (k : Sink MemoryAuditSink) × (some memory_sink ≡ some k)
    × (k.is_durable_sink ≡ true)
    × ((policy.allow_ephemeral_audit ≡ true) ⊎ (k.durable empty_log ≡ true))
    × (k.ready empty_log ≡ true)
    × (k.append (recorded policy (some browser) removal noon) empty_log ≡ (final.0, true))
    × ((recorded policy (some browser) removal noon).result ≡ allow)
    × ((recorded policy (some browser) removal noon).policy_rule ≡ final.1.policy_rule)
authorize-allowed_example =
    authorize-allowed policy (some memory_sink) (some browser) removal noon empty_log
      removal_allowed

authorize-IsCoherent_example :
    IsCoherent (authorize policy (some failing_sink) (some browser) removal noon tt).1
authorize-IsCoherent_example =
    authorize-IsCoherent policy (some failing_sink) (some browser) removal noon tt

authorize-keeps_owner_example :
    (p : Project) × (lookup "p" policy.projects ≡ some p)
    × ((other : String) × (other ≢ "bob") × Some (Owns p other) policy.principals)
authorize-keeps_owner_example =
    authorize-keeps_owner policy (some memory_sink) (some browser) removal noon empty_log
      removal_allowed refl

abbrev sign_in : SecurityEvent
sign_in = record {
  type = "login";
  actor = "alice";
  subject = "alice";
  result = allow;
  reason = "";
  correlation_id = "c2";
  timestamp = noon;
}

-- A sink of two events, with one of them, in which the removal and then a report are recorded.
abbrev started : MemoryAuditSink
started =
    (authorize policy (some memory_sink) none removal noon
      (new_bounded_memory_audit_sink (pos 2))).0

memory_sink-Keeps_example :
    let removed = authorize policy (some memory_sink) (some browser) removal noon started in
    IsWithin (memory_append_security_event sign_in removed.0).0
    × (((removed.1 ≡ (decide policy (some browser) removal noon).1)
          × Keeps
              (started.events ++ recorded policy (some browser) removal noon ∷ [])
              (memory_append_security_event sign_in removed.0).0)
        ⊎ ((removed.1.allowed ≡ false)
            × ((policy.allow_ephemeral_audit ≡ false) ⊎ (held started ≡ started.max_events))
            × Keeps started.events (memory_append_security_event sign_in removed.0).0))
memory_sink-Keeps_example =
    memory_sink-Keeps (pos 2) started
      (memory_append_security_event sign_in
        (authorize policy (some memory_sink) (some browser) removal noon started).0).0
      policy (some browser) removal noon
      (Calls.next Calls.here
        (authorizes policy none removal noon (new_bounded_memory_audit_sink (pos 2))))
      (Calls.next Calls.here (
        reports sign_in
          (authorize policy (some memory_sink) (some browser) removal noon started).0))

-- Token requests.
abbrev deploy : AuthorizationRequest
deploy = request project_write "ci"

deploy_allowed :
    (authorize policy (some memory_sink) (some robot) deploy noon empty_log).1.allowed ≡ true
unfolding runs
deploy_allowed = refl

authorize-token_example :
    (deploy.break_glass ≡ false)
    × (deploy.support_grant_ref ≡ "")
    × ((token : ApiToken) × (lookup "ci" policy.api_tokens ≡ some token)
        × (token.reference ≡ "ci")
        × (token.subject_id ≡ "alice")
        × TokenPermits deploy noon token)
authorize-token_example =
    authorize-token policy (some memory_sink) (some robot) deploy noon empty_log deploy_allowed
      (λ e. cc ((eq_iff "ci" "").1 e))

-- Roles and owners.
role_allows_iff_example :
    (role_allows (owner_of "bob") owner_remove target ≡ true)
    ↔ Some (Grants owner_remove target) (owner_of "bob").memberships
role_allows_iff_example = role_allows_iff (owner_of "bob") owner_remove target

role_decision_errors_example :
    (((role_decision removal alice).err ≡ none)
      ↔ Some (Grants owner_remove target) alice.principal.memberships)
    × (((role_decision removal alice).err ≡ some IamError.cross_tenant)
        ↔ ¬ Some (Reaches target) alice.principal.memberships)
    × (((role_decision removal alice).err ≡ some IamError.role_denied) ↔ (
        Some (Reaches target) alice.principal.memberships
        × ¬ Some (Grants owner_remove target) alice.principal.memberships))
role_decision_errors_example = role_decision_errors removal alice

rule_for_role-granting_example :
    Some
      (λ m.
        Grants owner_remove target m
        × (rule_for_role (owner_of "bob") owner_remove target ≡ rule_of owner_remove m))
      (owner_of "bob").memberships
unfolding runs
rule_for_role-granting_example = rule_for_role-granting (owner_of "bob") owner_remove target refl

lifecycle_allows_iff_example :
    (lifecycle_allows suspended project_read ≡ none) ↔ LifecycleMay suspended project_read
lifecycle_allows_iff_example = lifecycle_allows_iff suspended project_read

ne : (a b : String) → (a == b) ≡ false → a ≢ b
ne a b h e = cc (h, (eq_iff a b).1 e)

removing_last_owner-leaves_example :
    Some (Owns project "bob") policy.principals
    × ((other : String) × (other ≢ "bob") × Some (Owns project other) policy.principals)
unfolding runs
removing_last_owner-leaves_example = removing_last_owner-leaves policy "bob" project refl

removing_last_owner-passes_example : removing_last_owner policy "bob" project ≡ false
unfolding runs
removing_last_owner-passes_example =
    removing_last_owner-passes policy "bob" "alice" project
      (ne "alice" "" refl, refl, refl, (ne "bob" "" refl, refl, refl, tt)) (ne "bob" "" refl)
      (ne "alice" "bob" refl) (inr (inl (refl, refl, refl))) (inl (refl, refl, refl))

-- A removal of the only owner is refused.
sole_owner_kept :
    (authorize
      (record policy { principals = ("alice", owner_of "alice") ∷ [] })
      (some memory_sink)
      (some browser)
      (record removal { context = record removal.context { target_principal = "alice" } })
      noon
      empty_log).1.policy_rule
    ≡ "last_owner_guard"
unfolding runs
sole_owner_kept = refl
