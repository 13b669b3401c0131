-- ===== src/Iam/LoaderExamples.antt =====
-- The theorems on the state loader of pkg/iam at the small directory.
use cloud_ring.Prelude.{
  String, false, true, ◌≡◌, ◌≢◌, refl, inl, inr, none, some, [], ◌∷◌, ◌==◌, eq_iff, arith,
}
use cloud_ring.Prelude.Lists.{lookup, contains}
use cloud_ring.Prelude.Int.{pos}
use cloud_ring.Prelude.Time.{hour, minute}
use cloud_ring.Iam.Types.{Tenant, project_write}
use cloud_ring.Iam.Rules.{known_action, principal_owns}
use cloud_ring.Iam.Policy.{found, resolve_target, removing_last_owner}
use cloud_ring.Iam.AuditLog.{Sink}
use cloud_ring.Iam.State.{
  PolicyState, known_tenant_state, known_role, known_actions, is_empty, range_error,
  organization_error, tenant_error, scopes_error, project_error, project_membership_valid,
  membership_error, memberships_error, principal_error, principal_id, grant_bound, token_error,
  grant_error, validate_policy_state,
}
use cloud_ring.Iam.Construction.{
  PolicyStateLoader, PolicyConfig, constructed, proof_bounds_valid, audit_failure, policy_of,
  load_policy, new_policy_from_state,
}
use cloud_ring.Iam.Loaded.{
  new_policy_from_state-resolve_target, new_policy_from_state-removing_last_owner,
}
use cloud_ring.Iam.Sample.{policy, project, target, browser}

-- A sink that is durable and ready, and takes what it is given.
abbrev durable_sink : Sink Unit
durable_sink = record {
  is_durable_sink = true;
  durable = λ s. true;
  ready = λ s. true;
  append = λ event s. (s, true);
  append_security_event = λ event s. (s, true);
}

abbrev sample_config : PolicyConfig Unit
sample_config = record {
  authentication_verifier = some browser;
  authentication_proof_max_age = pos hour;
  authentication_proof_future_skew = pos minute;
  audit_sink = some durable_sink;
  allow_ephemeral_audit = false;
}

abbrev sample_state : PolicyState
sample_state = record {
  organizations = policy.organizations;
  tenants = policy.tenants;
  projects = policy.projects;
  principals = policy.principals;
  api_tokens = policy.api_tokens;
  support_grants = policy.support_grants;
}

abbrev sample_loader : PolicyStateLoader
sample_loader = record { ready = true; load_policy_state = some sample_state }

constructs :
    new_policy_from_state true sample_config (some sample_loader) tt
    ≡ constructed (policy_of sample_config sample_state)
unfolding new_policy_from_state load_policy proof_bounds_valid audit_failure validate_policy_state
    grant_error token_error grant_bound principal_id principal_error memberships_error
    membership_error project_membership_valid project_error scopes_error tenant_error
    organization_error range_error is_empty known_actions known_role known_tenant_state known_action
    lookup
constructs = refl

-- A token that names no subject passes, though no principal has that name.
unbound_token_passes :
    validate_policy_state (record sample_state {
      api_tokens =
          (
            "ci",
            record {
              reference = "ci";
              subject_id = "";
              secret_hash_ref = "vault:ci";
              tenant_id = "t";
              project_id = "p";
              scopes = project_write ∷ [];
              expires_at = 0;
              revoked_at = 0;
            },
          )
          ∷ [];
    })
    ≡ none
unfolding validate_policy_state grant_error token_error grant_bound principal_id principal_error
    memberships_error membership_error project_membership_valid project_error scopes_error
    tenant_error organization_error range_error is_empty known_actions known_role known_tenant_state
    known_action lookup
unbound_token_passes = refl

differs : (a b : String) → (a == b) ≡ false → a ≢ b
differs a b h e = ground (arith, eq_iff a b)

new_policy_from_state-resolve_target_example :
    (t : Tenant) × (lookup "t" policy.tenants ≡ some t)
    × (resolve_target (policy_of sample_config sample_state) target ≡ found t project)
unfolding policy_of lookup
new_policy_from_state-resolve_target_example =
    new_policy_from_state-resolve_target true sample_config (some sample_loader) tt
      (policy_of sample_config sample_state) project target constructs refl refl refl

new_policy_from_state-removing_last_owner_example :
    removing_last_owner (policy_of sample_config sample_state) "bob" project ≡ false
unfolding policy_of contains principal_owns
new_policy_from_state-removing_last_owner_example =
    new_policy_from_state-removing_last_owner true sample_config (some sample_loader) tt
      (policy_of sample_config sample_state) "bob" "alice" project constructs (refl, (refl, tt))
      (differs "bob" "" refl) (differs "alice" "bob" refl) (inr (inl (refl, refl, refl)))
      (inl (refl, refl, refl))
