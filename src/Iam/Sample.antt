-- ===== src/Iam/Sample.antt =====
-- A small directory of pkg/iam, its verifiers and requests, for the examples.
use cloud_ring.Prelude.{String, false, true, some, [], ◌∷◌, ◌+◌, ◌-◌, ◌*◌}
use cloud_ring.Prelude.Int.{pos}
use cloud_ring.Prelude.Time.{Time, hour, minute}
use cloud_ring.Iam.Types.{
  Action, project_write, owner_remove, owner, active, interactive_session, short_lived_api_token,
  webauthn, no_method, fresh, absent, Project, Principal, ApiToken, TargetRef, AuthorizationRequest,
}
use cloud_ring.Iam.Policy.{Policy}
use cloud_ring.Iam.AuditLog.{MemoryAuditSink}
use cloud_ring.Iam.Subject.{Verifier}

abbrev pub noon : Time
noon = 1000 * hour

abbrev pub owner_of : String → Principal
owner_of who = record {
  id = who;
  groups = [];
  memberships = record { org_id = "o"; tenant_id = "t"; project_id = "p"; role = owner } ∷ [];
  support = false;
}

abbrev pub project : Project
project = record { id = "p"; tenant_id = "t"; org_id = "o"; namespace = "ns"; scopes = [] }

abbrev pub ci_token : ApiToken
ci_token = record {
  reference = "ci";
  subject_id = "alice";
  secret_hash_ref = "vault:ci";
  tenant_id = "t";
  project_id = "p";
  scopes = project_write ∷ [];
  expires_at = noon + hour;
  revoked_at = 0;
}

abbrev pub policy : Policy
policy = record {
  organizations = ("o", record { id = "o"; name = "Org" }) ∷ [];
  tenants =
      (
        "t",
        record {
          id = "t";
          org_id = "o";
          state = active;
          quotas = record { projects = pos 1; cpu = pos 4; memory_gb = pos 8 };
        },
      )
      ∷ [];
  projects = ("p", project) ∷ [];
  principals = ("alice", owner_of "alice") ∷ ("bob", owner_of "bob") ∷ [];
  api_tokens = ("ci", ci_token) ∷ [];
  support_grants = [];
  proof_max_age = pos hour;
  proof_skew = pos minute;
  allow_ephemeral_audit = true;
}

abbrev pub target : TargetRef
target = record {
  org_id = "o";
  tenant_id = "t";
  project_id = "p";
  namespace = "ns";
  resource = "owner";
  name = "bob";
}

abbrev pub request : Action → String → AuthorizationRequest
request action token = record {
  subject = record { id = "alice"; api_token_ref = token };
  action = action;
  target = target;
  context = record {
    ticket_ref = "";
    correlation_id = "c1";
    reason = "";
    now = 0;
    target_principal = "bob";
  };
  support_grant_ref = "";
  break_glass = false;
}

-- Alice at her browser, and her token.
abbrev pub browser : Verifier
browser r now = some (record {
  subject_id = "alice";
  api_token_ref = "";
  credential_class = interactive_session;
  mfa = record { required = true; satisfied = true; method_class = webauthn };
  session = record { state = fresh; max_age_seconds = pos 600; reauthentication_required = false };
  proof = record { verified_at = noon - minute; expires_at = noon + minute };
})

abbrev pub robot : Verifier
robot r now = some (record {
  subject_id = "alice";
  api_token_ref = "ci";
  credential_class = short_lived_api_token;
  mfa = record { required = false; satisfied = false; method_class = no_method };
  session = record { state = absent; max_age_seconds = pos 0; reauthentication_required = false };
  proof = record { verified_at = noon - minute; expires_at = noon + minute };
})

abbrev pub empty_log : MemoryAuditSink
empty_log = record { events = []; security_events = []; max_events = 16 }

abbrev pub removal : AuthorizationRequest
removal = request owner_remove ""
