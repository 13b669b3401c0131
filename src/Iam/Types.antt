-- ===== src/Iam/Types.antt =====
-- pkg/iam/types.go: the data of the authorization policy. A Go string type with named constants is
-- a data type with a constructor for each constant; `other` stands for any other text.
use cloud_ring.Prelude.{String, Bool, true, false, Option, none, List, [], ◌==◌}
use cloud_ring.Prelude.Int.{ℤ, pos}
use cloud_ring.Prelude.Time.{Time}

pub data IamError : Type 0 where
  unknown_principal unknown_action unknown_tenant unknown_project cross_tenant : IamError
  object_scope tenant_suspended tenant_deleting tenant_state last_owner : IamError
  reason_required ticket_required audit_required token_expired token_revoked : IamError
  token_scope support_grant role_denied authentication mfa_required : IamError
  session_assurance break_glass target_principal : IamError
  -- fmt.Errorf("append audit event: %w", ErrAuditRequired)
  append_audit_event : IamError

pub data Action : Type 0 where
  project_read project_write project_manage owner_remove tenant_export tenant_recover : Action
  other : String → Action

pub data Role : Type 0 where
  owner tenant_admin tenant_viewer support platform_admin : Role
  other : String → Role

pub data TenantState : Type 0 where
  active suspended deleting recovering exporting : TenantState
  other : String → TenantState

pub data AuditResult : Type 0 where
  allow deny : AuditResult
  other : String → AuditResult

pub data CredentialClass : Type 0 where
  interactive_session short_lived_api_token support_grant break_glass : CredentialClass
  other : String → CredentialClass

pub data MfaMethodClass : Type 0 where
  no_method totp webauthn hardware_key external_idp : MfaMethodClass
  other : String → MfaMethodClass

pub data SessionState : Type 0 where
  fresh stale absent revoked : SessionState
  other : String → SessionState

-- == of two values of the string type
unfoldable pub action_eq : Action → Action → Bool
action_eq project_read project_read = true
action_eq project_write project_write = true
action_eq project_manage project_manage = true
action_eq owner_remove owner_remove = true
action_eq tenant_export tenant_export = true
action_eq tenant_recover tenant_recover = true
action_eq (Action.other s) (Action.other t) = s == t
action_eq _ _ = false

unfoldable pub credential_eq : CredentialClass → CredentialClass → Bool
credential_eq interactive_session interactive_session = true
credential_eq short_lived_api_token short_lived_api_token = true
credential_eq CredentialClass.support_grant CredentialClass.support_grant = true
credential_eq CredentialClass.break_glass CredentialClass.break_glass = true
credential_eq (CredentialClass.other s) (CredentialClass.other t) = s == t
credential_eq _ _ = false

abbrev pub is_platform_admin : Role → Bool
is_platform_admin platform_admin = true
is_platform_admin _ = false

abbrev pub is_tenant_admin : Role → Bool
is_tenant_admin tenant_admin = true
is_tenant_admin _ = false

abbrev pub is_owner : Role → Bool
is_owner owner = true
is_owner _ = false

abbrev pub is_fresh : SessionState → Bool
is_fresh fresh = true
is_fresh _ = false

abbrev pub is_absent : SessionState → Bool
is_absent absent = true
is_absent _ = false

pub record MfaAssurance : Type 0 where
  pub required : Bool
  pub satisfied : Bool
  pub method_class : MfaMethodClass

pub record SessionAssurance : Type 0 where
  pub state : SessionState
  pub max_age_seconds : ℤ
  pub reauthentication_required : Bool

pub record AuthenticationProof : Type 0 where
  pub verified_at : Time
  pub expires_at : Time

pub record AuthenticationResult : Type 0 where
  pub subject_id : String
  pub api_token_ref : String
  pub credential_class : CredentialClass
  pub mfa : MfaAssurance
  pub session : SessionAssurance
  pub proof : AuthenticationProof

pub record Organization : Type 0 where
  pub id : String
  pub name : String

pub record Quotas : Type 0 where
  pub projects : ℤ
  pub cpu : ℤ
  pub memory_gb : ℤ

pub record Tenant : Type 0 where
  pub id : String
  pub org_id : String
  pub state : TenantState
  pub quotas : Quotas

pub record NamespaceScope : Type 0 where
  pub namespace : String
  pub actions : List Action

pub record Project : Type 0 where
  pub id : String
  pub tenant_id : String
  pub org_id : String
  pub namespace : String
  pub scopes : List NamespaceScope

pub record Membership : Type 0 where
  pub org_id : String
  pub tenant_id : String
  pub project_id : String
  pub role : Role

pub record Principal : Type 0 where
  pub id : String
  pub groups : List String
  pub memberships : List Membership
  pub support : Bool

pub record PrincipalRef : Type 0 where
  pub id : String
  pub api_token_ref : String

pub record TargetRef : Type 0 where
  pub org_id : String
  pub tenant_id : String
  pub project_id : String
  pub namespace : String
  pub resource : String
  pub name : String

pub record RequestContext : Type 0 where
  pub ticket_ref : String
  pub correlation_id : String
  pub reason : String
  pub now : Time
  pub target_principal : String

pub record AuthorizationRequest : Type 0 where
  pub subject : PrincipalRef
  pub action : Action
  pub target : TargetRef
  pub context : RequestContext
  pub support_grant_ref : String
  pub break_glass : Bool

pub record Decision : Type 0 where
  pub allowed : Bool
  pub err : Option IamError
  pub policy_rule : String
  pub credential_class : CredentialClass
  pub mfa : MfaAssurance
  pub session : SessionAssurance
  pub proof : AuthenticationProof

pub record ApiToken : Type 0 where
  pub reference : String
  pub subject_id : String
  pub secret_hash_ref : String
  pub tenant_id : String
  pub project_id : String
  pub scopes : List Action
  pub expires_at : Time
  pub revoked_at : Time

pub record SupportGrant : Type 0 where
  pub reference : String
  pub subject_id : String
  pub tenant_id : String
  pub project_id : String
  pub actions : List Action
  pub ticket_ref : String
  pub reason : String
  pub expires_at : Time

-- The zero values of Go.
abbrev pub no_credential : CredentialClass
no_credential = CredentialClass.other ""

abbrev pub no_mfa : MfaAssurance
no_mfa = record { required = false; satisfied = false; method_class = MfaMethodClass.other "" }

abbrev pub no_session : SessionAssurance
no_session = record {
  state = SessionState.other "";
  max_age_seconds = pos 0;
  reauthentication_required = false;
}

abbrev pub no_proof : AuthenticationProof
no_proof = record { verified_at = 0; expires_at = 0 }

abbrev pub no_authentication : AuthenticationResult
no_authentication = record {
  subject_id = "";
  api_token_ref = "";
  credential_class = no_credential;
  mfa = no_mfa;
  session = no_session;
  proof = no_proof;
}

abbrev pub no_principal : Principal
no_principal = record { id = ""; groups = []; memberships = []; support = false }

abbrev pub no_api_token : ApiToken
no_api_token = record {
  reference = "";
  subject_id = "";
  secret_hash_ref = "";
  tenant_id = "";
  project_id = "";
  scopes = [];
  expires_at = 0;
  revoked_at = 0;
}

-- Decision{}
abbrev pub no_decision : Decision
no_decision = record {
  allowed = false;
  err = none;
  policy_rule = "";
  credential_class = no_credential;
  mfa = no_mfa;
  session = no_session;
  proof = no_proof;
}
