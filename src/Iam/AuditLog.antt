-- ===== src/Iam/AuditLog.antt =====
-- pkg/iam/audit.go: audit events, the interface of a sink, the bounded sink in memory, and the
-- append of a security event.
use cloud_ring.Prelude.{
  ℕ, ◌+◌, String, Bool, true, false, not, ◌&&◌, ◌||◌, Option, none, some, List, [], ◌∷◌, ◌++◌,
  if◌then◌else◌, ltb, leb,
}
use cloud_ring.Prelude.Lists.{length}
use cloud_ring.Prelude.Int.{ℤ, pos, negsuc}
use cloud_ring.Prelude.Time.{Time, is_zero}
use cloud_ring.Prelude.Text.{is_blank, byte_length}
use cloud_ring.Iam.Types.{
  Action, TargetRef, AuditResult, allow, deny, TenantState, CredentialClass, MfaAssurance,
  SessionAssurance, AuthenticationProof,
}

pub record AuditEvent : Type 0 where
  pub actor : String
  pub represented_subject : String
  pub action : Action
  pub target : TargetRef
  pub reason : String
  pub ticket_ref : String
  pub correlation_id : String
  pub result : AuditResult
  pub policy_rule : String
  pub timestamp : Time
  pub error : String
  pub break_glass : Bool
  pub support_grant_ref : String
  pub api_token_ref : String
  pub target_principal : String
  pub target_lifecycle : TenantState
  pub target_namespace : String
  pub target_resource : String
  pub target_resource_name : String
  pub target_organization : String
  pub target_tenant : String
  pub target_project : String
  pub credential_class : CredentialClass
  pub mfa : MfaAssurance
  pub session : SessionAssurance
  pub proof : AuthenticationProof

pub record SecurityEvent : Type 0 where
  pub type : String
  pub actor : String
  pub subject : String
  pub result : AuditResult
  pub reason : String
  pub correlation_id : String
  pub timestamp : Time

-- AuditSink with what DurableAuditSink and SecurityAuditSink add, over the sink's own state `S`. A
-- method that returns an error returns false; Append may have changed the state then too.
pub record Sink (S : Type 0) : Type 0 where
  -- whether the type assertion to DurableAuditSink succeeds
  pub is_durable_sink : Bool
  pub durable : S → Bool
  pub ready : S → Bool
  pub append : AuditEvent → S → S × Bool
  pub append_security_event : SecurityEvent → S → S × Bool

-- Whether AppendDurableSecurityEvent takes the event as it is.
unfoldable pub valid_security_event : SecurityEvent → Bool
unfolding is_blank byte_length
valid_security_event event =
    not (is_blank event.type)
    && leb (byte_length event.type) 128
    && not (is_blank event.correlation_id)
    && leb (byte_length event.correlation_id) 256
    && not (is_zero event.timestamp)
    && elim event.result [ allow ↦ true | deny ↦ true | _ ↦ false ]

-- AppendDurableSecurityEvent: a missing sink is `none`, and every error wraps ErrAuditRequired.
module _ {S : Type 0} where
  unfoldable pub append_durable_security_event : Option (Sink S) → SecurityEvent → S → S × Bool
  unfolding valid_security_event
  append_durable_security_event none event s = (s, false)
  append_durable_security_event (some sink) event s =
      if not (sink.durable s)
      then (s, false)
      else if not (valid_security_event event)
      then (s, false)
      else if not (sink.ready s)
      then (s, false)
      else sink.append_security_event event s

-- MemoryAuditSink, under its lock: each method is one step.
pub record MemoryAuditSink : Type 0 where
  pub events : List AuditEvent
  pub security_events : List SecurityEvent
  pub max_events : ℕ

unfoldable pub new_bounded_memory_audit_sink : ℤ → MemoryAuditSink
new_bounded_memory_audit_sink max_events = record {
  events = [];
  security_events = [];
  max_events = elim max_events [
    | pos n ↦ if leb n 0 || ltb 4096 n then 1024 else n
    | negsuc n ↦ 1024
  ];
}

abbrev pub full : MemoryAuditSink → Bool
full sink = leb sink.max_events (length sink.events + length sink.security_events)

unfoldable pub memory_append : AuditEvent → MemoryAuditSink → MemoryAuditSink × Bool
memory_append event sink =
    if full sink then (sink, false) else (record sink { events = sink.events ++ event ∷ [] }, true)

unfoldable pub memory_append_security_event :
    SecurityEvent → MemoryAuditSink → MemoryAuditSink × Bool
memory_append_security_event event sink =
    if full sink
    then (sink, false)
    else (record sink { security_events = sink.security_events ++ event ∷ [] }, true)

abbrev pub memory_sink : Sink MemoryAuditSink
memory_sink = record {
  is_durable_sink = true;
  durable = λ _. false;
  ready = λ _. true;
  append = memory_append;
  append_security_event = memory_append_security_event;
}

-- FailingAuditSink has no AppendSecurityEvent; the policy never calls it.
abbrev pub failing_sink : Sink (Unit {0})
failing_sink = record {
  is_durable_sink = true;
  durable = λ _. true;
  ready = λ _. true;
  append = λ _ s. (s, false);
  append_security_event = λ _ s. (s, false);
}
