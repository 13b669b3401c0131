-- ===== src/Iam/Audited.antt =====
-- pkg/iam: no request is allowed without an audit record of the permission.
use cloud_ring.Prelude.{true, false, ◌≡◌, refl, ◌⊎◌, Option, none, some, arith}
use cloud_ring.Prelude.Time.{Time}
use cloud_ring.Iam.Types.{AuthorizationRequest, Decision, allow}
use cloud_ring.Iam.Rules.{denied_by}
use cloud_ring.Iam.Policy.{Policy}
use cloud_ring.Iam.Subject.{
  Verifier, authenticate, resolve_subject, token_subject, grant_subject, grant_liveness,
  principal_subject,
}
use cloud_ring.Iam.Authorize.{decide, authorize, audit, audit_event, audit_denied}
use cloud_ring.Iam.AuditLog.{AuditEvent, Sink}
use cloud_ring.Iam.Coherence.{IsCoherent, evaluate-IsCoherent}

-- The event for a request.
abbrev pub recorded : Policy → Option Verifier → AuthorizationRequest → Time → AuditEvent
recorded p v r now =
    let (subject, decision) = decide p v r now in audit_event p r subject decision now

pub resolve_subject_refuses :
    (p : Policy) (r : AuthorizationRequest) (a : _) (now : Time)
    → (resolve_subject p r a now).1.allowed ≡ false
unfolding resolve_subject token_subject grant_subject grant_liveness principal_subject denied_by
resolve_subject_refuses p r none now = refl
resolve_subject_refuses p r (some a) now = ground arith

decide-IsCoherent :
    (p : Policy) (v : Option Verifier) (r : AuthorizationRequest) (now : Time)
    → IsCoherent (decide p v r now).1
unfolding decide
decide-IsCoherent p v r now = ground (
  arith,
  resolve_subject_refuses p r (authenticate p v r now) now,
  evaluate-IsCoherent p r (decide p v r now).0 now,
)

module _ {S : Type 0} where
  audit_cases :
      (p : Policy) (sink : Option (Sink S)) (e : AuditEvent) (d : Decision) (s : S)
      → (audit p sink e d s).1.allowed ≡ true
      → (k : Sink S) × (sink ≡ some k)
        × (k.is_durable_sink ≡ true)
        × ((p.allow_ephemeral_audit ≡ true) ⊎ (k.durable s ≡ true))
        × (k.ready s ≡ true)
        × (k.append e s ≡ ((audit p sink e d s).0, true))
        × ((audit p sink e d s).1 ≡ d)
  unfolding audit audit_denied
  audit_cases p none e d s h = cc
  audit_cases p (some k) e d s h =
      (k, refl, ground arith, ground arith, ground arith, ground arith, ground arith)

  -- An allowed request was allowed before its audit.
  pub authorize-decide :
      (p : Policy) (sink : Option (Sink S)) (v : Option Verifier) (r : AuthorizationRequest)
      (now : Time) (s : S)
      → (authorize p sink v r now s).1.allowed ≡ true
      → (decide p v r now).1.allowed ≡ true
  unfolding authorize audit audit_denied
  authorize-decide p none v r now s h = cc
  authorize-decide p (some k) v r now s h = ground arith

  -- If a request is allowed then a sink is configured that is a durable sink, durable or with
  -- ephemeral audit allowed by the policy, and ready; its append took the event of the request and
  -- gave the final state; and the event records the result allow and the rule of the decision.
  pub authorize-allowed :
      (p : Policy) (sink : Option (Sink S)) (v : Option Verifier) (r : AuthorizationRequest)
      (now : Time) (s : S)
      → (authorize p sink v r now s).1.allowed ≡ true
      → (k : Sink S) × (sink ≡ some k)
        × (k.is_durable_sink ≡ true)
        × ((p.allow_ephemeral_audit ≡ true) ⊎ (k.durable s ≡ true))
        × (k.ready s ≡ true)
        × (k.append (recorded p v r now) s ≡ ((authorize p sink v r now s).0, true))
        × ((recorded p v r now).result ≡ allow)
        × ((recorded p v r now).policy_rule ≡ (authorize p sink v r now s).1.policy_rule)
  unfolding authorize audit_event
  authorize-allowed p sink v r now s h =
      let (k, e, capable, durable, ready, appended, same) =
        audit_cases p sink (recorded p v r now) (decide p v r now).1 s h in
      (k, e, capable, durable, ready, appended, ground arith, ground arith)

  -- The decision is allowed exactly when it carries no error, whatever the sink does.
  pub authorize-IsCoherent :
      (p : Policy) (sink : Option (Sink S)) (v : Option Verifier) (r : AuthorizationRequest)
      (now : Time) (s : S)
      → IsCoherent (authorize p sink v r now s).1
  unfolding authorize audit audit_denied
  authorize-IsCoherent p none v r now s = refl
  authorize-IsCoherent p (some k) v r now s = ground (arith, decide-IsCoherent p v r now)
