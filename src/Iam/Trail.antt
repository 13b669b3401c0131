-- ===== src/Iam/Trail.antt =====
-- pkg/iam/audit.go and policy.go: what the sink in memory holds after a history of requests.
use mathlib.Core.List.{append-nil, append_assoc}
use cloud_ring.Prelude.{
  ℕ, ◌+◌, ◌≤◌, true, false, ◌≡◌, sym, subst, ap, ◌∙◌, ◌⊎◌, inl, inr, Option, some, List, [], ◌∷◌,
  ◌++◌, arith, Bool-cases,
}
use cloud_ring.Prelude.Lists.{length, length-append}
use cloud_ring.Prelude.Int.{ℤ, pos, negsuc}
use cloud_ring.Prelude.Time.{Time}
use cloud_ring.Iam.Types.{AuthorizationRequest}
use cloud_ring.Iam.Policy.{Policy}
use cloud_ring.Iam.Subject.{Verifier}
use cloud_ring.Iam.Authorize.{decide, authorize, audit, audit_denied}
use cloud_ring.Iam.AuditLog.{
  AuditEvent, SecurityEvent, MemoryAuditSink, memory_sink, memory_append,
  memory_append_security_event, new_bounded_memory_audit_sink, full,
}
use cloud_ring.Iam.Audited.{recorded}

-- A request that is audited in the sink, under any policy, or a security event; the lock of the
-- sink makes an append one step.
pub data Call : MemoryAuditSink → MemoryAuditSink → Type 0 where
  authorizes :
      (p : Policy) (v : Option Verifier) (r : AuthorizationRequest) (now : Time)
      (m : MemoryAuditSink)
      → Call m (authorize p (some memory_sink) v r now m).0
  reports : (e : SecurityEvent) (m : MemoryAuditSink) → Call m (memory_append_security_event e m).0

pub data Calls (m : MemoryAuditSink) : MemoryAuditSink → Type 0 where
  here : Calls m m
  next : {k l : MemoryAuditSink} → Calls m k → Call k l → Calls m l

abbrev pub held : MemoryAuditSink → ℕ
held m = length m.events + length m.security_events

-- The sink's events begin with the given ones.
abbrev pub Keeps : List AuditEvent → MemoryAuditSink → Type 0
Keeps es m = (rest : List AuditEvent) × (m.events ≡ es ++ rest)

abbrev pub IsWithin : MemoryAuditSink → Type 0
IsWithin m = (held m ≤ m.max_events) × (m.max_events ≤ 4096)

memory_append-IsWithin :
    (e : AuditEvent) (m : MemoryAuditSink) → IsWithin m → IsWithin (memory_append e m).0
unfolding memory_append
memory_append-IsWithin e m h = ground (arith, length-append m.events (e ∷ []))

reports-IsWithin :
    (e : SecurityEvent) (m : MemoryAuditSink)
    → IsWithin m
    → IsWithin (memory_append_security_event e m).0
unfolding memory_append_security_event
reports-IsWithin e m h = ground (arith, length-append m.security_events (e ∷ []))

-- A request leaves the sink as it was, or appends its event.
authorize-memory_sink :
    (p : Policy) (v : Option Verifier) (r : AuthorizationRequest) (now : Time) (m : MemoryAuditSink)
    → (((authorize p (some memory_sink) v r now m).1.allowed ≡ false)
        × ((p.allow_ephemeral_audit ≡ false) ⊎ (full m ≡ true))
        × ((authorize p (some memory_sink) v r now m).0 ≡ m))
      ⊎ (((authorize p (some memory_sink) v r now m).1 ≡ (decide p v r now).1)
          × ((authorize p (some memory_sink) v r now m).0
              ≡ (memory_append (recorded p v r now) m).0)
          × (full m ≡ false))
unfolding authorize audit audit_denied memory_append
authorize-memory_sink p v r now m = ground arith

Call-IsWithin : {k l : MemoryAuditSink} → Call k l → IsWithin k → IsWithin l
Call-IsWithin (authorizes p v r now m) h = elim (authorize-memory_sink p v r now m) [
  | inl (denied, why, same) ↦ subst IsWithin (sym same) h
  | inr (decided, appended, free) ↦
      subst IsWithin (sym appended) (memory_append-IsWithin (recorded p v r now) m h)
]
Call-IsWithin (reports e m) h = reports-IsWithin e m h

Calls-IsWithin : {m l : MemoryAuditSink} → Calls m l → IsWithin m → IsWithin l
Calls-IsWithin here h = h
Calls-IsWithin (next cs c) h = Call-IsWithin c (Calls-IsWithin cs h)

new_bounded_memory_audit_sink-IsWithin : (n : ℤ) → IsWithin (new_bounded_memory_audit_sink n)
unfolding new_bounded_memory_audit_sink
new_bounded_memory_audit_sink-IsWithin (pos n) = ground arith
new_bounded_memory_audit_sink-IsWithin (negsuc n) = ground arith

memory_append-Keeps :
    (es : List AuditEvent) (e : AuditEvent) (m : MemoryAuditSink)
    → Keeps es m
    → Keeps es (memory_append e m).0
unfolding memory_append
memory_append-Keeps es e m (rest, h) = elim (Bool-cases (full m)) [
  | inl f ↦ (rest, ground arith)
  | inr f ↦
      let appended : (memory_append e m).0.events ≡ m.events ++ e ∷ [] = ground arith in
      (rest ++ e ∷ [], appended ∙ ap (λ l. l ++ e ∷ []) h ∙ append_assoc es rest (e ∷ []))
]

reports-Keeps :
    (es : List AuditEvent) (e : SecurityEvent) (m : MemoryAuditSink)
    → Keeps es m
    → Keeps es (memory_append_security_event e m).0
unfolding memory_append_security_event
reports-Keeps es e m (rest, h) = (rest, ground arith)

Call-Keeps : {k l : MemoryAuditSink} (es : List AuditEvent) → Call k l → Keeps es k → Keeps es l
Call-Keeps es (authorizes p v r now m) h = elim (authorize-memory_sink p v r now m) [
  | inl (denied, why, same) ↦ subst (Keeps es) (sym same) h
  | inr (decided, appended, free) ↦
      subst (Keeps es) (sym appended) (memory_append-Keeps es (recorded p v r now) m h)
]
Call-Keeps es (reports e m) h = reports-Keeps es e m h

Calls-Keeps : {m l : MemoryAuditSink} (es : List AuditEvent) → Calls m l → Keeps es m → Keeps es l
Calls-Keeps es here h = h
Calls-Keeps es (next cs c) h = Call-Keeps es c (Calls-Keeps es cs h)

memory_append-recorded :
    (e : AuditEvent) (m : MemoryAuditSink)
    → full m ≡ false
    → Keeps (m.events ++ e ∷ []) (memory_append e m).0
unfolding memory_append
memory_append-recorded e m free = ([], ground arith ∙ sym (append-nil (m.events ++ e ∷ [])))

-- A new sink, whatever bound is asked for, is audited in by any requests and security events, then by
-- a request, then by any more. In the end it holds no more events than its bound, which is at most
-- 4096; and either the request's decision stood, and its event still follows the events from before
-- it, in their order, or the request was denied, since its policy does not permit ephemeral audit or
-- the sink was then exactly at its bound, and the events from before it are still there.
pub memory_sink-Keeps :
    (n : ℤ) (m l : MemoryAuditSink) (p : Policy) (v : Option Verifier) (r : AuthorizationRequest)
    (now : Time)
    → Calls (new_bounded_memory_audit_sink n) m
    → Calls (authorize p (some memory_sink) v r now m).0 l
    → IsWithin l
      × ((((authorize p (some memory_sink) v r now m).1 ≡ (decide p v r now).1)
            × Keeps (m.events ++ recorded p v r now ∷ []) l)
          ⊎ (((authorize p (some memory_sink) v r now m).1.allowed ≡ false)
              × ((p.allow_ephemeral_audit ≡ false) ⊎ (held m ≡ m.max_events))
              × Keeps m.events l))
memory_sink-Keeps n m l p v r now before after =
    let within = Calls-IsWithin before (new_bounded_memory_audit_sink-IsWithin n) in
    (
      Calls-IsWithin after (Call-IsWithin (authorizes p v r now m) within),
      elim (authorize-memory_sink p v r now m) [
        | inl (denied, why, same) ↦ inr (
          denied,
          ground arith,
          Calls-Keeps m.events after
              (subst (Keeps m.events) (sym same) ([], sym (append-nil m.events))),
        )
        | inr (decided, appended, free) ↦ inl (
          decided,
          Calls-Keeps (m.events ++ recorded p v r now ∷ []) after (
              subst (Keeps (m.events ++ recorded p v r now ∷ [])) (sym appended)
                (memory_append-recorded (recorded p v r now) m free)),
        )
      ],
    )
