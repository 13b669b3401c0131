-- ===== src/Ports/Honest.antt =====
-- pkg/providerports/ports.go: the receipts in the log of an InMemoryAdapter.
use cloud_ring.Prelude.{
  String, true, ◌≡◌, sym, ap, ◌∙◌, subst, ◌⊎◌, inl, inr, arith, ◌==◌, eq_iff, Bool-cases, if-both,
  Option-cases, some, [],
}
use cloud_ring.Prelude.Lists.{Map, lookup, insert, lookup-insert}
use cloud_ring.Ports.Types.{
  Result, ok, err, invalid_health_status, Context, ProvisionRequest, ProvisionReceipt,
  ServiceCategory, BackendFamily, valid_digest, valid_backend_family,
}
use cloud_ring.Ports.Requests.{valid_provision_request, request_text, request_sha256, field}
use cloud_ring.Ports.Receipts.{
  valid_health_report, receipt_matches, receipt_commitment_sha256, valid_provision_receipt,
}
use cloud_ring.Ports.Adapter.{
  InMemoryAdapter, health_report, IdempotencyEntry, new_in_memory_adapter, set_health,
  execute_lifecycle, execute_admitted, idempotency_key, receipt_for,
}
use cloud_ring.Ports.Digests.{field-injective, valid_identifier-NoNul}
use cloud_ring.Ports.Fulfilment.{receipt_for-valid}
use cloud_ring.Ports.Replay.{execute_lifecycle_sound}
use cloud_ring.Ports.Steps.{
  Step, executes, inspects, reads_health, sets_health, Steps, here, next, carried, IsSame,
  Steps-Keeps, inspect_resource-state, health-state,
}

-- The owner and the resource are what the key is made of.
idempotency_key-injective :
    (p q : ProvisionRequest)
    → valid_provision_request p ≡ true
    → valid_provision_request q ≡ true
    → idempotency_key p ≡ idempotency_key q
    → (p.tenant_id ≡ q.tenant_id) × (p.project_id ≡ q.project_id) × (p.resource_id ≡ q.resource_id)
unfolding idempotency_key valid_provision_request field
idempotency_key-injective p q hp hq e =
    let (et, e1) =
      field-injective p.tenant_id q.tenant_id _ _
        (valid_identifier-NoNul p.tenant_id (ground arith))
        (valid_identifier-NoNul q.tenant_id (ground arith)) e in
    let (ep, e2) =
      field-injective p.project_id q.project_id _ _
        (valid_identifier-NoNul p.project_id (ground arith))
        (valid_identifier-NoNul q.project_id (ground arith)) e1 in
    let (er, e3) =
      field-injective p.resource_id q.resource_id _ _
        (valid_identifier-NoNul p.resource_id (ground arith))
        (valid_identifier-NoNul q.resource_id (ground arith)) e2 in
    (et, ep, er)

-- A receipt for a request is one for another of the same digest and identity.
valid_provision_receipt-transfer :
    (sha256 : String → String) (p q : ProvisionRequest) (r : ProvisionReceipt)
    → valid_provision_receipt sha256 p r ≡ true
    → valid_provision_request q ≡ true
    → sha256 (request_text p) ≡ sha256 (request_text q)
    → p.adapter_id ≡ q.adapter_id
    → p.service_category ≡ q.service_category
    → p.tenant_id ≡ q.tenant_id
    → p.project_id ≡ q.project_id
    → p.resource_id ≡ q.resource_id
    → valid_provision_receipt sha256 q r ≡ true
unfolding valid_provision_receipt receipt_commitment_sha256 request_sha256 receipt_matches
valid_provision_receipt-transfer sha256 p q r h hq hd ha hg ht hp hr = ground arith

module _ (sha256 : String → String) where
  -- Each entry of the log is of a valid request for the adapter on the key, with its digest and its
  -- receipt.
  unfoldable IsHonest : String → ServiceCategory → BackendFamily → Map IdempotencyEntry → Type 0
  IsHonest adapter_id category family log =
      (k : String) (entry : IdempotencyEntry)
      → lookup k log ≡ some entry
      → (req : ProvisionRequest) × (valid_provision_request req ≡ true)
        × (req.adapter_id ≡ adapter_id)
        × (req.service_category ≡ category)
        × (idempotency_key req ≡ k)
        × (entry.request_sha256 ≡ sha256 (request_text req))
        × (entry.receipt ≡ receipt_for sha256 family req)

  -- What an execution does to the log.
  execute_lifecycle-log :
      (ctx : Context) (req : ProvisionRequest) (a : InMemoryAdapter)
      → ((execute_lifecycle sha256 ctx req a).0 ≡ a)
        ⊎ ((valid_provision_request req ≡ true)
            × (req.adapter_id ≡ a.adapter_id)
            × (req.service_category ≡ a.service_category)
            × ((execute_lifecycle sha256 ctx req a).0 ≡ carried sha256 req a))
  unfolding execute_lifecycle execute_admitted
  execute_lifecycle-log ctx req a =
      ground
        (arith, eq_iff req.adapter_id a.adapter_id, eq_iff req.service_category a.service_category)

  insert-IsHonest :
      (id : String) (category : ServiceCategory) (family : BackendFamily)
      (log : Map IdempotencyEntry) (req : ProvisionRequest)
      → valid_provision_request req ≡ true
      → req.adapter_id ≡ id
      → req.service_category ≡ category
      → IsHonest id category family log
      → IsHonest id category family (
          insert
            (idempotency_key req)
            (record {
              request_sha256 = sha256 (request_text req);
              receipt = receipt_for sha256 family req;
            })
            log)
  unfolding IsHonest
  insert-IsHonest id category family log req hv ha hg h k entry hl =
      let own : IdempotencyEntry = record {
        request_sha256 = sha256 (request_text req);
        receipt = receipt_for sha256 family req;
      } in
      let after = lookup-insert (idempotency_key req) k own log in
      elim (Bool-cases (idempotency_key req == k)) [
        | inl e ↦
            let same : own ≡ entry = ground arith in
            (
              req,
              hv,
              ha,
              hg,
              (eq_iff (idempotency_key req) k).0 e,
              ap (λ x. x.request_sha256) (sym same),
              ap (λ x. x.receipt) (sym same),
            )
        | inr e ↦ h k entry (ground arith)
      ]

  abbrev Honest : InMemoryAdapter → Type 0
  Honest a = IsHonest a.adapter_id a.service_category a.backend_family a.idempotency_log

  Step-Honest : {a b : InMemoryAdapter} → Step sha256 a b → Honest a → Honest b
  unfolding set_health execute_admitted
  Step-Honest (executes ctx req a) h = elim (execute_lifecycle-log ctx req a) [
    | inl e ↦ subst Honest (sym e) h
    | inr (hv, ha, hg, e) ↦ subst Honest (sym e) (
        insert-IsHonest a.adapter_id a.service_category a.backend_family a.idempotency_log req hv ha
          hg h)
  ]
  Step-Honest (inspects ctx t p i a) h =
      subst Honest (sym (inspect_resource-state sha256 ctx t p i a)) h
  Step-Honest (reads_health ctx a) h = subst Honest (sym (health-state sha256 ctx a)) h
  Step-Honest (sets_health status reason a) h =
      if-both (λ (x : InMemoryAdapter × Result Unit). Honest x.0)
        (valid_health_report (health_report a status reason))
        (record a { health_status = status; health_reason = reason }, ok tt)
        (a, err invalid_health_status) h h

  Steps-Honest : {a b : InMemoryAdapter} → Steps sha256 a b → Honest a → Honest b
  Steps-Honest here h = h
  Steps-Honest (next r st) h = Step-Honest st (Steps-Honest r h)

  -- A logged receipt is one for a request of the same digest.
  logged_receipt-valid :
      ((s : String) → valid_digest (sha256 s) ≡ true)
      → (req : ProvisionRequest) (b : InMemoryAdapter) (entry : IdempotencyEntry) → Honest b
      → valid_backend_family b.backend_family ≡ true
      → valid_provision_request req ≡ true
      → req.adapter_id ≡ b.adapter_id
      → req.service_category ≡ b.service_category
      → lookup (idempotency_key req) b.idempotency_log ≡ some entry
      → entry.request_sha256 ≡ sha256 (request_text req)
      → valid_provision_receipt sha256 req entry.receipt ≡ true
  unfolding IsHonest
  logged_receipt-valid hex req b entry honest hf hv ha hg hl he =
      let (first, fv, fa, fg, fk, fe, fr) = honest (idempotency_key req) entry hl in
      let (et, ep, er) = idempotency_key-injective first req fv hv fk in
      let (valid, _) = receipt_for-valid sha256 hex b.backend_family first hf fv in
      valid_provision_receipt-transfer sha256 first req entry.receipt
        (subst (λ r. valid_provision_receipt sha256 first r ≡ true) (sym fr) valid) hv (sym fe ∙ he)
        (fa ∙ sym ha) (fg ∙ sym hg) et ep er

  execute_admitted-valid :
      ((s : String) → valid_digest (sha256 s) ≡ true)
      → (ctx : Context) (req : ProvisionRequest) (b c : InMemoryAdapter) (r : ProvisionReceipt)
      → Honest b
      → valid_backend_family b.backend_family ≡ true
      → execute_lifecycle sha256 ctx req b ≡ (c, ok r)
      → valid_provision_receipt sha256 req r ≡ true
  unfolding execute_admitted
  execute_admitted-valid hex ctx req b c r honest hf h =
      let (_, hv, ha, hg, _, run) = execute_lifecycle_sound sha256 ctx req b c r h in
      elim (Option-cases (lookup (idempotency_key req) b.idempotency_log)) [
        | inl e ↦
            let (valid, _) = receipt_for-valid sha256 hex b.backend_family req hf hv in ground arith
        | inr (entry, e) ↦
            let digest : entry.request_sha256 ≡ sha256 (request_text req) =
              ground (arith, eq_iff entry.request_sha256 (sha256 (request_text req))) in
            let valid = logged_receipt-valid hex req b entry honest hf hv ha hg e digest in
            ground (arith, eq_iff entry.request_sha256 (sha256 (request_text req)))
      ]

  -- On an adapter that any calls of its methods have led to from a new one, every receipt that
  -- ExecuteLifecycle returns passes ValidateProvisionReceipt for its request, replays included, if the
  -- hash is always 64 hexadecimal digits.
  pub execute_lifecycle-valid_provision_receipt :
      ((s : String) → valid_digest (sha256 s) ≡ true)
      → (id : String) (category : ServiceCategory) (family : BackendFamily)
        (a b c : InMemoryAdapter) (ctx : Context) (req : ProvisionRequest) (r : ProvisionReceipt)
      → new_in_memory_adapter id category family ≡ ok a
      → Steps sha256 a b
      → execute_lifecycle sha256 ctx req b ≡ (c, ok r)
      → valid_provision_receipt sha256 req r ≡ true
  unfolding new_in_memory_adapter IsHonest lookup IsSame
  execute_lifecycle-valid_provision_receipt hex id category family a b c ctx req r made st h =
      let ((_, _, ef), _, _) = Steps-Keeps sha256 st in
      let empty : a.idempotency_log ≡ [] = ground arith in
      let honest : Honest b = Steps-Honest st (λ k entry hl. ground arith) in
      execute_admitted-valid hex ctx req b c r honest (ground arith) h
