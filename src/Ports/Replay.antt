-- ===== src/Ports/Replay.antt =====
-- pkg/providerports/ports.go: what a second execution of a request does.
use cloud_ring.Prelude.{String, true, ◌≡◌, refl, subst, arith, ◌==◌, eq_iff, none, if◌then◌else◌}
use cloud_ring.Prelude.Lists.{lookup, lookup-insert}
use cloud_ring.Ports.Types.{
  ok, err, ProvisionRequest, ProvisionReceipt, Context, live, idempotency_conflict,
}
use cloud_ring.Ports.Requests.{valid_provision_request, request_text}
use cloud_ring.Ports.Adapter.{
  InMemoryAdapter, IdempotencyEntry, StoredResource, check_context, access_error, execute_admitted,
  execute_lifecycle, idempotency_key, receipt_for,
}
use cloud_ring.Ports.Steps.{IsLogged, IsOwned, IsSame, Steps, Steps-Keeps}

module _ (sha256 : String → String) where
  -- What has to hold for an execution to return a receipt.
  pub execute_lifecycle_sound :
      (ctx : Context) (req : ProvisionRequest) (a b : InMemoryAdapter) (r : ProvisionReceipt)
      → execute_lifecycle sha256 ctx req a ≡ (b, ok r)
      → (check_context ctx ≡ none)
        × (valid_provision_request req ≡ true)
        × (req.adapter_id ≡ a.adapter_id)
        × (req.service_category ≡ a.service_category)
        × (access_error req (lookup req.resource_id a.resources) ≡ none)
        × (execute_admitted sha256 req (lookup (idempotency_key req) a.idempotency_log) a
            ≡ (b, ok r))
  unfolding execute_lifecycle
  execute_lifecycle_sound ctx req a b r h =
      ground
        (arith, eq_iff req.adapter_id a.adapter_id, eq_iff req.service_category a.service_category)

  -- The entry of a request and its receipt.
  abbrev pub entry_of : ProvisionRequest → ProvisionReceipt → IdempotencyEntry
  entry_of req r = record { request_sha256 = sha256 (request_text req); receipt = r }

  -- What an execution on a new key leaves.
  pub execute_lifecycle-settles :
      (ctx : Context) (req : ProvisionRequest) (a b : InMemoryAdapter) (r : ProvisionReceipt)
      → execute_lifecycle sha256 ctx req a ≡ (b, ok r)
      → lookup (idempotency_key req) a.idempotency_log ≡ none
      → IsLogged (idempotency_key req) (entry_of req r) b
        × IsOwned req.tenant_id req.project_id req.resource_id b
        × IsSame a b
  unfolding IsLogged IsOwned IsSame execute_admitted
  execute_lifecycle-settles ctx req a b r h hn =
      let (hc, hv, ha, hg, ht, hx) = execute_lifecycle_sound ctx req a b r h in
      let receipt = receipt_for sha256 a.backend_family req in
      let stored : StoredResource = record {
        tenant_id = req.tenant_id;
        project_id = req.project_id;
        receipt = receipt;
      } in
      let logged =
        lookup-insert (idempotency_key req) (idempotency_key req) (entry_of req receipt)
          a.idempotency_log in
      let kept = lookup-insert req.resource_id req.resource_id stored a.resources in
      (
        ground (arith, eq_iff (idempotency_key req) (idempotency_key req)),
        (stored, ground (arith, eq_iff req.resource_id req.resource_id), refl, refl),
        ground arith,
      )

  -- An execution where the key is in the log, by the owner of the resource.
  execute_lifecycle-logged :
      (req : ProvisionRequest) (c : InMemoryAdapter) (entry : IdempotencyEntry)
      → valid_provision_request req ≡ true
      → req.adapter_id ≡ c.adapter_id
      → req.service_category ≡ c.service_category
      → IsOwned req.tenant_id req.project_id req.resource_id c
      → IsLogged (idempotency_key req) entry c
      → execute_lifecycle sha256 live req c ≡ (
        c,
        if entry.request_sha256 == sha256 (request_text req)
            then ok entry.receipt
            else err idempotency_conflict,
      )
  unfolding IsLogged IsOwned execute_lifecycle execute_admitted access_error check_context
  execute_lifecycle-logged req c entry hv ha hg (s, hs, ht, hp) hl = ground (
    arith,
    eq_iff req.adapter_id c.adapter_id,
    eq_iff req.service_category c.service_category,
    eq_iff s.tenant_id req.tenant_id,
    eq_iff s.project_id req.project_id,
  )

  -- Once a request has been carried out on a new key of its resource, its key is settled: after any
  -- calls of the adapter's methods, by whomever, a valid request of the same owner on the same key
  -- changes nothing, and returns the first receipt if its text has the same hash as that of the
  -- first request, and a conflict if not.
  pub execute_lifecycle-settled :
      (ctx : Context) (req req' : ProvisionRequest) (a b c : InMemoryAdapter) (r : ProvisionReceipt)
      → execute_lifecycle sha256 ctx req a ≡ (b, ok r)
      → lookup (idempotency_key req) a.idempotency_log ≡ none
      → Steps sha256 b c
      → valid_provision_request req' ≡ true
      → req'.adapter_id ≡ req.adapter_id
      → req'.service_category ≡ req.service_category
      → req'.tenant_id ≡ req.tenant_id
      → req'.project_id ≡ req.project_id
      → req'.resource_id ≡ req.resource_id
      → req'.idempotency_key ≡ req.idempotency_key
      → execute_lifecycle sha256 live req' c ≡ (
        c,
        if sha256 (request_text req) == sha256 (request_text req')
            then ok r
            else err idempotency_conflict,
      )
  unfolding IsSame idempotency_key
  execute_lifecycle-settled ctx req req' a b c r h hn st hv ha hg ht hp hi hk =
      let (_, _, haa, hga, _, _) = execute_lifecycle_sound ctx req a b r h in
      let (hl, ho, (ea, eg, _)) = execute_lifecycle-settles ctx req a b r h hn in
      let ((ea', eg', _), owned, logged) = Steps-Keeps sha256 st in
      let key : idempotency_key req ≡ idempotency_key req' = ground arith in
      let owner : IsOwned req'.tenant_id req'.project_id req'.resource_id c =
        rw (ht, hp, hi) (owned req.tenant_id req.project_id req.resource_id ho) in
      let entry : IsLogged (idempotency_key req') (entry_of req r) c =
        subst (λ k. IsLogged k (entry_of req r) c) key
          (logged (idempotency_key req) (entry_of req r) hl) in
      execute_lifecycle-logged req' c (entry_of req r) hv (ground arith) (ground arith) owner entry
