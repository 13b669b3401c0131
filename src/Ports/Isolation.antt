-- ===== src/Ports/Isolation.antt =====
-- pkg/providerports/ports.go: tenants and projects on one InMemoryAdapter.
use cloud_ring.Prelude.{String, true, false, ◌&&◌, ◌≡◌, arith, ◌==◌, eq_iff}
use cloud_ring.Ports.Types.{err, ProvisionRequest, live, tenant_isolation_violation}
use cloud_ring.Ports.Requests.{valid_provision_request}
use cloud_ring.Ports.Adapter.{
  InMemoryAdapter, check_context, access_error, execute_lifecycle, inspect_stored, inspect_resource,
}
use cloud_ring.Ports.Steps.{IsOwned, IsSame, Steps, Steps-Keeps}

module _ (sha256 : String → String) where
  execute_lifecycle-refuses :
      (req : ProvisionRequest) (t p : String) (c : InMemoryAdapter)
      → IsOwned t p req.resource_id c
      → valid_provision_request req ≡ true
      → req.adapter_id ≡ c.adapter_id
      → req.service_category ≡ c.service_category
      → (t == req.tenant_id && p == req.project_id) ≡ false
      → execute_lifecycle sha256 live req c ≡ (c, err tenant_isolation_violation)
  unfolding IsOwned execute_lifecycle access_error check_context
  execute_lifecycle-refuses req t p c (s, hs, ht, hp) hv ha hg hd = ground (
    arith,
    eq_iff req.adapter_id c.adapter_id,
    eq_iff req.service_category c.service_category,
    eq_iff s.tenant_id req.tenant_id,
    eq_iff s.project_id req.project_id,
    eq_iff t req.tenant_id,
    eq_iff p req.project_id,
  )

inspect_resource-refuses :
    (req : ProvisionRequest) (t p : String) (c : InMemoryAdapter)
    → IsOwned t p req.resource_id c
    → valid_provision_request req ≡ true
    → (t == req.tenant_id && p == req.project_id) ≡ false
    → inspect_resource live req.tenant_id req.project_id req.resource_id c
      ≡ (c, err tenant_isolation_violation)
unfolding IsOwned inspect_resource inspect_stored check_context valid_provision_request
inspect_resource-refuses req t p c (s, hs, ht, hp) hv hd = ground (
  arith,
  eq_iff s.tenant_id req.tenant_id,
  eq_iff s.project_id req.project_id,
  eq_iff t req.tenant_id,
  eq_iff p req.project_id,
)

module _ (sha256 : String → String) where
  -- If a resource is stored for a tenant and a project then, after any calls of the adapter's
  -- methods, whoever is not of both can neither execute a request on it nor inspect it: a valid
  -- request for the adapter is refused as a tenant isolation violation, either way, and changes
  -- nothing.
  pub Steps-isolates :
      (req : ProvisionRequest) (t p : String) (b c : InMemoryAdapter)
      → IsOwned t p req.resource_id b
      → Steps sha256 b c
      → valid_provision_request req ≡ true
      → req.adapter_id ≡ b.adapter_id
      → req.service_category ≡ b.service_category
      → (t == req.tenant_id && p == req.project_id) ≡ false
      → (execute_lifecycle sha256 live req c ≡ (c, err tenant_isolation_violation))
        × (inspect_resource live req.tenant_id req.project_id req.resource_id c
            ≡ (c, err tenant_isolation_violation))
  unfolding IsSame
  Steps-isolates req t p b c ho st hv ha hg hd =
      let ((ea, eg, _), owned, _) = Steps-Keeps sha256 st in
      let owner = owned t p req.resource_id ho in
      (
        execute_lifecycle-refuses sha256 req t p c owner hv (ground arith) (ground arith) hd,
        inspect_resource-refuses req t p c owner hv hd,
      )
