-- ===== src/Ports/Steps.antt =====
-- pkg/providerports/ports.go: the runs of an InMemoryAdapter, as sequences of calls of its methods.
use cloud_ring.Prelude.{
  String, ◌≡◌, refl, sym, subst, ◌⊎◌, arith, ◌==◌, eq_iff, Bool-cases, inl, inr, none, some,
}
use cloud_ring.Prelude.Lists.{lookup, lookup-insert}
use cloud_ring.Ports.Types.{ProvisionRequest, Context, HealthStatus}
use cloud_ring.Ports.Requests.{request_text}
use cloud_ring.Ports.Adapter.{
  receipt_for, InMemoryAdapter, IdempotencyEntry, StoredResource, access_error, execute_admitted,
  execute_lifecycle, set_health, health, inspect_resource, idempotency_key,
}

module _ (sha256 : String → String) where
  -- A call of a method is one step: an adapter is for one goroutine.
  pub data Step : InMemoryAdapter → InMemoryAdapter → Type 0 where
    executes :
        (ctx : Context) (req : ProvisionRequest) (a : InMemoryAdapter)
        → Step a (execute_lifecycle sha256 ctx req a).0
    inspects :
        (ctx : Context) (tenant_id project_id resource_id : String) (a : InMemoryAdapter)
        → Step a (inspect_resource ctx tenant_id project_id resource_id a).0
    reads_health : (ctx : Context) (a : InMemoryAdapter) → Step a (health ctx a).0
    sets_health :
        (status : HealthStatus) (reason : String) (a : InMemoryAdapter)
        → Step a (set_health status reason a).0

  pub data Steps (a : InMemoryAdapter) : InMemoryAdapter → Type 0 where
    here : Steps a a
    next : {b c : InMemoryAdapter} → Steps a b → Step b c → Steps a c

-- The resource is stored for the tenant and the project.
unfoldable pub IsOwned : String → String → String → InMemoryAdapter → Type 0
IsOwned tenant_id project_id resource_id a =
    (s : StoredResource) × (lookup resource_id a.resources ≡ some s)
    × (s.tenant_id ≡ tenant_id)
    × (s.project_id ≡ project_id)

-- The key stands in the log with this entry.
unfoldable pub IsLogged : String → IdempotencyEntry → InMemoryAdapter → Type 0
IsLogged key entry a = lookup key a.idempotency_log ≡ some entry

-- The adapter's identity.
unfoldable pub IsSame : InMemoryAdapter → InMemoryAdapter → Type 0
IsSame a b =
    (b.adapter_id ≡ a.adapter_id)
    × (b.service_category ≡ a.service_category)
    × (b.backend_family ≡ a.backend_family)

module _ (sha256 : String → String) where
  -- The adapter after a request that is carried out.
  abbrev pub carried : ProvisionRequest → InMemoryAdapter → InMemoryAdapter
  carried req a = (execute_admitted sha256 req none a).0

  -- An execution changes the adapter only where the tenant may act and the key is new.
  pub execute_lifecycle-cases :
      (ctx : Context) (req : ProvisionRequest) (a : InMemoryAdapter)
      → ((execute_lifecycle sha256 ctx req a).0 ≡ a)
        ⊎ ((access_error req (lookup req.resource_id a.resources) ≡ none)
            × (lookup (idempotency_key req) a.idempotency_log ≡ none)
            × ((execute_lifecycle sha256 ctx req a).0 ≡ carried req a))
  unfolding execute_lifecycle execute_admitted
  execute_lifecycle-cases ctx req a = ground arith

  carried-IsOwned :
      (req : ProvisionRequest) (a : InMemoryAdapter) (t p i : String)
      → access_error req (lookup req.resource_id a.resources) ≡ none
      → IsOwned t p i a
      → IsOwned t p i (carried req a)
  unfolding IsOwned execute_admitted access_error
  carried-IsOwned req a t p i h (s, hs, ht, hp) =
      let stored : StoredResource = record {
        tenant_id = req.tenant_id;
        project_id = req.project_id;
        receipt = receipt_for sha256 a.backend_family req;
      } in
      let after = lookup-insert req.resource_id i stored a.resources in
      elim (Bool-cases (req.resource_id == i)) [
        | inl e ↦ (
          stored,
          ground (arith),
          ground (
            arith,
            eq_iff req.resource_id i,
            eq_iff s.tenant_id req.tenant_id,
            eq_iff s.project_id req.project_id,
          ),
          ground (
            arith,
            eq_iff req.resource_id i,
            eq_iff s.tenant_id req.tenant_id,
            eq_iff s.project_id req.project_id,
          ),
        )
        | inr e ↦ (s, ground (arith), ht, hp)
      ]

  pub execute_lifecycle-IsOwned :
      (ctx : Context) (req : ProvisionRequest) (a : InMemoryAdapter) (t p i : String)
      → IsOwned t p i a
      → IsOwned t p i (execute_lifecycle sha256 ctx req a).0
  execute_lifecycle-IsOwned ctx req a t p i h = elim (execute_lifecycle-cases ctx req a) [
    | inl e ↦ subst (IsOwned t p i) (sym e) h
    | inr (ha, hn, e) ↦ subst (IsOwned t p i) (sym e) (carried-IsOwned req a t p i ha h)
  ]

  carried-IsLogged :
      (req : ProvisionRequest) (a : InMemoryAdapter) (k : String) (entry : IdempotencyEntry)
      → lookup (idempotency_key req) a.idempotency_log ≡ none
      → IsLogged k entry a
      → IsLogged k entry (carried req a)
  unfolding IsLogged execute_admitted
  carried-IsLogged req a k entry hn h = ground (
    arith,
    eq_iff (idempotency_key req) k,
    lookup-insert (idempotency_key req) k
        (record {
          request_sha256 = sha256 (request_text req);
          receipt = receipt_for sha256 a.backend_family req;
        })
        a.idempotency_log,
  )

  pub execute_lifecycle-IsLogged :
      (ctx : Context) (req : ProvisionRequest) (a : InMemoryAdapter) (k : String)
      (entry : IdempotencyEntry)
      → IsLogged k entry a
      → IsLogged k entry (execute_lifecycle sha256 ctx req a).0
  execute_lifecycle-IsLogged ctx req a k entry h = elim (execute_lifecycle-cases ctx req a) [
    | inl e ↦ subst (IsLogged k entry) (sym e) h
    | inr (ha, hn, e) ↦ subst (IsLogged k entry) (sym e) (carried-IsLogged req a k entry hn h)
  ]

  pub execute_lifecycle-IsSame :
      (ctx : Context) (req : ProvisionRequest) (a : InMemoryAdapter)
      → IsSame a (execute_lifecycle sha256 ctx req a).0
  unfolding IsSame execute_admitted
  execute_lifecycle-IsSame ctx req a = elim (execute_lifecycle-cases ctx req a) [
    | inl e ↦ ground arith
    | inr (ha, hn, e) ↦ ground arith
  ]

  -- What every call keeps of an adapter `a`.
  abbrev pub Keeps : InMemoryAdapter → InMemoryAdapter → Type 0
  Keeps a b =
      IsSame a b
      × ((t p i : String) → IsOwned t p i a → IsOwned t p i b)
      × ((k : String) (entry : IdempotencyEntry) → IsLogged k entry a → IsLogged k entry b)

  Keeps-refl :
      (a b : InMemoryAdapter)
      → a.idempotency_log ≡ b.idempotency_log
      → a.resources ≡ b.resources
      → IsSame a b
      → Keeps a b
  unfolding IsOwned IsLogged
  Keeps-refl a b hl hr hs =
      (hs, (λ t p i (s, hs, ht, hp). (s, ground arith, ht, hp)), (λ k entry h. ground arith))

  pub inspect_resource-state :
      (ctx : Context) (t p i : String) (a : InMemoryAdapter) → (inspect_resource ctx t p i a).0 ≡ a
  unfolding inspect_resource
  inspect_resource-state ctx t p i a = ground arith

  pub health-state : (ctx : Context) (a : InMemoryAdapter) → (health ctx a).0 ≡ a
  unfolding health
  health-state ctx a = ground arith

  same : (a : InMemoryAdapter) → Keeps a a
  unfolding IsSame
  same a = Keeps-refl a a refl refl (refl, refl, refl)

  pub Step-Keeps : {a b : InMemoryAdapter} → Step sha256 a b → Keeps a b
  unfolding set_health IsSame
  Step-Keeps (executes ctx req a) = (
    execute_lifecycle-IsSame ctx req a,
    execute_lifecycle-IsOwned ctx req a,
    execute_lifecycle-IsLogged ctx req a,
  )
  Step-Keeps (inspects ctx t p i a) =
      subst (Keeps a) (sym (inspect_resource-state ctx t p i a)) (same a)
  Step-Keeps (reads_health ctx a) = subst (Keeps a) (sym (health-state ctx a)) (same a)
  Step-Keeps (sets_health status reason a) =
      Keeps-refl a (set_health status reason a).0 (ground arith) (ground arith) (ground arith)

  pub Steps-Keeps : {a b : InMemoryAdapter} → Steps sha256 a b → Keeps a b
  unfolding IsSame
  Steps-Keeps {a} here = same a
  Steps-Keeps (next r st) =
      let (hs, ho, hl) = Steps-Keeps r in
      let (hs', ho', hl') = Step-Keeps st in
      (ground arith, (λ t p i h. ho' t p i (ho t p i h)), (λ k entry h. hl' k entry (hl k entry h)))
