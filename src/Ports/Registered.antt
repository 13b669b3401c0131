-- ===== src/Ports/Registered.antt =====
-- pkg/providerports/ports.go: what ProviderRegistry.Register does to ProviderRegistry.Lookup.
use cloud_ring.Prelude.{
  String, true, ◌&&◌, ◌≡◌, arith, ◌==◌, eq_iff, Bool-cases, none, some, inl, inr, if◌then◌else◌,
}
use cloud_ring.Prelude.Lists.{Map, lookup, insert, lookup-insert}
use cloud_ring.Ports.Types.{
  ok, err, AdapterDescriptor, ServiceCategory, valid_service_category, adapter_already_registered,
}
use cloud_ring.Ports.Requests.{field}
use cloud_ring.Ports.Digests.{field-injective, valid_service_category-NoNul}
use cloud_ring.Ports.Registry.{registry_key, valid_descriptor, register, lookup_adapter}

registry_key-injective :
    (c d : ServiceCategory) (i j : String)
    → valid_service_category c ≡ true
    → valid_service_category d ≡ true
    → registry_key c i ≡ registry_key d j
    → (c ≡ d) × (i ≡ j)
unfolding registry_key field
registry_key-injective c d i j hc hd e =
    field-injective c d i j (valid_service_category-NoNul c hc) (valid_service_category-NoNul d hd)
      e

module _ {P : Type 0} (describe : P → AdapterDescriptor) where
  register_sound :
      (port : P) (m m' : Map P)
      → register describe (some port) m ≡ (m', ok tt)
      → (valid_descriptor (describe port) ≡ true)
        × (lookup (registry_key (describe port).service_category (describe port).adapter_id) m
            ≡ none)
        × (m'
            ≡ insert
                (registry_key (describe port).service_category (describe port).adapter_id)
                port
                m)
  unfolding register
  register_sound port m m' h = ground arith

  lookup_registered :
      (d : AdapterDescriptor) (category : ServiceCategory) (adapter_id : String) (port : P)
      (m m' : Map P)
      → valid_descriptor d ≡ true
      → valid_service_category category ≡ true
      → m' ≡ insert (registry_key d.service_category d.adapter_id) port m
      → lookup_adapter category adapter_id m' ≡ (
          if category == d.service_category && adapter_id == d.adapter_id
          then ok port
          else lookup_adapter category adapter_id m)
  unfolding lookup_adapter valid_descriptor
  lookup_registered d category adapter_id port m m' hv hc e =
      let key = registry_key category adapter_id in
      let own = registry_key d.service_category d.adapter_id in
      let after = lookup-insert own key port m in
      elim (Bool-cases (own == key)) [
        | inl t ↦
            let (hcat, hid) =
              registry_key-injective d.service_category category d.adapter_id adapter_id
                (ground arith) hc ((eq_iff own key).0 t) in
            ground (arith, eq_iff category d.service_category, eq_iff adapter_id d.adapter_id)
        | inr t ↦ ground (
          arith,
          eq_iff own key,
          eq_iff category d.service_category,
          eq_iff adapter_id d.adapter_id,
        )
      ]

  -- If a port is registered then its description is valid, and every lookup, by whatever category and
  -- identifier, gives what it gave before, but for the one by the port's category and identifier,
  -- which gives the port; and a further registration of any port so described is refused and
  -- changes nothing.
  pub register-lookup :
      (port other : P) (m m' : Map P)
      → register describe (some port) m ≡ (m', ok tt)
      → describe other ≡ describe port
      → (valid_descriptor (describe port) ≡ true)
        × ((category : ServiceCategory) (adapter_id : String)
            → lookup_adapter category adapter_id m' ≡ (
                if category == (describe port).service_category
                  && adapter_id == (describe port).adapter_id
                then ok port
                else lookup_adapter category adapter_id m))
        × (register describe (some other) m' ≡ (m', err adapter_already_registered))
  unfolding lookup_adapter valid_descriptor register
  register-lookup port other m m' h same =
      let (hv, hn, e) = register_sound port m m' h in
      let d = describe port in
      let own = registry_key d.service_category d.adapter_id in
      let after = lookup-insert own own port m in
      (
        hv,
        (λ category adapter_id. elim (Bool-cases (valid_service_category category)) [
          | inl hc ↦ lookup_registered d category adapter_id port m m' hv hc e
          | inr hc ↦ ground (arith, eq_iff category d.service_category)
        ]),
        ground (arith, eq_iff own own),
      )
