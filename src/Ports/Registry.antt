-- ===== src/Ports/Registry.antt =====
-- pkg/providerports/ports.go: ProviderRegistry, over any type of ports that describe themselves.
use cloud_ring.Prelude.{
  String, ◌<>◌, Bool, not, ◌&&◌, ◌||◌, ◌==◌, Option, none, some, List, [], ◌∷◌, if◌then◌else◌,
}
use cloud_ring.Prelude.Lists.{Map, lookup, insert}
use cloud_ring.Prelude.Text.{text_lt}
use cloud_ring.Ports.Types.{
  Result, ok, err, invalid_adapter_descriptor, adapter_already_registered, adapter_not_found,
  AdapterDescriptor, ServiceCategory, valid_service_category, valid_backend_family,
  valid_identifier,
}

unfoldable pub registry_key : ServiceCategory → String → String
registry_key category adapter_id = category <> ("\0" <> adapter_id)

unfoldable pub valid_descriptor : AdapterDescriptor → Bool
valid_descriptor d =
    valid_identifier d.adapter_id
    && valid_service_category d.service_category
    && valid_backend_family d.backend_family

-- The order of the listing.
unfoldable pub descriptor_lt : AdapterDescriptor → AdapterDescriptor → Bool
descriptor_lt d e =
    if not (d.service_category == e.service_category)
    then text_lt d.service_category e.service_category
    else text_lt d.adapter_id e.adapter_id

unfoldable pub insert_descriptor :
    AdapterDescriptor → List AdapterDescriptor → List AdapterDescriptor
insert_descriptor d [] = d ∷ []
insert_descriptor d (e ∷ es) = if descriptor_lt d e then d ∷ e ∷ es else e ∷ insert_descriptor d es

unfoldable pub sort_descriptors : List AdapterDescriptor → List AdapterDescriptor
sort_descriptors [] = []
sort_descriptors (d ∷ ds) = insert_descriptor d (sort_descriptors ds)

-- `describe` is what the three methods of a port return.
module _ {P : Type 0} (describe : P → AdapterDescriptor) where
  -- Register: a nil port is `none`. The registry comes back beside the result.
  unfoldable pub register : Option P → Map P → Map P × Result Unit
  register none adapters = (adapters, err invalid_adapter_descriptor)
  register (some port) adapters =
      let d = describe port in
      let key = registry_key d.service_category d.adapter_id in
      if not (valid_descriptor d)
      then (adapters, err invalid_adapter_descriptor)
      else elim (lookup key adapters) [
        | some _ ↦ (adapters, err adapter_already_registered)
        | none ↦ (insert key port adapters, ok tt)
      ]

  unfoldable pub descriptors : Map P → List AdapterDescriptor
  descriptors [] = []
  descriptors ((k, port) ∷ adapters) = describe port ∷ descriptors adapters

  -- List
  unfoldable pub list_adapters : Map P → List AdapterDescriptor
  list_adapters adapters = sort_descriptors (descriptors adapters)

-- Lookup
unfoldable pub lookup_adapter : {P : Type 0} → ServiceCategory → String → Map P → Result P
lookup_adapter category adapter_id adapters =
    if not (valid_service_category category) || not (valid_identifier adapter_id)
    then err invalid_adapter_descriptor
    else elim (lookup (registry_key category adapter_id) adapters) [
      | none ↦ err adapter_not_found
      | some port ↦ ok port
    ]
