-- ===== src/Inventory/Examples.antt =====
-- The theorems on the inventory protocol at concrete inputs: two bindings, of which the first is seen.
use mathlib.Core.HLevel.{¬_prop}
use mathlib.Core.List.{Permᴰ, Pairwise, Pairwise-pair}
use cloud_ring.Prelude.{
  arith, eq_iff, String, List, [], ◌∷◌, true, false, ◌≡◌, ◌≢◌, ◌↔◌, ◌⊎◌, refl, none, some,
}
use cloud_ring.Prelude.Lists.{length, contains, All}
use cloud_ring.Prelude.Text.{byte_length, text_lt, codes_lt}
use cloud_ring.Prelude.Patterns.{hex_text, all_codes}
use cloud_ring.Inventory.Requests.{
  InventoryBinding, InventoryRequest, words, lower_words, reference_pattern, is_digest, index_of,
  binding_rank, valid_binding, binding_less, sorts_before, insert_binding, sort_bindings, follows,
  valid_bindings, valid_inventory_request, new_inventory_request,
}
use cloud_ring.Inventory.Receipts.{
  InventoryObservation, InventoryReceipt, blocker_pattern, blockers_in_order, valid_blockers,
  find_binding, observations_match, inventory_request_sha256, receipt_lists_valid,
  valid_inventory_receipt,
}
use cloud_ring.Inventory.Coverage.{
  IsPart, bindings_of, HasDigest, observations_match_iff, valid_inventory_receipt_sound,
}
use cloud_ring.Inventory.Reorder.{Differ, new_inventory_request-Perm}
use cloud_ring.Inventory.Canonical.{IsAcceptable, IsCanonical, new_inventory_request-IsCanonical}

abbrev sample_digest : String
sample_digest = "aaaaaaaaaaaaaaaaaaaaaaaaaaaaaaaaaaaaaaaaaaaaaaaaaaaaaaaaaaaaaaaa"

abbrev adapter_binding : InventoryBinding
adapter_binding = record {
  binding_class = "provider-adapter-reference";
  reference = "adapter/metal";
}

abbrev region_binding : InventoryBinding
region_binding = record { binding_class = "region-inventory-reference"; reference = "region.one" }

abbrev sample_request : InventoryRequest
sample_request = record {
  schema_version = "cloudring.provider-adapter.inventory-request/v1";
  scope = "provider-inventory";
  profile_sha256 = sample_digest;
  run_nonce_sha256 = sample_digest;
  adapter_catalog_sha256 = sample_digest;
  bindings = adapter_binding ∷ region_binding ∷ [];
  production_ready = false;
}

abbrev sample_observation : InventoryObservation
sample_observation = record {
  binding_class = "provider-adapter-reference";
  reference = "adapter/metal";
  observation_commitment_sha256 = sample_digest;
}

abbrev sample_receipt : InventoryReceipt
sample_receipt = record {
  schema_version = "cloudring.provider-adapter.inventory-receipt/v1";
  scope = "provider-inventory";
  status = "blocked";
  request_sha256 = sample_digest;
  adapter_executable_sha256 = sample_digest;
  adapter_catalog_sha256 = sample_digest;
  observations = some (sample_observation ∷ []);
  blocker_ids = some ("region_offline" ∷ []);
  production_ready = false;
}

abbrev same_hash : InventoryRequest → String
same_hash request = sample_digest

accepts : valid_inventory_receipt same_hash sample_request sample_receipt ≡ true
unfolding valid_inventory_receipt inventory_request_sha256 receipt_lists_valid valid_blockers
    blockers_in_order blocker_pattern observations_match find_binding valid_inventory_request
    valid_bindings follows valid_binding binding_less binding_rank index_of reference_pattern
    lower_words words is_digest hex_text all_codes byte_length text_lt codes_lt contains
accepts = refl

makes :
    new_inventory_request sample_digest sample_digest sample_digest
      (region_binding ∷ adapter_binding ∷ [])
    ≡ some sample_request
unfolding new_inventory_request sort_bindings insert_binding sorts_before valid_inventory_request
    valid_bindings follows valid_binding binding_less binding_rank index_of reference_pattern
    lower_words words is_digest hex_text all_codes byte_length text_lt codes_lt contains
makes = refl

observations_match_iff_example :
    (observations_match (sample_observation ∷ []) (region_binding ∷ adapter_binding ∷ []) ≡ true)
    ↔ (All HasDigest (sample_observation ∷ [])
        × IsPart (bindings_of (sample_observation ∷ [])) (region_binding ∷ adapter_binding ∷ []))
observations_match_iff_example =
    observations_match_iff (sample_observation ∷ []) (region_binding ∷ adapter_binding ∷ [])

valid_inventory_receipt_sound_example :
    (observations : List InventoryObservation) × (blockers : List String)
    × (sample_receipt.observations ≡ some observations)
    × (sample_receipt.blocker_ids ≡ some blockers)
    × All HasDigest observations
    × IsPart (bindings_of observations) sample_request.bindings
    × ((sample_receipt.status ≢ "ready") ⊎ (bindings_of observations ≡ sample_request.bindings))
    × ((sample_receipt.status ≡ "ready") ↔ (length blockers ≡ 0))
valid_inventory_receipt_sound_example =
    valid_inventory_receipt_sound same_hash sample_request sample_receipt accepts

new_inventory_request-IsCanonical_example :
    ((¬ IsAcceptable sample_digest sample_digest sample_digest
        (region_binding ∷ adapter_binding ∷ []))
      × (new_inventory_request sample_digest sample_digest sample_digest
            (region_binding ∷ adapter_binding ∷ [])
          ≡ none))
    ⊎ (IsAcceptable sample_digest sample_digest sample_digest
          (region_binding ∷ adapter_binding ∷ [])
        × ((request : InventoryRequest) × (new_inventory_request sample_digest sample_digest
                sample_digest
                (region_binding ∷ adapter_binding ∷ [])
              ≡ some request)
            × (valid_inventory_request request ≡ true)
            × IsCanonical sample_digest sample_digest sample_digest
                (region_binding ∷ adapter_binding ∷ [])
                request
            × (new_inventory_request request.profile_sha256 request.run_nonce_sha256
                  request.adapter_catalog_sha256 request.bindings
                ≡ some request)))
new_inventory_request-IsCanonical_example =
    new_inventory_request-IsCanonical sample_digest sample_digest sample_digest
      (region_binding ∷ adapter_binding ∷ [])

bindings_apart : Pairwise Differ (region_binding ∷ adapter_binding ∷ [])
bindings_apart =
    (Pairwise-pair {R = Differ} (λ a b. ¬_prop)).1
      (λ e. ground (arith, eq_iff "region.one" "adapter/metal"))

new_inventory_request-Perm_example :
    new_inventory_request sample_digest sample_digest sample_digest
      (region_binding ∷ adapter_binding ∷ [])
    ≡ new_inventory_request sample_digest sample_digest sample_digest
        (adapter_binding ∷ region_binding ∷ [])
new_inventory_request-Perm_example =
    new_inventory_request-Perm sample_digest sample_digest sample_digest
      (region_binding ∷ adapter_binding ∷ []) (adapter_binding ∷ region_binding ∷ []) bindings_apart
      ∣ Permᴰ.swap refl refl ∣₁
