-- ===== src/Inventory/Receipts.antt =====
-- pkg/provideradapter/inventory.go: the receipts and the commitments.
use cloud_ring.Prelude.{
  ℕ, String, List, [], ◌∷◌, ◌++◌, Bool, true, false, not, ◌&&◌, ◌||◌, ◌==◌, Option, none, some, leb,
  eqb, if◌then◌else◌,
}
use cloud_ring.Prelude.Lists.{length, contains}
use cloud_ring.Prelude.Text.{codes, byte_length, text_lt}
use cloud_ring.Inventory.Requests.{
  BindingClass, InventoryStatus, inventory_statuses, InventoryBinding, InventoryRequest,
  lower_words, is_digest, valid_binding, valid_inventory_request,
}

pub record InventoryObservation : Type 0 where
  pub binding_class : BindingClass
  pub reference : String
  pub observation_commitment_sha256 : String

-- A slice is `none` where it is nil.
pub record InventoryReceipt : Type 0 where
  pub schema_version : String
  pub scope : String
  pub status : InventoryStatus
  pub request_sha256 : String
  pub adapter_executable_sha256 : String
  pub adapter_catalog_sha256 : String
  pub observations : Option (List InventoryObservation)
  pub blocker_ids : Option (List String)
  pub production_ready : Bool

unfoldable pub blocker_pattern : String → Bool
blocker_pattern value = lower_words (λ c. eqb c b'_') (codes value)

-- The loop over the blockers, with the one before.
unfoldable pub blockers_in_order : Option String → List String → Bool
blockers_in_order previous [] = true
blockers_in_order none (blocker ∷ blockers) =
    leb (byte_length blocker) 63
    && blocker_pattern blocker
    && blockers_in_order (some blocker) blockers
blockers_in_order (some previous) (blocker ∷ blockers) =
    leb (byte_length blocker) 63
    && blocker_pattern blocker
    && text_lt previous blocker
    && blockers_in_order (some blocker) blockers

unfoldable pub valid_blockers : InventoryStatus → List String → Bool
valid_blockers status blockers =
    if status == "ready"
    then eqb (length blockers) 0
    else not (eqb (length blockers) 0)
      && leb (length blockers) 32
      && blockers_in_order none blockers

-- The inner loop: the bindings after the one that the observation is of.
unfoldable pub find_binding :
    InventoryObservation → List InventoryBinding → Option (List InventoryBinding)
find_binding observation [] = none
find_binding observation (expected ∷ bindings) =
    let later = find_binding observation bindings in
    if observation.binding_class == expected.binding_class
      && observation.reference == expected.reference
    then some bindings
    else later

-- The loop over the observations, with the bindings ahead.
unfoldable pub observations_match : List InventoryObservation → List InventoryBinding → Bool
observations_match [] bindings = true
observations_match (observation ∷ observations) bindings =
    is_digest observation.observation_commitment_sha256
    && elim (find_binding observation bindings) [
      | none ↦ false
      | some rest ↦ observations_match observations rest
    ]

-- sort.Strings
unfoldable pub insert_text : String → List String → List String
insert_text s [] = s ∷ []
insert_text s (t ∷ ts) = let rest = insert_text s ts in if text_lt s t then s ∷ t ∷ ts else t ∷ rest

unfoldable pub sort_texts : List String → List String
sort_texts [] = []
sort_texts (s ∷ ss) = insert_text s (sort_texts ss)

-- sha256JSON of a request is a parameter.
module _ (sha256_json : InventoryRequest → String) where
  unfoldable pub inventory_request_sha256 : InventoryRequest → Option String
  inventory_request_sha256 request =
      if valid_inventory_request request then some (sha256_json request) else none

  unfoldable pub receipt_lists_valid :
      InventoryRequest
      → InventoryReceipt
      → Option (List InventoryObservation)
      → Option (List String)
      → Bool
  receipt_lists_valid request receipt (some observations) (some blockers) =
      leb (length observations) (length request.bindings)
      && (not (receipt.status == "ready") || eqb (length observations) (length request.bindings))
      && valid_blockers receipt.status blockers
      && observations_match observations request.bindings
  receipt_lists_valid request receipt _ _ = false

  -- ValidateInventoryReceipt, whose error is ErrInvalidInventoryReceipt.
  unfoldable pub valid_inventory_receipt : InventoryRequest → InventoryReceipt → Bool
  valid_inventory_receipt request receipt = elim (inventory_request_sha256 request) [
    | none ↦ false
    | some digest ↦
        receipt.schema_version == "cloudring.provider-adapter.inventory-receipt/v1"
        && receipt.scope == "provider-inventory"
        && contains inventory_statuses receipt.status
        && receipt.request_sha256 == digest
        && is_digest receipt.adapter_executable_sha256
        && receipt.adapter_catalog_sha256 == request.adapter_catalog_sha256
        && not receipt.production_ready
        && receipt_lists_valid request receipt receipt.observations receipt.blocker_ids
  ]

  -- NewInventoryReceipt: `none` for ErrInvalidInventoryReceipt.
  unfoldable pub new_inventory_receipt :
      InventoryRequest
      → InventoryStatus
      → String
      → List InventoryObservation
      → List String
      → Option InventoryReceipt
  new_inventory_receipt request status adapter_executable_sha256 observations blocker_ids =
      elim (inventory_request_sha256 request) [
        | none ↦ none
        | some digest ↦
            let receipt : InventoryReceipt = record {
              schema_version = "cloudring.provider-adapter.inventory-receipt/v1";
              scope = "provider-inventory";
              status = status;
              request_sha256 = digest;
              adapter_executable_sha256 = adapter_executable_sha256;
              adapter_catalog_sha256 = request.adapter_catalog_sha256;
              observations = some observations;
              blocker_ids = some (sort_texts blocker_ids);
              production_ready = false;
            } in
            if valid_inventory_receipt request receipt then some receipt else none
      ]

-- slices.Contains on the bindings
unfoldable pub has_binding : List InventoryBinding → InventoryBinding → Bool
has_binding [] binding = false
has_binding (b ∷ bindings) binding =
    (b.binding_class == binding.binding_class && b.reference == binding.reference)
    || has_binding bindings binding

-- The hex of the SHA-256 of bytes is a parameter; a byte is its number.
module _ (sha256 : List ℕ → String) where
  unfoldable pub run_nonce_sha256 : List ℕ → Option String
  run_nonce_sha256 raw_nonce = if eqb (length raw_nonce) 32 then some (sha256 raw_nonce) else none

  -- ObservationCommitmentSHA256: `none` for ErrInvalidObservation.
  unfoldable pub observation_commitment_sha256 :
      InventoryRequest → List ℕ → InventoryBinding → List ℕ → Option String
  observation_commitment_sha256 request raw_nonce binding value =
      elim (run_nonce_sha256 raw_nonce) [
        | none ↦ none
        | some digest ↦
            if valid_inventory_request request
              && digest == request.run_nonce_sha256
              && has_binding request.bindings binding
              && valid_binding binding
              && not (eqb (length value) 0)
              && leb (length value) 1048576
            then some (
                sha256 (
                  codes "cloudring/provider-inventory/observation/v1"
                  ++ (0 ∷ (raw_nonce ++ (0 ∷ (codes binding.reference ++ (0 ∷ value)))))))
            else none
      ]
