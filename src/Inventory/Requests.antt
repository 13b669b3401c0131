-- ===== src/Inventory/Requests.antt =====
-- pkg/provideradapter/inventory.go: the bindings and the requests.
use cloud_ring.Prelude.{
  ℕ, suc, String, ◌<>◌, List, [], ◌∷◌, Bool, true, false, not, ◌&&◌, ◌||◌, ◌==◌, Option, none, some,
  leb, eqb, if◌then◌else◌,
}
use cloud_ring.Prelude.Lists.{length, contains}
use cloud_ring.Prelude.Int.{ℤ, pos, negsuc, ltb_ℤ, eqb_ℤ}
use cloud_ring.Prelude.Text.{codes, byte_length, text_lt, contains_text}
use cloud_ring.Prelude.Patterns.{is_lower, is_lower_alnum, hex_text}

abbrev pub BindingClass : Type 0
BindingClass = String

abbrev pub InventoryStatus : Type 0
InventoryStatus = String

abbrev pub binding_class_order : List BindingClass
binding_class_order =
    "provider-adapter-reference" ∷ "region-inventory-reference" ∷ "provider-resource-reference"
    ∷ "management-address-reference" ∷ "provisioning-address-reference" ∷ []

abbrev pub inventory_statuses : List InventoryStatus
inventory_statuses = "ready" ∷ "blocked" ∷ "denied" ∷ "retryable" ∷ "failed" ∷ []

pub record InventoryBinding : Type 0 where
  pub binding_class : BindingClass
  pub reference : String

pub record InventoryRequest : Type 0 where
  pub schema_version : String
  pub scope : String
  pub profile_sha256 : String
  pub run_nonce_sha256 : String
  pub adapter_catalog_sha256 : String
  pub bindings : List InventoryBinding
  pub production_ready : Bool

-- [a-z0-9]*, then words of [a-z0-9]+ after a separator each; `after` where one was just read.
unfoldable pub words : (ℕ → Bool) → Bool → List ℕ → Bool
words separator after [] = not after
words separator after (c ∷ cs) =
    let in_word = words separator false cs in
    let next_word = words separator true cs in
    if is_lower_alnum c then in_word else not after && separator c && next_word

-- ^[a-z][a-z0-9]*(?:[separator][a-z0-9]+)*$
unfoldable pub lower_words : (ℕ → Bool) → List ℕ → Bool
lower_words separator [] = false
lower_words separator (c ∷ cs) = is_lower c && words separator false cs

unfoldable pub reference_pattern : String → Bool
reference_pattern value =
    lower_words (λ c. eqb c b'.' || eqb c b'_' || eqb c b'/' || eqb c b'-') (codes value)

-- ^[a-f0-9]{64}$
unfoldable pub is_digest : String → Bool
is_digest value = hex_text 64 value

-- slices.Index, from a first index on; -1 where the text is not found
unfoldable pub index_of : ℕ → List String → String → ℤ
index_of i [] s = negsuc 0
index_of i (x ∷ xs) s = if x == s then pos i else index_of (suc i) xs s

unfoldable pub binding_rank : BindingClass → ℤ
binding_rank class = index_of 0 binding_class_order class

unfoldable pub valid_binding : InventoryBinding → Bool
valid_binding binding =
    not (ltb_ℤ (binding_rank binding.binding_class) (pos 0))
    && leb 3 (byte_length binding.reference)
    && leb (byte_length binding.reference) 253
    && reference_pattern binding.reference
    && not (contains_text binding.reference "..")
    && not (contains_text binding.reference "//")

unfoldable pub binding_less : InventoryBinding → InventoryBinding → Bool
binding_less left right =
    let left_rank = binding_rank left.binding_class in
    let right_rank = binding_rank right.binding_class in
    ltb_ℤ left_rank right_rank
    || (eqb_ℤ left_rank right_rank && text_lt left.reference right.reference)

-- The order of the sort in NewInventoryRequest.
unfoldable pub sorts_before : InventoryBinding → InventoryBinding → Bool
sorts_before left right =
    let left_rank = binding_rank left.binding_class in
    let right_rank = binding_rank right.binding_class in
    if not (eqb_ℤ left_rank right_rank)
    then ltb_ℤ left_rank right_rank
    else text_lt left.reference right.reference

unfoldable pub insert_binding : InventoryBinding → List InventoryBinding → List InventoryBinding
insert_binding b [] = b ∷ []
insert_binding b (c ∷ cs) =
    let rest = insert_binding b cs in if sorts_before b c then b ∷ c ∷ cs else c ∷ rest

unfoldable pub sort_bindings : List InventoryBinding → List InventoryBinding
sort_bindings [] = []
sort_bindings (b ∷ bs) = insert_binding b (sort_bindings bs)

-- Whether the binding comes after the one before it, if there is one.
unfoldable pub follows : Option InventoryBinding → InventoryBinding → Bool
follows none binding = true
follows (some previous) binding = binding_less previous binding

-- The loop over the bindings, with the keys and the references seen, and the binding before.
unfoldable pub valid_bindings :
    List String → List String → Option InventoryBinding → List InventoryBinding → Bool
valid_bindings seen references previous [] = true
valid_bindings seen references previous (binding ∷ bindings) =
    let key = binding.binding_class <> ("\0" <> binding.reference) in
    valid_binding binding
    && not (contains seen key)
    && not (contains references binding.reference)
    && follows previous binding
    && valid_bindings (key ∷ seen) (binding.reference ∷ references) (some binding) bindings

-- ValidateInventoryRequest, whose error is ErrInvalidInventoryRequest.
unfoldable pub valid_inventory_request : InventoryRequest → Bool
valid_inventory_request request =
    request.schema_version == "cloudring.provider-adapter.inventory-request/v1"
    && request.scope == "provider-inventory"
    && is_digest request.profile_sha256
    && is_digest request.run_nonce_sha256
    && is_digest request.adapter_catalog_sha256
    && not request.production_ready
    && not (eqb (length request.bindings) 0)
    && leb (length request.bindings) 4096
    && valid_bindings [] [] none request.bindings

-- NewInventoryRequest: `none` for ErrInvalidInventoryRequest.
unfoldable pub new_inventory_request :
    String → String → String → List InventoryBinding → Option InventoryRequest
new_inventory_request profile_sha256 run_nonce_sha256 adapter_catalog_sha256 bindings =
    let request : InventoryRequest = record {
      schema_version = "cloudring.provider-adapter.inventory-request/v1";
      scope = "provider-inventory";
      profile_sha256 = profile_sha256;
      run_nonce_sha256 = run_nonce_sha256;
      adapter_catalog_sha256 = adapter_catalog_sha256;
      bindings = sort_bindings bindings;
      production_ready = false;
    } in
    if valid_inventory_request request then some request else none
