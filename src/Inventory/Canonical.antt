-- ===== src/Inventory/Canonical.antt =====
-- pkg/provideradapter/inventory.go: the order of the bindings of a request.
use mathlib.Core.List.{Permᴰ}
use cloud_ring.Prelude.{
  String, ◌<>◌, List, [], ◌∷◌, true, false, Option, none, some, ◌≡◌, ◌≤◌, ◌⊎◌, inl, inr, refl, ap,
  ◌∙◌, arith, Bool-cases,
}
use cloud_ring.Prelude.Lists.{All, length, contains}
use cloud_ring.Inventory.Requests.{
  InventoryBinding, InventoryRequest, is_digest, valid_inventory_request, valid_bindings, follows,
  binding_less, sorts_before, insert_binding, sort_bindings, new_inventory_request,
}
use cloud_ring.Inventory.Reorder.{Differ}
use cloud_ring.Inventory.Sorted.{
  AllPairs, IsBefore, map-All, sort-All, sort-Apart, sort-IsSorted, sort-Permᴰ, sort-length,
}
use cloud_ring.Inventory.Accepts.{IsValid, valid_bindings_complete, valid_bindings_sound}

binding_less-sorts_before :
    (a b : InventoryBinding) → binding_less a b ≡ true → sorts_before a b ≡ true
unfolding binding_less sorts_before
binding_less-sorts_before a b h = ground arith

-- Bindings that are accepted are sorted.
sort_bindings-valid :
    (seen references : List String) (previous : Option InventoryBinding)
    (bs : List InventoryBinding)
    → valid_bindings seen references previous bs ≡ true
    → sort_bindings bs ≡ bs
unfolding sort_bindings insert_binding valid_bindings follows
sort_bindings-valid seen references previous [] h = refl
sort_bindings-valid seen references previous (b ∷ []) h = refl
sort_bindings-valid seen references previous (b ∷ c ∷ bs) h =
    let key : String = b.binding_class <> ("\0" <> b.reference) in
    let rest =
      sort_bindings-valid (key ∷ seen) (b.reference ∷ references) (some b) (c ∷ bs)
        (ground arith) in
    let before = binding_less-sorts_before b c (ground arith) in
    ap (insert_binding b) rest ∙ ground arith

valid_inventory_request-sorted :
    (request : InventoryRequest)
    → valid_inventory_request request ≡ true
    → sort_bindings request.bindings ≡ request.bindings
unfolding valid_inventory_request
valid_inventory_request-sorted request h =
    sort_bindings-valid [] [] none request.bindings (ground arith)

-- What NewInventoryRequest accepts: digests, and between one and 4096 valid bindings of different
-- references, in any order.
abbrev pub IsAcceptable : String → String → String → List InventoryBinding → Type 0
IsAcceptable profile nonce catalog bs =
    (is_digest profile ≡ true)
    × (is_digest nonce ≡ true)
    × (is_digest catalog ≡ true)
    × (1 ≤ length bs)
    × (length bs ≤ 4096)
    × All IsValid bs
    × AllPairs Differ bs

-- The request that holds the bindings in their canonical order.
abbrev pub IsCanonical :
    String → String → String → List InventoryBinding → InventoryRequest → Type 0
IsCanonical profile nonce catalog bs request =
    (request.profile_sha256 ≡ profile)
    × (request.run_nonce_sha256 ≡ nonce)
    × (request.adapter_catalog_sha256 ≡ catalog)
    × Permᴰ bs request.bindings
    × AllPairs IsBefore request.bindings

abbrev made : String → String → String → List InventoryBinding → InventoryRequest
made profile nonce catalog bs = record {
  schema_version = "cloudring.provider-adapter.inventory-request/v1";
  scope = "provider-inventory";
  profile_sha256 = profile;
  run_nonce_sha256 = nonce;
  adapter_catalog_sha256 = catalog;
  bindings = sort_bindings bs;
  production_ready = false;
}

made_complete :
    (profile nonce catalog : String) (bs : List InventoryBinding)
    → IsAcceptable profile nonce catalog bs
    → valid_inventory_request (made profile nonce catalog bs) ≡ true
unfolding valid_inventory_request contains follows
made_complete profile nonce catalog bs (p, n, c, least, most, valid, apart) =
    let size = sort-length bs in
    let accepted =
      valid_bindings_complete [] [] none (sort_bindings bs) ((sort-All IsValid bs).0 valid)
        ((sort-Apart bs).0 apart) (sort-IsSorted bs apart)
        (map-All (λ b h. (refl, refl, refl)) (sort_bindings bs) ((sort-All IsValid bs).0 valid)) in
    ground (arith, p, n, c, least, most, size, accepted)

made_sound :
    (profile nonce catalog : String) (bs : List InventoryBinding)
    → valid_inventory_request (made profile nonce catalog bs) ≡ true
    → IsAcceptable profile nonce catalog bs
unfolding valid_inventory_request
made_sound profile nonce catalog bs h =
    let size = sort-length bs in
    let (valid, apart, new) = valid_bindings_sound [] [] none (sort_bindings bs) (ground arith) in
    (
      ground arith,
      ground arith,
      ground arith,
      ground (arith, size),
      ground (arith, size),
      (sort-All IsValid bs).1 valid,
      (sort-Apart bs).1 apart,
    )

-- NewInventoryRequest refuses what is not acceptable: digests, and between one and 4096 valid
-- bindings of different references, in any order. From what is acceptable it makes a request that
-- ValidateInventoryRequest accepts, with the digests given and the bindings rearranged, each before
-- the next by its class and then its reference; and it makes the same request again from the digests
-- and the bindings of that request.
pub new_inventory_request-IsCanonical :
    (profile nonce catalog : String) (bs : List InventoryBinding)
    → ((¬ IsAcceptable profile nonce catalog bs)
        × (new_inventory_request profile nonce catalog bs ≡ none))
      ⊎ (IsAcceptable profile nonce catalog bs
          × ((request : InventoryRequest) × (new_inventory_request profile nonce catalog bs
                ≡ some request)
              × (valid_inventory_request request ≡ true)
              × IsCanonical profile nonce catalog bs request
              × (new_inventory_request request.profile_sha256 request.run_nonce_sha256
                    request.adapter_catalog_sha256 request.bindings
                  ≡ some request)))
unfolding new_inventory_request
new_inventory_request-IsCanonical profile nonce catalog bs =
    let request = made profile nonce catalog bs in
    elim (Bool-cases (valid_inventory_request request)) [
      | inr bad ↦ inl (
        (λ h. let good = made_complete profile nonce catalog bs h in ground (arith, good)),
        ground arith,
      )
      | inl good ↦
          let acceptable = made_sound profile nonce catalog bs good in
          let sorted = valid_inventory_request-sorted request good in
          inr (
            acceptable,
            (
              request,
              ground arith,
              good,
              (refl, refl, refl, sort-Permᴰ bs, sort-IsSorted bs acceptable.6),
              ground arith,
            ),
          )
    ]
