-- ===== src/Inventory/Coverage.antt =====
-- pkg/provideradapter/inventory.go: what the observations of an accepted receipt cover.
use cloud_ring.Prelude.{
  ◌≤◌, String, List, [], ◌∷◌, true, ◌&&◌, ◌==◌, eq_iff, some, ◌≡◌, ◌≢◌, ◌↔◌, refl, sym, ap, subst,
  arith, Bool-cases, Option-cases, inl, inr, ◌⊎◌,
}
use cloud_ring.Prelude.Lists.{length, All}
use cloud_ring.Inventory.Requests.{InventoryBinding, InventoryRequest, is_digest}
use cloud_ring.Inventory.Receipts.{
  InventoryObservation, InventoryReceipt, find_binding, observations_match, valid_blockers,
  receipt_lists_valid, valid_inventory_receipt, inventory_request_sha256,
}

-- The first list is the second with some elements left out.
pub data IsPart {A : Type 0} : List A → List A → Type 0 where
  nil : IsPart [] []
  skip : {x : A} {xs ys : List A} → IsPart ys xs → IsPart ys (x ∷ xs)
  take : {x : A} {xs ys : List A} → IsPart ys xs → IsPart (x ∷ ys) (x ∷ xs)

IsPart-nil : {A : Type 0} (xs : List A) → IsPart [] xs
IsPart-nil [] = nil
IsPart-nil (x ∷ xs) = skip (IsPart-nil xs)

IsPart-tail : {A : Type 0} {x : A} {ys xs : List A} → IsPart (x ∷ ys) xs → IsPart ys xs
IsPart-tail (skip p) = skip (IsPart-tail p)
IsPart-tail (take p) = skip p

IsPart-length : {A : Type 0} {ys xs : List A} → IsPart ys xs → length ys ≤ length xs
IsPart-length nil = omega arith
IsPart-length (skip p) = let l = IsPart-length p in omega arith
IsPart-length (take p) = let l = IsPart-length p in omega arith

-- A part that is as long as the whole is the whole.
IsPart-whole : {A : Type 0} {ys xs : List A} → IsPart ys xs → length ys ≡ length xs → ys ≡ xs
IsPart-whole nil h = refl
IsPart-whole (skip p) h = let l = IsPart-length p in absurd (omega arith)
IsPart-whole (take {x} p) h = ap (λ l. x ∷ l) (IsPart-whole p (omega arith))

abbrev pub binding_of : InventoryObservation → InventoryBinding
binding_of o = record { binding_class = o.binding_class; reference = o.reference }

abbrev pub bindings_of : List InventoryObservation → List InventoryBinding
bindings_of [] = []
bindings_of (o ∷ os) = binding_of o ∷ bindings_of os

length-bindings_of : (os : List InventoryObservation) → length (bindings_of os) ≡ length os
length-bindings_of [] = refl
length-bindings_of (o ∷ os) = let rest = length-bindings_of os in omega arith

abbrev pub HasDigest : InventoryObservation → Type 0
HasDigest o = is_digest o.observation_commitment_sha256 ≡ true

find_binding_sound :
    (o : InventoryObservation) (bs rest : List InventoryBinding) (os : List InventoryBinding)
    → find_binding o bs ≡ some rest
    → IsPart os rest
    → IsPart (binding_of o ∷ os) bs
unfolding find_binding
find_binding_sound o [] rest os h p = ground arith
find_binding_sound o (b ∷ bs) rest os h p =
    elim (Bool-cases (o.binding_class == b.binding_class && o.reference == b.reference)) [
      | inl e ↦
          let same : binding_of o ≡ b =
            ground
              (arith, eq_iff o.binding_class b.binding_class, eq_iff o.reference b.reference) in
          let left : bs ≡ rest = ground arith in
          subst (λ x. IsPart (binding_of o ∷ os) (x ∷ bs)) same
            (take (subst (IsPart os) (sym left) p))
      | inr e ↦ skip (find_binding_sound o bs rest os (ground arith) p)
    ]

IsPart-cases :
    {A : Type 0} {x b : A} {ys bs : List A}
    → IsPart (x ∷ ys) (b ∷ bs)
    → ((x ≡ b) × IsPart ys bs) ⊎ IsPart (x ∷ ys) bs
IsPart-cases (skip p) = inr p
IsPart-cases (take p) = inl (refl, p)

not-IsPart-nil : {A : Type 0} {x : A} {ys : List A} → ¬ IsPart (x ∷ ys) []
not-IsPart-nil p = let l = IsPart-length p in omega arith

-- The first binding that agrees leaves the most to come.
find_binding_complete :
    (o : InventoryObservation) (bs : List InventoryBinding) (os : List InventoryBinding)
    → IsPart (binding_of o ∷ os) bs
    → (rest : List InventoryBinding) × (find_binding o bs ≡ some rest) × IsPart os rest
unfolding find_binding
find_binding_complete o [] os p = absurd (not-IsPart-nil p)
find_binding_complete o (b ∷ bs) os p =
    elim (Bool-cases (o.binding_class == b.binding_class && o.reference == b.reference)) [
      | inl e ↦
          (bs, ground arith, elim (IsPart-cases p) [ inl (same, q) ↦ q | inr q ↦ IsPart-tail q ])
      | inr e ↦ elim (IsPart-cases p) [
        | inl (same, q) ↦
            let class : o.binding_class ≡ b.binding_class = ap (λ x. x.binding_class) same in
            let reference : o.reference ≡ b.reference = ap (λ x. x.reference) same in
            ground (arith, eq_iff o.binding_class b.binding_class, eq_iff o.reference b.reference)
        | inr q ↦ let (rest, h, r) = find_binding_complete o bs os q in (rest, ground arith, r)
      ]
    ]

-- The loops of ValidateInventoryReceipt accept observations for bindings exactly when each commitment
-- is a digest, and the observed bindings are the given ones, in their order, with some left out.
pub observations_match_iff :
    (os : List InventoryObservation) (bs : List InventoryBinding)
    → (observations_match os bs ≡ true) ↔ (All HasDigest os × IsPart (bindings_of os) bs)
unfolding observations_match
observations_match_iff [] bs = ((λ h. (tt, IsPart-nil bs)), (λ h. refl))
observations_match_iff (o ∷ os) bs = (
  (λ h. elim (Option-cases (find_binding o bs)) [
    | inl e ↦ ground arith
    | inr (rest, e) ↦
        let (digests, part) = (observations_match_iff os rest).0 (ground arith) in
        ((ground arith, digests), find_binding_sound o bs rest (bindings_of os) e part)
  ]),
  (λ h.
      let (rest, e, part) = find_binding_complete o bs (bindings_of os) h.1 in
      let later = (observations_match_iff os rest).1 (h.0.1, part) in
      let own = h.0.0 in ground arith),
)

-- If ValidateInventoryReceipt accepts a receipt for a request then its observations are present, each
-- with a digest as commitment; what they observe are bindings of the request, in their order, with
-- none left out if the status is ready; and there is no blocker exactly if it is ready.
pub valid_inventory_receipt_sound :
    (sha256_json : InventoryRequest → String) (request : InventoryRequest)
    (receipt : InventoryReceipt)
    → valid_inventory_receipt sha256_json request receipt ≡ true
    → (observations : List InventoryObservation) × (blockers : List String) × (receipt.observations
        ≡ some observations)
      × (receipt.blocker_ids ≡ some blockers)
      × All HasDigest observations
      × IsPart (bindings_of observations) request.bindings
      × ((receipt.status ≢ "ready") ⊎ (bindings_of observations ≡ request.bindings))
      × ((receipt.status ≡ "ready") ↔ (length blockers ≡ 0))
unfolding valid_inventory_receipt receipt_lists_valid valid_blockers inventory_request_sha256
valid_inventory_receipt_sound sha256_json request receipt h =
    elim (Option-cases receipt.observations) [
      | inl e ↦ ground arith
      | inr (os, eo) ↦ elim (Option-cases receipt.blocker_ids) [
        | inl e ↦ ground arith
        | inr (blockers, eb) ↦
            let (digests, part) = (observations_match_iff os request.bindings).0 (ground arith) in
            let size = length-bindings_of os in
            (
              os,
              blockers,
              eo,
              eb,
              digests,
              part,
              elim (Bool-cases (receipt.status == "ready")) [
                | inl ready ↦ inr (IsPart-whole part (ground arith))
                | inr other ↦ inl (ground (arith, eq_iff receipt.status "ready"))
              ],
              (
                (λ ready. ground (arith, eq_iff receipt.status "ready")),
                (λ empty. ground (arith, eq_iff receipt.status "ready")),
              ),
            )
      ]
    ]
