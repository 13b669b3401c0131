-- ===== src/Inventory/Sorted.antt =====
-- pkg/provideradapter/inventory.go: what the sort of a request's bindings does to a list.
use mathlib.Core.List.{Permᴰ}
use mathlib.Core.List.Permᴰ
use cloud_ring.Prelude.{
  suc, List, [], ◌∷◌, true, false, ◌≡◌, refl, sym, subst, ◌⊎◌, ap, ◌∙◌, ◌↔◌, arith, inl, inr,
}
use cloud_ring.Prelude.Lists.{All, length}
use cloud_ring.Inventory.Requests.{InventoryBinding, sorts_before, insert_binding, sort_bindings}
use cloud_ring.Inventory.Reorder.{Differ, sorts_before_trans, sorts_before_total}

-- Any two elements, the first before the second in the list, are related.
abbrev pub AllPairs :
    (InventoryBinding → InventoryBinding → Type 0) → List InventoryBinding → Type 0
AllPairs R [] = Unit
AllPairs R (b ∷ bs) = All (R b) bs × AllPairs R bs

abbrev pub IsBefore : InventoryBinding → InventoryBinding → Type 0
IsBefore a b = sorts_before a b ≡ true

pub map-All :
    {P Q : InventoryBinding → Type 0}
    → ((b : InventoryBinding) → P b → Q b)
    → (bs : List InventoryBinding) → All P bs
    → All Q bs
map-All f [] h = tt
map-All f (b ∷ bs) (h, hs) = (f b h, map-All f bs hs)

insert-cases :
    (b c : InventoryBinding) (cs : List InventoryBinding)
    → ((sorts_before b c ≡ true) × (b ∷ c ∷ cs ≡ insert_binding b (c ∷ cs)))
      ⊎ ((sorts_before b c ≡ false) × (c ∷ insert_binding b cs ≡ insert_binding b (c ∷ cs)))
unfolding insert_binding
insert-cases b c cs = ground arith

module _ (P : InventoryBinding → Type 0) where
  insert-All :
      (b : InventoryBinding) (bs : List InventoryBinding)
      → P b
      → All P bs
      → All P (insert_binding b bs)
  unfolding insert_binding
  insert-All b [] h hs = (h, tt)
  insert-All b (c ∷ cs) h (k, ks) = elim (insert-cases b c cs) [
    | inl (e, same) ↦ subst (All P) same (h, (k, ks))
    | inr (e, same) ↦ subst (All P) same (k, insert-All b cs h ks)
  ]

  insert-All_inv :
      (b : InventoryBinding) (bs : List InventoryBinding)
      → All P (insert_binding b bs)
      → P b × All P bs
  unfolding insert_binding
  insert-All_inv b [] (h, _) = (h, tt)
  insert-All_inv b (c ∷ cs) h = elim (insert-cases b c cs) [
    | inl (e, same) ↦ subst (All P) (sym same) h
    | inr (e, same) ↦
        let (k, rest) = subst (All P) (sym same) h in
        let (l, ks) = insert-All_inv b cs rest in (l, (k, ks))
  ]

  pub sort-All : (bs : List InventoryBinding) → All P bs ↔ All P (sort_bindings bs)
  unfolding sort_bindings
  sort-All [] = ((λ h. h), (λ h. h))
  sort-All (b ∷ bs) = (
    (λ (h, hs). insert-All b (sort_bindings bs) h ((sort-All bs).0 hs)),
    (λ h. let (k, ks) = insert-All_inv b (sort_bindings bs) h in (k, (sort-All bs).1 ks)),
  )

Differ-sym : (a b : InventoryBinding) → Differ a b → Differ b a
Differ-sym a b d = λ e. d (sym e)

insert-Apart :
    (b : InventoryBinding) (bs : List InventoryBinding)
    → (All (Differ b) bs × AllPairs Differ bs) ↔ AllPairs Differ (insert_binding b bs)
unfolding insert_binding
insert-Apart b [] = ((λ (h, hs). (h, hs)), (λ h. h))
insert-Apart b (c ∷ cs) = elim (insert-cases b c cs) [
  | inl (e, same) ↦ (subst (AllPairs Differ) same, subst (AllPairs Differ) (sym same))
  | inr (e, same) ↦ (
    (λ ((d, ds), (k, ks)).
        subst (AllPairs Differ) same
          (insert-All (Differ c) b cs (Differ-sym b c d) k, (insert-Apart b cs).0 (ds, ks))),
    (λ h.
        let (kept, rest) = subst (AllPairs Differ) (sym same) h in
        let (d, k) = insert-All_inv (Differ c) b cs kept in
        let (ds, ks) = (insert-Apart b cs).1 rest in ((Differ-sym c b d, ds), (k, ks))),
  )
]

pub sort-Apart :
    (bs : List InventoryBinding) → AllPairs Differ bs ↔ AllPairs Differ (sort_bindings bs)
unfolding sort_bindings
sort-Apart [] = ((λ h. h), (λ h. h))
sort-Apart (b ∷ bs) = (
  (λ (h, hs).
      (insert-Apart b (sort_bindings bs)).0 ((sort-All (Differ b) bs).0 h, (sort-Apart bs).0 hs)),
  (λ h.
      let (k, ks) = (insert-Apart b (sort_bindings bs)).1 h in
      ((sort-All (Differ b) bs).1 k, (sort-Apart bs).1 ks)),
)

insert-IsSorted :
    (b : InventoryBinding) (bs : List InventoryBinding)
    → All (Differ b) bs
    → AllPairs IsBefore bs
    → AllPairs IsBefore (insert_binding b bs)
unfolding insert_binding
insert-IsSorted b [] d h = (tt, tt)
insert-IsSorted b (c ∷ cs) (d, ds) (h, hs) =
    let total = sorts_before_total b c d in
    elim (insert-cases b c cs) [
      | inl (e, same) ↦
          let first : All (IsBefore b) (c ∷ cs) =
            (e, map-All (λ x k. sorts_before_trans b c x e k) cs h) in
          subst (AllPairs IsBefore) same (first, (h, hs))
      | inr (e, same) ↦
          subst (AllPairs IsBefore) same
            (insert-All (IsBefore c) b cs (ground arith) h, insert-IsSorted b cs ds hs)
    ]

-- A list of bindings of different references is sorted by the sort.
pub sort-IsSorted :
    (bs : List InventoryBinding) → AllPairs Differ bs → AllPairs IsBefore (sort_bindings bs)
unfolding sort_bindings
sort-IsSorted [] h = tt
sort-IsSorted (b ∷ bs) (d, ds) =
    insert-IsSorted b (sort_bindings bs) ((sort-All (Differ b) bs).0 d) (sort-IsSorted bs ds)

insert-Permᴰ :
    (b : InventoryBinding) (bs : List InventoryBinding) → Permᴰ (b ∷ bs) (insert_binding b bs)
unfolding insert_binding
insert-Permᴰ b [] = Permᴰ.refl (b ∷ [])
insert-Permᴰ b (c ∷ cs) = elim (insert-cases b c cs) [
  | inl (e, same) ↦ subst (Permᴰ (b ∷ c ∷ cs)) same (Permᴰ.refl (b ∷ c ∷ cs))
  | inr (e, same) ↦
      subst (Permᴰ (b ∷ c ∷ cs)) same
        (Permᴰ.trans (Permᴰ.swap refl refl) (Permᴰ.cons refl (insert-Permᴰ b cs)))
]

pub sort-Permᴰ : (bs : List InventoryBinding) → Permᴰ bs (sort_bindings bs)
unfolding sort_bindings
sort-Permᴰ [] = Permᴰ.nil
sort-Permᴰ (b ∷ bs) =
    Permᴰ.trans (Permᴰ.cons refl (sort-Permᴰ bs)) (insert-Permᴰ b (sort_bindings bs))

insert-length :
    (b : InventoryBinding) (bs : List InventoryBinding)
    → length (insert_binding b bs) ≡ suc (length bs)
unfolding insert_binding
insert-length b [] = refl
insert-length b (c ∷ cs) = let rest = insert-length b cs in ground arith

pub sort-length : (bs : List InventoryBinding) → length (sort_bindings bs) ≡ length bs
unfolding sort_bindings
sort-length [] = refl
sort-length (b ∷ bs) = insert-length b (sort_bindings bs) ∙ ap suc (sort-length bs)
