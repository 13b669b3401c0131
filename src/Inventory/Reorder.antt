-- ===== src/Inventory/Reorder.antt =====
-- pkg/provideradapter/inventory.go: the order in which bindings are given.
use mathlib.Core.List.{Perm, Permᴰ, Pairwise, mem-cons_self}
use mathlib.Core.List.Permᴰ
use text.Mathlib.TextEquality.{IsScalar-prop}
use mathlib.Core.HLevel.{¬_prop}
use mathlib.Core.Logic.{∥∥₁_elim}
use cloud_ring.Prelude.{
  String, List, [], ◌∷◌, Bool, true, false, not, ◌&&◌, ◌||◌, ◌≡◌, ◌≢◌, refl, sym, ap, ◌∙◌, arith,
  Bool-cases, inl, inr, if◌then◌else◌,
}
use cloud_ring.Prelude.Int.{ℤ, pos, negsuc, ltb_ℤ, eqb_ℤ}
use cloud_ring.Prelude.Text.{text_lt}
use cloud_ring.Prelude.Order.{text_lt_trans, text_lt-asym, text_lt_total}
use cloud_ring.Inventory.Requests.{
  InventoryBinding, binding_rank, sorts_before, insert_binding, sort_bindings,
  new_inventory_request,
}

-- The comparison by a number and then by a text.
abbrev before : ℤ → String → ℤ → String → Bool
before a s b t = if not (eqb_ℤ a b) then ltb_ℤ a b else text_lt s t

before_trans :
    (a b c : ℤ) (s t u : String)
    → before a s b t ≡ true
    → before b t c u ≡ true
    → before a s c u ≡ true
before_trans (pos a) (pos b) (pos c) s t u h k = elim (Bool-cases (text_lt s t && text_lt t u)) [
  | inl e ↦ let both = text_lt_trans s t u (ground arith) (ground arith) in ground arith
  | inr e ↦ ground arith
]
before_trans (negsuc a) (negsuc b) (negsuc c) s t u h k =
    elim (Bool-cases (text_lt s t && text_lt t u)) [
      | inl e ↦ let both = text_lt_trans s t u (ground arith) (ground arith) in ground arith
      | inr e ↦ ground arith
    ]
before_trans (pos a) (pos b) (negsuc c) s t u h k = ground arith
before_trans (pos a) (negsuc b) (pos c) s t u h k = ground arith
before_trans (pos a) (negsuc b) (negsuc c) s t u h k = ground arith
before_trans (negsuc a) (pos b) (pos c) s t u h k = refl
before_trans (negsuc a) (pos b) (negsuc c) s t u h k = ground arith
before_trans (negsuc a) (negsuc b) (pos c) s t u h k = refl

before-asym : (a b : ℤ) (s t : String) → before a s b t ≡ true → before b t a s ≡ false
before-asym (pos a) (pos b) s t h = elim (Bool-cases (text_lt s t)) [
  | inl e ↦ let other = text_lt-asym s t e in ground arith
  | inr e ↦ ground arith
]
before-asym (negsuc a) (negsuc b) s t h = elim (Bool-cases (text_lt s t)) [
  | inl e ↦ let other = text_lt-asym s t e in ground arith
  | inr e ↦ ground arith
]
before-asym (pos a) (negsuc b) s t h = ground arith
before-asym (negsuc a) (pos b) s t h = ground arith

before_total : (a b : ℤ) (s t : String) → s ≢ t → (before a s b t || before b t a s) ≡ true
before_total (pos a) (pos b) s t h = let total = text_lt_total s t h in ground arith
before_total (negsuc a) (negsuc b) s t h = let total = text_lt_total s t h in ground arith
before_total (pos a) (negsuc b) s t h = refl
before_total (negsuc a) (pos b) s t h = refl

pub sorts_before_trans :
    (x y z : InventoryBinding)
    → sorts_before x y ≡ true
    → sorts_before y z ≡ true
    → sorts_before x z ≡ true
unfolding sorts_before
sorts_before_trans x y z h k =
    before_trans (binding_rank x.binding_class) (binding_rank y.binding_class)
      (binding_rank z.binding_class) x.reference y.reference z.reference h k

sorts_before-asym : (x y : InventoryBinding) → sorts_before x y ≡ true → sorts_before y x ≡ false
unfolding sorts_before
sorts_before-asym x y h =
    before-asym (binding_rank x.binding_class) (binding_rank y.binding_class) x.reference
      y.reference h

pub sorts_before_total :
    (x y : InventoryBinding)
    → x.reference ≢ y.reference
    → (sorts_before x y || sorts_before y x) ≡ true
unfolding sorts_before
sorts_before_total x y h =
    before_total (binding_rank x.binding_class) (binding_rank y.binding_class) x.reference
      y.reference h

-- Insertions of bindings that the sort tells apart commute.
insert_binding-swap :
    (x y : InventoryBinding) (l : List InventoryBinding)
    → sorts_before x y ≡ true
    → insert_binding x (insert_binding y l) ≡ insert_binding y (insert_binding x l)
unfolding insert_binding
insert_binding-swap x y [] h = let other = sorts_before-asym x y h in ground arith
insert_binding-swap x y (q ∷ qs) h =
    let other = sorts_before-asym x y h in
    let rest = insert_binding-swap x y qs h in
    elim (Bool-cases (sorts_before y q)) [
      | inl e ↦ let first = sorts_before_trans x y q h e in ground arith
      | inr e ↦ ground arith
    ]

-- Two bindings of different references.
abbrev pub Differ : InventoryBinding → InventoryBinding → Type 0
Differ a b = a.reference ≢ b.reference

insert_binding-commute :
    (x y : InventoryBinding) (l : List InventoryBinding)
    → Differ x y
    → insert_binding x (insert_binding y l) ≡ insert_binding y (insert_binding x l)
insert_binding-commute x y l d =
    let total = sorts_before_total x y d in
    elim (Bool-cases (sorts_before x y)) [
      | inl e ↦ insert_binding-swap x y l e
      | inr e ↦ sym (insert_binding-swap y x l (ground arith))
    ]

sort_bindings-Permᴰ :
    {xs ys : List InventoryBinding}
    → Permᴰ xs ys
    → Pairwise Differ xs
    → sort_bindings xs ≡ sort_bindings ys
unfolding sort_bindings
sort_bindings-Permᴰ Permᴰ.nil h = refl
sort_bindings-Permᴰ (Permᴰ.cons {a} {l₂ = m} e p) (Pairwise.cons h w) =
    ap (insert_binding a) (sort_bindings-Permᴰ p w) ∙ ap (λ x. insert_binding x (sort_bindings m)) e
sort_bindings-Permᴰ (Permᴰ.swap {a} {b} {l = l} e f) (Pairwise.cons h w) =
    insert_binding-commute a b (sort_bindings l) (h b mem-cons_self) ∙ cc (e, f)
sort_bindings-Permᴰ (Permᴰ.trans p q) w =
    sort_bindings-Permᴰ p w
    ∙ sort_bindings-Permᴰ q (Permᴰ.pairwise (λ a b. ¬_prop) (λ a b d e. d (sym e)) p w)

-- NewInventoryRequest does not depend on the order in which the bindings are given, where their
-- references differ.
pub new_inventory_request-Perm :
    (profile nonce catalog : String) (xs ys : List InventoryBinding)
    → Pairwise Differ xs
    → Perm xs ys
    → new_inventory_request profile nonce catalog xs
      ≡ new_inventory_request profile nonce catalog ys
unfolding new_inventory_request
new_inventory_request-Perm profile nonce catalog xs ys w p =
    ∥∥₁_elim p (hlevel (IsScalar-prop)) (λ d. let same = sort_bindings-Permᴰ d w in ground arith)
