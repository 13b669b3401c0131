-- ===== src/Inventory/Accepts.antt =====
-- pkg/provideradapter/inventory.go: which lists of bindings ValidateInventoryRequest accepts.
use cloud_ring.Prelude.{
  ℕ, String, ◌<>◌, List, [], ◌∷◌, ◌++◌, true, false, not, ◌&&◌, ◌≡◌, ◌≢◌, refl, ap, sym, ◌∙◌,
  Option, some, arith, eq_iff, eqb, ◌==◌, Bool, Bool-cases, inl, inr, suc,
}
use cloud_ring.Prelude.Lists.{All, contains, contains-All}
use cloud_ring.Prelude.Int.{pos, ltb_ℤ}
use cloud_ring.Prelude.Text.{codes, text_lt}
use cloud_ring.Prelude.Order.{codes-append, text_lt_total, text_lt-asym}
use cloud_ring.Inventory.Requests.{
  InventoryBinding, binding_class_order, index_of, binding_rank, valid_binding, binding_less,
  sorts_before, follows, valid_bindings,
}
use cloud_ring.Inventory.Reorder.{Differ}
use cloud_ring.Inventory.Sorted.{AllPairs, IsBefore, map-All}

abbrev pub IsValid : InventoryBinding → Type 0
IsValid b = valid_binding b ≡ true

abbrev key : InventoryBinding → String
key b = b.binding_class <> ("\0" <> b.reference)

unfoldable no_nul : List ℕ → Bool
no_nul [] = true
no_nul (c ∷ cs) = not (eqb c 0) && no_nul cs

nul_split :
    (xs ys cs ds : List ℕ)
    → no_nul xs ≡ true
    → no_nul ys ≡ true
    → xs ++ 0 ∷ cs ≡ ys ++ 0 ∷ ds
    → cs ≡ ds
unfolding no_nul
nul_split [] [] cs ds h k e = ground arith
nul_split [] (y ∷ ys) cs ds h k e = ground arith
nul_split (x ∷ xs) [] cs ds h k e = ground arith
nul_split (x ∷ xs) (y ∷ ys) cs ds h k e =
    nul_split xs ys cs ds (ground arith) (ground arith) (ground arith)

index_of-contains :
    (i : ℕ) (xs : List String) (s : String)
    → ltb_ℤ (index_of i xs s) (pos 0) ≡ false
    → contains xs s ≡ true
unfolding index_of contains
index_of-contains i [] s h = ground arith
index_of-contains i (x ∷ xs) s h = elim (Bool-cases (x == s)) [
  | inl e ↦ ground arith
  | inr e ↦ let rest = index_of-contains (suc i) xs s (ground arith) in ground arith
]

abbrev IsPlain : String → Type 0
IsPlain s = no_nul (codes s) ≡ true

classes-IsPlain : All IsPlain binding_class_order
unfolding no_nul
classes-IsPlain = (refl, (refl, (refl, (refl, (refl, tt)))))

class-IsPlain : (b : InventoryBinding) → IsValid b → IsPlain b.binding_class
unfolding valid_binding binding_rank
class-IsPlain b h =
    contains-All IsPlain binding_class_order b.binding_class classes-IsPlain
      (index_of-contains 0 binding_class_order b.binding_class (ground arith))

-- Valid bindings of different references have different keys.
key-differs : (a b : InventoryBinding) → IsValid a → IsValid b → Differ a b → key a ≢ key b
unfolding text_lt
key-differs a b va vb d e =
    let split_a =
      codes-append a.binding_class ("\0" <> a.reference)
      ∙ ap (λ l. codes a.binding_class ++ l) (codes-append "\0" a.reference) in
    let split_b =
      codes-append b.binding_class ("\0" <> b.reference)
      ∙ ap (λ l. codes b.binding_class ++ l) (codes-append "\0" b.reference) in
    let same : codes a.reference ≡ codes b.reference =
      nul_split (codes a.binding_class) (codes b.binding_class) (codes a.reference)
        (codes b.reference) (class-IsPlain a va) (class-IsPlain b vb)
        (sym split_a ∙ ap codes e ∙ split_b) in
    let total = text_lt_total a.reference b.reference d in
    let asym = text_lt-asym a.reference b.reference in
    let asym' = text_lt-asym b.reference a.reference in ground (arith, same, total, asym, asym')

sorts_before-binding_less : (a b : InventoryBinding) → IsBefore a b → binding_less a b ≡ true
unfolding binding_less sorts_before
sorts_before-binding_less a b h = ground arith

zip-All :
    (P Q : InventoryBinding → Type 0) (bs : List InventoryBinding)
    → All P bs
    → All Q bs
    → All (λ b. P b × Q b) bs
zip-All P Q [] p q = tt
zip-All P Q (b ∷ bs) (p, ps) (q, qs) = ((p, q), zip-All P Q bs ps qs)

-- What the loop asks of bindings ahead, where it has seen some keys and references.
abbrev IsNew : List String → List String → Option InventoryBinding → InventoryBinding → Type 0
IsNew seen references previous b =
    (contains seen (key b) ≡ false)
    × (contains references b.reference ≡ false)
    × (follows previous b ≡ true)

IsNew-step :
    (seen references : List String) (previous : Option InventoryBinding) (b c : InventoryBinding)
    → IsValid b
    → (IsValid c × Differ b c) × (IsBefore b c × IsNew seen references previous c)
    → IsNew (key b ∷ seen) (b.reference ∷ references) (some b) c
unfolding contains follows
IsNew-step seen references previous b c vb ((vc, d), (before, (k, r, f))) =
    let other = key-differs b c vb vc d in
    (
      ground (arith, eq_iff (key b) (key c), other),
      ground (arith, eq_iff b.reference c.reference, d),
      sorts_before-binding_less b c before,
    )

pub valid_bindings_complete :
    (seen references : List String) (previous : Option InventoryBinding)
    (bs : List InventoryBinding)
    → All IsValid bs
    → AllPairs Differ bs
    → AllPairs IsBefore bs
    → All (IsNew seen references previous) bs
    → valid_bindings seen references previous bs ≡ true
unfolding valid_bindings
valid_bindings_complete seen references previous [] v d s n = refl
valid_bindings_complete seen references previous (b ∷ bs) (v, vs) (d, ds) (s, ss) (n, ns) =
    let rest =
      valid_bindings_complete (key b ∷ seen) (b.reference ∷ references) (some b) bs vs ds ss (
        map-All (λ c h. IsNew-step seen references previous b c v h) bs
          (zip-All _ _ bs (zip-All _ _ bs vs d) (zip-All _ _ bs s ns))) in
    ground (arith, rest, n)

pub valid_bindings_sound :
    (seen references : List String) (previous : Option InventoryBinding)
    (bs : List InventoryBinding)
    → valid_bindings seen references previous bs ≡ true
    → All IsValid bs × AllPairs Differ bs × All (λ b. contains references b.reference ≡ false) bs
unfolding valid_bindings contains
valid_bindings_sound seen references previous [] h = (tt, tt, tt)
valid_bindings_sound seen references previous (b ∷ bs) h =
    let (vs, ds, ns) =
      valid_bindings_sound (key b ∷ seen) (b.reference ∷ references) (some b) bs (ground arith) in
    (
      (ground arith, vs),
      (map-All (λ c n e. ground (arith, eq_iff b.reference c.reference)) bs ns, ds),
      (ground arith, map-All (λ c n. ground arith) bs ns),
    )
