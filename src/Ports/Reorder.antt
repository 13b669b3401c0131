-- ===== src/Ports/Reorder.antt =====
-- pkg/providerports/ports.go: NewProvisionRequest ranges over a map, in any order.
use text.Mathlib.TextEquality.{IsScalar-prop}
use mathlib.Core.HLevel.{¬_prop}
use mathlib.Core.Logic.{∥∥₁_elim}
use mathlib.Core.List.{Perm, Permᴰ, Pairwise, mem-cons_self}
use mathlib.Core.List.Permᴰ
use cloud_ring.Prelude.{
  String, List, [], ◌∷◌, true, ◌≡◌, ◌≢◌, refl, sym, ap, ◌∙◌, arith, Bool-cases, inl, inr,
}
use cloud_ring.Prelude.Lists.{Map}
use cloud_ring.Prelude.Text.{text_lt}
use cloud_ring.Prelude.Order.{text_lt_trans, text_lt-asym, text_lt_total}
use cloud_ring.Ports.Types.{Parameter, ServiceCategory, LifecycleVerb}
use cloud_ring.Ports.Requests.{insert_sorted, sort_parameters, parameters_of, new_provision_request}

-- Two entries of different keys.
abbrev pub Differ : String × String → String × String → Type 0
Differ a b = a.0 ≢ b.0

insert_sorted-swap :
    (x y : Parameter) (l : List Parameter)
    → text_lt x.key y.key ≡ true
    → insert_sorted x (insert_sorted y l) ≡ insert_sorted y (insert_sorted x l)
unfolding insert_sorted
insert_sorted-swap x y [] h = let other = text_lt-asym x.key y.key h in ground arith
insert_sorted-swap x y (q ∷ qs) h =
    let other = text_lt-asym x.key y.key h in
    let rest = insert_sorted-swap x y qs h in
    elim (Bool-cases (text_lt y.key q.key)) [
      | inl e ↦ let first = text_lt_trans x.key y.key q.key h e in ground arith
      | inr e ↦ ground arith
    ]

insert_sorted-commute :
    (x y : Parameter) (l : List Parameter)
    → x.key ≢ y.key
    → insert_sorted x (insert_sorted y l) ≡ insert_sorted y (insert_sorted x l)
insert_sorted-commute x y l d =
    let total = text_lt_total x.key y.key d in
    elim (Bool-cases (text_lt x.key y.key)) [
      | inl e ↦ insert_sorted-swap x y l e
      | inr e ↦ sym (insert_sorted-swap y x l (ground arith))
    ]

-- The parameters of a map, as they stand in a request.
abbrev listed : Map String → List Parameter
listed m = sort_parameters (parameters_of m)

abbrev parameter_of : String × String → Parameter
parameter_of (k, v) = record { key = k; value = v }

listed-Permᴰ : {m n : Map String} → Permᴰ m n → Pairwise Differ m → listed m ≡ listed n
unfolding sort_parameters parameters_of
listed-Permᴰ Permᴰ.nil h = refl
listed-Permᴰ (Permᴰ.cons {a} {l₂ = n} e p) (Pairwise.cons h w) =
    ap (insert_sorted (parameter_of a)) (listed-Permᴰ p w)
    ∙ ap (λ x. insert_sorted (parameter_of x) (listed n)) e
listed-Permᴰ (Permᴰ.swap {a} {b} {l = l} e f) (Pairwise.cons h w) =
    insert_sorted-commute (parameter_of a) (parameter_of b) (listed l) (h b mem-cons_self)
    ∙ cc (e, f)
listed-Permᴰ (Permᴰ.trans p q) w =
    listed-Permᴰ p w ∙ listed-Permᴰ q (Permᴰ.pairwise (λ a b. ¬_prop) (λ a b d e. d (sym e)) p w)

-- NewProvisionRequest does not depend on the order in which the map of the parameters is ranged over,
-- whose keys differ.
pub new_provision_request-Perm :
    (category : ServiceCategory) (adapter tenant project resource key : String)
    (verb : LifecycleVerb) (m n : Map String)
    → Pairwise Differ m
    → Perm m n
    → new_provision_request category adapter tenant project resource key verb m
      ≡ new_provision_request category adapter tenant project resource key verb n
unfolding new_provision_request
new_provision_request-Perm category adapter tenant project resource key verb m n w p =
    ∥∥₁_elim p (hlevel (IsScalar-prop)) (λ d. let same = listed-Permᴰ d w in ground arith)
