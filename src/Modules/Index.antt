-- ===== src/Modules/Index.antt =====
-- pkg/registry/registry.go: the index of the modules, and the check that dependencies are declared.
use cloud_ring.Prelude.{
  ℕ, suc, String, true, ◌≡◌, ◌≢◌, refl, subst, arith, ◌==◌, eq_iff, ◌↔◌, Bool-cases, Option-cases,
  ◌⊎◌, inl, inr, none, some, List, [], ◌∷◌,
}
use cloud_ring.Prelude.Lists.{length, contains, Map, lookup, insert, lookup-insert, All}
use cloud_ring.Modules.Types.{Module, Dependency}
use cloud_ring.Modules.Dependencies.{missing_of, missing_error, ids_of, module_ids, dependencies_of}
use cloud_ring.Modules.Validate.{module_index}
use cloud_ring.Modules.Cycles.{IsClosed}

abbrev pub keys_of : Map Module → List String
keys_of [] = []
keys_of ((k, m) ∷ known) = k ∷ keys_of known

pub length-keys_of : (known : Map Module) → length (keys_of known) ≡ length known
length-keys_of [] = refl
length-keys_of ((k, m) ∷ known) = let rest = length-keys_of known in omega arith

pub contains-keys_of :
    (known : Map Module) (x : String)
    → (contains (keys_of known) x ≡ true) ↔ (lookup x known ≢ none)
unfolding contains lookup
contains-keys_of [] x = ground arith
contains-keys_of ((k, m) ∷ known) x = let rest = contains-keys_of known x in ground (arith)

-- All that the module depends on is known.
abbrev pub IsDeclared : Map Module → Module → Type 0
IsDeclared known m =
    (y : String) → contains (ids_of m.dependencies) y ≡ true → lookup y known ≢ none

missing_of_iff :
    (known : Map Module) (index i : ℕ) (ds : List Dependency)
    → (missing_of known index i ds ≡ none)
      ↔ ((y : String) → contains (ids_of ds) y ≡ true → lookup y known ≢ none)
unfolding missing_of ids_of contains
missing_of_iff known index i [] = ((λ h y hy. ground arith), (λ f. refl))
missing_of_iff known index i (d ∷ ds) =
    let rest = missing_of_iff known index (suc i) ds in
    elim (Option-cases (lookup d.module_id known)) [
      | inl e ↦ (
        (λ h. ground arith),
        (λ f. absurd (f d.module_id (ground (arith, eq_iff d.module_id d.module_id)) e)),
      )
      | inr (m, e) ↦ (
        (λ h y hy. elim (Bool-cases (d.module_id == y)) [
          | inl t ↦ let same : d.module_id ≡ y = (eq_iff d.module_id y).0 t in ground arith
          | inr t ↦ rest.0 (ground arith) y (ground arith)
        ]),
        (λ f. let none_later = rest.1 (λ y hy. f y (ground arith)) in ground arith),
      )
    ]

pub missing_error_iff :
    (known : Map Module) (index : ℕ) (modules : List Module)
    → (missing_error known index modules ≡ none) ↔ All (IsDeclared known) modules
unfolding missing_error
missing_error_iff known index [] = ((λ h. tt), (λ h. refl))
missing_error_iff known index (m ∷ modules) =
    let rest = missing_error_iff known (suc index) modules in
    let own = missing_of_iff known index 0 m.dependencies in
    (
      (λ h. (own.0 (ground arith), rest.0 (ground arith))),
      (λ h. let a = own.1 h.0 in let b = rest.1 h.1 in ground arith),
    )

-- What is found in the index was listed, or was there before.
pub module_index-All :
    (P : Module → Type 0) (modules : List Module) (known : Map Module)
    → All P modules
    → ((k : String) (m : Module) → lookup k known ≡ some m → P m)
    → (k : String) (m : Module) → lookup k (module_index modules known) ≡ some m
    → P m
unfolding module_index
module_index-All P [] known ha hk = hk
module_index-All P (m ∷ modules) known (hm, ha) hk =
    module_index-All P modules (insert m.id m known) ha (λ k n h.
      let after = lookup-insert m.id k m known in
      elim (Bool-cases (m.id == k)) [
        | inl e ↦ let same : m ≡ n = ground arith in subst P same hm
        | inr e ↦ hk k n (ground arith)
      ])

pub module_index-ids :
    (modules : List Module) (known : Map Module) (k : String)
    → lookup k (module_index modules known) ≢ none
    → (contains (module_ids modules) k ≡ true) ⊎ (lookup k known ≢ none)
unfolding module_index module_ids contains
module_index-ids [] known k h = inr h
module_index-ids (m ∷ modules) known k h =
    let after = lookup-insert m.id k m known in
    let rest = module_index-ids modules (insert m.id m known) k h in
    elim (Bool-cases (m.id == k)) [ inl e ↦ inl (ground arith) | inr e ↦ ground arith ]

pub module_ids-index :
    (modules : List Module) (known : Map Module) (k : String)
    → (contains (module_ids modules) k ≡ true) ⊎ (lookup k known ≢ none)
    → lookup k (module_index modules known) ≢ none
unfolding module_index module_ids contains
module_ids-index [] known k h = ground arith
module_ids-index (m ∷ modules) known k h =
    let after = lookup-insert m.id k m known in
    module_ids-index modules (insert m.id m known) k (ground arith)

-- An index of declared modules holds all that they depend on.
pub keys_of-IsClosed :
    (known : Map Module)
    → ((k : String) (m : Module) → lookup k known ≡ some m → IsDeclared known m)
    → IsClosed known (keys_of known)
unfolding dependencies_of ids_of contains
keys_of-IsClosed known hd x y hx hy = elim (Option-cases (lookup x known)) [
  | inl e ↦ absurd ((contains-keys_of known x).0 hx e)
  | inr (m, e) ↦ (contains-keys_of known y).1 (hd x m e y (ground arith))
]
