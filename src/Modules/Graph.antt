-- ===== src/Modules/Graph.antt =====
-- pkg/registry/registry.go: the graph of the modules' dependencies, and orders of it.
use cloud_ring.Prelude.{
  ℕ, ◌+◌, ◌≤◌, ◌<◌, String, true, false, ◌≡◌, refl, sym, subst, arith, ◌==◌, eq_iff, Bool-cases,
  inl, inr, List, [], ◌∷◌, if◌then◌else◌,
}
use cloud_ring.Prelude.Lists.{length, contains, Map}
use cloud_ring.Modules.Types.{Module}
use cloud_ring.Modules.Dependencies.{delete, dependencies_of, ids_of}

-- The identifiers that known[id] depends on.
abbrev pub depends : Map Module → String → List String
depends known id = ids_of (dependencies_of known id)

-- A chain of dependencies, of at least one step.
pub data Reaches (known : Map Module) : String → String → Type 0 where
  one : (a b : String) → contains (depends known a) b ≡ true → Reaches known a b
  more :
      (a b c : String) → contains (depends known a) b ≡ true → Reaches known b c → Reaches known a c

pub Reaches-snoc :
    {known : Map Module} {a b : String} (c : String)
    → Reaches known a b
    → contains (depends known b) c ≡ true
    → Reaches known a c
Reaches-snoc c (one a b h) k = more a b c h (one b c k)
Reaches-snoc c (more a b d h r) k = more a b c h (Reaches-snoc c r k)

-- Nothing twice, and each after what it depends on, from the end on.
abbrev pub IsOrdered : Map Module → List String → Type 0
IsOrdered known [] = Unit
IsOrdered known (x ∷ xs) =
    (contains xs x ≡ false)
    × ((y : String) → contains (depends known x) y ≡ true → contains xs y ≡ true)
    × IsOrdered known xs

-- What an element of an order depends on stands in it.
IsOrdered-depends :
    (known : Map Module) (xs : List String) (a b : String)
    → IsOrdered known xs
    → contains xs a ≡ true
    → contains (depends known a) b ≡ true
    → contains xs b ≡ true
unfolding contains
IsOrdered-depends known [] a b ho ha hb = ground arith
IsOrdered-depends known (x ∷ xs) a b (hx, hd, ho) ha hb = elim (Bool-cases (x == a)) [
  | inl e ↦
      let same : x ≡ a = (eq_iff x a).0 e in
      let later = hd b (subst (λ z. contains (depends known z) b ≡ true) (sym same) hb) in
      ground arith
  | inr e ↦ let later = IsOrdered-depends known xs a b ho (ground arith) hb in ground arith
]

IsOrdered-Reaches :
    {known : Map Module} (xs : List String) {a b : String}
    → IsOrdered known xs
    → contains xs a ≡ true
    → Reaches known a b
    → contains xs b ≡ true
IsOrdered-Reaches {known} xs ho ha (one a b h) = IsOrdered-depends known xs a b ho ha h
IsOrdered-Reaches {known} xs ho ha (more a b c h r) =
    IsOrdered-Reaches xs ho (IsOrdered-depends known xs a b ho ha h) r

-- What the first element of an order reaches stands after it.
IsOrdered-first :
    {known : Map Module} (x : String) (xs : List String) {a b : String}
    → IsOrdered known (x ∷ xs)
    → x ≡ a
    → Reaches known a b
    → contains xs b ≡ true
IsOrdered-first {known} x xs (hx, hd, ho) e (one a b h) =
    hd b (subst (λ z. contains (depends known z) b ≡ true) (sym e) h)
IsOrdered-first {known} x xs (hx, hd, ho) e (more a b c h r) =
    IsOrdered-Reaches xs ho (hd b (subst (λ z. contains (depends known z) b ≡ true) (sym e) h)) r

-- An order has no cycle.
pub IsOrdered-acyclic :
    (known : Map Module) (xs : List String) (a : String)
    → IsOrdered known xs
    → contains xs a ≡ true
    → Reaches known a a
    → ⊥
unfolding contains
IsOrdered-acyclic known [] a ho ha r = ground arith
IsOrdered-acyclic known (x ∷ xs) a ho ha r = elim (Bool-cases (x == a)) [
  | inl e ↦
      let same : x ≡ a = (eq_iff x a).0 e in
      let later = IsOrdered-first x xs ho same r in let fresh = ho.0 in ground arith
  | inr e ↦ IsOrdered-acyclic known xs a ho.2 (ground arith) r
]

-- Removing what was put on top.
pub delete-fresh : (id : String) (xs : List String) → contains xs id ≡ false → delete id xs ≡ xs
unfolding delete contains
delete-fresh id [] h = refl
delete-fresh id (x ∷ xs) h = let rest = delete-fresh id xs (ground arith) in ground arith

-- How many of the keys are not in the list.
unfoldable pub free : List String → List String → ℕ
free visiting [] = 0
free visiting (k ∷ ks) = (if contains visiting k then 0 else 1) + free visiting ks

pub free-nil : (ks : List String) → free [] ks ≡ length ks
unfolding free contains
free-nil [] = refl
free-nil (k ∷ ks) = let rest = free-nil ks in omega arith

free-le : (id : String) (visiting ks : List String) → free (id ∷ visiting) ks ≤ free visiting ks
unfolding free contains
free-le id visiting [] = ground arith
free-le id visiting (k ∷ ks) = let rest = free-le id visiting ks in ground arith

pub free-lt :
    (id : String) (visiting ks : List String)
    → contains visiting id ≡ false
    → contains ks id ≡ true
    → free (id ∷ visiting) ks < free visiting ks
unfolding free contains
free-lt id visiting [] hv hk = ground arith
free-lt id visiting (k ∷ ks) hv hk = elim (Bool-cases (k == id)) [
  | inl e ↦
      let rest = free-le id visiting ks in
      let same : k ≡ id = (eq_iff k id).0 e in ground (arith, eq_iff id k)
  | inr e ↦ let rest = free-lt id visiting ks hv (ground arith) in ground (arith)
]
