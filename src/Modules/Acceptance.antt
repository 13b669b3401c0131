-- ===== src/Modules/Acceptance.antt =====
-- pkg/registry/registry.go: what validateDependencies accepts.
use cloud_ring.Prelude.{suc, String, true, ◌≡◌, ◌≢◌, ◌↔◌, refl, arith, inl, inr, none, List, []}
use cloud_ring.Prelude.Lists.{length, contains, Map, lookup, All}
use cloud_ring.Modules.Types.{Module, ValidationError}
use cloud_ring.Modules.Dependencies.{
  Marks, returned, refused, exhausted, dependencies_of, ids_of, module_ids, visit, search,
  search_error, validate_dependencies,
}
use cloud_ring.Modules.Validate.{module_index}
use cloud_ring.Modules.Graph.{Reaches, one, more, IsOrdered-acyclic, free-nil}
use cloud_ring.Modules.Search.{Visit-cases, IsSearched, visit-Grows, visit_each-Grows}
use cloud_ring.Modules.Cycles.{visit-refused, visit_each-refused, visit-returns, visit_each-returns}
use cloud_ring.Modules.Index.{
  keys_of, length-keys_of, contains-keys_of, IsDeclared, missing_error_iff, module_index-All,
  module_index-ids, module_ids-index, keys_of-IsClosed,
}

abbrev unmarked : Marks
unmarked = record { visiting = []; visited = [] }

unmarked-IsSearched : (known : Map Module) → IsSearched known unmarked
unfolding contains
unmarked-IsSearched known = (tt, (λ x h. ground arith))

-- What starts a chain is a known module.
Reaches-known : {known : Map Module} {a b : String} → Reaches known a b → lookup a known ≢ none
unfolding dependencies_of ids_of contains
Reaches-known (one a b h) e = ground arith
Reaches-known (more a b c h r) e = ground arith

-- A search that returns shows that there is no cycle among modules whose identifiers it was given.
search-acyclic :
    (known : Map Module) (modules : List Module) (marks : Marks) (a : String)
    → search known modules ≡ returned marks
    → contains (module_ids modules) a ≡ true
    → Reaches known a a
    → ⊥
search-acyclic known modules marks a h ha r =
    let ((_, (ho, _), _), visited) =
      visit_each-Grows known (visit known (suc (length known)))
        (visit-Grows known (suc (length known))) (module_ids modules) unmarked marks
        (unmarked-IsSearched known) h in
    IsOrdered-acyclic known marks.visited a ho (visited a ha) r

search-refused :
    (known : Map Module) (modules : List Module) (e : ValidationError)
    → search known modules ≡ refused e
    → (z : String) × Reaches known z z
unfolding contains
search-refused known modules e h =
    visit_each-refused known (suc (length known)) (visit-refused known (suc (length known)))
      (module_ids modules) unmarked e (unmarked-IsSearched known) (λ y hy x hx. ground arith) h

-- The search of the modules of a registry never runs out of fuel: the visits are at most as deep as
-- there are modules.
pub search-returns :
    (modules : List Module)
    → All (IsDeclared (module_index modules [])) modules
    → search (module_index modules []) modules ≢ exhausted
unfolding lookup
search-returns modules hd =
    let known = module_index modules [] in
    let declared = module_index-All (IsDeclared known) modules [] hd (λ k m h. ground arith) in
    let closed = keys_of-IsClosed known declared in
    let size = free-nil (keys_of known) in
    let count = length-keys_of known in
    visit_each-returns known (keys_of known) (suc (length known))
      (visit-returns known (keys_of known) closed (suc (length known))) (module_ids modules)
      unmarked (unmarked-IsSearched known)
      (λ y hy. (contains-keys_of known y).1 (module_ids-index modules [] y (inl hy))) (omega arith)

-- validateDependencies accepts the modules of a registry, with their index, exactly when every module
-- depends on modules of the index alone and no chain of dependencies leads from a module to itself.
pub validate_dependencies_iff :
    (modules : List Module)
    → (validate_dependencies modules (module_index modules []) ≡ none) ↔ (
        All (IsDeclared (module_index modules [])) modules
        × ((a : String) → Reaches (module_index modules []) a a → ⊥))
unfolding validate_dependencies search_error lookup
validate_dependencies_iff modules =
    let known = module_index modules [] in
    let missing = missing_error_iff known 0 modules in
    (
      (λ h.
          let declared = missing.0 (ground arith) in
          let returns = search-returns modules declared in
          (
            declared,
            (λ a r. elim (Visit-cases (search known modules)) [
              | inl (marks, e) ↦ elim (module_index-ids modules [] a (Reaches-known r)) [
                | inl listed ↦ search-acyclic known modules marks a e listed r
                | inr before ↦ before refl
              ]
              | inr (inl (e', e)) ↦ ground arith
              | inr (inr e) ↦ returns e
            ]),
          )),
      (λ h.
          let accepted = missing.1 h.0 in
          elim (Visit-cases (search known modules)) [
            | inl (marks, e) ↦ ground arith
            | inr (inl (e', e)) ↦ let (z, r) = search-refused known modules e' e in absurd (h.1 z r)
            | inr (inr e) ↦ ground arith
          ]),
    )
