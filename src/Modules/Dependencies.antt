-- ===== src/Modules/Dependencies.antt =====
-- pkg/registry/registry.go: validateDependencies, with its search for a cycle.
use cloud_ring.Prelude.{
  ℕ, zero, suc, String, ◌<>◌, true, false, Option, none, some, List, [], ◌∷◌, ◌==◌, if◌then◌else◌,
}
use cloud_ring.Prelude.Lists.{length, contains, Map, lookup}
use cloud_ring.Prelude.Text.{decimal}
use cloud_ring.Modules.Types.{Dependency, Module, ValidationError, invalid}
use cloud_ring.Modules.Fields.{or_else}

-- The loop over the dependencies of the module at `index` that looks each up.
unfoldable pub missing_of : Map Module → ℕ → ℕ → List Dependency → Option ValidationError
missing_of known index dependency_index [] = none
missing_of known index dependency_index (dependency ∷ dependencies) =
    elim (lookup dependency.module_id known) [
      | none ↦ some (
          invalid
            ("modules["
              <> (decimal index
                  <> ("].dependencies[" <> (decimal dependency_index <> "].moduleId"))))
            "dependency.missing" "dependency module is not declared")
      | some _ ↦ missing_of known index (suc dependency_index) dependencies
    ]

unfoldable pub missing_error : Map Module → ℕ → List Module → Option ValidationError
missing_error known index [] = none
missing_error known index (m ∷ modules) =
    or_else (missing_of known index 0 m.dependencies) (missing_error known (suc index) modules)

-- The two maps of the search, as the lists of the identifiers that they hold true for.
pub record Marks : Type 0 where
  pub visiting : List String
  pub visited : List String

-- What a visit comes to: it returns nil, or an error, or the fuel was too little.
pub data Visit : Type 0 where
  returned : Marks → Visit
  refused : ValidationError → Visit
  exhausted : Visit

unfoldable pub cycle_error : ValidationError
cycle_error = invalid "modules.dependencies" "dependency.cycle" "dependency graph must be acyclic"

-- delete(visiting, id)
unfoldable pub delete : String → List String → List String
delete id [] = []
delete id (x ∷ xs) = if x == id then delete id xs else x ∷ delete id xs

-- The dependencies of known[id], which are none where there is no such module.
unfoldable pub dependencies_of : Map Module → String → List Dependency
dependencies_of known id = elim (lookup id known) [ none ↦ [] | some m ↦ m.dependencies ]

unfoldable pub leave : String → Visit → Visit
leave id (returned marks) =
    returned (record { visiting = delete id marks.visiting; visited = id ∷ marks.visited })
leave id other = other

-- The loop over identifiers, with the visit of one.
unfoldable pub visit_each : (String → Marks → Visit) → List String → Marks → Visit
visit_each visit [] marks = returned marks
visit_each visit (id ∷ ids) marks = elim (visit id marks) [
  | returned marks' ↦ visit_each visit ids marks'
  | refused e ↦ refused e
  | exhausted ↦ exhausted
]

unfoldable pub ids_of : List Dependency → List String
ids_of [] = []
ids_of (dependency ∷ dependencies) = dependency.module_id ∷ ids_of dependencies

unfoldable pub module_ids : List Module → List String
module_ids [] = []
module_ids (m ∷ modules) = m.id ∷ module_ids modules

-- visit
unfoldable pub visit : Map Module → ℕ → String → Marks → Visit
visit known zero id marks = exhausted
visit known (suc fuel) id marks = elim (contains marks.visiting id) [
  | true ↦ refused cycle_error
  | false ↦ elim (contains marks.visited id) [
    | true ↦ returned marks
    | false ↦ leave id (
        visit_each (visit known fuel) (ids_of (dependencies_of known id))
          (record { visiting = id ∷ marks.visiting; visited = marks.visited }))
  ]
]

-- A visit is never deeper than there are modules.
abbrev pub search : Map Module → List Module → Visit
search known modules =
    visit_each (visit known (suc (length known))) (module_ids modules)
      (record { visiting = []; visited = [] })

unfoldable pub search_error : Visit → Option ValidationError
search_error (refused e) = some e
search_error _ = none

-- validateDependencies
unfoldable pub validate_dependencies : List Module → Map Module → Option ValidationError
validate_dependencies modules known =
    or_else (missing_error known 0 modules) (search_error (search known modules))
