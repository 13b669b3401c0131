-- ===== src/Modules/Accepted.antt =====
-- pkg/registry/registry.go: what Registry.Validate has made sure of.
use cloud_ring.Prelude.{
  ℕ, suc, ◌+◌, ◌≤◌, String, ◌<>◌, true, false, ◌≡◌, arith, ◌==◌, eq_iff, Bool-cases, Option-cases,
  ◌⊎◌, inl, inr, none, some, List, [], ◌∷◌,
}
use cloud_ring.Prelude.Lists.{length, contains, Map, lookup, insert, lookup-insert, All}
use cloud_ring.Prelude.Text.{decimal}
use cloud_ring.Modules.Types.{
  Module, Operation, PlanRequest, Registry, valid_module_state, valid_operation,
}
use cloud_ring.Modules.Fields.{
  states_error, lifecycle_states_error, operation_error, operations_error, module_error,
  plan_module_error, plan_error,
}
use cloud_ring.Modules.Dependencies.{module_ids}
use cloud_ring.Modules.Validate.{module_index, modules_error, plans_error, validate}
use cloud_ring.Modules.Graph.{free, free-nil, free-lt, Reaches}
use cloud_ring.Modules.Index.{IsDeclared}
use cloud_ring.Modules.Acceptance.{validate_dependencies_iff}

abbrev pub module_states : List String
module_states = "installable" ∷ "installed" ∷ "suspended" ∷ "deprecated" ∷ "not-installed" ∷ []

-- No text stands twice.
abbrev pub IsUnique : List String → Type 0
IsUnique [] = Unit
IsUnique (x ∷ xs) = (contains xs x ≡ false) × IsUnique xs

free-zero :
    (seen ks : List String) (k : String)
    → free seen ks ≡ 0
    → contains ks k ≡ true
    → contains seen k ≡ true
unfolding free contains
free-zero seen [] k h hk = ground arith
free-zero seen (j ∷ ks) k h hk = elim (Bool-cases (j == k)) [
  | inl e ↦ let same : j ≡ k = (eq_iff j k).0 e in ground arith
  | inr e ↦ free-zero seen ks k (ground arith) (ground arith)
]

valid_module_state-contains :
    (s : String) → valid_module_state s ≡ true → contains module_states s ≡ true
unfolding valid_module_state contains
valid_module_state-contains s h = ground (
  arith,
  eq_iff s "installable",
  eq_iff s "installed",
  eq_iff s "suspended",
  eq_iff s "deprecated",
  eq_iff s "not-installed",
  eq_iff "installable" s,
  eq_iff "installed" s,
  eq_iff "suspended" s,
  eq_iff "deprecated" s,
  eq_iff "not-installed" s,
)

-- Five different states out of five are all of them.
states_error_sound :
    (prefix : String) (index : ℕ) (seen states : List String)
    → free seen module_states + length seen ≤ 5
    → states_error prefix index seen states ≡ none
    → (k : String) → contains module_states k ≡ true
    → (contains seen k ≡ true) ⊎ (contains states k ≡ true)
unfolding states_error contains
states_error_sound prefix index seen [] hf h k hk =
    inl (free-zero seen module_states k (ground arith) hk)
states_error_sound prefix index seen (s ∷ states) hf h k hk =
    let known = valid_module_state-contains s (ground arith) in
    let fewer = free-lt s seen module_states (ground arith) known in
    elim (states_error_sound prefix (suc index) (s ∷ seen) states (omega arith) (ground arith) k
      hk) [ inl hs ↦ ground arith | inr hs ↦ ground arith ]

lifecycle_states_error_sound :
    (prefix : String) (states : List String)
    → lifecycle_states_error prefix states ≡ none
    → (k : String) → contains module_states k ≡ true
    → contains states k ≡ true
unfolding lifecycle_states_error contains
lifecycle_states_error_sound prefix states h k hk =
    let size = free-nil module_states in
    elim (states_error_sound prefix 0 [] states (omega arith) h k hk) [
      | inl e ↦ ground arith
      | inr e ↦ e
    ]

-- The operation has its name and its safety flags.
abbrev pub IsSafe : String → Operation → Type 0
IsSafe name o =
    (o.action ≡ name)
    × (o.idempotent ≡ true)
    × (o.policy_aware ≡ true)
    × (o.rollback_required ≡ true)

operation_error_sound :
    (prefix name : String) (o : Operation) → operation_error prefix name o ≡ none → IsSafe name o
unfolding operation_error
operation_error_sound prefix name o h = ground (arith, eq_iff o.action name)

-- What is checked of a module by itself.
abbrev pub IsSound : Module → Type 0
IsSound m =
    ((k : String) → contains module_states k ≡ true → contains m.lifecycle_states k ≡ true)
    × (m.service_implementation_refs ≡ none)
    × IsSafe "install" m.operations.install
    × IsSafe "update" m.operations.update
    × IsSafe "remove" m.operations.remove
    × IsSafe "suspend" m.operations.suspend
    × IsSafe "deprecate" m.operations.deprecate

module _ (clean : String → String) where
  module_error-IsSound :
      (index : ℕ) (m : Module) (known : Map Module)
      → module_error clean index m known ≡ none
      → (lookup m.id known ≡ none) × IsSound m
  unfolding module_error operations_error
  module_error-IsSound index m known h =
      let prefix : String = "modules[" <> (decimal index <> "]") in
      let path : String = prefix <> ".operations" in
      (
        ground arith,
        (
          lifecycle_states_error_sound prefix m.lifecycle_states (ground arith),
          ground arith,
          operation_error_sound path "install" m.operations.install (ground arith),
          operation_error_sound path "update" m.operations.update (ground arith),
          operation_error_sound path "remove" m.operations.remove (ground arith),
          operation_error_sound path "suspend" m.operations.suspend (ground arith),
          operation_error_sound path "deprecate" m.operations.deprecate (ground arith),
        ),
      )

  modules_error-IsSound :
      (index : ℕ) (ms : List Module) (known : Map Module)
      → modules_error clean index ms known ≡ none
      → All IsSound ms
        × IsUnique (module_ids ms)
        × ((k : String) → contains (module_ids ms) k ≡ true → lookup k known ≡ none)
  unfolding modules_error module_ids contains
  modules_error-IsSound index [] known h = (tt, tt, (λ k hk. ground arith))
  modules_error-IsSound index (m ∷ ms) known h =
      let (fresh, sound) = module_error-IsSound index m known (ground arith) in
      let (sounds, unique, apart) =
        modules_error-IsSound (suc index) ms (insert m.id m known) (ground arith) in
      let own = lookup-insert m.id m.id m known in
      (
        (sound, sounds),
        (
          elim (Bool-cases (contains (module_ids ms) m.id)) [
            | inl e ↦ let twice = apart m.id e in ground (arith, eq_iff m.id m.id)
            | inr e ↦ e
          ],
          unique,
        ),
        (λ k hk.
            let after = lookup-insert m.id k m known in
            elim (Bool-cases (m.id == k)) [
              | inl e ↦ let same : m.id ≡ k = (eq_iff m.id k).0 e in ground arith
              | inr e ↦ let later = apart k (ground arith) in ground arith
            ]),
      )

-- The plan is for a module of the index, at its version, with an operation, from a state.
abbrev pub IsPlanned : Map Module → PlanRequest → Type 0
IsPlanned known plan =
    (m : Module) × (lookup plan.module_id known ≡ some m)
    × (plan.target_version ≡ m.version)
    × (valid_operation plan.action ≡ true)
    × (valid_module_state plan.current_state ≡ true)

abbrev pub plan_names : List PlanRequest → List String
plan_names [] = []
plan_names (plan ∷ plans) = plan.name ∷ plan_names plans

plan_error_sound :
    (index : ℕ) (plan : PlanRequest) (known : Map Module) (seen : List String)
    → plan_error index plan known seen ≡ none
    → (contains seen plan.name ≡ false) × IsPlanned known plan
unfolding plan_error plan_module_error
plan_error_sound index plan known seen h = elim (Option-cases (lookup plan.module_id known)) [
  | inl e ↦ ground arith
  | inr (m, e) ↦ (
    ground arith,
    (m, e, ground (arith, eq_iff plan.target_version m.version), ground arith, ground arith),
  )
]

plans_error_sound :
    (index : ℕ) (plans : List PlanRequest) (known : Map Module) (seen : List String)
    → plans_error index plans known seen ≡ none
    → All (IsPlanned known) plans
      × IsUnique (plan_names plans)
      × ((k : String) → contains (plan_names plans) k ≡ true → contains seen k ≡ false)
unfolding plans_error contains
plans_error_sound index [] known seen h = (tt, tt, (λ k hk. ground arith))
plans_error_sound index (plan ∷ plans) known seen h =
    let (fresh, sound) = plan_error_sound index plan known seen (ground arith) in
    let (sounds, unique, apart) =
      plans_error_sound (suc index) plans known (plan.name ∷ seen) (ground arith) in
    (
      (sound, sounds),
      (
        elim (Bool-cases (contains (plan_names plans) plan.name)) [
          | inl e ↦ let twice = apart plan.name e in ground (arith, eq_iff plan.name plan.name)
          | inr e ↦ e
        ],
        unique,
      ),
      (λ k hk. elim (Bool-cases (plan.name == k)) [
        | inl e ↦ let same : plan.name ≡ k = (eq_iff plan.name k).0 e in ground arith
        | inr e ↦ let later = apart k (ground arith) in ground arith
      ]),
    )

-- If Validate accepts a registry then: its modules have different identifiers; each lists all five
-- states, names no implementation, and has five operations with their own names and all of the
-- safety flags; each depends on modules of the registry alone, and no chain of dependencies leads
-- from a module to itself; and its plans have different names, and each is for a module of the
-- registry, at the version of that module, with a known operation and state.
pub validate-IsSound :
    (clean : String → String) (r : Registry)
    → validate clean r ≡ none
    → IsUnique (module_ids r.modules)
      × All IsSound r.modules
      × All (IsDeclared (module_index r.modules [])) r.modules
      × ((a : String) → Reaches (module_index r.modules []) a a → ⊥)
      × IsUnique (plan_names r.plan_requests)
      × All (IsPlanned (module_index r.modules [])) r.plan_requests
unfolding validate
validate-IsSound clean r h =
    let (sounds, unique, _) = modules_error-IsSound clean 0 r.modules [] (ground arith) in
    let (declared, acyclic) = (validate_dependencies_iff r.modules).0 (ground arith) in
    let (planned, names, _) =
      plans_error_sound 0 r.plan_requests (module_index r.modules []) [] (ground arith) in
    (unique, sounds, declared, acyclic, names, planned)
