-- ===== src/Iam/Loaded.antt =====
-- pkg/iam/state_loader.go with policy.go: what a policy built from a loaded state makes sure of.
use cloud_ring.Prelude.{
  String, Bool, false, Option, none, some, List, [], ◌∷◌, ◌==◌, eq_iff, ◌≡◌, ◌≢◌, inl, inr, sym,
  subst, arith, Option-cases, Bool-cases,
}
use cloud_ring.Prelude.Lists.{Map, lookup, contains, Some}
use cloud_ring.Iam.Types.{Tenant, Project, Principal, Organization, TargetRef}
use cloud_ring.Iam.Policy.{
  Policy, found, resolve_target, organization_of, tenant_of, project_of, removing_last_owner,
}
use cloud_ring.Iam.Owners.{Owns}
use cloud_ring.Iam.Owners.Converse.{IsDirectory, removing_last_owner-passes}
use cloud_ring.Iam.State.{
  PolicyState, range_error, organization_error, tenant_error, project_error, principal_error,
  validate_policy_state,
}
use cloud_ring.Iam.Construction.{
  PolicyStateLoader, PolicyConfig, constructed, policy_of, load_policy, new_policy_from_state,
}

-- Every entry that is found has passed its check.
range_error_sound :
    {V : Type 0} (check : String → V → Option String) (entries : Map V) (reference : String)
    (value : V)
    → range_error check entries ≡ none
    → lookup reference entries ≡ some value
    → check reference value ≡ none
unfolding range_error lookup
range_error_sound check [] reference value h hl = ground arith
range_error_sound check ((other, v) ∷ entries) reference value h hl =
    elim (Bool-cases (other == reference)) [
      | inl e ↦
          let same : other ≡ reference = (eq_iff other reference).0 e in
          let found_value : v ≡ value = ground arith in
          let passed : check other v ≡ none = ground arith in ground arith
      | inr e ↦ range_error_sound check entries reference value (ground arith) (ground arith)
    ]

module _ {S : Type 0} where
  new_policy_from_state_sound :
      (has_context : Bool) (config : PolicyConfig S) (loader : Option PolicyStateLoader) (s : S)
      (p : Policy)
      → new_policy_from_state has_context config loader s ≡ constructed p
      → (state : PolicyState) × (validate_policy_state state ≡ none) × (p ≡ policy_of config state)
  unfolding new_policy_from_state load_policy
  new_policy_from_state_sound has_context config none s p h = ground arith
  new_policy_from_state_sound has_context config (some loader) s p h =
      elim (Option-cases loader.load_policy_state) [
        | inl e ↦ ground arith
        | inr (state, e) ↦ (state, ground arith, ground arith)
      ]

-- A project of a valid state stands under its own reference, in a tenant of its organization.
validate_policy_state-project :
    (state : PolicyState) (reference : String) (project : Project)
    → validate_policy_state state ≡ none
    → lookup reference state.projects ≡ some project
    → (project.id ≡ reference)
      × ((t : Tenant) × (o : Organization) × (lookup project.tenant_id state.tenants ≡ some t)
          × (t.id ≡ project.tenant_id)
          × (t.org_id ≡ project.org_id)
          × (lookup t.org_id state.organizations ≡ some o)
          × (o.id ≡ t.org_id))
unfolding validate_policy_state project_error tenant_error organization_error
validate_policy_state-project state reference project h hl =
    let of_project =
      range_error_sound (project_error state) state.projects reference project (ground arith) hl in
    elim (Option-cases (lookup project.tenant_id state.tenants)) [
      | inl e ↦ ground arith
      | inr (t, ht) ↦
          let of_tenant =
            range_error_sound (tenant_error state) state.tenants project.tenant_id t (ground arith)
              ht in
          elim (Option-cases (lookup t.org_id state.organizations)) [
            | inl e ↦ ground arith
            | inr (o, ho) ↦
                let of_organization =
                  range_error_sound organization_error state.organizations t.org_id o (ground arith)
                    ho in
                (
                  ground (arith, eq_iff project.id reference),
                  (
                    t,
                    o,
                    ht,
                    ground (arith, eq_iff t.id project.tenant_id),
                    ground (arith, eq_iff t.org_id project.org_id),
                    ho,
                    ground (arith, eq_iff o.id t.org_id),
                  ),
                )
          ]
    ]

-- Each key stands once, as in a map of Go.
abbrev pub HasKeys {ℓ} : {V : Type ℓ} → List String → Map V → Type 0
HasKeys seen [] = Unit
HasKeys seen ((reference, value) ∷ entries) =
    (contains seen reference ≡ false) × HasKeys (reference ∷ seen) entries

principals-IsDirectory :
    (state : PolicyState) (seen : List String) (entries : Map Principal)
    → range_error (principal_error state) entries ≡ none
    → HasKeys seen entries
    → IsDirectory seen entries
unfolding range_error principal_error
principals-IsDirectory state seen [] h hk = tt
principals-IsDirectory state seen ((reference, principal) ∷ entries) h (hk, hks) =
    let same : principal.id ≡ reference = ground (arith, eq_iff principal.id reference) in
    (
      ground (arith, eq_iff reference ""),
      sym same,
      subst (λ x. contains seen x ≡ false) (sym same) hk,
      principals-IsDirectory state (principal.id ∷ seen) entries (ground arith)
          (subst (λ x. HasKeys (x ∷ seen) entries) (sym same) hks),
    )

module _ {S : Type 0} where
  -- In a policy that NewPolicyFromState returns, every project resolves: the target that names the
  -- project's reference, its tenant and its organization is that project, in the tenant that stands
  -- under the project's reference to it.
  pub new_policy_from_state-resolve_target :
      (has_context : Bool) (config : PolicyConfig S) (loader : Option PolicyStateLoader) (s : S)
      (p : Policy) (project : Project) (target : TargetRef)
      → new_policy_from_state has_context config loader s ≡ constructed p
      → lookup target.project_id p.projects ≡ some project
      → target.tenant_id ≡ project.tenant_id
      → target.org_id ≡ project.org_id
      → (t : Tenant) × (lookup target.tenant_id p.tenants ≡ some t)
        × (resolve_target p target ≡ found t project)
  unfolding resolve_target organization_of tenant_of project_of policy_of
  new_policy_from_state-resolve_target has_context config loader s p project target h hl ht ho =
      let (state, valid, e) = new_policy_from_state_sound has_context config loader s p h in
      let in_state : lookup target.project_id state.projects ≡ some project = ground arith in
      let (named, (t, o, lt, et, eo, lo, oid)) =
        validate_policy_state-project state target.project_id project valid in_state in
      (
        t,
        ground arith,
        ground (
          arith,
          eq_iff o.id target.org_id,
          eq_iff t.id target.tenant_id,
          eq_iff t.org_id target.org_id,
          eq_iff project.id target.project_id,
          eq_iff project.tenant_id target.tenant_id,
          eq_iff project.org_id target.org_id,
        ),
      )

  -- In a policy that NewPolicyFromState returns, whose map of principals has each key once, the guard
  -- lets the removal of an owner of a project pass if someone else owns the project too.
  pub new_policy_from_state-removing_last_owner :
      (has_context : Bool) (config : PolicyConfig S) (loader : Option PolicyStateLoader) (s : S)
      (p : Policy) (who other : String) (project : Project)
      → new_policy_from_state has_context config loader s ≡ constructed p
      → HasKeys [] p.principals
      → who ≢ ""
      → other ≢ who
      → Some (Owns project who) p.principals
      → Some (Owns project other) p.principals
      → removing_last_owner p who project ≡ false
  unfolding policy_of validate_policy_state
  new_policy_from_state-removing_last_owner has_context config loader s p who other project h hk hw
        hn ow oo =
      let (state, valid, e) = new_policy_from_state_sound has_context config loader s p h in
      let same : state.principals ≡ p.principals = ground arith in
      let checked : range_error (principal_error state) p.principals ≡ none =
        subst (λ m. range_error (principal_error state) m ≡ none) same (ground arith) in
      removing_last_owner-passes p who other project
        (principals-IsDirectory state [] p.principals checked hk) hw hn ow oo
