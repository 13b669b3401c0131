-- ===== src/Iam/Permits/Guards.antt =====
-- The guards of evaluate against their specification: lifecycle, scope, target and owner.
use cloud_ring.Prelude.{
  String, true, ◌&&◌, ◌≡◌, refl, sym, inl, inr, ◌↔◌, none, some, List, [], ◌∷◌, ◌==◌, arith, eq_iff,
  Bool-cases, Option-cases,
}
use cloud_ring.Prelude.Lists.{Some, lookup}
use cloud_ring.Iam.Types.{
  Action, project_read, tenant_export, tenant_recover, TenantState, active, suspended, deleting,
  recovering, exporting, Organization, Tenant, Project, NamespaceScope, TargetRef,
}
use cloud_ring.Iam.Rules.{
  lifecycle_allows, action_allowed, scope_covers, target_within_project_scope,
}
use cloud_ring.Iam.Policy.{
  Policy, found, owner_removal_denied, resolve_target, organization_of, tenant_of, project_of,
}
use cloud_ring.Iam.Permits.{
  Lists, LifecycleMay, active_any, suspended_exports, suspended_recovers, suspended_reads,
  deleting_exports, deleting_reads, recovering_recovers, recovering_reads, exporting_exports,
  exporting_reads, Resolves, InScope, Removable,
}
use cloud_ring.Iam.Permits.Credentials.{action_allowed_iff}

lifecycle_sound : (t : TenantState) (a : Action) → lifecycle_allows t a ≡ none → LifecycleMay t a
unfolding lifecycle_allows
lifecycle_sound active a h = active_any a
lifecycle_sound suspended tenant_export h = suspended_exports
lifecycle_sound suspended tenant_recover h = suspended_recovers
lifecycle_sound suspended project_read h = suspended_reads
lifecycle_sound deleting tenant_export h = deleting_exports
lifecycle_sound deleting project_read h = deleting_reads
lifecycle_sound recovering tenant_recover h = recovering_recovers
lifecycle_sound recovering project_read h = recovering_reads
lifecycle_sound exporting tenant_export h = exporting_exports
lifecycle_sound exporting project_read h = exporting_reads
lifecycle_sound _ _ h = cc

lifecycle_complete : {t : TenantState} {a : Action} → LifecycleMay t a → lifecycle_allows t a ≡ none
unfolding lifecycle_allows
lifecycle_complete (active_any a) = refl
lifecycle_complete suspended_exports = refl
lifecycle_complete suspended_recovers = refl
lifecycle_complete suspended_reads = refl
lifecycle_complete deleting_exports = refl
lifecycle_complete deleting_reads = refl
lifecycle_complete recovering_recovers = refl
lifecycle_complete recovering_reads = refl
lifecycle_complete exporting_exports = refl
lifecycle_complete exporting_reads = refl

-- A tenant's lifecycle state serves an action exactly when the table of states lists it.
pub lifecycle_allows_iff :
    (t : TenantState) (a : Action) → (lifecycle_allows t a ≡ none) ↔ LifecycleMay t a
lifecycle_allows_iff t a = (lifecycle_sound t a, lifecycle_complete)

abbrev Covers : String → Action → NamespaceScope → Type 0
Covers namespace action scope = (scope.namespace ≡ namespace) × Lists action scope.actions

scope_covers_iff :
    (ss : List NamespaceScope) (n : String) (a : Action)
    → (scope_covers ss n a ≡ true) ↔ Some (Covers n a) ss
unfolding scope_covers
scope_covers_iff [] n a = (λ h. cc h, λ h. absurd h)
scope_covers_iff (x ∷ ss) n a =
    let (sound, complete) = scope_covers_iff ss n a in
    let (lists, listed) = action_allowed_iff x.actions a in
    let (same, equal) = eq_iff x.namespace n in
    (
      λ h. elim (Bool-cases (x.namespace == n && action_allowed x.actions a)) [
        | inl e ↦ inl (same (ground arith), lists (ground arith))
        | inr e ↦ inr (sound (ground arith))
      ],
      elim [ inl (e, l) ↦ ground (arith, equal e, listed l) | inr s ↦ ground (arith, complete s) ],
    )

pub InScope-iff :
    (t : TargetRef) (p : Project) (a : Action)
    → (target_within_project_scope t p a ≡ true) ↔ InScope t p a
unfolding target_within_project_scope
InScope-iff t p a =
    let (sound, complete) = scope_covers_iff p.scopes t.namespace a in
    (
      λ h. (
        ground (arith, eq_iff t.namespace ""),
        elim (Bool-cases (t.namespace == p.namespace)) [
          | inl e ↦ inl (sym ((eq_iff t.namespace p.namespace).0 e))
          | inr e ↦ inr (sound (ground arith))
        ],
      ),
      λ (n, c). elim c [
        | inl e ↦
            ground
              (arith, eq_iff t.namespace "", eq_iff p.namespace "", eq_iff t.namespace p.namespace)
        | inr s ↦ ground (arith, eq_iff t.namespace "", complete s)
      ],
    )

organization_sound :
    (p : Policy) (t : TargetRef) {o : Organization}
    → organization_of p t ≡ some o
    → (lookup t.org_id p.organizations ≡ some o) × (o.id ≡ t.org_id)
unfolding organization_of
organization_sound p t {o} h = elim (Option-cases (lookup t.org_id p.organizations)) [
  | inl e ↦ absurd (ground arith)
  | inr (x, e) ↦ ground (arith, eq_iff x.id t.org_id)
]

tenant_sound :
    (p : Policy) (t : TargetRef) {x : Tenant}
    → tenant_of p t ≡ some x
    → (lookup t.tenant_id p.tenants ≡ some x) × (x.id ≡ t.tenant_id) × (x.org_id ≡ t.org_id)
unfolding tenant_of
tenant_sound p t h = elim (Option-cases (lookup t.tenant_id p.tenants)) [
  | inl e ↦ absurd (ground arith)
  | inr (x, e) ↦ ground (arith, eq_iff x.id t.tenant_id, eq_iff x.org_id t.org_id)
]

project_sound :
    (p : Policy) (t : TargetRef) {x : Project}
    → project_of p t ≡ some x
    → (lookup t.project_id p.projects ≡ some x)
      × (x.id ≡ t.project_id)
      × (x.tenant_id ≡ t.tenant_id)
      × (x.org_id ≡ t.org_id)
unfolding project_of
project_sound p t h = elim (Option-cases (lookup t.project_id p.projects)) [
  | inl e ↦ absurd (ground arith)
  | inr (x, e) ↦
      ground
        (arith, eq_iff x.id t.project_id, eq_iff x.tenant_id t.tenant_id, eq_iff x.org_id t.org_id)
]

pub resolve_sound :
    (p : Policy) (t : TargetRef) {tenant : Tenant} {project : Project}
    → resolve_target p t ≡ found tenant project
    → Resolves p t tenant project
unfolding resolve_target
resolve_sound p t h = elim (Option-cases (organization_of p t)) [
  | inl e ↦ absurd (ground arith)
  | inr (o, eo) ↦ elim (Option-cases (tenant_of p t)) [
    | inl e ↦ absurd (ground arith)
    | inr (n, en) ↦ elim (Option-cases (project_of p t)) [
      | inl e ↦ absurd (ground arith)
      | inr (j, ej) ↦
          let co = organization_sound p t eo in
          let cn = tenant_sound p t en in
          let cj = project_sound p t ej in
          record {
            organization = o;
            organization_found = co.0;
            organization_id = co.1;
            tenant_found = ground arith;
            tenant_id = ground arith;
            tenant_org = ground arith;
            project_found = ground arith;
            project_id = ground arith;
            project_tenant = ground arith;
            project_org = ground arith;
          }
    ]
  ]
]

pub resolve_complete :
    (p : Policy) (t : TargetRef) {tenant : Tenant} {project : Project}
    → Resolves p t tenant project
    → resolve_target p t ≡ found tenant project
unfolding resolve_target organization_of tenant_of project_of
resolve_complete p t {tenant} {project} h = ground (
  arith,
  eq_iff h.organization.id t.org_id,
  eq_iff tenant.id t.tenant_id,
  eq_iff tenant.org_id t.org_id,
  eq_iff project.id t.project_id,
  eq_iff project.tenant_id t.tenant_id,
  eq_iff project.org_id t.org_id,
)

pub Removable-sound :
    (p : Policy) (who : String) (project : Project)
    → owner_removal_denied p who project ≡ none
    → Removable p who project
unfolding owner_removal_denied
Removable-sound p who project h = elim (Option-cases (lookup who p.principals)) [
  | inl e ↦ absurd (ground arith)
  | inr (q, e) ↦ (q, e, ground (arith, eq_iff q.id who), ground arith, ground arith)
]

pub Removable-complete :
    (p : Policy) (who : String) (project : Project)
    → Removable p who project
    → owner_removal_denied p who project ≡ none
unfolding owner_removal_denied
Removable-complete p who project (q, e, i, o, l) = ground (arith, eq_iff q.id who)
