-- ===== src/Iam/Roles.antt =====
-- The role rules of pkg/iam against a table of what each role may do.
use cloud_ring.Prelude.{
  String, true, false, ◌≡◌, refl, sym, subst, ◌⊎◌, inl, inr, ◌↔◌, List, [], ◌∷◌, arith, eq_iff,
  Bool-cases, if◌then◌else◌, ◌&&◌,
}
use cloud_ring.Prelude.Lists.{Some}
use cloud_ring.Iam.Types.{
  Action, project_read, project_write, project_manage, owner_remove, Role, owner, tenant_admin,
  tenant_viewer, platform_admin, Membership, Principal, TargetRef, is_platform_admin,
  is_tenant_admin, action_eq,
}
use cloud_ring.Iam.Rules.{
  membership_role_allows, role_allows, role_allows_by, has_tenant_access, has_access_by, role_text,
  rule_for_role, rule_by,
}

-- What a role may do in its tenant and project.
pub data RoleCan : Role → Action → Type 0 where
  owner_reads : RoleCan owner project_read
  owner_writes : RoleCan owner project_write
  owner_manages : RoleCan owner project_manage
  owner_removes : RoleCan owner owner_remove
  admin_reads : RoleCan tenant_admin project_read
  admin_writes : RoleCan tenant_admin project_write
  admin_manages : RoleCan tenant_admin project_manage
  viewer_reads : RoleCan tenant_viewer project_read
  support_reads : RoleCan Role.support project_read

-- A membership grants an action on a target: a platform administrator's any, another where it
-- reaches the target and its role may do it.
abbrev pub Grants : Action → TargetRef → Membership → Type 0
Grants a t m =
    (m.role ≡ platform_admin)
    ⊎ ((m.org_id ≡ t.org_id)
        × (m.tenant_id ≡ t.tenant_id)
        × ((m.project_id ≡ "") ⊎ (m.project_id ≡ t.project_id))
        × RoleCan m.role a)

RoleCan-sound :
    (r : Role) (a : Action) → membership_role_allows r a ≡ true → (r ≡ platform_admin) ⊎ RoleCan r a
unfolding membership_role_allows
RoleCan-sound owner project_read h = inr owner_reads
RoleCan-sound owner project_write h = inr owner_writes
RoleCan-sound owner project_manage h = inr owner_manages
RoleCan-sound owner owner_remove h = inr owner_removes
RoleCan-sound tenant_admin project_read h = inr admin_reads
RoleCan-sound tenant_admin project_write h = inr admin_writes
RoleCan-sound tenant_admin project_manage h = inr admin_manages
RoleCan-sound tenant_viewer project_read h = inr viewer_reads
RoleCan-sound Role.support project_read h = inr support_reads
RoleCan-sound platform_admin a h = inl refl
RoleCan-sound _ _ h = cc

RoleCan-complete : {r : Role} {a : Action} → RoleCan r a → membership_role_allows r a ≡ true
unfolding membership_role_allows
RoleCan-complete owner_reads = refl
RoleCan-complete owner_writes = refl
RoleCan-complete owner_manages = refl
RoleCan-complete owner_removes = refl
RoleCan-complete admin_reads = refl
RoleCan-complete admin_writes = refl
RoleCan-complete admin_manages = refl
RoleCan-complete viewer_reads = refl
RoleCan-complete support_reads = refl

Grants-sound :
    (a : Action) (t : TargetRef) (m : Membership)
    → role_allows_by (m ∷ []) a t ≡ true
    → Grants a t m
unfolding role_allows_by
Grants-sound a t m h = ground (
  arith,
  RoleCan-sound m.role a,
  eq_iff m.org_id t.org_id,
  eq_iff m.tenant_id t.tenant_id,
  eq_iff m.project_id "",
  eq_iff m.project_id t.project_id,
)

Grants-complete :
    (a : Action) (t : TargetRef) (m : Membership)
    → Grants a t m
    → role_allows_by (m ∷ []) a t ≡ true
unfolding role_allows_by
Grants-complete a t m (inl e) = ground arith
Grants-complete a t m (inr (o, n, p, c)) = ground (
  arith,
  RoleCan-complete c,
  eq_iff m.org_id t.org_id,
  eq_iff m.tenant_id t.tenant_id,
  eq_iff m.project_id "",
  eq_iff m.project_id t.project_id,
)

role_allows_by-cons :
    (m : Membership) (ms : List Membership) (a : Action) (t : TargetRef)
    → role_allows_by (m ∷ ms) a t
      ≡ (if role_allows_by (m ∷ []) a t then true else role_allows_by ms a t)
unfolding role_allows_by
role_allows_by-cons m ms a t = ground arith

role_allows_by_sound :
    (ms : List Membership) (a : Action) (t : TargetRef)
    → role_allows_by ms a t ≡ true
    → Some (Grants a t) ms
role_allows_by_sound [] a t h = unfold role_allows_by in cc h
role_allows_by_sound (m ∷ ms) a t h = elim (Bool-cases (role_allows_by (m ∷ []) a t)) [
  | inl e ↦ inl (Grants-sound a t m e)
  | inr e ↦ inr (role_allows_by_sound ms a t (ground (arith, role_allows_by-cons m ms a t)))
]

role_allows_by_complete :
    (ms : List Membership) (a : Action) (t : TargetRef)
    → Some (Grants a t) ms
    → role_allows_by ms a t ≡ true
role_allows_by_complete [] a t g = elim g [ ]
role_allows_by_complete (m ∷ ms) a t (inl g) =
    rw (role_allows_by-cons m ms a t, Grants-complete a t m g)
role_allows_by_complete (m ∷ ms) a t (inr s) =
    ground (arith, role_allows_by-cons m ms a t, role_allows_by_complete ms a t s)

-- roleAllows holds exactly when some membership of the principal grants the action on the target.
pub role_allows_iff :
    (p : Principal) (a : Action) (t : TargetRef)
    → (role_allows p a t ≡ true) ↔ Some (Grants a t) p.memberships
unfolding role_allows
role_allows_iff p a t =
    (role_allows_by_sound p.memberships a t, role_allows_by_complete p.memberships a t)

has_access_of_role :
    (ms : List Membership) (a : Action) (t : TargetRef)
    → role_allows_by ms a t ≡ true
    → has_access_by ms t ≡ true
unfolding role_allows_by has_access_by
has_access_of_role [] a t h = cc
has_access_of_role (m ∷ ms) a t h = ground (arith, has_access_of_role ms a t)

-- Where the role rules allow an action the tenant-access rule holds too.
pub role_allows-has_tenant_access :
    (p : Principal) (a : Action) (t : TargetRef)
    → role_allows p a t ≡ true
    → has_tenant_access p t ≡ true
unfolding role_allows has_tenant_access
role_allows-has_tenant_access p a t h = has_access_of_role p.memberships a t h

-- The rule that a granting membership is recorded under.
abbrev pub rule_of : Action → Membership → String
rule_of a m =
    if is_platform_admin m.role
    then "platform_admin_lifecycle"
    else if is_tenant_admin m.role && action_eq a project_manage
    then "tenant_admin_project_manage"
    else role_text m.role

admin_manages_lem :
    (r : Role) (a : Action)
    → (is_tenant_admin r && action_eq a project_manage) ≡ true
    → membership_role_allows r a ≡ true
unfolding membership_role_allows action_eq
admin_manages_lem tenant_admin project_manage h = refl
admin_manages_lem _ _ h = cc

rule_by-granted :
    (m : Membership) (ms : List Membership) (a : Action) (t : TargetRef)
    → role_allows_by (m ∷ []) a t ≡ true
    → rule_by (m ∷ ms) a t ≡ rule_of a m
unfolding rule_by role_allows_by
rule_by-granted m ms a t e = ground arith

rule_by-passed :
    (m : Membership) (ms : List Membership) (a : Action) (t : TargetRef)
    → role_allows_by (m ∷ []) a t ≡ false
    → rule_by (m ∷ ms) a t ≡ rule_by ms a t
unfolding rule_by role_allows_by
rule_by-passed m ms a t e = ground (arith, admin_manages_lem m.role a)

rule_by-granting :
    (ms : List Membership) (a : Action) (t : TargetRef)
    → role_allows_by ms a t ≡ true
    → Some (λ m. Grants a t m × (rule_by ms a t ≡ rule_of a m)) ms
rule_by-granting [] a t h = unfold role_allows_by in cc h
rule_by-granting (m ∷ ms) a t h = elim (Bool-cases (role_allows_by (m ∷ []) a t)) [
  | inl e ↦ inl (Grants-sound a t m e, rule_by-granted m ms a t e)
  | inr e ↦ inr (
      subst (λ x. Some (λ w. Grants a t w × (x ≡ rule_of a w)) ms) (sym (rule_by-passed m ms a t e))
        (rule_by-granting ms a t (ground (arith, role_allows_by-cons m ms a t))))
]

-- If the role rules allow an action then the recorded rule is that of a membership that grants it.
pub rule_for_role-granting :
    (p : Principal) (a : Action) (t : TargetRef)
    → role_allows p a t ≡ true
    → Some (λ m. Grants a t m × (rule_for_role p a t ≡ rule_of a m)) p.memberships
unfolding role_allows rule_for_role
rule_for_role-granting p a t h = rule_by-granting p.memberships a t h
