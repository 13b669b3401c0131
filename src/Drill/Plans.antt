-- ===== src/Drill/Plans.antt =====
-- pkg/backup/drill/validate.go: ValidatePlan. An error is its text, and `none` is nil.
use cloud_ring.Prelude.{
  ℕ, suc, ◌-◌, ◌*◌, String, ◌<>◌, Bool, true, not, ◌&&◌, ◌||◌, Option, none, some, List, [], ◌∷◌,
  ◌==◌, if◌then◌else◌, ltb, eqb, leb,
}
use cloud_ring.Prelude.Lists.{length, get_elem?, contains}
use cloud_ring.Drill.Types.{ObjectIdentity, IsolatedNamespace, Baseline, CleanupTarget, Plan}
use cloud_ring.Drill.Patterns.{
  valid_id, valid_name, valid_kind, valid_sha, valid_git_sha, valid_path_token, retained_kind,
}
use cloud_ring.Drill.Instant.{canonical_time, Instant}

abbrev pub Error : Type 0
Error = String

-- TargetKinds
abbrev pub target_kinds : List String
target_kinds =
    "Etcd" ∷ "VirtualMachineClaim" ∷ "Volume" ∷ "Namespace" ∷ "KubernetesClusterClaim" ∷ []

unfoldable pub valid_object : ObjectIdentity → Bool
valid_object value =
    valid_name value.name
    && (value.namespace == "" || valid_name value.namespace)
    && valid_sha value.scope_sha256

-- The validity window: the end is after the start, by at most thirty minutes.
unfoldable pub valid_window : Option Instant → Option Instant → Bool
valid_window (some issued) (some expires) =
    ltb issued expires && leb (expires - issued) (30 * 60 * 1000000000)
valid_window _ _ = not true

-- The loop over the source baselines: `kinds` are those of the indexes ahead.
unfoldable pub valid_baselines : List String → List Baseline → Bool
valid_baselines [] [] = true
valid_baselines (kind ∷ kinds) (baseline ∷ baselines) =
    baseline.kind == kind
    && valid_sha baseline.identity_sha256
    && valid_sha baseline.state_sha256
    && valid_sha baseline.data_sha256
    && valid_baselines kinds baselines
valid_baselines _ _ = not true

unfoldable pub valid_restores : List String → List ObjectIdentity → Bool
valid_restores [] [] = true
valid_restores (kind ∷ kinds) (restore ∷ restores) =
    restore.kind == kind && valid_object restore && valid_restores kinds restores
valid_restores _ _ = not true

-- The loop over the isolated namespaces: `expected` are the restore indexes ahead, and the lists of
-- texts are the destinations, the scopes and the mappings that were seen.
unfoldable pub mappings_error :
    List ObjectIdentity
    → ℕ
    → List ℕ
    → List String
    → List String
    → List String
    → List IsolatedNamespace
    → Option Error
mappings_error restores index (expected ∷ more) names scopes seen (mapping ∷ mappings) =
    let destination = mapping.destination in
    let identity = mapping.restore_name <> "/" <> mapping.source_namespace in
    let rest =
      mappings_error restores (suc index) more (destination.name ∷ names)
        (destination.scope_sha256 ∷ scopes) (identity ∷ seen) mappings in
    if not (eqb mapping.restore_index expected)
    then some "backup drill isolated namespace mapping restore index is invalid"
    else elim (get_elem? restores expected) [
      | none ↦ some "index out of range"
      | some restore ↦
          if not (mapping.restore_name == restore.name)
            || not (mapping.restore_scope_sha256 == restore.scope_sha256)
            || not (valid_name mapping.source_namespace)
            || not (destination.kind == "Namespace")
            || not (destination.namespace == "")
            || not (valid_object destination)
            || contains names destination.name
            || contains scopes destination.scope_sha256
            || contains seen identity
          then some "backup drill isolated namespace mapping is invalid, duplicated, or misassigned"
          else if (eqb index 2 && not (mapping.source_namespace == "platform-system"))
              || (eqb index 3 && not (mapping.source_namespace == "flux-system"))
          then some "backup drill Namespace restore must map platform-system and flux-system"
          else rest
    ]
mappings_error _ _ _ _ _ _ _ = none

-- The loop over the cleanup targets: `namespaces` are the isolated namespaces ahead, after which the
-- sandbox follows.
unfoldable pub cleanup_error :
    Plan → List IsolatedNamespace → List String → List CleanupTarget → Option Error
cleanup_error plan namespaces seen [] = none
cleanup_error plan [] seen (target ∷ targets) =
    let identity = target.kind <> "/" <> target.namespace <> "/" <> target.name in
    let rest = cleanup_error plan [] (identity ∷ seen) targets in
    if not (valid_kind target.kind)
      || not (valid_name target.name)
      || (not (target.namespace == "") && not (valid_name target.namespace))
      || not (valid_sha target.precondition_identity_sha256)
      || contains seen identity
      || retained_kind target.kind
    then some "backup drill cleanup target is unsafe or duplicated"
    else if not (target.kind == "EtcdSandbox")
        || not (target.namespace == "")
        || not (target.name == plan.etcd_sandbox.name)
    then some "backup drill cleanup target is not the exact etcd sandbox"
    else rest
cleanup_error plan (mapping ∷ mappings) seen (target ∷ targets) =
    let identity = target.kind <> "/" <> target.namespace <> "/" <> target.name in
    let rest = cleanup_error plan mappings (identity ∷ seen) targets in
    if not (valid_kind target.kind)
      || not (valid_name target.name)
      || (not (target.namespace == "") && not (valid_name target.namespace))
      || not (valid_sha target.precondition_identity_sha256)
      || contains seen identity
      || retained_kind target.kind
    then some "backup drill cleanup target is unsafe or duplicated"
    else if not (target.kind == "Namespace")
        || not (target.namespace == "")
        || not (target.name == mapping.destination.name)
    then some "backup drill cleanup targets are not exact isolated namespaces"
    else rest

-- The checks of single fields.
unfoldable pub plan_fields_error : Plan → Option Error
plan_fields_error plan =
    if not (plan.schema_version == "cloudring.backup-drill.plan/v1")
      || not (valid_id plan.operation_id)
      || not (valid_id plan.proof_id)
      || not (valid_id plan.installation_id)
      || not (valid_git_sha plan.accepted_public_sha)
      || not (valid_git_sha plan.accepted_downstream_sha)
      || not (valid_sha plan.cluster_identity_sha256)
      || not (valid_window (canonical_time plan.issued_at) (canonical_time plan.expires_at))
      || not (valid_sha plan.run_nonce_sha256)
    then some "backup drill plan identity or validity window is invalid"
    else if not (valid_name plan.backup_storage_location.name)
        || not (valid_sha plan.backup_storage_location.uid_sha256)
        || ltb plan.backup_storage_location.generation 1
        || not (valid_sha plan.backup_storage_location.config_sha256)
        || not (valid_path_token plan.object_store.prefix)
        || ltb plan.object_store.minimum_retention_days 30
        || ltb 36500 plan.object_store.minimum_retention_days
        || not (contains ("governance" ∷ "compliance" ∷ []) plan.object_store.object_lock_mode)
    then some "backup drill storage binding is invalid"
    else if not (plan.tool.name == "cloudring-backup")
        || not (valid_sha plan.tool.executable_sha256)
        || not (valid_id plan.adapter.name)
        || not (valid_sha plan.adapter.executable_sha256)
    then some "backup drill executable binding is invalid"
    else if not (plan.backup.kind == "Backup")
        || not (valid_object plan.backup)
        || not (plan.etcd_sandbox.kind == "EtcdSandbox")
        || not (valid_object plan.etcd_sandbox)
    then some "backup drill backup or etcd sandbox identity is invalid"
    else none

-- The checks of the lists.
unfoldable pub plan_lists_error : Plan → Option Error
plan_lists_error plan =
    if not (eqb (length plan.source_baselines) (length target_kinds))
    then some "backup drill requires exact source baselines"
    else if not (valid_baselines target_kinds plan.source_baselines)
    then some "backup drill source baselines are invalid or not canonical"
    else if not (eqb (length plan.restores) 4) || not (eqb (length plan.isolated_namespaces) 5)
    then some "backup drill requires exact four restores and five isolated namespace mappings"
    else if not (
        valid_restores
          ("VirtualMachineClaim" ∷ "Volume" ∷ "Namespace" ∷ "KubernetesClusterClaim" ∷ [])
          plan.restores)
    then some "backup drill restore identities are invalid or not canonical"
    else elim (mappings_error plan.restores 0 (0 ∷ 1 ∷ 2 ∷ 2 ∷ 3 ∷ []) [] [] []
        plan.isolated_namespaces) [
          | some e ↦ some e
          | none ↦
              if not (eqb (length plan.cleanup_targets) (suc (length plan.isolated_namespaces)))
              then some "backup drill cleanup targets are incomplete"
              else elim (cleanup_error plan plan.isolated_namespaces [] plan.cleanup_targets) [
                | some e ↦ some e
                | none ↦
                    if not (valid_path_token plan.aggregate_proof_path_token)
                    then some "backup drill aggregate proof path token is invalid"
                    else none
              ]
        ]

unfoldable pub validate_plan : Plan → Option Error
validate_plan plan = elim (plan_fields_error plan) [
  | some e ↦ some e
  | none ↦ plan_lists_error plan
]
