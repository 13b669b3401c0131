-- ===== src/Drill/Steps.antt =====
-- pkg/backup/drill: the steps of a journal. A step is a text in the source; `other` stands for a
-- text that the package does not name.
use cloud_ring.Prelude.{ℕ, ◌&&◌, eqb, String, Bool, true, false, List, [], ◌∷◌, ◌==◌}
use cloud_ring.Prelude.Text.{codes}

pub data Step : Type 0 where
  approval_consumed mutation_started etcd_offcell_complete velero_backup_complete : Step
  restore_watch_create_observe_complete etcd_sandbox_restored : Step
  restore_validation_complete cleanup_ready isolated_targets_deleted : Step
  residual_sweep_1 residual_sweep_2 proof_assembled completed : Step
  rollback_safe_stop rollback_cleanup_requested rolled_back rollback_failed : Step
  preflight : Step
  other : String → Step

begins : List ℕ → List ℕ → Bool
begins [] cs = true
begins (p ∷ ps) [] = false
begins (p ∷ ps) (c ∷ cs) = eqb p c && begins ps cs

unfoldable pub step_eq : Step → Step → Bool
step_eq approval_consumed approval_consumed = true
step_eq mutation_started mutation_started = true
step_eq etcd_offcell_complete etcd_offcell_complete = true
step_eq velero_backup_complete velero_backup_complete = true
step_eq restore_watch_create_observe_complete restore_watch_create_observe_complete = true
step_eq etcd_sandbox_restored etcd_sandbox_restored = true
step_eq restore_validation_complete restore_validation_complete = true
step_eq cleanup_ready cleanup_ready = true
step_eq isolated_targets_deleted isolated_targets_deleted = true
step_eq residual_sweep_1 residual_sweep_1 = true
step_eq residual_sweep_2 residual_sweep_2 = true
step_eq proof_assembled proof_assembled = true
step_eq completed completed = true
step_eq rollback_safe_stop rollback_safe_stop = true
step_eq rollback_cleanup_requested rollback_cleanup_requested = true
step_eq rolled_back rolled_back = true
step_eq rollback_failed rollback_failed = true
step_eq preflight preflight = true
step_eq (other s) (other t) = s == t
step_eq _ _ = false

-- ApplySteps
abbrev pub apply_steps : List Step
apply_steps =
    approval_consumed ∷ mutation_started ∷ etcd_offcell_complete ∷ velero_backup_complete
    ∷ restore_watch_create_observe_complete ∷ etcd_sandbox_restored ∷ restore_validation_complete
    ∷ cleanup_ready ∷ isolated_targets_deleted ∷ residual_sweep_1 ∷ residual_sweep_2
    ∷ proof_assembled ∷ completed ∷ []

-- The text of a step.
unfoldable pub step_text : Step → String
step_text approval_consumed = "approval-consumed"
step_text mutation_started = "mutation-started"
step_text etcd_offcell_complete = "etcd-offcell-complete"
step_text velero_backup_complete = "velero-backup-complete"
step_text restore_watch_create_observe_complete = "restore-watch-create-observe-complete"
step_text etcd_sandbox_restored = "etcd-sandbox-restored"
step_text restore_validation_complete = "restore-validation-complete"
step_text cleanup_ready = "cleanup-ready"
step_text isolated_targets_deleted = "isolated-targets-deleted"
step_text residual_sweep_1 = "residual-sweep-1"
step_text residual_sweep_2 = "residual-sweep-2"
step_text proof_assembled = "proof-assembled"
step_text completed = "completed"
step_text rollback_safe_stop = "rollback-safe-stop"
step_text rollback_cleanup_requested = "rollback-cleanup-requested"
step_text rolled_back = "rolled-back"
step_text rollback_failed = "rollback-failed"
step_text preflight = "preflight"
step_text (other s) = s

-- strings.HasPrefix(step, "rollback-")
unfoldable pub has_rollback_prefix : Step → Bool
unfolding begins
has_rollback_prefix rollback_safe_stop = true
has_rollback_prefix rollback_cleanup_requested = true
has_rollback_prefix rollback_failed = true
has_rollback_prefix (other s) = begins (codes "rollback-") (codes s)
has_rollback_prefix _ = false
