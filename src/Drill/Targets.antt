-- ===== src/Drill/Targets.antt =====
-- pkg/backup/drill/validate.go: what a valid plan lets a cleanup delete.
use cloud_ring.Prelude.{◌≡◌, String, true, false, List, [], ◌∷◌, ◌++◌, map}
use cloud_ring.Drill.Types.{Plan, IsolatedNamespace, CleanupTarget}
use cloud_ring.Drill.Patterns.{retained_kind, valid_sha}

-- What identifies an object that a cleanup deletes: its kind, its namespace and its name.
abbrev pub Identity : Type 0
Identity = String × String × String

abbrev pub identity_of : CleanupTarget → Identity
identity_of t = (t.kind, t.namespace, t.name)

-- The objects that a drill makes: the isolated namespaces and then the sandbox, none of which is in
-- a namespace.
abbrev pub drill_objects : Plan → List IsolatedNamespace → List Identity
drill_objects plan namespaces =
    map (λ m. ("Namespace", "", m.destination.name)) namespaces
    ++ ("EtcdSandbox", "", plan.etcd_sandbox.name) ∷ []

-- A target that is not of a retained kind, and whose deletion is conditional on a digest.
abbrev pub IsGuarded : CleanupTarget → Type 0
IsGuarded t = (retained_kind t.kind ≡ false) × (valid_sha t.precondition_identity_sha256 ≡ true)
