-- ===== src/Iam/Construction.antt =====
-- pkg/iam/state_loader.go: NewPolicyFromState, the construction of a policy from a loaded state.
use cloud_ring.Prelude.{◌*◌, String, Bool, not, ◌&&◌, ◌||◌, Option, none, some, if◌then◌else◌}
use cloud_ring.Prelude.Int.{pos, ltb_ℤ, leb_ℤ}
use cloud_ring.Prelude.Time.{Duration, minute, hour}
use cloud_ring.Iam.Policy.{Policy}
use cloud_ring.Iam.Subject.{Verifier}
use cloud_ring.Iam.AuditLog.{Sink}
use cloud_ring.Iam.State.{PolicyState, validate_policy_state}

-- PolicyStateLoader: whether Ready returns nil, and what LoadPolicyState returns, `none` for an error.
pub record PolicyStateLoader : Type 0 where
  pub ready : Bool
  pub load_policy_state : Option PolicyState

-- The fields of the configuration that are read here.
pub record PolicyConfig (S : Type 0) : Type 0 where
  pub authentication_verifier : Option Verifier
  pub authentication_proof_max_age : Duration
  pub authentication_proof_future_skew : Duration
  pub audit_sink : Option (Sink S)
  pub allow_ephemeral_audit : Bool

-- What NewPolicyFromState returns.
pub data Construction : Type 0 where
  constructed : Policy → Construction
  failed : String → Construction

unfoldable pub proof_bounds_valid : Duration → Duration → Bool
proof_bounds_valid max_age skew =
    not (leb_ℤ max_age (pos 0))
    && not (ltb_ℤ (pos (24 * hour)) max_age)
    && not (ltb_ℤ skew (pos 0))
    && not (ltb_ℤ (pos (5 * minute)) skew)

module _ {S : Type 0} where
  -- The audit sink's checks: `s` is its state.
  unfoldable pub audit_failure : PolicyConfig S → S → Option String
  audit_failure config s = elim config.audit_sink [
    | none ↦ some "iam: durable audit required"
    | some sink ↦
        if not sink.is_durable_sink || not (sink.durable s) || config.allow_ephemeral_audit
        then some "iam: durable audit required"
        else if not (sink.ready s)
        then some "iam: audit dependency is unavailable: iam: durable audit required"
        else none
  ]

  -- The policy's fields from the state, whose maps are copied.
  unfoldable pub policy_of : PolicyConfig S → PolicyState → Policy
  policy_of config state = record {
    organizations = state.organizations;
    tenants = state.tenants;
    projects = state.projects;
    principals = state.principals;
    api_tokens = state.api_tokens;
    support_grants = state.support_grants;
    proof_max_age = config.authentication_proof_max_age;
    proof_skew = config.authentication_proof_future_skew;
    allow_ephemeral_audit = config.allow_ephemeral_audit;
  }

  unfoldable pub load_policy : PolicyConfig S → PolicyStateLoader → Construction
  load_policy config loader =
      if not loader.ready
      then failed "iam: policy state dependency is unavailable"
      else elim loader.load_policy_state [
        | none ↦ failed "iam: load policy state"
        | some state ↦ elim (validate_policy_state state) [
          | some e ↦ failed e
          | none ↦ constructed (policy_of config state)
        ]
      ]

  -- NewPolicyFromState: `has_context` where the context is not nil.
  unfoldable pub new_policy_from_state :
      Bool → PolicyConfig S → Option PolicyStateLoader → S → Construction
  new_policy_from_state has_context config none s = failed "iam: policy state loader is required"
  new_policy_from_state has_context config (some loader) s =
      if not has_context
      then failed "iam: policy state loader is required"
      else elim config.authentication_verifier [
        | none ↦ failed "iam: authentication verifier is required"
        | some _ ↦
            if not (
              proof_bounds_valid config.authentication_proof_max_age
                config.authentication_proof_future_skew)
            then failed "iam: authentication proof bounds are invalid"
            else elim (audit_failure config s) [
              | some e ↦ failed e
              | none ↦ load_policy config loader
            ]
      ]
