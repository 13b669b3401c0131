-- ===== src/Iam/Admission/Proofs.antt =====
-- authenticate and resolveSubject of pkg/iam let only fresh and matching evidence pass.
use cloud_ring.Prelude.{
  ℕ, ◌<◌, ◌≤◌, ◌+◌, ◌*◌, String, false, true, ◌≡◌, ◌≢◌, refl, ap, subst, ◌∙◌, inl, inr, Option,
  none, some, arith, eq_iff, Option-cases,
}
use cloud_ring.Prelude.Int.{pos, negsuc, ltb_ℤ, leb_ℤ}
use cloud_ring.Prelude.Time.{Time, Duration, hour, minute}
use cloud_ring.Iam.Types.{
  AuthorizationRequest, AuthenticationResult, CredentialClass, interactive_session,
  short_lived_api_token, credential_eq, owner_remove, Project,
}
use cloud_ring.Prelude.Lists.{Some, lookup}
use cloud_ring.Iam.Rules.{denied_by}
use cloud_ring.Iam.Owners.{Owns, removing_last_owner-leaves}
use cloud_ring.Iam.Audited.{resolve_subject_refuses, authorize-decide}
use cloud_ring.Iam.Policy.{Policy, valid_proof, evaluate}
use cloud_ring.Iam.Subject.{Verifier, authenticate, resolve_subject, token_subject, wrong_class}
use cloud_ring.Iam.Authorize.{decide, authorize}
use cloud_ring.Iam.AuditLog.{Sink}
use cloud_ring.Iam.Permits.{Permits}
use cloud_ring.Iam.Permits.Evaluate.{evaluate_iff}
use cloud_ring.Iam.Admission.{IsFresh, ClassFits, IsAuthenticated}

bounded :
    (d : Duration) (hi : ℕ)
    → leb_ℤ d (pos 0) ≡ false
    → ltb_ℤ (pos hi) d ≡ false
    → (m : ℕ) × (d ≡ pos m) × (m ≤ hi)
bounded (pos m) hi a b = (m, refl, ground arith)
bounded (negsuc m) hi a b = cc

bounded_skew :
    (d : Duration) (hi : ℕ)
    → ltb_ℤ d (pos 0) ≡ false
    → ltb_ℤ (pos hi) d ≡ false
    → (m : ℕ) × (d ≡ pos m) × (m ≤ hi)
bounded_skew (pos m) hi a b = (m, refl, ground arith)
bounded_skew (negsuc m) hi a b = cc

module _ (p : Policy) (a : AuthenticationResult) (now : Time) (h : valid_proof p a now ≡ true) where
  proof_bounds :
      (leb_ℤ p.proof_max_age (pos 0) ≡ false)
      × (ltb_ℤ (pos (24 * hour)) p.proof_max_age ≡ false)
      × (ltb_ℤ p.proof_skew (pos 0) ≡ false)
      × (ltb_ℤ (pos (5 * minute)) p.proof_skew ≡ false)
  unfolding valid_proof
  proof_bounds = ground arith

  proof_instants :
      (m k : ℕ)
      → p.proof_max_age ≡ pos m
      → m ≤ 24 * hour
      → p.proof_skew ≡ pos k
      → (a.proof.verified_at ≢ 0)
        × (now < a.proof.expires_at)
        × (a.proof.verified_at ≤ now + k)
        × (now ≤ a.proof.verified_at + m)
  unfolding valid_proof
  proof_instants m k em bm ek = (ground arith, ground arith, ground arith, ground arith)

  valid_proof-IsFresh : IsFresh p a now
  valid_proof-IsFresh =
      let (m, em, bm) = bounded p.proof_max_age (24 * hour) proof_bounds.0 proof_bounds.1 in
      let (k, ek, bk) = bounded_skew p.proof_skew (5 * minute) proof_bounds.2 proof_bounds.3 in
      let (verified, live, not_ahead, not_old) = proof_instants m k em bm ek in
      record {
        max_age = m;
        max_age_set = em;
        max_age_bounded = bm;
        skew = k;
        skew_set = ek;
        skew_bounded = bk;
        verified = verified;
        live = live;
        not_ahead = not_ahead;
        not_old = not_old;
      }

-- authenticate passes on what the verifier returned, with a fresh proof.
authenticate-parts :
    (p : Policy) (v : Option Verifier) (r : AuthorizationRequest) (now : Time)
    {a : AuthenticationResult}
    → authenticate p v r now ≡ some a
    → (verify : Verifier) × (v ≡ some verify)
      × (verify r now ≡ some a)
      × (valid_proof p a now ≡ true)
unfolding authenticate
authenticate-parts p none r now h = cc
authenticate-parts p (some verify) r now h = elim (Option-cases (verify r now)) [
  | inl e ↦ absurd (ground arith)
  | inr (b, e) ↦ (verify, refl, ground arith, ground arith)
]

credential_eq_sound : (c d : CredentialClass) → credential_eq c d ≡ true → c ≡ d
unfolding credential_eq
credential_eq_sound interactive_session interactive_session h = refl
credential_eq_sound short_lived_api_token short_lived_api_token h = refl
credential_eq_sound CredentialClass.support_grant CredentialClass.support_grant h = refl
credential_eq_sound CredentialClass.break_glass CredentialClass.break_glass h = refl
credential_eq_sound (CredentialClass.other s) (CredentialClass.other t) h =
    ap CredentialClass.other ((eq_iff s t).0 h)
credential_eq_sound _ _ h = cc

-- What resolveSubject has checked where it finds no error.
pub resolve-parts :
    (p : Policy) (r : AuthorizationRequest) (a : AuthenticationResult) (now : Time)
    → (resolve_subject p r (some a) now).1.err ≡ none
    → (a.subject_id ≢ "")
      × (a.subject_id ≡ r.subject.id)
      × (wrong_class r a.credential_class ≡ false)
      × (r.subject.api_token_ref ≢ ""
          → (credential_eq a.credential_class short_lived_api_token ≡ true))
unfolding resolve_subject token_subject denied_by
resolve-parts p r a now h = (
  ground (arith, eq_iff a.subject_id "", eq_iff a.subject_id r.subject.id),
  ground (arith, eq_iff a.subject_id "", eq_iff a.subject_id r.subject.id),
  ground arith,
  λ n. ground (arith, eq_iff r.subject.api_token_ref ""),
)

class_fits :
    (r : AuthorizationRequest) (c : CredentialClass)
    → wrong_class r c ≡ false
    → (r.subject.api_token_ref ≢ "" → (credential_eq c short_lived_api_token ≡ true))
    → ClassFits r c
unfolding wrong_class
class_fits r c h t = (
  λ b. credential_eq_sound c _ (ground arith),
  λ b n. credential_eq_sound c _ (ground (arith, eq_iff r.support_grant_ref "")),
  λ b n m.
      credential_eq_sound c _
        (ground (arith, eq_iff r.support_grant_ref "", eq_iff r.subject.api_token_ref "")),
  λ n. credential_eq_sound c _ (t n),
)

pub decide-parts :
    (p : Policy) (v : Option Verifier) (r : AuthorizationRequest) (now : Time)
    → (decide p v r now).1.allowed ≡ true
    → ((resolve_subject p r (authenticate p v r now) now).1.err ≡ none)
      × ((evaluate p r (decide p v r now).0 now).allowed ≡ true)
unfolding decide
decide-parts p v r now h =
    elim (Option-cases (resolve_subject p r (authenticate p v r now) now).1.err) [
      | inl e ↦ (e, ground arith)
      | inr (x, e) ↦
          absurd (ground (arith, resolve_subject_refuses p r (authenticate p v r now) now))
    ]

pub resolve_none :
    (p : Policy) (r : AuthorizationRequest) (now : Time)
    → (resolve_subject p r none now).1.err ≢ none
unfolding resolve_subject denied_by
resolve_none p r now h = cc

pub admitted :
    (p : Policy) (v : Option Verifier) (r : AuthorizationRequest) (now : Time)
    → (resolve_subject p r (authenticate p v r now) now).1.err ≡ none
    → IsAuthenticated p v r now
admitted p v r now h = elim (Option-cases (authenticate p v r now)) [
  | inl e ↦
      absurd (resolve_none p r now (subst (λ x. (resolve_subject p r x now).1.err ≡ none) e h))
  | inr (a, e) ↦
      let (verify, set, verified, valid) = authenticate-parts p v r now e in
      let (named, same, class, token) =
        resolve-parts p r a now (subst (λ x. (resolve_subject p r x now).1.err ≡ none) e h) in
      record {
        verify = verify;
        verify_set = set;
        result = a;
        verified = verified;
        fresh = valid_proof-IsFresh p a now valid;
        named = λ q. named (same ∙ q);
        same_subject = same;
        class_fits = class_fits r a.credential_class class token;
      }
]

module _ {S : Type 0} (p : Policy) (sink : Option (Sink S)) (v : Option Verifier)
    (r : AuthorizationRequest) (now : Time) (s : S) where
  -- If a request is allowed then a configured verifier vouched for its subject, with a proof that is
  -- neither expired, nor older than the policy's maximum age (at most a day), nor ahead of the clock
  -- by more than the policy's skew (at most five minutes), and with the credential class that the
  -- kind of request asks for.
  pub authorize-IsAuthenticated :
      (authorize p sink v r now s).1.allowed ≡ true → IsAuthenticated p v r now
  authorize-IsAuthenticated h =
      admitted p v r now (decide-parts p v r now (authorize-decide p sink v r now s h)).0

  -- If a request is allowed then the specification of evaluate permits it for the resolved subject.
  pub authorize-Permits :
      (authorize p sink v r now s).1.allowed ≡ true → Permits p r (decide p v r now).0 now
  authorize-Permits h =
      (evaluate_iff p r (decide p v r now).0 now).0
        (decide-parts p v r now (authorize-decide p sink v r now s h)).1

  -- If a request to remove an owner is allowed, by whatever credential, then someone other than the
  -- person to be removed stands in the directory as an owner of the project.
  pub authorize-keeps_owner :
      (authorize p sink v r now s).1.allowed ≡ true
      → r.action ≡ owner_remove
      → (project : Project) × (lookup r.target.project_id p.projects ≡ some project)
        × ((other : String) × (other ≢ r.context.target_principal)
            × Some (Owns project other) p.principals)
  authorize-keeps_owner h e =
      let permit = authorize-Permits h in
      let (q, _, _, _, kept) = permit.owner_kept e in
      (
        permit.project,
        permit.resolves.project_found,
        (removing_last_owner-leaves p r.context.target_principal permit.project kept).1,
      )
