-- ===== src/Iam/Permits/Assurance.antt =====
-- evaluateAssurance of pkg/iam against its specification.
use cloud_ring.Prelude.{true, ◌≡◌, refl, inl, inr, ◌↔◌, none, arith, Bool-cases}
use cloud_ring.Prelude.Int.{ℤ, pos, negsuc, eqb_ℤ}
use cloud_ring.Iam.Types.{
  CredentialClass, short_lived_api_token, SessionState, fresh, absent, AuthorizationRequest,
  Decision, credential_eq, is_fresh, is_absent,
}
use cloud_ring.Iam.Rules.{
  denied_by, evaluate_assurance, session_assurance, session_denied, normalized_mfa,
}
use cloud_ring.Iam.Policy.{ResolvedSubject}
use cloud_ring.Iam.Permits.{IsAssured}

credential_eq_token :
    (c : CredentialClass)
    → (credential_eq c short_lived_api_token ≡ true) ↔ (c ≡ short_lived_api_token)
unfolding credential_eq
credential_eq_token short_lived_api_token = (λ _. refl, λ _. refl)
credential_eq_token _ = (λ h. cc h, λ h. cc h)

fresh_lem : (x : SessionState) → is_fresh x ≡ true → x ≡ fresh
fresh_lem fresh h = refl
fresh_lem _ h = cc

absent_lem : (x : SessionState) → is_absent x ≡ true → x ≡ absent
absent_lem absent h = refl
absent_lem _ h = cc

zero_lem : (x : ℤ) → eqb_ℤ x (pos 0) ≡ true → x ≡ pos 0
zero_lem (pos n) h = ground arith
zero_lem (negsuc n) h = cc

abbrev pub assurance_of : AuthorizationRequest → ResolvedSubject → Decision
assurance_of r s = evaluate_assurance r s.authn_class s.mfa s.session

normalized_mfa-keeps :
    (r : AuthorizationRequest) (s : ResolvedSubject)
    → ((normalized_mfa r s.authn_class s.mfa).satisfied ≡ s.mfa.satisfied)
      × ((normalized_mfa r s.authn_class s.mfa).method_class ≡ s.mfa.method_class)
unfolding normalized_mfa
normalized_mfa-keeps r s = (ground arith, ground arith)

pub IsAssured-sound :
    (r : AuthorizationRequest) (s : ResolvedSubject) → (assurance_of r s).err ≡ none → IsAssured r s
unfolding evaluate_assurance session_assurance session_denied denied_by
IsAssured-sound r s h = record {
  mfa = λ e. ground (arith, normalized_mfa-keeps r s);
  no_reauthentication = ground arith;
  token_session = λ e.
      let c = (credential_eq_token s.authn_class).1 e in
      (
        absent_lem s.session.state (ground (arith, c)),
        zero_lem s.session.max_age_seconds (ground (arith, c)),
      );
  browser_session = λ n.
      let c = (credential_eq_token s.authn_class).0 in
      (fresh_lem s.session.state (ground (arith, c)), ground (arith, c));
}

pub IsAssured-complete :
    (r : AuthorizationRequest) (s : ResolvedSubject) → IsAssured r s → (assurance_of r s).err ≡ none
unfolding evaluate_assurance session_assurance
IsAssured-complete r s h = elim (Bool-cases (credential_eq s.authn_class short_lived_api_token)) [
  | inl e ↦ ground (
    arith,
    normalized_mfa-keeps r s,
    h.mfa,
    h.token_session ((credential_eq_token s.authn_class).0 e),
  )
  | inr e ↦ ground (
    arith,
    normalized_mfa-keeps r s,
    h.mfa,
    h.browser_session (λ q. cc (e, (credential_eq_token s.authn_class).1 q)),
  )
]
