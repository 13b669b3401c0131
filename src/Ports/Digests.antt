-- ===== src/Ports/Digests.antt =====
-- pkg/providerports/ports.go: RequestSHA256, and what the text that it hashes tells of a request.
use text.Mathlib.TextEquality.{Char-path}
use text.Mathlib.TextLemmas.{nil-append, cons-append}
use Prim.Native.Char.{Char, code}
use cloud_ring.Prelude.{
  subst, ℕ, String, ◌<>◌, List, [], ◌∷◌, Bool, true, false, ◌||◌, ◌≡◌, ◌≢◌, refl, sym, ap, ◌∙◌,
  arith, eq_iff, Bool-cases, inl, inr, eqb, Option, none, some,
}
use cloud_ring.Prelude.Lists.{All, contains-All}
use cloud_ring.Prelude.Text.{codes}
use cloud_ring.Prelude.Patterns.{all_codes, matches, is_lower, is_lower_alnum}
use cloud_ring.Ports.Types.{
  Parameter, ProvisionRequest, valid_identifier, identifier_codes, valid_param_key,
  valid_service_category, valid_lifecycle_verb, all_service_categories, all_lifecycle_verbs,
}
use cloud_ring.Ports.Requests.{
  has_nul, valid_parameter, valid_parameters, valid_provision_request, field, parameters_text,
  request_text,
}

-- No code is zero.
abbrev pub NoNul : String → Type 0
NoNul s = has_nul (codes s) ≡ false

abbrev rest_of : String → String
rest_of String.[] = ""
rest_of (String.◌∷◌ c s) = s

abbrev first_of : String → ℕ
first_of String.[] = 1
first_of (String.◌∷◌ c s) = code c

field-nil : (r : String) → field "" r ≡ String.◌∷◌ "\0" r
unfolding field
field-nil r = nil-append ("\0" <> r) ∙ (cons-append "\0" "" r ∙ ap (String.◌∷◌ "\0") (nil-append r))

field-cons : (c : Char) (v r : String) → field (String.◌∷◌ c v) r ≡ String.◌∷◌ c (field v r)
unfolding field
field-cons c v r = cons-append c v ("\0" <> r)

pub field-injective :
    (v w r s : String) → NoNul v → NoNul w → field v r ≡ field w s → (v ≡ w) × (r ≡ s)
unfolding has_nul
field-injective String.[] String.[] r s hv hw e =
    (refl, ap rest_of (sym (field-nil r) ∙ (e ∙ field-nil s)))
field-injective (String.◌∷◌ c v) String.[] r s hv hw e =
    let zero_code : code c ≡ 0 = ap first_of (sym (field-cons c v r) ∙ (e ∙ field-nil s)) in
    ground arith
field-injective String.[] (String.◌∷◌ c w) r s hv hw e =
    let zero_code : 0 ≡ code c = ap first_of (sym (field-nil r) ∙ (e ∙ field-cons c w s)) in
    ground arith
field-injective (String.◌∷◌ c v) (String.◌∷◌ d w) r s hv hw e =
    let same = sym (field-cons c v r) ∙ (e ∙ field-cons d w s) in
    let (hr, rests) = field-injective v w r s (ground arith) (ground arith) (ap rest_of same) in
    let first : c ≡ d = Char-path c d (ap first_of same) in (rw (first, hr) refl, rests)

not-field : (v r : String) → field v r ≢ ""
not-field String.[] r e = let codes_differ = ap first_of (sym (field-nil r) ∙ e) in ground arith
not-field (String.◌∷◌ c v) r e =
    let none_left : field v r ≡ "" = ap rest_of (sym (field-cons c v r) ∙ e) in
    not-field v r none_left

all_codes-has_nul :
    (p : ℕ → Bool) (cs : List ℕ) → p 0 ≡ false → all_codes p cs ≡ true → has_nul cs ≡ false
unfolding all_codes has_nul
all_codes-has_nul p [] hp h = refl
all_codes-has_nul p (c ∷ cs) hp h = elim (Bool-cases (eqb c 0)) [
  | inl e ↦ let z : c ≡ 0 = ground arith in let q : p c ≡ p 0 = ap p z in ground arith
  | inr e ↦ let rest = all_codes-has_nul p cs hp (ground arith) in ground arith
]

matches-has_nul :
    (p q : ℕ → Bool) (n : ℕ) (cs : List ℕ)
    → p 0 ≡ false
    → q 0 ≡ false
    → matches p q n cs ≡ true
    → has_nul cs ≡ false
unfolding matches has_nul
matches-has_nul p q n [] hp hq h = ground arith
matches-has_nul p q n (c ∷ cs) hp hq h = elim (Bool-cases (eqb c 0)) [
  | inl e ↦ let z : c ≡ 0 = ground arith in let r : p c ≡ p 0 = ap p z in ground arith
  | inr e ↦ let rest = all_codes-has_nul q cs hq (ground arith) in ground arith
]

pub valid_identifier-NoNul : (s : String) → valid_identifier s ≡ true → NoNul s
unfolding valid_identifier identifier_codes
valid_identifier-NoNul s h =
    matches-has_nul is_lower_alnum (λ c. is_lower_alnum c || eqb c b'.' || eqb c b'_' || eqb c b'-')
      63 (codes s) refl refl (ground arith)

valid_param_key-NoNul : (s : String) → valid_param_key s ≡ true → NoNul s
unfolding valid_param_key
valid_param_key-NoNul s h =
    matches-has_nul is_lower (λ c. is_lower_alnum c || eqb c b'_' || eqb c b'.' || eqb c b'-') 62
      (codes s) refl refl h

valid_parameters-NoNul :
    (prev : Option String) (p : Parameter) (ps : List Parameter)
    → valid_parameters prev (p ∷ ps) ≡ true
    → NoNul p.key × NoNul p.value × (valid_parameters (some p.key) ps ≡ true)
unfolding valid_parameters valid_parameter
valid_parameters-NoNul none p ps h =
    (valid_param_key-NoNul p.key (ground arith), ground arith, ground arith)
valid_parameters-NoNul (some k) p ps h =
    (valid_param_key-NoNul p.key (ground arith), ground arith, ground arith)

parameters_text-injective :
    (prev prev' : Option String) (ps qs : List Parameter)
    → valid_parameters prev ps ≡ true
    → valid_parameters prev' qs ≡ true
    → parameters_text ps ≡ parameters_text qs
    → ps ≡ qs
unfolding parameters_text
parameters_text-injective prev prev' [] [] hp hq e = refl
parameters_text-injective prev prev' (p ∷ ps) [] hp hq e =
    absurd (not-field p.key (field p.value (parameters_text ps)) e)
parameters_text-injective prev prev' [] (q ∷ qs) hp hq e =
    absurd (not-field q.key (field q.value (parameters_text qs)) (sym e))
parameters_text-injective prev prev' (p ∷ ps) (q ∷ qs) hp hq e =
    let (kp, vp, rp) = valid_parameters-NoNul prev p ps hp in
    let (kq, vq, rq) = valid_parameters-NoNul prev' q qs hq in
    let (ek, e') = field-injective p.key q.key _ _ kp kq e in
    let (ev, e'') = field-injective p.value q.value _ _ vp vq e' in
    let rest = parameters_text-injective (some p.key) (some q.key) ps qs rp rq e'' in ground arith

pub valid_service_category-NoNul : (s : String) → valid_service_category s ≡ true → NoNul s
unfolding valid_service_category has_nul
valid_service_category-NoNul s h =
    let categories : All NoNul all_service_categories = ground arith in
    contains-All NoNul all_service_categories s categories h

-- No field of a valid request holds a zero.
valid_provision_request-NoNul :
    (req : ProvisionRequest)
    → valid_provision_request req ≡ true
    → NoNul req.schema_version
      × NoNul req.service_category
      × NoNul req.adapter_id
      × NoNul req.tenant_id
      × NoNul req.project_id
      × NoNul req.resource_id
      × NoNul req.idempotency_key
      × NoNul req.verb
      × (valid_parameters none req.parameters ≡ true)
unfolding valid_provision_request valid_lifecycle_verb has_nul
valid_provision_request-NoNul req h =
    let schema : req.schema_version ≡ "cloudring.provider-ports.provision-request/v1" =
      (eq_iff req.schema_version "cloudring.provider-ports.provision-request/v1").0
        (ground arith) in
    let verbs : All NoNul all_lifecycle_verbs = ground arith in
    (
      subst NoNul (sym schema) refl,
      valid_service_category-NoNul req.service_category (ground arith),
      valid_identifier-NoNul req.adapter_id (ground arith),
      valid_identifier-NoNul req.tenant_id (ground arith),
      valid_identifier-NoNul req.project_id (ground arith),
      valid_identifier-NoNul req.resource_id (ground arith),
      valid_identifier-NoNul req.idempotency_key (ground arith),
      contains-All NoNul all_lifecycle_verbs req.verb verbs (ground arith),
      ground arith,
    )

-- Two valid requests with the same hashed text are the same request.
pub request_text-injective :
    (p q : ProvisionRequest)
    → valid_provision_request p ≡ true
    → valid_provision_request q ≡ true
    → request_text p ≡ request_text q
    → p ≡ q
unfolding request_text
request_text-injective p q hp hq e0 =
    let (p0, p1, p2, p3, p4, p5, p6, p7, pp) = valid_provision_request-NoNul p hp in
    let (q0, q1, q2, q3, q4, q5, q6, q7, pq) = valid_provision_request-NoNul q hq in
    let (s0, e1) = field-injective p.schema_version q.schema_version _ _ p0 q0 e0 in
    let (s1, e2) = field-injective p.service_category q.service_category _ _ p1 q1 e1 in
    let (s2, e3) = field-injective p.adapter_id q.adapter_id _ _ p2 q2 e2 in
    let (s3, e4) = field-injective p.tenant_id q.tenant_id _ _ p3 q3 e3 in
    let (s4, e5) = field-injective p.project_id q.project_id _ _ p4 q4 e4 in
    let (s5, e6) = field-injective p.resource_id q.resource_id _ _ p5 q5 e5 in
    let (s6, e7) = field-injective p.idempotency_key q.idempotency_key _ _ p6 q6 e6 in
    let (s7, e8) = field-injective p.verb q.verb _ _ p7 q7 e7 in
    let s8 = parameters_text-injective none none p.parameters q.parameters pp pq e8 in ground arith
