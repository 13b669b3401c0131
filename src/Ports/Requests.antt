-- ===== src/Ports/Requests.antt =====
-- pkg/providerports/ports.go: the requests, with the text that their digest is made of.
use cloud_ring.Prelude.{
  ℕ, String, ◌<>◌, List, [], ◌∷◌, ◌==◌, Bool, true, false, not, ◌&&◌, ◌||◌, Option, none, some, leb,
  eqb, if◌then◌else◌,
}
use cloud_ring.Prelude.Lists.{Map, length}
use cloud_ring.Prelude.Text.{codes, is_blank, byte_length, text_lt}
use cloud_ring.Ports.Types.{
  Result, ok, err, invalid_request, Parameter, ProvisionRequest, ServiceCategory, LifecycleVerb,
  valid_service_category, valid_lifecycle_verb, valid_identifier, valid_param_key,
}

-- strings.ContainsRune(value, 0)
unfoldable pub has_nul : List ℕ → Bool
has_nul [] = false
has_nul (c ∷ cs) = eqb c 0 || has_nul cs

unfoldable pub valid_parameter : Parameter → Bool
valid_parameter param =
    valid_param_key param.key
    && not (is_blank param.value)
    && leb (byte_length param.value) 1024
    && not (has_nul (codes param.value))

-- The loop over the parameters: `previous` is the key before, if there is one.
unfoldable pub valid_parameters : Option String → List Parameter → Bool
valid_parameters previous [] = true
valid_parameters none (param ∷ params) =
    valid_parameter param && valid_parameters (some param.key) params
valid_parameters (some key) (param ∷ params) =
    valid_parameter param && text_lt key param.key && valid_parameters (some param.key) params

-- ValidateProvisionRequest, whose error is ErrInvalidRequest.
unfoldable pub valid_provision_request : ProvisionRequest → Bool
valid_provision_request req =
    req.schema_version == "cloudring.provider-ports.provision-request/v1"
    && valid_service_category req.service_category
    && valid_identifier req.adapter_id
    && valid_identifier req.tenant_id
    && valid_identifier req.project_id
    && valid_identifier req.resource_id
    && valid_identifier req.idempotency_key
    && valid_lifecycle_verb req.verb
    && leb (length req.parameters) 64
    && valid_parameters none req.parameters

-- sort.Slice by the key, on keys that differ.
unfoldable pub insert_sorted : Parameter → List Parameter → List Parameter
insert_sorted p [] = p ∷ []
insert_sorted p (q ∷ qs) = if text_lt p.key q.key then p ∷ q ∷ qs else q ∷ insert_sorted p qs

unfoldable pub sort_parameters : List Parameter → List Parameter
sort_parameters [] = []
sort_parameters (p ∷ ps) = insert_sorted p (sort_parameters ps)

-- The loop over the map, whose entries come in any order.
unfoldable pub parameters_of : Map String → List Parameter
parameters_of [] = []
parameters_of ((k, v) ∷ params) = record { key = k; value = v } ∷ parameters_of params

-- NewProvisionRequest
unfoldable pub new_provision_request :
    ServiceCategory
    → String
    → String
    → String
    → String
    → String
    → LifecycleVerb
    → Map String
    → Result ProvisionRequest
new_provision_request category adapter_id tenant_id project_id resource_id idempotency_key verb
      params =
    let req : ProvisionRequest = record {
      schema_version = "cloudring.provider-ports.provision-request/v1";
      service_category = category;
      adapter_id = adapter_id;
      tenant_id = tenant_id;
      project_id = project_id;
      resource_id = resource_id;
      idempotency_key = idempotency_key;
      verb = verb;
      parameters = sort_parameters (parameters_of params);
    } in
    if valid_provision_request req then ok req else err invalid_request

-- writeField
unfoldable pub field : String → String → String
field value rest = value <> ("\0" <> rest)

unfoldable pub parameters_text : List Parameter → String
parameters_text [] = ""
parameters_text (p ∷ params) = field p.key (field p.value (parameters_text params))

-- What RequestSHA256 writes to the hash.
unfoldable pub request_text : ProvisionRequest → String
request_text req = field req.schema_version (
    field req.service_category (
      field req.adapter_id (
        field req.tenant_id (
          field req.project_id (
            field req.resource_id
              (field req.idempotency_key (field req.verb (parameters_text req.parameters))))))))

-- The hex of the SHA-256 of a text's bytes is a parameter.
module _ (sha256 : String → String) where
  unfoldable pub request_sha256 : ProvisionRequest → Result String
  request_sha256 req =
      if valid_provision_request req then ok (sha256 (request_text req)) else err invalid_request
