-- ===== src/Diagnostic/Fields.antt =====
-- controlplane/internal/diagnostic/model.go: the validation of identifiers, texts and evidence, and of the lists that some
-- journeys carry.
pub mod Lists
use vcpe.Diagnostic.Document.{
  journey_webhook, bad_id, journey_talaria_devices, max_evidence_value_length, duplicate,
  journey_argus_webhooks, journey_parodus_clients, max_id_length, max_invocation_text_length,
  not_allowed, too_long, journey_cpe_webpa_callback, max_correlation_id_length, invalid,
  journey_cpe_webpa, missing, DocumentError, EndpointIdentity,
}
use vcpe.Diagnostic.Formats.{
  client_service_pattern, stable_id_pattern, registration_id_pattern, byte_length, Formats,
}
use vcpe.Common.{
  nat_eq, contains, ltb, none, true, some, string_eq, ◌||◌, [], false, not, ◌&&◌, ◌<>◌, ◌==◌, Bool,
  if◌then◌else◌, ℕ, ◌∷◌, List, Option, String,
}
use vcpe.Common.Result.{◌>>◌, ok, fail_if, Result}
use vcpe.Diagnostic.Model.{Evidence}
use vcpe.Common.Int.{ltb_ℤ, pos, ℤ}
use vcpe.Common.Sort.{text_before}

-- Checks of what a pointer points at.
abbrev pub when_some {ℓ} :
    {A : Type ℓ}
    → (A → Result DocumentError (Unit {0}))
    → Option A
    → Result DocumentError (Unit {0})
when_some check none = ok tt
when_some check (some a) = check a

abbrev pub has_value {ℓ} : {A : Type ℓ} → Option A → Bool
has_value none = false
has_value (some a) = true

abbrev pub Check : Type 0
Check = Result DocumentError (Unit {0})

-- EndpointIdentity.validate uses it, and nearly everything else.
unfoldable pub validate_id : String → String → Check
validate_id name value =
    fail_if
      (value == "" || (ltb max_id_length (byte_length value) || not (stable_id_pattern value)))
      (bad_id name value)

unfoldable pub validate_optional_id : String → String → Check
unfolding validate_id
validate_optional_id name value = if value == "" then ok tt else validate_id name value

unfoldable pub validate_client_service : String → Check
validate_client_service value =
    fail_if
      (value == "" || (ltb max_id_length (byte_length value) || not (client_service_pattern value)))
      (bad_id "client service" value)

unfoldable pub validate_invocation_text : String → String → (String → Bool) → Check
validate_invocation_text name value pattern =
    fail_if
      (value == "" || (ltb max_invocation_text_length (byte_length value) || not (pattern value)))
      (invalid name)

unfoldable pub validate_correlation_id : String → Check
validate_correlation_id value =
    fail_if
      (not (byte_length value == max_correlation_id_length) || not (registration_id_pattern value))
      (invalid "correlation ID")

unfoldable pub validate_identity : String → EndpointIdentity → Check
unfolding validate_id
validate_identity name e =
    validate_id (name <> " deployment") e.deployment
    >> validate_id (name <> " service") e.service
    >> validate_id (name <> " type") e.type
    >> fail_if (ltb_ℤ e.replica (pos 0)) (invalid (name <> " replica"))

-- resultJourney
abbrev pub result_journey : String → Bool
result_journey j =
    j == journey_cpe_webpa
    || (j == journey_cpe_webpa_callback
        || (j == journey_parodus_clients
            || (j == journey_argus_webhooks
                || (j == journey_talaria_devices || j == journey_webhook))))

-- allowedEvidenceKeys and allowedCorrelationStates of safety.go
abbrev pub allowed_evidence_keys : List String
allowed_evidence_keys =
    "client-evidence" ∷ "client-service" ∷ "correlation-state" ∷ "device-id" ∷ "endpoint"
    ∷ "http-status" ∷ "listener" ∷ "parodus-endpoint" ∷ "participant-observed-at"
    ∷ "registration-fingerprint" ∷ "resolved-address" ∷ "service-state" ∷ "talaria-endpoint" ∷ []

abbrev pub allowed_correlation_states : List String
allowed_correlation_states =
    "accepted" ∷ "duplicate" ∷ "missing" ∷ "recorded" ∷ "rejected" ∷ "restarted" ∷ []

-- An HTTP status, from 100 to 599.
abbrev pub is_status : Option ℤ → Bool
is_status none = false
is_status (some s) = not (ltb_ℤ s (pos 100)) && not (ltb_ℤ (pos 599) s)

abbrev pub is_time : Option ℕ → Bool
is_time none = false
is_time (some t) = not (t == 0)

module _ (f : Formats) where
  unfoldable pub validate_text : String → String → ℕ → Bool → Check
  validate_text name value maximum required =
      fail_if (required && f.trim_space value == "") (missing name)
      >> fail_if (ltb maximum (byte_length value)) (too_long name)

  -- validateEvidenceValue
  unfoldable pub validate_evidence_value : Evidence → Check
  validate_evidence_value e =
      if e.key == "http-status"
      then fail_if (not (is_status (f.atoi e.value))) (invalid e.key)
      else if e.key == "registration-fingerprint"
      then fail_if (not (registration_id_pattern e.value)) (invalid e.key)
      else if e.key == "correlation-state"
      then fail_if (not (contains allowed_correlation_states e.value)) (invalid e.key)
      else if e.key == "participant-observed-at"
      then fail_if (not (is_time (f.parse_time e.value))) (invalid e.key)
      else ok tt

  -- The loop of validateEvidence, with the keys that were met before.
  unfoldable pub validate_evidence : String → List String → List Evidence → Check
  unfolding validate_id validate_text validate_evidence_value
  validate_evidence owner seen [] = ok tt
  validate_evidence owner seen (e ∷ entries) =
      validate_id "evidence key" e.key
      >> fail_if (not (contains allowed_evidence_keys e.key)) (not_allowed e.key)
      >> fail_if (contains seen e.key) (duplicate owner e.key)
      >> validate_text "evidence value" e.value max_evidence_value_length false
      >> validate_evidence_value e
      >> validate_evidence owner (e.key ∷ seen) entries
