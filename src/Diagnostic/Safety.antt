-- ===== src/Diagnostic/Safety.antt =====
-- controlplane/internal/diagnostic/safety.go: Sanitize. Cutting a text counts its bytes as characters, which they are in
-- an ASCII text.
pub mod Redacted
mod Tests
use vcpe.Diagnostic.Document.{
  max_evidence_per_edge, too_many, max_edges, max_nodes, DocumentError, max_invocation_text_length,
  TalariaDevice, max_evidence_value_length, max_message_length, Report, WebhookRegistration,
}
use vcpe.Common.{
  take, ◌||◌, length, ltb, ◌<>◌, contains, string_eq, ◌-◌, [], leb, not, some_where, ◌==◌, Bool,
  if◌then◌else◌, map, ℕ, ◌∷◌, List, String,
}
use mathlib.Core.Option
use vcpe.Common.Result.{ok, ◌>>◌, fail_if, Result}
use vcpe.Diagnostic.Fields.{allowed_evidence_keys}
use vcpe.Diagnostic.Model.{Evidence, Observation}
use vcpe.Diagnostic.Validate.{validate_report}
use vcpe.Common.Text.{codes, has_part}
use vcpe.Common.Sort.{text_before, sort}
use vcpe.Diagnostic.Formats.{Formats}
use Prim.Native.String.{len, slice}

-- sensitiveValuePatterns
abbrev pub sensitive_value_patterns : List String
sensitive_value_patterns =
    "(?i)\\b(?:basic|bearer)\\s+[a-z0-9+/=_\\-.]+"
    ∷ "(?i)(?:password|passwd|secret|token|authorization|credential)\\s*[:=]\\s*[^\\s,;]+"
    ∷ "\\b[a-f0-9]{64}\\b" ∷ []

abbrev pub markers : List String
markers = "password" ∷ "passwd" ∷ "secret" ∷ "token" ∷ "authorization" ∷ "credential" ∷ []

abbrev pub redacted : String
redacted = "[REDACTED]"

-- A maximum above 3, which all of the limits are.
unfoldable pub truncate : String → ℕ → String
truncate value maximum =
    if leb (len value) maximum
    then value
    else if leb maximum 3
    then slice value 0 maximum
    else slice value 0 (maximum - 3) <> "..."

module _ (f : Formats) where
  unfoldable pub replace_each : List String → String → String
  replace_each [] value = value
  replace_each (pattern ∷ patterns) value =
      replace_each patterns (f.replace_all pattern value redacted)

  -- `strings.Contains(strings.ToLower(value), marker)`
  abbrev pub mentions : String → String → Bool
  mentions value marker = has_part (codes (f.to_lower value)) (codes marker)

  unfoldable pub redact : String → String
  redact value =
      let clean = replace_each sensitive_value_patterns value in
      if some_where (mentions clean) markers then redacted else clean

  -- One value of sanitizeEvidence.
  abbrev pub clean_value : Evidence → String
  clean_value e =
      let value = truncate e.value max_evidence_value_length in
      if e.key == "registration-fingerprint" then value else redact value

  -- The loop of sanitizeEvidence, with the keys that were met before.
  unfoldable pub clean_evidence : List String → List Evidence → List Evidence
  clean_evidence seen [] = []
  clean_evidence seen (e ∷ entries) =
      let dropped = clean_evidence seen entries in
      let kept = clean_evidence (e.key ∷ seen) entries in
      if not (contains allowed_evidence_keys e.key)
      then dropped
      else if contains seen e.key
      then dropped
      else record { key = e.key; value = clean_value e } ∷ kept

  -- sanitizeEvidence
  unfoldable pub sanitize_evidence : List Evidence → List Evidence
  sanitize_evidence evidence = clean_evidence [] (take max_evidence_per_edge evidence)

  -- sanitizeWebhookPatterns
  abbrev pub sanitize_webhook_patterns : List String → List String
  sanitize_webhook_patterns patterns =
      sort text_before (map (λ p. redact (truncate p max_invocation_text_length)) patterns)

  abbrev pub sanitize_registration : WebhookRegistration → WebhookRegistration
  sanitize_registration r = record r {
    event_filters = sanitize_webhook_patterns r.event_filters;
    device_matchers = sanitize_webhook_patterns r.device_matchers;
  }

  abbrev pub sanitize_observation : Observation → Observation
  sanitize_observation o = record o {
    message = redact (truncate o.message max_message_length);
    evidence = sanitize_evidence o.evidence;
  }

  -- sanitizeTalariaDevices; the identifiers that pass the validation are distinct, so the order of equal
  -- ones, which sort.Slice leaves open, does not matter.
  abbrev pub sanitize_talaria_devices : List TalariaDevice → List TalariaDevice
  sanitize_talaria_devices devices = sort (λ d d'. text_before d.id d'.id) devices

  abbrev pub sanitized : Report → Report
  sanitized r = record r {
    metadata = sanitize_evidence r.metadata;
    webhook_registrations = Option.map (map sanitize_registration) r.webhook_registrations;
    talaria_devices = Option.map sanitize_talaria_devices r.talaria_devices;
    observations = map sanitize_observation r.observations;
  }

  -- Sanitize
  unfoldable pub sanitize : Report → Result DocumentError Report
  sanitize r =
      fail_if
        (ltb max_nodes (length r.nodes)
          || (ltb max_edges (length r.edges) || ltb max_edges (length r.observations)))
        (too_many "diagnostic graph" (length r.nodes))
      >> validate_report f (sanitized r)
      >> ok (sanitized r)
