-- ===== src/Diagnostic/Document.antt =====
-- controlplane/internal/diagnostic/model.go: the documents that participants exchange, their limits and the
-- errors of their validation. A time is a number with 0 for Go's zero time.
use vcpe.Common.{List, Option, Bool, String, ℕ}
use vcpe.Common.Int.{ℤ}
use vcpe.Diagnostic.Model.{Edge, Evidence, Observation}

abbrev pub schema_version : String
schema_version = "vcpe.dev/diagnostic/v1"

abbrev pub capabilities_schema : String
capabilities_schema = "vcpe.dev/diagnostics/v1"

-- The journeys.
abbrev pub journey_cpe_webpa : String
journey_cpe_webpa = "cpe-webpa"

abbrev pub journey_cpe_webpa_callback : String
journey_cpe_webpa_callback = "cpe-webpa-callback"

abbrev pub journey_parodus_clients : String
journey_parodus_clients = "parodus-clients"

abbrev pub journey_argus_webhooks : String
journey_argus_webhooks = "argus-webhooks"

abbrev pub journey_talaria_devices : String
journey_talaria_devices = "talaria-devices"

abbrev pub journey_webhook : String
journey_webhook = "webhook"

abbrev pub journey_webhook_subscriber : String
journey_webhook_subscriber = "webhook-subscriber"

abbrev pub webhook_active_direct : String
webhook_active_direct = "direct"

abbrev pub webhook_active_caduceus : String
webhook_active_caduceus = "caduceus"

-- The limits.
abbrev pub max_nodes : ℕ
max_nodes = 16

abbrev pub max_edges : ℕ
max_edges = 16

abbrev pub max_evidence_per_edge : ℕ
max_evidence_per_edge = 8

abbrev pub max_capabilities : ℕ
max_capabilities = 16

abbrev pub max_parodus_clients : ℕ
max_parodus_clients = 64

abbrev pub max_webhook_registrations : ℕ
max_webhook_registrations = 64

abbrev pub max_talaria_devices : ℕ
max_talaria_devices = 64

abbrev pub max_webhook_registration_filters : ℕ
max_webhook_registration_filters = 8

abbrev pub max_id_length : ℕ
max_id_length = 64

abbrev pub max_label_length : ℕ
max_label_length = 128

abbrev pub max_message_length : ℕ
max_message_length = 256

abbrev pub max_evidence_value_length : ℕ
max_evidence_value_length = 256

abbrev pub max_invocation_text_length : ℕ
max_invocation_text_length = 256

abbrev pub max_callback_url_length : ℕ
max_callback_url_length = 2048

abbrev pub max_correlation_id_length : ℕ
max_correlation_id_length = 64

pub record EndpointIdentity : Type 0 where
  pub deployment : String
  pub service : String
  pub type : String
  pub replica : ℤ

pub record Node : Type 0 where
  pub id : String
  pub label : String
  pub kind : String

pub record WebhookRegistration : Type 0 where
  pub fingerprint : String
  pub callback_url : String
  pub event_filters : List String
  pub device_matchers : List String
  pub content_type : String
  pub until : ℕ
  pub ttl_seconds : Option ℤ
  pub secret_present : Bool

pub record TalariaDevice : Type 0 where
  pub id : String
  pub pending : ℤ
  pub bytes_sent : ℤ
  pub messages_sent : ℤ
  pub bytes_received : ℤ
  pub messages_received : ℤ
  pub duplications : ℤ
  pub connected_at : ℕ
  pub uptime : String

-- Result of the package, under a name that the results of calls leave free.
pub record Report : Type 0 where
  pub schema : String
  pub journey : String
  pub source : EndpointIdentity
  pub target : EndpointIdentity
  pub metadata : List Evidence
  pub nodes : List Node
  pub edges : List Edge
  pub observations : List Observation
  pub parodus_clients : Option (List String)
  pub parodus_clients_truncated : Option Bool
  pub webhook_registrations : Option (List WebhookRegistration)
  pub talaria_devices : Option (List TalariaDevice)
  pub first_failure : String
  pub observed_at : ℕ

pub record Capabilities : Type 0 where
  pub schema : String
  pub journeys : List String

pub record WebhookActiveResult : Type 0 where
  pub phase : String
  pub correlation_id : String
  pub http_status : ℤ

pub record CpeActiveEventResult : Type 0 where
  pub accepted : Bool

pub record EndpointResponse : Type 0 where
  pub schema : String
  pub journey : String
  pub observations : List Observation
  pub parodus_clients : Option (List String)
  pub parodus_clients_truncated : Option Bool
  pub webhook_registrations : Option (List WebhookRegistration)
  pub talaria_devices : Option (List TalariaDevice)
  pub active : Option WebhookActiveResult
  pub active_event : Option CpeActiveEventResult
  pub observed_at : ℕ

pub record RoutingObservation : Type 0 where
  pub schema : String
  pub correlation_id : String
  pub state : String
  pub observed_at : ℕ

pub record WebhookSubscriberIntent : Type 0 where
  pub schema : String
  pub journey : String
  pub observed_at : ℕ
  pub callback_url : String
  pub event_filter : String
  pub device_matcher : String
  pub content_type : String
  pub secret_configured : Bool
  pub initial_success_at : ℕ
  pub refresh_success_at : ℕ
  pub refresh_failure_at : ℕ
  pub last_failure_at : ℕ
  pub last_error_category : String

pub record Invocation : Type 0 where
  pub client_service : String
  pub subscriber : String
  pub allow_active_callback : Bool
  pub allow_active_event : Bool
  pub event : String
  pub device_id : String
  pub correlation_id : String
  pub subscriber_intent : Option WebhookSubscriberIntent
  pub active_phase : String

-- An error with what it is about, in place of its text.
pub data DocumentError : Type 0 where
  unsupported_schema : String → DocumentError
  unsupported_journey : String → DocumentError
  bad_id : String → String → DocumentError
  invalid : String → DocumentError
  missing : String → DocumentError
  too_long : String → DocumentError
  too_many : String → ℕ → DocumentError
  duplicate : String → String → DocumentError
  unknown_node : String → String → DocumentError
  other_edge : String → String → DocumentError
  bad_state : String → String → DocumentError
  not_skipped : String → DocumentError
  wrong_first_failure : String → String → DocumentError
  not_allowed : String → DocumentError
  only_for : String → DocumentError
  not_sorted : String → DocumentError
