-- ===== src/Diagnostic/Orchestrator/Tests.antt =====
-- An active webhook diagnosis: WebPA acknowledges both operations, and the subscriber has a receipt of each.
use vcpe.Diagnostic.Validate.{
  validate_capabilities, validate_response, validate_active, check_endpoint_observations,
}
use vcpe.Diagnostic.Orchestrator.Active.{
  direct_stage, direct_answered, direct_received, caduceus_answered, caduceus_received,
}
use vcpe.Common.Sort.{text_before}
use vcpe.Common.Text.{all_codes}
use vcpe.Diagnostic.Fields.Lists.{
  validate_parodus_client_list, validate_webhook_registration_list, validate_talaria_device_list,
  validate_talaria_device_collection,
}
use vcpe.Diagnostic.Fields.{
  validate_invocation_text, validate_optional_id, validate_text, validate_id,
  validate_correlation_id, validate_evidence,
}
use vcpe.Common.{
  refl, Bool, Option, false, none, ◌≡◌, String, [], length, some, true, ◌∷◌, some_where,
}
use vcpe.Diagnostic.Reports.{ExpectedGraph}
use vcpe.Diagnostic.Formats.{Formats, bytes, device_tail, normalize_callback_identity}
use vcpe.Diagnostic.Document.{EndpointResponse, Invocation, WebhookSubscriberIntent}
use vcpe.Diagnostic.Invocation.{validate_for, validate_intent, validate_receipt}
use vcpe.Diagnostic.Model.{Observation, valid_state}
use vcpe.Diagnostic.Client.{
  World, Trace, ran, discover, subscriber_intent, run, run_webhook, poll, poll_receipt,
}
use vcpe.Diagnostic.Orchestrator.{
  Selection, ResolveRequest, with_participants, subscriber_answered, intent_answered,
  webpa_answered,
}
use vcpe.Diagnostic.Orchestrator.Diagnose.{diagnose, diagnose_webhook}
use vcpe.Diagnostic.Orchestrator.Events.{guarded}
use vcpe.Diagnostic.Orchestrator.Whole.{guarded-diagnose}
use vcpe.Common.Int.{pos}

abbrev formats : Formats
formats = record {
  trim_space = λ s. s;
  to_lower = λ s. s;
  atoi = λ s. some (pos 200);
  parse_time = λ s. none;
  parse_duration = λ s. none;
  media_type = λ s. some s;
  parse_url = λ s. some (record {
    scheme = "http";
    user = none;
    host = "sink";
    host_name = "sink";
    port = "";
    path = "/";
    raw_query = "";
    force_query = false;
    fragment = "";
  });
  print_url = λ u. u.path;
  join_host_port = λ host port. host;
  print_int = λ n. "200";
  replace_all = λ pattern value by. value;
}

abbrev id : String
id = "0123456789abcdef0123456789abcdef0123456789abcdef0123456789abcdef"

abbrev intent : WebhookSubscriberIntent
intent = record {
  schema = "vcpe.dev/diagnostic/v1";
  journey = "webhook-subscriber";
  observed_at = 5;
  callback_url = "http://sink/";
  event_filter = ".*";
  device_matcher = ".*";
  content_type = "application/json";
  secret_configured = true;
  initial_success_at = 1;
  refresh_success_at = 0;
  refresh_failure_at = 0;
  last_failure_at = 0;
  last_error_category = "";
}

abbrev reachable : Observation
reachable = record {
  edge_id = "argus-reachability";
  state = "passed";
  reason_id = "";
  remediation_id = "";
  message = "";
  evidence = [];
  observed_at = 6;
}

abbrev response : Invocation → EndpointResponse
response i = record {
  schema = "vcpe.dev/diagnostic/v1";
  journey = "webhook";
  observations = reachable ∷ [];
  parodus_clients = none;
  parodus_clients_truncated = none;
  webhook_registrations = none;
  talaria_devices = none;
  active = some (record { phase = i.active_phase; correlation_id = id; http_status = pos 202 });
  active_event = none;
  observed_at = 6;
}

-- The source of a receipt is the phase of the last operation.
abbrev last_phase : Trace → String
last_phase [] = ""
last_phase (ran port journey i answer ∷ t) = i.active_phase
last_phase (e ∷ t) = last_phase t

abbrev world : World
world = record {
  capabilities = λ t port. some (record {
    schema = "vcpe.dev/diagnostics/v1";
    journeys = "webhook" ∷ "webhook-subscriber" ∷ [];
  });
  response = λ t port journey i. some (response i);
  intent = λ t port. some intent;
  routing = λ t port id. none;
  receipt = λ t port id. some (
      some (record {
        schema = "vcpe.dev/diagnostic/v1";
        correlation_id = id;
        source = last_phase t;
        accepted_at = 7;
        http_status = pos 200;
      }));
  correlation_id = λ t. some id;
  now = λ t. 9;
}

abbrev selection : Selection
selection = record {
  source_name = "sink";
  endpoint = 47001;
  target_endpoint = 47002;
  subscriber_endpoint = 47001;
}

abbrev request : ResolveRequest
request = record {
  target = "webhook";
  client_service = "";
  allow_active_callback = true;
  allow_active_event = false;
  event = "devices/test";
  device_id = "mac:001122334455";
  subscriber = "";
}

abbrev graph : ExpectedGraph
graph = record {
  journey = "webhook";
  source = record { deployment = "lab"; service = "sink"; type = "event-sink"; replica = pos 0 };
  target = record { deployment = "lab"; service = "webpa"; type = "webpa"; replica = pos 0 };
  metadata = [];
  nodes = [];
  edges = [];
}

abbrev regex : String → String → Option Bool
regex pattern value = some true

-- Three questions, and two operations with a receipt each.
diagnose_seven : length (diagnose formats world regex request selection graph []).1 ≡ 7
unfolding diagnose diagnose_webhook validate_for validate_intent validate_receipt
    validate_invocation_text validate_optional_id validate_text validate_id validate_correlation_id
    validate_evidence validate_parodus_client_list validate_webhook_registration_list
    validate_talaria_device_list validate_talaria_device_collection bytes device_tail
    normalize_callback_identity all_codes text_before some_where with_participants
    subscriber_answered intent_answered webpa_answered direct_stage direct_answered direct_received
    caduceus_answered caduceus_received discover subscriber_intent run run_webhook poll poll_receipt
    validate_capabilities validate_response validate_active check_endpoint_observations valid_state
diagnose_seven = refl

guarded-diagnose_example :
    guarded true (diagnose formats world regex request selection graph []).1 ≡ true
guarded-diagnose_example = guarded-diagnose formats world regex request selection graph
