-- ===== src/Diagnostic/Orchestrator.antt =====
-- controlplane/internal/diagnostic/orchestrator.go: what its journeys share, and the passive webhook journey.
pub mod Active
pub mod Callback
pub mod Marked
pub mod Diagnose
pub mod Events
pub mod Requests
pub mod Once
pub mod Whole
mod Tests
pub mod Ordered
use vcpe.Common.{
  true, map, string_eq, ◌||◌, not, ◌==◌, [], if◌then◌else◌, ◌++◌, ◌∷◌, List, none, some, Bool,
  Option, false, ℕ, String,
}
use vcpe.Diagnostic.Document.{
  Capabilities, journey_webhook, webhook_active_caduceus, webhook_active_direct, EndpointResponse,
  WebhookActiveResult, WebhookSubscriberIntent, Invocation, Report,
}
use vcpe.Diagnostic.Reports.{
  latest_observation_time, graph_report, documented, nil_pointer, supports_journey, evaluated,
  incomplete_webhook_result, passed_webhook_observation, merge_webhook_passive_observations,
  DiagnoseError, ExpectedGraph,
}
use vcpe.Common.Result.{err, ◌>>=◌, Result}
use vcpe.Diagnostic.Evaluate.{apply_causality}
use vcpe.Diagnostic.Model.{Observation, Evidence}
use vcpe.Common.Int.{ℤ}
use vcpe.Diagnostic.Formats.{Formats}
use vcpe.Diagnostic.Client.{
  World, Trace, discover, run, run_webhook, subscriber_intent, poll_receipt,
}
use vcpe.Diagnostic.Safety.{sanitize}
use vcpe.Diagnostic.Invocation.{Receipt, validate_for}

-- What Diagnose reads of a Selection: the ports of its endpoints, and the source's name.
pub record Selection : Type 0 where
  pub source_name : String
  pub endpoint : ℕ
  pub target_endpoint : ℕ
  pub subscriber_endpoint : ℕ

pub record ResolveRequest : Type 0 where
  pub target : String
  pub client_service : String
  pub allow_active_callback : Bool
  pub allow_active_event : Bool
  pub event : String
  pub device_id : String
  pub subscriber : String

abbrev pub Diagnosis : Type 0
Diagnosis = Result DiagnoseError Report × Trace

-- `Invocation{}`
abbrev pub no_invocation : Invocation
no_invocation = record {
  client_service = "";
  subscriber = "";
  allow_active_callback = false;
  allow_active_event = false;
  event = "";
  device_id = "";
  correlation_id = "";
  subscriber_intent = none;
  active_phase = "";
}

-- withWebhookPhase
abbrev pub with_webhook_phase : Invocation → String → Invocation
with_webhook_phase i phase = record i { active_phase = phase }

module _ (f : Formats) (w : World) (sel : Selection) (g : ExpectedGraph) where
  abbrev pub http_status : ℤ → Evidence
  http_status status = record { key = "http-status"; value = f.print_int status }

  abbrev pub correlation_recorded : Evidence
  correlation_recorded = record { key = "correlation-state"; value = "recorded" }

  abbrev pub incomplete :
      Option WebhookSubscriberIntent
      → Option EndpointResponse
      → List Observation
      → String
      → String
      → Trace
      → Diagnosis
  incomplete intent response passed edge_id message t =
      (incomplete_webhook_result f g (w.now t) intent response passed edge_id message, t)

  -- What both webhook journeys do first: ask the subscriber for its intent, and whether WebPA
  -- takes part.
  unfoldable pub webpa_answered :
      (WebhookSubscriberIntent → Trace → Diagnosis)
      → WebhookSubscriberIntent
      → Option Capabilities
      → Trace
      → Diagnosis
  webpa_answered next i none t =
      incomplete (some i) none [] "argus-reachability"
        "WebPA diagnostic result was unavailable or invalid" t
  webpa_answered next i (some c) t =
      if not (supports_journey c journey_webhook)
      then incomplete (some i) none [] "argus-reachability"
          "WebPA does not advertise webhook diagnostics" t
      else next i t

  unfoldable pub intent_answered :
      (WebhookSubscriberIntent → Trace → Diagnosis)
      → Option WebhookSubscriberIntent
      → Trace
      → Diagnosis
  intent_answered next none t =
      incomplete none none [] "subscriber-intent"
        "subscriber diagnostic result was unavailable or invalid" t
  intent_answered next (some i) t =
      let (webpa, t') = discover f w sel.target_endpoint t in webpa_answered next i webpa t'

  unfoldable pub subscriber_answered :
      (WebhookSubscriberIntent → Trace → Diagnosis) → Option Capabilities → Trace → Diagnosis
  subscriber_answered next none t =
      incomplete none none [] "subscriber-intent"
        "subscriber diagnostic result was unavailable or invalid" t
  subscriber_answered next (some c) t =
      let (intent, t') = subscriber_intent f w sel.endpoint t in
      if not (supports_journey c "webhook-subscriber")
      then incomplete none none [] "subscriber-intent"
          "subscriber does not advertise webhook diagnostic intent" t
      else intent_answered next intent t'

  unfoldable pub with_participants :
      (WebhookSubscriberIntent → Trace → Diagnosis) → Trace → Diagnosis
  with_participants next t =
      let (capabilities, t') = discover f w sel.endpoint t in
      subscriber_answered next capabilities t'

  -- The end of diagnoseWebhookPassive.
  unfoldable pub passive_report :
      WebhookSubscriberIntent → EndpointResponse → ℕ → Result DiagnoseError Report
  passive_report i r now = merge_webhook_passive_observations f now g.edges i r >>= λ merged.
      documented
        (sanitize f (graph_report f g merged.0 merged.1 (latest_observation_time now merged.0)))

  unfoldable pub passive_answered :
      WebhookSubscriberIntent → Bool → Option EndpointResponse → Trace → Diagnosis
  passive_answered i false response t =
      incomplete (some i) response [] "argus-reachability"
        "WebPA diagnostic result was unavailable or invalid" t
  passive_answered i true none t = (err nil_pointer, t)
  passive_answered i true (some r) t =
      if not (r.journey == journey_webhook)
      then incomplete (some i) (some r) [] "argus-reachability"
          "WebPA returned an invalid webhook diagnostic result" t
      else (passive_report i r (w.now t), t)

  unfoldable pub passive_stage : WebhookSubscriberIntent → Trace → Diagnosis
  passive_stage i t =
      let ((good, response), t') = run_webhook f w sel.target_endpoint i no_invocation t in
      passive_answered i good response t'

  abbrev pub diagnose_webhook_passive : Trace → Diagnosis
  diagnose_webhook_passive t = with_participants passive_stage t
