-- ===== src/Diagnostic/Orchestrator/Marked.antt =====
-- controlplane/internal/diagnostic/orchestrator.go: the steps of diagnoseCPECallbackPrerequisites, the last one first. Each takes the
-- answer to the request before it. `regex` compiles a pattern and matches a value.
use vcpe.Diagnostic.Model.{state_failed, Observation, state_unknown}
use vcpe.Common.{
  [], ◌∷◌, nat_eq, length, string_eq, ◌||◌, none, not, ◌&&◌, if◌then◌else◌, some, true, Option,
  false, ◌==◌, Bool, String,
}
use vcpe.Common.Result.{is_ok, err}
use vcpe.Diagnostic.Document.{
  journey_webhook, journey_webhook_subscriber, journey_cpe_webpa, journey_cpe_webpa_callback,
  EndpointResponse, WebhookSubscriberIntent, Invocation, Capabilities, RoutingObservation,
}
use vcpe.Diagnostic.Reports.{nil_pointer, all_passed, supports_journey, ExpectedGraph}
use vcpe.Diagnostic.Formats.{Formats}
use vcpe.Diagnostic.Invocation.{Receipt, validate_representative_selection}
use vcpe.Diagnostic.Client.{
  World, Trace, run, run_webhook, poll_receipt, discover, subscriber_intent, run_cpe_callback,
  observe_routing,
}
use vcpe.Diagnostic.Orchestrator.{Selection, ResolveRequest, Diagnosis, no_invocation}
use vcpe.Diagnostic.Orchestrator.Callback.{
  no_boundary, callback_boundary, callback_cpe_callback_result, incomplete_callback,
  complete_cpe_callback_result,
}

-- The invocation of the active event.
abbrev pub event_invocation : ResolveRequest → String → Invocation
event_invocation request id = record {
  client_service = request.client_service;
  subscriber = request.subscriber;
  allow_active_callback = false;
  allow_active_event = true;
  event = request.event;
  device_id = request.device_id;
  correlation_id = id;
  subscriber_intent = none;
  active_phase = "";
}

-- `active.Journey == JourneyCPEWebPACallback && len(active.Observations) > 0`
abbrev pub is_usable : EndpointResponse → Bool
is_usable r = r.journey == journey_cpe_webpa_callback && not (length r.observations == 0)

module _ (f : Formats) (w : World) (sel : Selection) (g : ExpectedGraph)
    (regex : String → String → Option Bool) (request : ResolveRequest) where
  abbrev pub bounded_by :
      EndpointResponse
      → WebhookSubscriberIntent
      → EndpointResponse
      → Observation
      → Trace
      → Diagnosis
  bounded_by cpe i webpa boundary t =
      callback_cpe_callback_result f w sel g (some cpe) (some i) (some webpa) boundary t

  unfoldable pub marked_received :
      EndpointResponse
      → WebhookSubscriberIntent
      → EndpointResponse
      → RoutingObservation
      → Option Receipt
      → Trace
      → Diagnosis
  marked_received active i webpa routing receipt t =
      let no_receipt =
        callback_boundary "callback-receipt" state_unknown "caduceus-receipt-missing"
          "check-caduceus-delivery" "subscriber callback receipt was unavailable or invalid" in
      elim receipt [
        | none ↦ bounded_by active i webpa no_receipt t
        | some r ↦
            if not (r.source == "caduceus")
            then bounded_by active i webpa no_receipt t
            else complete_cpe_callback_result f w sel g active i webpa routing r t
      ]

  unfoldable pub marked_routed :
      EndpointResponse
      → WebhookSubscriberIntent
      → EndpointResponse
      → String
      → Option RoutingObservation
      → Trace
      → Diagnosis
  marked_routed active i webpa id none t =
      bounded_by active i webpa
        (callback_boundary "routing-observation" state_unknown "routing-observation-unavailable"
          "check-routing-observation" "Caduceus routing observation was unavailable")
        t
  marked_routed active i webpa id (some routing) t =
      let (receipt, t') = poll_receipt f w sel.subscriber_endpoint id t in
      marked_received active i webpa routing receipt t'

  -- The result of an event that the CPE did not accept, or not as it should.
  abbrev pub unaccepted :
      EndpointResponse
      → WebhookSubscriberIntent
      → EndpointResponse
      → Option EndpointResponse
      → Trace
      → Diagnosis
  unaccepted cpe i webpa response t =
      let no_result =
        callback_boundary "active-event-acceptance" state_unknown "participant-result-incomplete"
          "check-participant-diagnostic" "CPE active event result was unavailable or invalid" in
      elim response [
        | none ↦ bounded_by cpe i webpa no_result t
        | some active ↦
            if is_usable active
            then bounded_by active i webpa no_boundary t
            else bounded_by cpe i webpa no_result t
      ]

  unfoldable pub marked_answered :
      EndpointResponse
      → WebhookSubscriberIntent
      → EndpointResponse
      → String
      → Bool
      → Option EndpointResponse
      → Trace
      → Diagnosis
  marked_answered cpe i webpa id false response t = unaccepted cpe i webpa response t
  marked_answered cpe i webpa id true none t = unaccepted cpe i webpa none t
  marked_answered cpe i webpa id true (some active) t =
      let (routing, t') = observe_routing f w sel.target_endpoint id t in
      if not (active.journey == journey_cpe_webpa_callback) || not (all_passed active.observations)
      then unaccepted cpe i webpa (some active) t
      else marked_routed active i webpa id routing t'

  -- All passive evidence is there.
  unfoldable pub marked_allowed :
      Capabilities
      → EndpointResponse
      → WebhookSubscriberIntent
      → EndpointResponse
      → Option String
      → Trace
      → Diagnosis
  marked_allowed source cpe i webpa none t =
      incomplete_callback f w sel g (some cpe) (some i) (some webpa) "active-event-acceptance"
        "could not generate a diagnostic correlation identity" t
  marked_allowed source cpe i webpa (some id) t =
      let ((good, response), t') =
        run_cpe_callback f w sel.endpoint (event_invocation request id) t in
      marked_answered cpe i webpa id good response t'

  unfoldable pub webpa_passed :
      Capabilities
      → EndpointResponse
      → WebhookSubscriberIntent
      → EndpointResponse
      → Trace
      → Diagnosis
  webpa_passed source cpe i webpa t =
      let next = marked_allowed source cpe i webpa (w.correlation_id t) t in
      if not (supports_journey source journey_cpe_webpa_callback)
      then bounded_by cpe i webpa
          (callback_boundary "active-event-acceptance" state_unknown "active-event-unsupported"
            "use-supported-cpe-source" "CPE does not advertise active callback diagnostics")
          t
      else if not (
          is_ok (
            validate_representative_selection regex (i.event_filter ∷ []) (i.device_matcher ∷ [])
              request.event request.device_id))
      then bounded_by cpe i webpa
          (callback_boundary "registration-conformant" state_failed "registration-mismatch"
            "align-webhook-configuration"
            "selected event or device does not match the authoritative subscriber registration")
          t
      else next

  unfoldable pub webpa_ran :
      Capabilities
      → EndpointResponse
      → WebhookSubscriberIntent
      → Bool
      → Option EndpointResponse
      → Trace
      → Diagnosis
  webpa_ran source cpe i false response t =
      incomplete_callback f w sel g (some cpe) (some i) none "argus-reachability"
        "WebPA diagnostic result was unavailable or invalid" t
  webpa_ran source cpe i true none t = (err nil_pointer, t)
  webpa_ran source cpe i true (some webpa) t =
      let next = webpa_passed source cpe i webpa t in
      if not (webpa.journey == journey_webhook)
      then incomplete_callback f w sel g (some cpe) (some i) none "argus-reachability"
          "WebPA diagnostic result was unavailable or invalid" t
      else if not (all_passed webpa.observations)
      then bounded_by cpe i webpa no_boundary t
      else next

  unfoldable pub webpa_discovered :
      Capabilities
      → EndpointResponse
      → WebhookSubscriberIntent
      → Option Capabilities
      → Trace
      → Diagnosis
  webpa_discovered source cpe i none t =
      incomplete_callback f w sel g (some cpe) (some i) none "argus-reachability"
        "WebPA does not advertise webhook diagnostics" t
  webpa_discovered source cpe i (some c) t =
      let ((good, response), t') = run_webhook f w sel.target_endpoint i no_invocation t in
      if not (supports_journey c journey_webhook)
      then incomplete_callback f w sel g (some cpe) (some i) none "argus-reachability"
          "WebPA does not advertise webhook diagnostics" t
      else webpa_ran source cpe i good response t'

  unfoldable pub intent_received :
      Capabilities → EndpointResponse → Option WebhookSubscriberIntent → Trace → Diagnosis
  intent_received source cpe none t =
      incomplete_callback f w sel g (some cpe) none none "subscriber-intent"
        "subscriber diagnostic result was unavailable or invalid" t
  intent_received source cpe (some i) t =
      let (capabilities, t') = discover f w sel.target_endpoint t in
      webpa_discovered source cpe i capabilities t'

  unfoldable pub subscriber_discovered :
      Capabilities → EndpointResponse → Option Capabilities → Trace → Diagnosis
  subscriber_discovered source cpe none t =
      incomplete_callback f w sel g (some cpe) none none "subscriber-intent"
        "subscriber does not advertise webhook diagnostics" t
  subscriber_discovered source cpe (some c) t =
      let (intent, t') = subscriber_intent f w sel.subscriber_endpoint t in
      if not (supports_journey c journey_webhook_subscriber)
      then incomplete_callback f w sel g (some cpe) none none "subscriber-intent"
          "subscriber does not advertise webhook diagnostics" t
      else intent_received source cpe intent t'

  unfoldable pub cpe_ran : Capabilities → Option EndpointResponse → Trace → Diagnosis
  cpe_ran source none t =
      incomplete_callback f w sel g none none none "application-parodus"
        "CPE diagnostic result was unavailable or invalid" t
  cpe_ran source (some cpe) t =
      let (capabilities, t') = discover f w sel.subscriber_endpoint t in
      if not (cpe.journey == journey_cpe_webpa)
      then incomplete_callback f w sel g none none none "application-parodus"
          "CPE diagnostic result was unavailable or invalid" t
      else if not (all_passed cpe.observations)
      then callback_cpe_callback_result f w sel g (some cpe) none none no_boundary t
      else subscriber_discovered source cpe capabilities t'

  unfoldable pub cpe_discovered : Option Capabilities → Trace → Diagnosis
  cpe_discovered none t =
      incomplete_callback f w sel g none none none "application-parodus"
        "CPE does not advertise passive CPE diagnostics" t
  cpe_discovered (some c) t =
      let (response, t') =
        run f w sel.endpoint journey_cpe_webpa
          (record no_invocation { client_service = request.client_service }) t in
      if not (supports_journey c journey_cpe_webpa)
      then incomplete_callback f w sel g none none none "application-parodus"
          "CPE does not advertise passive CPE diagnostics" t
      else cpe_ran c response t'

  -- diagnoseCPECallbackPrerequisites
  unfoldable pub diagnose_cpe_callback_prerequisites : Trace → Diagnosis
  diagnose_cpe_callback_prerequisites t =
      let (capabilities, t') = discover f w sel.endpoint t in cpe_discovered capabilities t'
