-- ===== src/Diagnostic/Orchestrator/Diagnose.antt =====
-- controlplane/internal/diagnostic/orchestrator.go: Diagnose behind Resolve and the provider's expected graph, which are arguments.
use vcpe.Common.{nat_eq, string_eq, none, some, ◌==◌, if◌then◌else◌, ℕ, Bool, Option, not, String}
use vcpe.Diagnostic.Reports.{
  graph_report, documented, not_advertised, document, evaluated, supports_journey, wrong_journey,
  DiagnoseError, unavailable, ExpectedGraph,
}
use vcpe.Diagnostic.Safety.{sanitize}
use vcpe.Common.Result.{◌>>=◌, ok, Result, err, ◌>>◌, fail_if}
use vcpe.Diagnostic.Document.{
  journey_cpe_webpa_callback, journey_webhook, missing, Report, EndpointResponse, Invocation,
  Capabilities,
}
use vcpe.Diagnostic.Evaluate.{apply_causality}
use vcpe.Diagnostic.Formats.{device_identity_pattern, event_destination_pattern, Formats}
use vcpe.Diagnostic.Invocation.{validate_for}
use vcpe.Diagnostic.Orchestrator.Active.{diagnose_webhook_active}
use vcpe.Diagnostic.Orchestrator.Marked.{diagnose_cpe_callback_prerequisites}
use vcpe.Diagnostic.Client.{World, Trace, run, discover}
use vcpe.Diagnostic.Orchestrator.{
  Selection, ResolveRequest, Diagnosis, no_invocation, diagnose_webhook_passive,
}
use vcpe.Diagnostic.Fields.{Check, validate_id, validate_invocation_text}

-- validateCallbackRequest
unfoldable pub validate_callback_request : ResolveRequest → Check
validate_callback_request r =
    fail_if (not r.allow_active_event) (missing "active event consent")
    >> validate_id "client service" r.client_service
    >> validate_id "subscriber" r.subscriber
    >> validate_invocation_text "event" r.event event_destination_pattern
    >> validate_invocation_text "device identity" r.device_id device_identity_pattern

-- The invocation of the webhook journey.
abbrev pub webhook_invocation : ResolveRequest → Invocation
webhook_invocation r = record no_invocation {
  allow_active_callback = r.allow_active_callback;
  event = r.event;
  device_id = r.device_id;
}

module _ (f : Formats) (w : World) (regex : String → String → Option Bool)
    (request : ResolveRequest) (sel : Selection) (g : ExpectedGraph) where
  abbrev pub source_report : EndpointResponse → ℕ → Result DiagnoseError Report
  source_report r now =
      evaluated (apply_causality now g.edges r.observations r.observed_at) >>= λ result.
      documented (
        sanitize f
          (record (graph_report f g result.0 result.1
            (if r.observed_at == 0 then now else r.observed_at)) {
              parodus_clients = r.parodus_clients;
              parodus_clients_truncated = r.parodus_clients_truncated;
              webhook_registrations = r.webhook_registrations;
              talaria_devices = r.talaria_devices;
            }))

  unfoldable pub source_answered : Option EndpointResponse → Trace → Diagnosis
  source_answered none t = (err unavailable, t)
  source_answered (some r) t =
      if not (r.journey == g.journey)
      then (err (wrong_journey r.journey), t)
      else (source_report r (w.now t), t)

  unfoldable pub source_discovered : Option Capabilities → Trace → Diagnosis
  source_discovered none t = (err unavailable, t)
  source_discovered (some c) t =
      let (response, t') =
        run f w sel.endpoint g.journey
          (record no_invocation { client_service = request.client_service }) t in
      if not (supports_journey c g.journey)
      then (err (not_advertised g.journey), t)
      else source_answered response t'

  -- The webhook journey of Diagnose.
  unfoldable pub diagnose_webhook : Trace → Diagnosis
  diagnose_webhook t =
      let invocation = webhook_invocation request in
      let active = diagnose_webhook_active f w sel g invocation t in
      let passive = diagnose_webhook_passive f w sel g t in
      elim (validate_for f journey_webhook invocation) [
        | err e ↦ (err (document e), t)
        | ok done ↦ if request.allow_active_callback then active else passive
      ]

  unfoldable pub diagnose_source : Trace → Diagnosis
  diagnose_source t =
      let (capabilities, t') = discover f w sel.endpoint t in source_discovered capabilities t'

  -- Diagnose, from the check of a callback request on.
  unfoldable pub diagnose : Trace → Diagnosis
  diagnose t =
      let webhook = diagnose_webhook t in
      let callback = diagnose_cpe_callback_prerequisites f w sel g regex request t in
      let source = diagnose_source t in
      elim (if request.target == "callback" then validate_callback_request request else ok tt) [
        | err e ↦ (err (document e), t)
        | ok done ↦
            if g.journey == journey_webhook
            then webhook
            else if g.journey == journey_cpe_webpa_callback
            then callback
            else source
      ]
