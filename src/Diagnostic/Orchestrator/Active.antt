-- ===== src/Diagnostic/Orchestrator/Active.antt =====
-- controlplane/internal/diagnostic/orchestrator.go: diagnoseWebhookActive, whose two active operations each wait for a receipt.
use vcpe.Diagnostic.Reports.{
  graph_report, documented, evaluated, merge_webhook_passive_observations, nil_pointer,
  DiagnoseError, passed_webhook_observation, ExpectedGraph,
}
use vcpe.Diagnostic.Safety.{sanitize}
use vcpe.Common.{
  map, true, false, none, string_eq, [], not, ◌||◌, some, ◌++◌, ◌==◌, ◌∷◌, Bool, List, Option,
  if◌then◌else◌, ℕ,
}
use vcpe.Diagnostic.Evaluate.{apply_causality}
use vcpe.Common.Result.{◌>>=◌, err, Result}
use vcpe.Diagnostic.Document.{
  webhook_active_caduceus, webhook_active_direct, Report, EndpointResponse, WebhookActiveResult,
  WebhookSubscriberIntent, Invocation,
}
use vcpe.Diagnostic.Formats.{Formats}
use vcpe.Diagnostic.Invocation.{Receipt}
use vcpe.Diagnostic.Client.{World, Trace, run_webhook, poll_receipt}
use vcpe.Diagnostic.Model.{Observation, Evidence}
use vcpe.Diagnostic.Orchestrator.{
  Selection, Diagnosis, http_status, correlation_recorded, incomplete, with_participants,
  with_webhook_phase,
}

module _ (f : Formats) (w : World) (sel : Selection) (g : ExpectedGraph) where
  -- What the direct callback has shown, and then its receipt.
  abbrev pub direct_passed : EndpointResponse → List Observation
  direct_passed direct =
      passed_webhook_observation "callback-dns" direct.observed_at []
      ∷ passed_webhook_observation "callback-transport" direct.observed_at []
      ∷ []

  abbrev pub accepted_evidence : WebhookActiveResult → List Evidence
  accepted_evidence a = http_status f w sel g a.http_status ∷ (correlation_recorded f w sel g) ∷ []

  abbrev pub receipt_passed : EndpointResponse → WebhookActiveResult → Receipt → List Observation
  receipt_passed direct a receipt =
      direct_passed direct
      ++ passed_webhook_observation "callback-acceptance" receipt.accepted_at (accepted_evidence a)
        ∷ []

  abbrev pub ingested :
      EndpointResponse
      → WebhookActiveResult
      → Receipt
      → EndpointResponse
      → WebhookActiveResult
      → List Observation
  ingested direct a receipt caduceus ca =
      receipt_passed direct a receipt
      ++ passed_webhook_observation "caduceus-ingestion" caduceus.observed_at
          (http_status f w sel g ca.http_status ∷ [])
        ∷ []

  -- One edge at the end of diagnoseWebhookActive.
  abbrev pub active_edge :
      EndpointResponse
      → WebhookActiveResult
      → Receipt
      → EndpointResponse
      → WebhookActiveResult
      → Receipt
      → Observation
      → Observation
  active_edge direct a receipt caduceus ca last o =
      if o.edge_id == "callback-dns" || o.edge_id == "callback-transport"
      then passed_webhook_observation o.edge_id direct.observed_at []
      else if o.edge_id == "callback-acceptance"
      then passed_webhook_observation o.edge_id receipt.accepted_at (accepted_evidence a)
      else if o.edge_id == "caduceus-ingestion"
      then passed_webhook_observation o.edge_id caduceus.observed_at
          (http_status f w sel g ca.http_status ∷ [])
      else if o.edge_id == "caduceus-receipt"
      then passed_webhook_observation o.edge_id last.accepted_at
          (http_status f w sel g last.http_status ∷ (correlation_recorded f w sel g) ∷ [])
      else o

  unfoldable pub active_report :
      ℕ
      → WebhookSubscriberIntent
      → EndpointResponse
      → WebhookActiveResult
      → Receipt
      → EndpointResponse
      → WebhookActiveResult
      → Receipt
      → Result DiagnoseError Report
  active_report now i direct a receipt caduceus ca last =
      merge_webhook_passive_observations f now g.edges i direct >>= λ merged.
      evaluated (
        apply_causality now g.edges (map (active_edge direct a receipt caduceus ca last) merged.0)
          last.accepted_at)
      >>= λ result. documented (sanitize f (graph_report f g result.0 result.1 last.accepted_at))

  -- diagnoseWebhookActive behind the receipt of the Caduceus operation.
  unfoldable pub caduceus_received :
      WebhookSubscriberIntent
      → EndpointResponse
      → WebhookActiveResult
      → Receipt
      → EndpointResponse
      → WebhookActiveResult
      → Option Receipt
      → Trace
      → Diagnosis
  caduceus_received i direct a receipt caduceus ca none t =
      incomplete f w sel g (some i) (some direct) (ingested direct a receipt caduceus ca)
        "caduceus-receipt" "subscriber Caduceus receipt was unavailable or invalid" t
  caduceus_received i direct a receipt caduceus ca (some last) t =
      if not (last.source == webhook_active_caduceus)
      then incomplete f w sel g (some i) (some direct) (ingested direct a receipt caduceus ca)
          "caduceus-receipt" "subscriber returned an invalid Caduceus receipt" t
      else (active_report (w.now t) i direct a receipt caduceus ca last, t)

  -- Behind the Caduceus operation; the acknowledgement is there if there was no error.
  unfoldable pub caduceus_answered :
      WebhookSubscriberIntent
      → EndpointResponse
      → WebhookActiveResult
      → Receipt
      → Bool
      → Option EndpointResponse
      → Trace
      → Diagnosis
  caduceus_answered i direct a receipt false response t =
      incomplete f w sel g (some i) response (receipt_passed direct a receipt) "caduceus-ingestion"
        "WebPA Caduceus result was unavailable or invalid" t
  caduceus_answered i direct a receipt true none t = (err nil_pointer, t)
  caduceus_answered i direct a receipt true (some caduceus) t = elim caduceus.active [
    | none ↦ (err nil_pointer, t)
    | some ca ↦
        let (last, t') = poll_receipt f w sel.endpoint ca.correlation_id t in
        caduceus_received i direct a receipt caduceus ca last t'
  ]

  -- Behind the receipt of the direct callback.
  unfoldable pub direct_received :
      Invocation
      → WebhookSubscriberIntent
      → EndpointResponse
      → WebhookActiveResult
      → Option Receipt
      → Trace
      → Diagnosis
  direct_received invocation i direct a none t =
      incomplete f w sel g (some i) (some direct) (direct_passed direct) "callback-acceptance"
        "subscriber direct callback receipt was unavailable or invalid" t
  direct_received invocation i direct a (some r) t =
      let ((good, response), t') =
        run_webhook f w sel.target_endpoint i
          (with_webhook_phase invocation webhook_active_caduceus) t in
      if not (r.source == webhook_active_direct)
      then incomplete f w sel g (some i) (some direct) (direct_passed direct) "callback-acceptance"
          "subscriber returned an invalid direct callback receipt" t
      else caduceus_answered i direct a r good response t'

  -- Behind the direct callback.
  unfoldable pub direct_answered :
      Invocation → WebhookSubscriberIntent → Bool → Option EndpointResponse → Trace → Diagnosis
  direct_answered invocation i false response t =
      incomplete f w sel g (some i) response [] "callback-dns"
        "WebPA direct callback result was unavailable or invalid" t
  direct_answered invocation i true none t = (err nil_pointer, t)
  direct_answered invocation i true (some direct) t = elim direct.active [
    | none ↦ (err nil_pointer, t)
    | some a ↦
        let (receipt, t') = poll_receipt f w sel.endpoint a.correlation_id t in
        direct_received invocation i direct a receipt t'
  ]

  unfoldable pub direct_stage : Invocation → WebhookSubscriberIntent → Trace → Diagnosis
  direct_stage invocation i t =
      let ((good, response), t') =
        run_webhook f w sel.target_endpoint i (with_webhook_phase invocation webhook_active_direct)
          t in
      direct_answered invocation i good response t'

  abbrev pub diagnose_webhook_active : Invocation → Trace → Diagnosis
  diagnose_webhook_active invocation t = with_participants f w sel g (direct_stage invocation) t
