-- ===== src/Diagnostic/Orchestrator/Callback.antt =====
-- controlplane/internal/diagnostic/orchestrator.go: diagnoseCPECallbackPrerequisites, which asks the CPE for one marked event behind all
-- passive evidence, and the results of that journey. `regex` compiles a pattern and matches a value.
use vcpe.Common.{
  nat_eq, ◌&&◌, string_eq, ◌++◌, ◌∷◌, contains, some, keep, none, ◌==◌, Option, [], if◌then◌else◌,
  map, List, String, ℕ,
}
use vcpe.Diagnostic.Reports.{
  webpa_edges, not_reported, cpe_edges, observations_of, by_edge, latest_observation_time,
  passed_webhook_observation, conclude, or_else_observation, ExpectedGraph,
}
use vcpe.Diagnostic.Model.{state_unknown, Observation, Edge}
use vcpe.Diagnostic.Formats.{Formats}
use vcpe.Diagnostic.Document.{EndpointResponse, WebhookSubscriberIntent, RoutingObservation}
use vcpe.Diagnostic.Invocation.{Receipt}
use vcpe.Diagnostic.Client.{World, Trace}
use vcpe.Diagnostic.Orchestrator.{Selection, Diagnosis, http_status}

-- callbackBoundary
abbrev pub callback_boundary : String → String → String → String → String → Observation
callback_boundary id state reason remediation message = record {
  edge_id = id;
  state = state;
  reason_id = reason;
  remediation_id = remediation;
  message = message;
  evidence = [];
  observed_at = 0;
}

-- `Observation{}`
abbrev pub no_boundary : Observation
no_boundary = callback_boundary "" "" "" "" ""

-- The time of callbackCPECallbackResult: WebPA's, else the CPE's, else the clock's.
abbrev pub result_time : ℕ → Option EndpointResponse → Option EndpointResponse → ℕ
result_time now cpe webpa = elim webpa [
  | none ↦ elim cpe [ none ↦ now | some c ↦ c.observed_at ]
  | some r ↦ r.observed_at
]

-- The observations of a participant for its own edges.
abbrev pub own_observations : List String → Option EndpointResponse → List Observation
own_observations edges response = keep (λ o. contains edges o.edge_id) (observations_of response)

-- One edge of callbackCPECallbackResult.
abbrev pub callback_edge :
    ℕ
    → Option EndpointResponse
    → Option WebhookSubscriberIntent
    → Option EndpointResponse
    → Observation
    → Edge
    → Observation
callback_edge now cpe intent webpa boundary e =
    let own =
      or_else_observation (by_edge (own_observations cpe_edges cpe) e.id) (not_reported e.id now) in
    let informed : Observation = elim intent [
      | none ↦ own
      | some i ↦
          if e.id == "subscriber-intent"
          then passed_webhook_observation e.id i.observed_at []
          else own
    ] in
    let merged = or_else_observation (by_edge (own_observations webpa_edges webpa) e.id) informed in
    let routed =
      if e.id == "routing-observation" && boundary.edge_id == "callback-receipt"
      then passed_webhook_observation e.id now []
      else merged in
    if boundary.edge_id == e.id
    then record boundary {
      observed_at = if boundary.observed_at == 0 then now else boundary.observed_at;
    }
    else routed

module _ (f : Formats) (w : World) (sel : Selection) (g : ExpectedGraph) where
  -- callbackCPECallbackResult
  unfoldable pub callback_cpe_callback_result :
      Option EndpointResponse
      → Option WebhookSubscriberIntent
      → Option EndpointResponse
      → Observation
      → Trace
      → Diagnosis
  callback_cpe_callback_result cpe intent webpa boundary t =
      let now = result_time (w.now t) cpe webpa in
      (conclude f g (map (callback_edge now cpe intent webpa boundary) g.edges) (w.now t) now, t)

  -- incompleteCPECallbackResult
  abbrev pub incomplete_callback :
      Option EndpointResponse
      → Option WebhookSubscriberIntent
      → Option EndpointResponse
      → String
      → String
      → Trace
      → Diagnosis
  incomplete_callback cpe intent webpa edge_id message t =
      callback_cpe_callback_result cpe intent webpa
        (callback_boundary edge_id state_unknown "participant-result-incomplete"
          "check-participant-diagnostic" message)
        t

  -- One edge of completeCPECallbackResult.
  abbrev pub complete_edge :
      EndpointResponse
      → WebhookSubscriberIntent
      → EndpointResponse
      → RoutingObservation
      → Receipt
      → Edge
      → Observation
  complete_edge cpe intent webpa routing receipt e =
      if e.id == "callback-receipt"
      then passed_webhook_observation e.id receipt.accepted_at
          (http_status f w sel g receipt.http_status ∷ [])
      else if e.id == "routing-observation"
      then passed_webhook_observation e.id routing.observed_at []
      else if e.id == "subscriber-intent"
      then passed_webhook_observation e.id intent.observed_at []
      else or_else_observation (by_edge (cpe.observations ++ webpa.observations) e.id)
          (not_reported e.id cpe.observed_at)

  -- completeCPECallbackResult
  unfoldable pub complete_cpe_callback_result :
      EndpointResponse
      → WebhookSubscriberIntent
      → EndpointResponse
      → RoutingObservation
      → Receipt
      → Trace
      → Diagnosis
  complete_cpe_callback_result cpe intent webpa routing receipt t =
      let os = map (complete_edge cpe intent webpa routing receipt) g.edges in
      (conclude f g os (w.now t) (latest_observation_time (w.now t) os), t)
