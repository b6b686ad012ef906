-- ===== src/Diagnostic/Reports.antt =====
-- controlplane/internal/diagnostic/orchestrator.go: how the answers of the participants become one result.
use vcpe.Common.{
  ◌&&◌, nat_eq, ◌||◌, ltb, some_where, string_eq, ◌==◌, [], contains, if◌then◌else◌, map, none, not,
  some, Bool, ◌∷◌, List, Option, String, ℕ,
}
use vcpe.Common.Result.{err, fail_if, ◌>>=◌, ◌>>◌, ok, Result}
use vcpe.Diagnostic.Document.{
  Node, schema_version, EndpointIdentity, EndpointResponse, Capabilities, WebhookSubscriberIntent,
  Report, DocumentError,
}
use vcpe.Diagnostic.Model.{state_passed, state_unknown, Edge, Evidence, Observation}
use vcpe.Diagnostic.Formats.{Formats}
use vcpe.Diagnostic.Evaluate.{EvaluateError, apply_causality}
use vcpe.Diagnostic.Safety.{sanitize}

-- `nil_pointer` stands for a use of a response or an acknowledgement that is not there, which the client
-- leaves out only with an error.
pub data DiagnoseError : Type 0 where
  document : DocumentError → DiagnoseError
  evaluation : EvaluateError → DiagnoseError
  unavailable : DiagnoseError
  not_advertised : String → DiagnoseError
  wrong_journey : String → DiagnoseError
  unexpected_observation : String → DiagnoseError
  nil_pointer : DiagnoseError

abbrev pub documented {ℓ} : {A : Type ℓ} → Result DocumentError A → Result DiagnoseError A
documented (ok a) = ok a
documented (err e) = err (document e)

abbrev pub evaluated {ℓ} : {A : Type ℓ} → Result EvaluateError A → Result DiagnoseError A
evaluated (ok a) = ok a
evaluated (err e) = err (evaluation e)

pub record ExpectedGraph : Type 0 where
  pub journey : String
  pub source : EndpointIdentity
  pub target : EndpointIdentity
  pub metadata : List Evidence
  pub nodes : List Node
  pub edges : List Edge

-- latestObservationTime
unfoldable pub latest : ℕ → List Observation → ℕ
latest at [] = at
latest at (o ∷ os) = latest (if ltb at o.observed_at then o.observed_at else at) os

abbrev pub latest_observation_time : ℕ → List Observation → ℕ
latest_observation_time now os = if latest 0 os == 0 then now else latest 0 os

-- A map by edges that the code fills in order: the last observation of an edge.
unfoldable pub by_edge : List Observation → String → Option Observation
by_edge [] id = none
by_edge (o ∷ os) id =
    let rest = by_edge os id in
    elim rest [ none ↦ if o.edge_id == id then some o else none | some later ↦ some later ]

abbrev pub unresolved : String → String → String → String → ℕ → Observation
unresolved id reason remediation message at = record {
  edge_id = id;
  state = state_unknown;
  reason_id = reason;
  remediation_id = remediation;
  message = message;
  evidence = [];
  observed_at = at;
}

abbrev pub not_reported : String → ℕ → Observation
not_reported id at =
    unresolved id "participant-result-incomplete" "check-participant-diagnostic"
      "participant diagnostic result was unavailable or invalid" at

-- passedWebhookObservation
abbrev pub passed_webhook_observation : String → ℕ → List Evidence → Observation
passed_webhook_observation id at evidence = record {
  edge_id = id;
  state = state_passed;
  reason_id = "";
  remediation_id = "";
  message = "";
  evidence = evidence;
  observed_at = at;
}

abbrev pub or_else_observation : Option Observation → Observation → Observation
or_else_observation none o = o
or_else_observation (some candidate) o = candidate

abbrev pub cpe_edges : List String
cpe_edges =
    "application-parodus" ∷ "talaria-dns" ∷ "talaria-transport" ∷ "talaria-authentication"
    ∷ "device-registration" ∷ "active-event-acceptance" ∷ []

abbrev pub webpa_edges : List String
webpa_edges =
    "argus-reachability" ∷ "argus-authentication" ∷ "registration-present" ∷ "registration-fresh"
    ∷ "registration-conformant" ∷ []

abbrev pub active_edges : List String
active_edges =
    "callback-dns" ∷ "callback-transport" ∷ "callback-acceptance" ∷ "caduceus-ingestion"
    ∷ "caduceus-receipt" ∷ []

abbrev pub observations_of : Option EndpointResponse → List Observation
observations_of none = []
observations_of (some r) = r.observations

-- allPassed of cpe_callback.go
abbrev pub all_passed : List Observation → Bool
all_passed os = not (some_where (λ o. not (o.state == state_passed)) os)

-- webpaReportedIncomplete, over the map by edges.
abbrev pub reported_incomplete : List Observation → Bool
reported_incomplete os =
    some_where (λ o. not ((or_else_observation (by_edge os o.edge_id) o).state == state_passed)) os

-- supportsJourney
abbrev pub supports_journey : Capabilities → String → Bool
supports_journey c journey = contains c.journeys journey

module _ (f : Formats) where
  -- One result from the graph and its evaluated observations.
  abbrev pub graph_report : ExpectedGraph → List Observation → String → ℕ → Report
  graph_report g os first at = record {
    schema = schema_version;
    journey = g.journey;
    source = g.source;
    target = g.target;
    metadata = g.metadata;
    nodes = g.nodes;
    edges = g.edges;
    observations = os;
    parodus_clients = none;
    parodus_clients_truncated = none;
    webhook_registrations = none;
    talaria_devices = none;
    first_failure = first;
    observed_at = at;
  }

  -- ApplyCausality and Sanitize at the end of a journey, with the latest time of an observation.
  unfoldable pub conclude : ExpectedGraph → List Observation → ℕ → ℕ → Result DiagnoseError Report
  conclude g os now at = evaluated (apply_causality now g.edges os at) >>= λ result.
      documented
        (sanitize f (graph_report g result.0 result.1 (latest_observation_time now result.0)))

  -- One edge of incompleteWebhookResult.
  abbrev pub incomplete_edge :
      ℕ
      → Option WebhookSubscriberIntent
      → List Observation
      → List Observation
      → String
      → String
      → Edge
      → Observation
  incomplete_edge now intent reported passed edge_id message e =
      let incomplete = reported_incomplete reported in
      let own : Observation = elim intent [
        | none ↦ not_reported e.id now
        | some i ↦
            if e.id == "subscriber-intent"
            then passed_webhook_observation e.id i.observed_at []
            else not_reported e.id now
      ] in
      let known = or_else_observation (by_edge passed e.id) own in
      let merged =
        if not (e.id == edge_id) || incomplete
        then or_else_observation (by_edge reported e.id) known
        else known in
      if e.id == edge_id && not incomplete
      then unresolved e.id "participant-result-incomplete" "check-participant-diagnostic" message
          now
      else merged

  -- incompleteWebhookResult
  unfoldable pub incomplete_webhook_result :
      ExpectedGraph
      → ℕ
      → Option WebhookSubscriberIntent
      → Option EndpointResponse
      → List Observation
      → String
      → String
      → Result DiagnoseError Report
  incomplete_webhook_result g now intent response passed edge_id message =
      conclude g
        (map (incomplete_edge now intent (observations_of response) passed edge_id message) g.edges)
        now now

  -- The switch over the observations of mergeWebhookPassiveObservations.
  unfoldable pub check_passive : List Observation → Result DiagnoseError (Unit {0})
  check_passive [] = ok tt
  check_passive (o ∷ os) =
      fail_if (not (contains webpa_edges o.edge_id)) (unexpected_observation o.edge_id)
      >> check_passive os

  abbrev pub merged_edge : WebhookSubscriberIntent → EndpointResponse → Edge → Observation
  merged_edge intent r e =
      if e.id == "subscriber-intent"
      then passed_webhook_observation e.id intent.observed_at []
      else if contains active_edges e.id
      then unresolved e.id "active-callback-not-requested" "allow-active-callback"
          "active callback diagnosis was not requested" r.observed_at
      else or_else_observation (by_edge r.observations e.id) (
          unresolved e.id "webpa-observation-missing" "" "WebPA did not return an observation"
            r.observed_at)

  -- mergeWebhookPassiveObservations
  unfoldable pub merge_webhook_passive_observations :
      ℕ
      → List Edge
      → WebhookSubscriberIntent
      → EndpointResponse
      → Result DiagnoseError (List Observation × String)
  merge_webhook_passive_observations now edges intent r =
      check_passive r.observations
      >> evaluated (apply_causality now edges (map (merged_edge intent r) edges) r.observed_at)
