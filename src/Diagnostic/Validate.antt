-- ===== src/Diagnostic/Validate.antt =====
-- controlplane/internal/diagnostic/model.go: Result.Validate, EndpointResponse.Validate, Capabilities.Validate and
-- RoutingObservation.Validate.
pub mod Causal
use vcpe.Diagnostic.Document.{
  journey_cpe_webpa_callback, wrong_first_failure, only_for, too_long, journey_webhook, max_edges,
  max_evidence_per_edge, max_nodes, not_sorted, max_label_length, max_message_length, too_many,
  unknown_node, unsupported_journey, duplicate, invalid, max_capabilities, missing, not_skipped,
  bad_state, unsupported_schema, webhook_active_caduceus, EndpointResponse, capabilities_schema,
  other_edge, schema_version, webhook_active_direct, DocumentError, RoutingObservation,
  WebhookActiveResult, Capabilities, Node, Report,
}
use vcpe.Common.{
  ◌<>◌, false, none, some, [], contains, nat_eq, true, ltb, string_eq, not, ◌||◌, ◌∷◌, ◌&&◌, ◌==◌,
  Option, if◌then◌else◌, length, Bool, List, String, ℕ,
}
use vcpe.Common.Result.{◌>>=◌, ◌>>◌, fail_if, ok, Result}
use vcpe.Diagnostic.Fields.{
  when_some, is_status, result_journey, Check, validate_evidence, validate_text,
  validate_correlation_id, validate_id, validate_identity, validate_optional_id,
}
use vcpe.Diagnostic.Formats.{byte_length, Formats}
use vcpe.Diagnostic.Fields.Lists.{
  behind_last, validate_talaria_device_collection, validate_talaria_device_list,
  validate_webhook_registration_list, validate_parodus_client_list,
}
use vcpe.Diagnostic.Model.{
  state_skipped, state_unknown, state_failed, valid_state, Edge, Evidence, Observation,
}
use vcpe.Common.Sort.{text_before}
use vcpe.Common.Int.{ltb_ℤ, pos, ℤ}

-- The first failure and the block after one observation.
abbrev pub failure_after : Observation → Edge → String → String
failure_after o e first = if o.state == state_failed && first == "" then e.id else first

abbrev pub block_after : Observation → Edge → Bool → Bool
block_after o e blocked =
    if e.blocks_following && (o.state == state_failed || o.state == state_unknown)
    then true
    else blocked

module _ (f : Formats) where
  -- The loop over the nodes, which returns their names.
  unfoldable pub check_nodes : List String → List Node → Result DocumentError (List String)
  unfolding validate_id validate_text
  check_nodes seen [] = ok seen
  check_nodes seen (n ∷ nodes) =
      validate_id "node" n.id
      >> fail_if (contains seen n.id) (duplicate "node" n.id)
      >> validate_text f "node label" n.label max_label_length true
      >> validate_id "node kind" n.kind
      >> check_nodes (n.id ∷ seen) nodes

  unfoldable pub check_edges : List String → List String → List Edge → Check
  unfolding validate_id validate_text
  check_edges nodes seen [] = ok tt
  check_edges nodes seen (e ∷ edges) =
      validate_id "edge" e.id
      >> fail_if (contains seen e.id) (duplicate "edge" e.id)
      >> fail_if (not (contains nodes e.from)) (unknown_node e.id e.from)
      >> fail_if (not (contains nodes e.to)) (unknown_node e.id e.to)
      >> validate_text f "edge label" e.label max_label_length true
      >> check_edges nodes (e.id ∷ seen) edges

  -- What the loop over the observations asks of one, without the others.
  unfoldable pub check_observation : Edge → Observation → Check
  unfolding validate_optional_id validate_text validate_evidence valid_state
  check_observation e o =
      fail_if (not (o.edge_id == e.id)) (other_edge o.edge_id e.id)
      >> fail_if (not (valid_state o.state)) (bad_state e.id o.state)
      >> fail_if (o.observed_at == 0) (missing "observation time")
      >> validate_optional_id "reason" o.reason_id
      >> validate_optional_id "remediation" o.remediation_id
      >> validate_text f "observation message" o.message max_message_length false
      >> fail_if (ltb max_evidence_per_edge (length o.evidence))
          (too_many "evidence" (length o.evidence))
      >> validate_evidence f ("edge " <> e.id) [] o.evidence

  -- The loop over the observations, from the first failed edge and the block so far. It returns the
  -- first failed edge.
  unfoldable pub check_observations :
      List Edge → List Observation → String → Bool → Result DocumentError String
  unfolding check_observation
  check_observations [] os first blocked = ok first
  check_observations (e ∷ es) [] first blocked = ok first
  check_observations (e ∷ es) (o ∷ os) first blocked =
      check_observation e o
      >> fail_if (blocked && not (o.state == state_skipped)) (not_skipped e.id)
      >> check_observations es os (failure_after o e first) (block_after o e blocked)

  -- `len(list) == 0 || len(list) > limit`
  abbrev pub out_of {ℓ} : {A : Type ℓ} → ℕ → List A → Bool
  out_of limit list = length list == 0 || ltb limit (length list)

  -- Result.Validate
  unfoldable pub validate_report : Report → Check
  unfolding validate_identity validate_parodus_client_list validate_webhook_registration_list
      validate_talaria_device_list validate_evidence check_nodes check_edges check_observations
      validate_talaria_device_collection
  validate_report r =
      fail_if (not (r.schema == schema_version)) (unsupported_schema r.schema)
      >> fail_if (not (result_journey r.journey)) (unsupported_journey r.journey)
      >> validate_identity "source" r.source
      >> validate_identity "target" r.target
      >> validate_parodus_client_list r.journey r.parodus_clients r.parodus_clients_truncated
      >> validate_webhook_registration_list f r.journey r.webhook_registrations
      >> validate_talaria_device_list f r.journey r.talaria_devices
      >> fail_if (r.observed_at == 0) (missing "diagnostic observation time")
      >> fail_if (out_of max_nodes r.nodes) (too_many "nodes" (length r.nodes))
      >> fail_if (out_of max_edges r.edges) (too_many "edges" (length r.edges))
      >> fail_if (not (length r.observations == length r.edges))
          (too_many "observations" (length r.observations))
      >> fail_if (ltb max_evidence_per_edge (length r.metadata))
          (too_many "metadata" (length r.metadata))
      >> validate_evidence f "diagnostic metadata" [] r.metadata
      >> (check_nodes [] r.nodes >>= λ nodes. check_edges nodes [] r.edges)
      >> (check_observations r.edges r.observations "" false >>= λ first.
          fail_if (not (r.first_failure == first)) (wrong_first_failure r.first_failure first))
      >> validate_talaria_device_collection r.journey r.talaria_devices r.observations

  -- The loop of EndpointResponse.Validate.
  unfoldable pub check_endpoint_observations : List String → List Observation → Check
  unfolding validate_id validate_evidence valid_state
  check_endpoint_observations seen [] = ok tt
  check_endpoint_observations seen (o ∷ os) =
      validate_id "observation edge" o.edge_id
      >> fail_if (contains seen o.edge_id) (duplicate "observation" o.edge_id)
      >> fail_if (not (valid_state o.state)) (bad_state o.edge_id o.state)
      >> fail_if (o.observed_at == 0) (missing "observation time")
      >> fail_if
          (ltb max_message_length (byte_length o.message)
            || ltb max_evidence_per_edge (length o.evidence))
          (too_long "observation")
      >> validate_evidence f ("edge " <> o.edge_id) [] o.evidence
      >> check_endpoint_observations (o.edge_id ∷ seen) os

  -- WebhookActiveResult.Validate
  unfoldable pub validate_active : WebhookActiveResult → Check
  unfolding validate_correlation_id
  validate_active a =
      fail_if (not (a.phase == webhook_active_direct) && not (a.phase == webhook_active_caduceus))
        (invalid "active webhook phase")
      >> validate_correlation_id a.correlation_id
      >> fail_if (not (is_status (some a.http_status))) (invalid "active webhook HTTP status")

  -- EndpointResponse.Validate
  unfoldable pub validate_response : EndpointResponse → Check
  unfolding validate_parodus_client_list validate_webhook_registration_list
      validate_talaria_device_list validate_active check_endpoint_observations
      validate_talaria_device_collection
  validate_response r =
      fail_if (not (r.schema == schema_version)) (unsupported_schema r.schema)
      >> fail_if (not (result_journey r.journey)) (unsupported_journey r.journey)
      >> validate_parodus_client_list r.journey r.parodus_clients r.parodus_clients_truncated
      >> validate_webhook_registration_list f r.journey r.webhook_registrations
      >> validate_talaria_device_list f r.journey r.talaria_devices
      >> when_some
          (λ a.
            fail_if (not (r.journey == journey_webhook)) (only_for journey_webhook)
            >> validate_active a)
          r.active
      >> when_some
          (λ a.
            fail_if (not (r.journey == journey_cpe_webpa_callback))
              (only_for journey_cpe_webpa_callback)
            >> fail_if (not a.accepted) (invalid "active event result"))
          r.active_event
      >> fail_if (r.observed_at == 0) (missing "diagnostic endpoint observation time")
      >> fail_if (out_of max_edges r.observations) (too_many "observations" (length r.observations))
      >> check_endpoint_observations [] r.observations
      >> validate_talaria_device_collection r.journey r.talaria_devices r.observations

-- The loop of Capabilities.Validate.
unfoldable pub check_journeys : List String → Option String → List String → Check
unfolding validate_id
check_journeys seen previous [] = ok tt
check_journeys seen previous (j ∷ journeys) =
    validate_id "journey" j
    >> fail_if (contains seen j) (duplicate "journey" j)
    >> fail_if (behind_last previous j) (not_sorted "diagnostic journeys")
    >> check_journeys (j ∷ seen) (some j) journeys

-- Capabilities.Validate
unfoldable pub validate_capabilities : Capabilities → Check
unfolding check_journeys
validate_capabilities c =
    fail_if (not (c.schema == capabilities_schema)) (unsupported_schema c.schema)
    >> fail_if (ltb max_capabilities (length c.journeys)) (too_many "journeys" (length c.journeys))
    >> check_journeys [] none c.journeys

-- RoutingObservation.Validate
unfoldable pub validate_routing : String → RoutingObservation → Check
unfolding validate_correlation_id
validate_routing correlation_id o =
    fail_if (not (o.schema == schema_version)) (unsupported_schema o.schema)
    >> validate_correlation_id correlation_id
    >> fail_if (not (o.correlation_id == correlation_id)) (invalid "correlation ID")
    >> fail_if (not (o.state == "selected")) (invalid "routing observation state")
    >> fail_if (o.observed_at == 0) (missing "routing observation time")
