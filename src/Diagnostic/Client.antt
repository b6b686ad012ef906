-- ===== src/Diagnostic/Client.antt =====
-- controlplane/internal/diagnostic/client.go: the requests of a diagnosis, as a trace of events, the latest first. `World` says what
-- an endpoint answers, which may depend on all that happened before.
use vcpe.Common.{
  [], nat_eq, true, zero, leb, string_eq, suc, ◌&&◌, ◌∷◌, none, ◌==◌, ◌||◌, false, if◌then◌else◌,
  not, Bool, String, some, List, Option, ℕ,
}
use vcpe.Diagnostic.Validate.{validate_response, validate_routing, validate_capabilities}
use vcpe.Diagnostic.Invocation.{validate_for, validate_receipt, validate_intent, Receipt}
use vcpe.Common.Result.{◌>>◌, is_ok}
use vcpe.Diagnostic.Fields.{has_value, validate_correlation_id, validate_id, Check}
use vcpe.Diagnostic.Model.{state_passed, Observation}
use vcpe.Diagnostic.Document.{
  RoutingObservation, journey_cpe_webpa_callback, journey_webhook, Capabilities,
  CpeActiveEventResult, EndpointResponse, WebhookSubscriberIntent, Invocation,
}
use vcpe.Diagnostic.Formats.{Formats}

-- An answer is none if the request fails or its body does not decode. A missing routing observation
-- or receipt, which is status 404, is an answer.
pub data Event : Type 0 where
  discovered : ℕ → Option Capabilities → Event
  ran : ℕ → String → Invocation → Option EndpointResponse → Event
  intent_read : ℕ → Option WebhookSubscriberIntent → Event
  routed : ℕ → String → Option (Option RoutingObservation) → Event
  polled : ℕ → String → Option (Option Receipt) → Event

abbrev pub Trace : Type 0
Trace = List Event

pub record World : Type 0 where
  pub capabilities : Trace → ℕ → Option Capabilities
  pub response : Trace → ℕ → String → Invocation → Option EndpointResponse
  pub intent : Trace → ℕ → Option WebhookSubscriberIntent
  pub routing : Trace → ℕ → String → Option (Option RoutingObservation)
  pub receipt : Trace → ℕ → String → Option (Option Receipt)
  -- newDiagnosticCorrelationID, and the clock
  pub correlation_id : Trace → Option String
  pub now : Trace → ℕ

-- targetURL, on a port of 127.0.0.1
abbrev pub is_port : ℕ → Bool
is_port port = not (port == 0) && leb port 65535

-- An answer that passes its check.
abbrev pub checked {ℓ} : {A : Type ℓ} → (A → Check) → Option A → Option A
checked check none = none
checked check (some a) = if is_ok (check a) then some a else none

abbrev pub max_receipt_poll_attempts : ℕ
max_receipt_poll_attempts = 5

module _ (f : Formats) (w : World) where
  -- Discover
  unfoldable pub discover : ℕ → Trace → Option Capabilities × Trace
  discover port t =
      let answer = w.capabilities t port in
      if is_port port
      then (checked validate_capabilities answer, discovered port answer ∷ t)
      else (none, t)

  -- Run
  unfoldable pub run : ℕ → String → Invocation → Trace → Option EndpointResponse × Trace
  run port journey i t =
      let answer = w.response t port journey i in
      if is_ok (validate_id "journey" journey >> validate_for f journey i) && is_port port
      then (checked (validate_response f) answer, ran port journey i answer ∷ t)
      else (none, t)

  -- SubscriberIntent
  unfoldable pub subscriber_intent : ℕ → Trace → Option WebhookSubscriberIntent × Trace
  subscriber_intent port t =
      let answer = w.intent t port in
      if is_port port
      then (checked (validate_intent f) answer, intent_read port answer ∷ t)
      else (none, t)

  -- Whether RunWebhook has the acknowledgement that it needs.
  abbrev pub is_acknowledged : Invocation → Option EndpointResponse → Bool
  is_acknowledged i none = false
  is_acknowledged i (some r) =
      not i.allow_active_callback
      || elim r.active [ none ↦ false | some a ↦ a.phase == i.active_phase ]

  -- RunWebhook: whether there was no error, and the response, which may come with one.
  unfoldable pub run_webhook :
      ℕ → WebhookSubscriberIntent → Invocation → Trace → (Bool × Option EndpointResponse) × Trace
  run_webhook port intent i t =
      let sent = record i { subscriber_intent = some intent } in
      let (response, t') = run port journey_webhook sent t in
      if is_ok (validate_intent f intent) && not (has_value i.subscriber_intent)
      then ((is_acknowledged sent response, response), t')
      else ((false, none), t)

  -- The loop of RunCPECallback: the first observation of the active event decides.
  unfoldable pub is_accepted : Option CpeActiveEventResult → List Observation → Bool
  is_accepted event [] = elim event [ none ↦ false | some a ↦ a.accepted ]
  is_accepted event (o ∷ os) =
      let rest = is_accepted event os in
      if not (o.edge_id == "active-event-acceptance")
      then rest
      else if not (o.state == state_passed)
      then true
      else elim event [ none ↦ false | some a ↦ a.accepted ]

  -- RunCPECallback
  unfoldable pub run_cpe_callback :
      ℕ → Invocation → Trace → (Bool × Option EndpointResponse) × Trace
  run_cpe_callback port i t =
      let (response, t') = run port journey_cpe_webpa_callback i t in
      (
        (
          elim response [ none ↦ false | some r ↦ is_accepted r.active_event r.observations ],
          response,
        ),
        t',
      )

  -- ObserveRouting, where a missing record and an error are treated alike by the caller.
  unfoldable pub observe_routing : ℕ → String → Trace → Option RoutingObservation × Trace
  observe_routing port id t =
      let answer = w.routing t port id in
      if is_ok (validate_correlation_id id) && is_port port
      then (
        elim answer [ none ↦ none | some found ↦ checked (validate_routing id) found ],
        routed port id answer ∷ t,
      )
      else (none, t)

  -- One attempt of PollReceipt: an error, no receipt yet, or a receipt.
  abbrev pub poll_answered :
      String → Option (Option Receipt) → Option Receipt × Trace → Trace → Option Receipt × Trace
  poll_answered id none again t = (none, t)
  poll_answered id (some none) again t = again
  poll_answered id (some (some r)) again t = (checked (validate_receipt id) (some r), t)

  -- The loop of PollReceipt, over the attempts that are left. The context stays open.
  unfoldable pub poll : ℕ → ℕ → String → Trace → Option Receipt × Trace
  poll zero port id t = (none, t)
  poll (suc attempts) port id t =
      let answer = w.receipt t port id in
      let t' = polled port id answer ∷ t in
      let again = poll attempts port id t' in
      if not (is_port port) then (none, t) else poll_answered id answer again t'

  -- PollReceipt
  unfoldable pub poll_receipt : ℕ → String → Trace → Option Receipt × Trace
  poll_receipt port id t =
      if is_ok (validate_correlation_id id)
      then poll max_receipt_poll_attempts port id t
      else (none, t)
