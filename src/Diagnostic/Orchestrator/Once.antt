-- ===== src/Diagnostic/Orchestrator/Once.antt =====
-- controlplane/internal/diagnostic/orchestrator.go: the callback journey asks for its marked event at most once, behind all passive
-- evidence, and so every journey of Diagnose keeps the order of events.
use vcpe.Common.{
  [], ◌∷◌, string_eq, arith, inl, inr, ◌||◌, not, refl, ◌==◌, Bool-cases, none, some, Option, false,
  String, true, some_where, ◌∙◌, ◌≡◌, Bool,
}
use vcpe.Diagnostic.Invocation.{validate_representative_selection, Receipt}
use vcpe.Common.Result.{is_ok}
use vcpe.Diagnostic.Orchestrator.Events.{guarded, Extends, is_passed, is_intent, is_event_run}
use vcpe.Diagnostic.Orchestrator.Requests.{
  observe_routing-Extends, subscriber_intent-some, poll_receipt-Extends, subscriber_intent-Extends,
  discover-Extends, run-Guarded, run-Extends, run-passed,
}
use vcpe.Diagnostic.Document.{
  journey_webhook_subscriber, journey_cpe_webpa_callback, journey_webhook, journey_cpe_webpa,
  EndpointResponse, WebhookSubscriberIntent, Capabilities, RoutingObservation,
}
use vcpe.Diagnostic.Orchestrator.Marked.{
  event_invocation, is_usable, unaccepted, cpe_discovered, cpe_ran,
  diagnose_cpe_callback_prerequisites, intent_received, marked_allowed, marked_answered,
  marked_received, marked_routed, subscriber_discovered, webpa_discovered, webpa_passed, webpa_ran,
}
use vcpe.Diagnostic.Reports.{supports_journey, all_passed, ExpectedGraph}
use vcpe.Diagnostic.Orchestrator.{no_invocation, Selection, ResolveRequest, Diagnosis}
use vcpe.Diagnostic.Client.{run_cpe_callback, World, Trace}
use vcpe.Diagnostic.Orchestrator.Callback.{
  complete_cpe_callback_result, callback_cpe_callback_result,
}
use vcpe.Diagnostic.Formats.{Formats}
use vcpe.Diagnostic.Orchestrator.Ordered.{Good, run_webhook-Extends, run_webhook-passed}

-- A trace that kept the order, before the marked event.
record Quiet (consent : Bool) (t : Trace) : Type 0 where
  guard : guarded consent t ≡ true
  fresh : some_where is_event_run t ≡ false

Quiet-Extends :
    (consent : Bool) (t t' : Trace) → Extends consent t t' → Quiet consent t → Quiet consent t'
Quiet-Extends consent t t' e q = record { guard = e.guards q.guard; fresh = e.events ∙ q.fresh }

-- Behind the passive answers of the CPE and of the subscriber.
record Informed (consent : Bool) (t : Trace) : Type 0 where
  quiet : Quiet consent t
  cpe : some_where (is_passed journey_cpe_webpa) t ≡ true
  intent : some_where is_intent t ≡ true

Informed-Extends :
    (consent : Bool) (t t' : Trace)
    → Extends consent t t'
    → Informed consent t
    → Informed consent t'
Informed-Extends consent t t' e k = record {
  quiet = Quiet-Extends consent t t' e k.quiet;
  cpe = e.keeps (is_passed journey_cpe_webpa) k.cpe;
  intent = e.keeps is_intent k.intent;
}

module _ (consent : Bool) (f : Formats) (w : World) (sel : Selection) (g : ExpectedGraph)
    (regex : String → String → Option Bool) (request : ResolveRequest) where
  abbrev Sound : Diagnosis → Type 0
  Sound d = Good consent f w sel g d

  marked_received-Good :
      (active : EndpointResponse) (i : WebhookSubscriberIntent) (webpa : EndpointResponse)
      (routing : RoutingObservation) (receipt : Option Receipt) (t : Trace)
      → guarded consent t ≡ true
      → Sound (marked_received f w sel g regex request active i webpa routing receipt t)
  unfolding marked_received callback_cpe_callback_result complete_cpe_callback_result
  marked_received-Good active i webpa routing none t h = h
  marked_received-Good active i webpa routing (some r) t h =
      elim (Bool-cases (r.source == "caduceus")) [
        | inl same ↦ rw (marked_received, same) h
        | inr other ↦ rw (marked_received, other) h
      ]

  marked_routed-Good :
      (active : EndpointResponse) (i : WebhookSubscriberIntent) (webpa : EndpointResponse)
      (id : String) (routing : Option RoutingObservation) (t : Trace)
      → guarded consent t ≡ true
      → Sound (marked_routed f w sel g regex request active i webpa id routing t)
  unfolding marked_routed callback_cpe_callback_result
  marked_routed-Good active i webpa id none t h = h
  marked_routed-Good active i webpa id (some routing) t h =
      marked_received-Good active i webpa routing _ _
        ((poll_receipt-Extends consent f w sel.subscriber_endpoint id t).guards h)

  unaccepted-Good :
      (cpe : EndpointResponse) (i : WebhookSubscriberIntent) (webpa : EndpointResponse)
      (answer : Option EndpointResponse) (t : Trace)
      → guarded consent t ≡ true
      → Sound (unaccepted f w sel g regex request cpe i webpa answer t)
  unfolding callback_cpe_callback_result
  unaccepted-Good cpe i webpa none t h = h
  unaccepted-Good cpe i webpa (some active) t h = elim (Bool-cases (is_usable active)) [
    | inl usable ↦ rw usable h
    | inr useless ↦ rw useless h
  ]

  marked_answered-Good :
      (cpe : EndpointResponse) (i : WebhookSubscriberIntent) (webpa : EndpointResponse)
      (id : String) (good : Bool) (answer : Option EndpointResponse) (t : Trace)
      → guarded consent t ≡ true
      → Sound (marked_answered f w sel g regex request cpe i webpa id good answer t)
  unfolding marked_answered
  marked_answered-Good cpe i webpa id false answer t h = unaccepted-Good cpe i webpa answer t h
  marked_answered-Good cpe i webpa id true none t h = unaccepted-Good cpe i webpa none t h
  marked_answered-Good cpe i webpa id true (some active) t h =
      elim (Bool-cases (
        not (active.journey == journey_cpe_webpa_callback)
        || not (all_passed active.observations))) [
          | inl failed ↦
              rw (marked_answered, failed) (unaccepted-Good cpe i webpa (some active) t h)
          | inr accepted ↦
              rw (marked_answered, accepted)
                (marked_routed-Good active i webpa id _ _
                  ((observe_routing-Extends consent f w sel.target_endpoint id t).guards h))
        ]

  marked_allowed-Good :
      (source : Capabilities) (cpe : EndpointResponse) (i : WebhookSubscriberIntent)
      (webpa : EndpointResponse) (id : Option String) (t : Trace)
      → Informed consent t
      → some_where (is_passed journey_webhook) t ≡ true
      → Sound (marked_allowed f w sel g regex request source cpe i webpa id t)
  unfolding marked_allowed callback_cpe_callback_result run_cpe_callback
  marked_allowed-Good source cpe i webpa none t k passed = k.quiet.guard
  marked_allowed-Good source cpe i webpa (some id) t k passed =
      marked_answered-Good cpe i webpa id _ _ _ (
        run-Guarded consent f w sel.endpoint journey_cpe_webpa_callback
          (event_invocation request id) t (ground (arith, k.cpe, k.intent, passed, k.quiet.fresh))
          k.quiet.guard)

  webpa_passed-Good :
      (source : Capabilities) (cpe : EndpointResponse) (i : WebhookSubscriberIntent)
      (webpa : EndpointResponse) (t : Trace)
      → Informed consent t
      → some_where (is_passed journey_webhook) t ≡ true
      → Sound (webpa_passed f w sel g regex request source cpe i webpa t)
  unfolding webpa_passed callback_cpe_callback_result
  webpa_passed-Good source cpe i webpa t k passed =
      elim (Bool-cases (supports_journey source journey_cpe_webpa_callback)) [
        | inr old ↦ rw (webpa_passed, old) k.quiet.guard
        | inl new ↦
            elim (Bool-cases (
              is_ok (
                validate_representative_selection regex (i.event_filter ∷ [])
                  (i.device_matcher ∷ []) request.event request.device_id))) [
                    | inr mismatch ↦ rw (webpa_passed, new, mismatch) k.quiet.guard
                    | inl fits ↦
                        rw (webpa_passed, new, fits)
                          (marked_allowed-Good source cpe i webpa (w.correlation_id t) t k passed)
                  ]
      ]

  webpa_ran-Good :
      (source : Capabilities) (cpe : EndpointResponse) (i : WebhookSubscriberIntent) (good : Bool)
      (answer : Option EndpointResponse) (t : Trace)
      → Informed consent t
      → ((r : EndpointResponse)
          → answer ≡ some r
          → all_passed r.observations ≡ true
          → some_where (is_passed journey_webhook) t ≡ true)
      → Sound (webpa_ran f w sel g regex request source cpe i good answer t)
  unfolding webpa_ran callback_cpe_callback_result
  webpa_ran-Good source cpe i false answer t k passed = k.quiet.guard
  webpa_ran-Good source cpe i true none t k passed = k.quiet.guard
  webpa_ran-Good source cpe i true (some r) t k passed =
      elim (Bool-cases (r.journey == journey_webhook)) [
        | inr other ↦ rw (webpa_ran, other) k.quiet.guard
        | inl same ↦ elim (Bool-cases (all_passed r.observations)) [
          | inr failed ↦ rw (webpa_ran, same, failed) k.quiet.guard
          | inl fine ↦
              rw (webpa_ran, same, fine) (webpa_passed-Good source cpe i r t k (passed r refl fine))
        ]
      ]

  webpa_discovered-Good :
      (source : Capabilities) (cpe : EndpointResponse) (i : WebhookSubscriberIntent)
      (answer : Option Capabilities) (t : Trace)
      → Informed consent t
      → Sound (webpa_discovered f w sel g regex request source cpe i answer t)
  unfolding webpa_discovered callback_cpe_callback_result
  webpa_discovered-Good source cpe i none t k = k.quiet.guard
  webpa_discovered-Good source cpe i (some c) t k =
      elim (Bool-cases (supports_journey c journey_webhook)) [
        | inr refused ↦ rw (webpa_discovered, refused) k.quiet.guard
        | inl taken ↦
            rw (webpa_discovered, taken)
              (webpa_ran-Good source cpe i _ _ _
                (Informed-Extends consent t _
                  (run_webhook-Extends consent f w sel.target_endpoint i no_invocation t refl refl)
                  k)
                (λ r got fine.
                  run_webhook-passed consent f w sel.target_endpoint i no_invocation t got fine))
      ]

  intent_received-Good :
      (source : Capabilities) (cpe : EndpointResponse) (answer : Option WebhookSubscriberIntent)
      (t : Trace)
      → Quiet consent t
      → some_where (is_passed journey_cpe_webpa) t ≡ true
      → ((i : WebhookSubscriberIntent) → answer ≡ some i → some_where is_intent t ≡ true)
      → Sound (intent_received f w sel g regex request source cpe answer t)
  unfolding intent_received callback_cpe_callback_result
  intent_received-Good source cpe none t q passed known = q.guard
  intent_received-Good source cpe (some i) t q passed known =
      webpa_discovered-Good source cpe i _ _ (
        Informed-Extends consent t _ (discover-Extends consent f w sel.target_endpoint t)
          (record { quiet = q; cpe = passed; intent = known i refl }))

  subscriber_discovered-Good :
      (source : Capabilities) (cpe : EndpointResponse) (answer : Option Capabilities) (t : Trace)
      → Quiet consent t
      → some_where (is_passed journey_cpe_webpa) t ≡ true
      → Sound (subscriber_discovered f w sel g regex request source cpe answer t)
  unfolding subscriber_discovered callback_cpe_callback_result
  subscriber_discovered-Good source cpe none t q passed = q.guard
  subscriber_discovered-Good source cpe (some c) t q passed =
      let extends = subscriber_intent-Extends consent f w sel.subscriber_endpoint t in
      elim (Bool-cases (supports_journey c journey_webhook_subscriber)) [
        | inr refused ↦ rw (subscriber_discovered, refused) q.guard
        | inl taken ↦
            rw (subscriber_discovered, taken)
              (intent_received-Good source cpe _ _ (Quiet-Extends consent t _ extends q)
                (extends.keeps (is_passed journey_cpe_webpa) passed)
                (λ i got. subscriber_intent-some consent f w sel.subscriber_endpoint t got))
      ]

  cpe_ran-Good :
      (source : Capabilities) (answer : Option EndpointResponse) (t : Trace)
      → Quiet consent t
      → ((r : EndpointResponse)
          → answer ≡ some r
          → all_passed r.observations ≡ true
          → some_where (is_passed journey_cpe_webpa) t ≡ true)
      → Sound (cpe_ran f w sel g regex request source answer t)
  unfolding cpe_ran callback_cpe_callback_result
  cpe_ran-Good source none t q passed = q.guard
  cpe_ran-Good source (some r) t q passed =
      let extends = discover-Extends consent f w sel.subscriber_endpoint t in
      elim (Bool-cases (r.journey == journey_cpe_webpa)) [
        | inr other ↦ rw (cpe_ran, other) q.guard
        | inl same ↦ elim (Bool-cases (all_passed r.observations)) [
          | inr failed ↦ rw (cpe_ran, same, failed) q.guard
          | inl fine ↦
              rw (cpe_ran, same, fine)
                (subscriber_discovered-Good source r _ _ (Quiet-Extends consent t _ extends q)
                  (extends.keeps (is_passed journey_cpe_webpa) (passed r refl fine)))
        ]
      ]

  cpe_discovered-Good :
      (answer : Option Capabilities) (t : Trace)
      → Quiet consent t
      → Sound (cpe_discovered f w sel g regex request answer t)
  unfolding cpe_discovered callback_cpe_callback_result
  cpe_discovered-Good none t q = q.guard
  cpe_discovered-Good (some c) t q =
      let asked = record no_invocation { client_service = request.client_service } in
      elim (Bool-cases (supports_journey c journey_cpe_webpa)) [
        | inr refused ↦ rw (cpe_discovered, refused) q.guard
        | inl taken ↦
            rw (cpe_discovered, taken)
              (cpe_ran-Good c _ _
                (Quiet-Extends consent t _
                  (run-Extends consent f w sel.endpoint journey_cpe_webpa asked t refl refl) q)
                (λ r got fine.
                  run-passed consent f w sel.endpoint journey_cpe_webpa asked t got fine))
      ]

  pub diagnose_cpe_callback-Good :
      (t : Trace)
      → guarded consent t ≡ true
      → some_where is_event_run t ≡ false
      → Sound (diagnose_cpe_callback_prerequisites f w sel g regex request t)
  unfolding diagnose_cpe_callback_prerequisites
  diagnose_cpe_callback-Good t guard fresh = cpe_discovered-Good _ _ (
      Quiet-Extends consent t _ (discover-Extends consent f w sel.endpoint t)
        (record { guard = guard; fresh = fresh }))
