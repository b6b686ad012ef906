-- ===== src/Diagnostic/Orchestrator/Ordered.antt =====
-- controlplane/internal/diagnostic/orchestrator.go: the webhook journeys send nothing that the order of events forbids.
use vcpe.Diagnostic.Orchestrator.Events.{
  Extends-same, guarded, may_send, Extends, is_passed, is_direct_receipt,
}
use vcpe.Diagnostic.Orchestrator.Requests.{
  run-Extends, run-Guarded, run-passed, poll_receipt-Extends, poll_receipt-some,
  subscriber_intent-Extends, discover-Extends,
}
use vcpe.Diagnostic.Fields.{has_value}
use vcpe.Common.{
  arith, string_eq, ◌&&◌, inr, inl, none, refl, some_where, ◌==◌, Bool-cases, Option-cases, false,
  ◌||◌, Option, not, some, true, ◌≡◌, ℕ, Bool,
}
use vcpe.Diagnostic.Document.{
  journey_webhook, webhook_active_caduceus, webhook_active_direct, EndpointResponse, Invocation,
  WebhookSubscriberIntent, WebhookActiveResult, Capabilities,
}
use vcpe.Diagnostic.Invocation.{validate_intent, Receipt}
use vcpe.Common.Result.{is_ok}
use vcpe.Diagnostic.Orchestrator.{
  with_webhook_phase, no_invocation, intent_answered, passive_answered, passive_stage,
  subscriber_answered, webpa_answered, with_participants, Selection, Diagnosis,
}
use vcpe.Diagnostic.Reports.{supports_journey, all_passed, ExpectedGraph}
use vcpe.Diagnostic.Orchestrator.Active.{
  caduceus_answered, caduceus_received, direct_answered, direct_received, direct_stage,
}
use vcpe.Diagnostic.Formats.{Formats}
use vcpe.Diagnostic.Client.{World, Trace, run_webhook}

module _ (consent : Bool) (f : Formats) (w : World) where
  pub run_webhook-Guarded :
      (port : ℕ) (n : WebhookSubscriberIntent) (i : Invocation) (t : Trace)
      → may_send consent i t ≡ true
      → guarded consent t ≡ true
      → guarded consent (run_webhook f w port n i t).1 ≡ true
  unfolding run_webhook
  run_webhook-Guarded port n i t free h =
      elim (Bool-cases (is_ok (validate_intent f n) && not (has_value i.subscriber_intent))) [
        | inl good ↦
            rw (run_webhook, good)
              (run-Guarded consent f w port journey_webhook
                (record i { subscriber_intent = some n }) t free h)
        | inr bad ↦ rw (run_webhook, bad) h
      ]

  pub run_webhook-Extends :
      (port : ℕ) (n : WebhookSubscriberIntent) (i : Invocation) (t : Trace)
      → may_send consent i t ≡ true
      → i.allow_active_event ≡ false
      → Extends consent t (run_webhook f w port n i t).1
  unfolding run_webhook
  run_webhook-Extends port n i t free quiet =
      elim (Bool-cases (is_ok (validate_intent f n) && not (has_value i.subscriber_intent))) [
        | inl good ↦
            rw (run_webhook, good)
              (run-Extends consent f w port journey_webhook
                (record i { subscriber_intent = some n }) t free quiet)
        | inr bad ↦ rw (run_webhook, bad) (Extends-same consent t)
      ]

  pub run_webhook-passed :
      (port : ℕ) (n : WebhookSubscriberIntent) (i : Invocation) (t : Trace) {r : EndpointResponse}
      → (run_webhook f w port n i t).0.1 ≡ some r
      → all_passed r.observations ≡ true
      → some_where (is_passed journey_webhook) (run_webhook f w port n i t).1 ≡ true
  unfolding run_webhook
  run_webhook-passed port n i t h passed =
      elim (Bool-cases (is_ok (validate_intent f n) && not (has_value i.subscriber_intent))) [
        | inl good ↦
            rw (run_webhook, good)
              (run-passed consent f w port journey_webhook (record i { subscriber_intent = some n })
                t (simp (run_webhook, good) at h) passed)
        | inr bad ↦ cc (simp (run_webhook, bad) at h)
      ]

  module _ (sel : Selection) (g : ExpectedGraph) where
    -- A diagnosis that sent only what it may.
    abbrev pub Good : Diagnosis → Type 0
    Good d = guarded consent d.1 ≡ true

    webpa_answered-Good :
        (next : WebhookSubscriberIntent → Trace → Diagnosis) (i : WebhookSubscriberIntent)
        (answer : Option Capabilities) (t : Trace)
        → ((t' : Trace) → guarded consent t' ≡ true → Good (next i t'))
        → guarded consent t ≡ true
        → Good (webpa_answered f w sel g next i answer t)
    unfolding webpa_answered
    webpa_answered-Good next i none t later h = h
    webpa_answered-Good next i (some c) t later h =
        elim (Bool-cases (supports_journey c journey_webhook)) [
          | inl taken ↦ rw (webpa_answered, taken) (later t h)
          | inr refused ↦ rw (webpa_answered, refused) h
        ]

    intent_answered-Good :
        (next : WebhookSubscriberIntent → Trace → Diagnosis)
        (answer : Option WebhookSubscriberIntent) (t : Trace)
        → ((i : WebhookSubscriberIntent) (t' : Trace)
            → guarded consent t' ≡ true
            → Good (next i t'))
        → guarded consent t ≡ true
        → Good (intent_answered f w sel g next answer t)
    unfolding intent_answered
    intent_answered-Good next none t later h = h
    intent_answered-Good next (some i) t later h =
        webpa_answered-Good next i _ _ (later i)
          ((discover-Extends consent f w sel.target_endpoint t).guards h)

    subscriber_answered-Good :
        (next : WebhookSubscriberIntent → Trace → Diagnosis) (answer : Option Capabilities)
        (t : Trace)
        → ((i : WebhookSubscriberIntent) (t' : Trace)
            → guarded consent t' ≡ true
            → Good (next i t'))
        → guarded consent t ≡ true
        → Good (subscriber_answered f w sel g next answer t)
    unfolding subscriber_answered
    subscriber_answered-Good next none t later h = h
    subscriber_answered-Good next (some c) t later h =
        elim (Bool-cases (supports_journey c "webhook-subscriber")) [
          | inl taken ↦
              rw (subscriber_answered, taken)
                (intent_answered-Good next _ _ later
                  ((subscriber_intent-Extends consent f w sel.endpoint t).guards h))
          | inr refused ↦ rw (subscriber_answered, refused) h
        ]

    pub with_participants-Good :
        (next : WebhookSubscriberIntent → Trace → Diagnosis) (t : Trace)
        → ((i : WebhookSubscriberIntent) (t' : Trace)
            → guarded consent t' ≡ true
            → Good (next i t'))
        → guarded consent t ≡ true
        → Good (with_participants f w sel g next t)
    unfolding with_participants
    with_participants-Good next t later h =
        subscriber_answered-Good next _ _ later
          ((discover-Extends consent f w sel.endpoint t).guards h)

    passive_answered-Good :
        (i : WebhookSubscriberIntent) (good : Bool) (answer : Option EndpointResponse) (t : Trace)
        → guarded consent t ≡ true
        → Good (passive_answered f w sel g i good answer t)
    unfolding passive_answered
    passive_answered-Good i false answer t h = h
    passive_answered-Good i true none t h = h
    passive_answered-Good i true (some r) t h = elim (Bool-cases (r.journey == journey_webhook)) [
      | inl same ↦ rw (passive_answered, same) h
      | inr other ↦ rw (passive_answered, other) h
    ]

    pub passive_stage-Good :
        (i : WebhookSubscriberIntent) (t : Trace)
        → guarded consent t ≡ true
        → Good (passive_stage f w sel g i t)
    unfolding passive_stage
    passive_stage-Good i t h =
        passive_answered-Good i _ _ _
          (run_webhook-Guarded sel.target_endpoint i no_invocation t refl h)

    caduceus_received-Good :
        (i : WebhookSubscriberIntent) (direct : EndpointResponse) (a : WebhookActiveResult)
        (receipt : Receipt) (caduceus : EndpointResponse) (ca : WebhookActiveResult)
        (last : Option Receipt) (t : Trace)
        → guarded consent t ≡ true
        → Good (caduceus_received f w sel g i direct a receipt caduceus ca last t)
    unfolding caduceus_received
    caduceus_received-Good i direct a receipt caduceus ca none t h = h
    caduceus_received-Good i direct a receipt caduceus ca (some last) t h =
        elim (Bool-cases (last.source == webhook_active_caduceus)) [
          | inl same ↦ rw (caduceus_received, same) h
          | inr other ↦ rw (caduceus_received, other) h
        ]

    caduceus_answered-Good :
        (i : WebhookSubscriberIntent) (direct : EndpointResponse) (a : WebhookActiveResult)
        (receipt : Receipt) (good : Bool) (answer : Option EndpointResponse) (t : Trace)
        → guarded consent t ≡ true
        → Good (caduceus_answered f w sel g i direct a receipt good answer t)
    unfolding caduceus_answered
    caduceus_answered-Good i direct a receipt false answer t h = h
    caduceus_answered-Good i direct a receipt true none t h = h
    caduceus_answered-Good i direct a receipt true (some c) t h = elim (Option-cases c.active) [
      | inl absent ↦ rw (caduceus_answered, absent) h
      | inr (ca, there) ↦
          rw (caduceus_answered, there)
            (caduceus_received-Good i direct a receipt c ca _ _
              ((poll_receipt-Extends consent f w sel.endpoint ca.correlation_id t).guards h))
    ]

    direct_received-Good :
        (invocation : Invocation) (i : WebhookSubscriberIntent) (direct : EndpointResponse)
        (a : WebhookActiveResult) (receipt : Option Receipt) (t : Trace)
        → (not invocation.allow_active_callback || consent) ≡ true
        → invocation.allow_active_event ≡ false
        → ((r : Receipt)
            → receipt ≡ some r
            → (r.source == webhook_active_direct) ≡ true
            → some_where is_direct_receipt t ≡ true)
        → guarded consent t ≡ true
        → Good (direct_received f w sel g invocation i direct a receipt t)
    unfolding direct_received
    direct_received-Good invocation i direct a none t consented quiet received h = h
    direct_received-Good invocation i direct a (some r) t consented quiet received h =
        elim (Bool-cases (r.source == webhook_active_direct)) [
          | inr other ↦ rw (direct_received, other) h
          | inl same ↦
              rw (direct_received, same)
                (caduceus_answered-Good i direct a r _ _ _ (
                  run_webhook-Guarded sel.target_endpoint i
                    (with_webhook_phase invocation webhook_active_caduceus) t
                    (ground (arith, consented, quiet, received r refl same)) h))
        ]

    direct_answered-Good :
        (invocation : Invocation) (i : WebhookSubscriberIntent) (good : Bool)
        (answer : Option EndpointResponse) (t : Trace)
        → (not invocation.allow_active_callback || consent) ≡ true
        → invocation.allow_active_event ≡ false
        → guarded consent t ≡ true
        → Good (direct_answered f w sel g invocation i good answer t)
    unfolding direct_answered
    direct_answered-Good invocation i false answer t consented quiet h = h
    direct_answered-Good invocation i true none t consented quiet h = h
    direct_answered-Good invocation i true (some d) t consented quiet h =
        elim (Option-cases d.active) [
          | inl absent ↦ rw (direct_answered, absent) h
          | inr (a, there) ↦
              rw (direct_answered, there)
                (direct_received-Good invocation i d a _ _ consented quiet
                  (λ r got source.
                    poll_receipt-some consent f w sel.endpoint a.correlation_id t got source)
                  ((poll_receipt-Extends consent f w sel.endpoint a.correlation_id t).guards h))
        ]

    pub direct_stage-Good :
        (invocation : Invocation) (i : WebhookSubscriberIntent) (t : Trace)
        → (not invocation.allow_active_callback || consent) ≡ true
        → invocation.allow_active_event ≡ false
        → guarded consent t ≡ true
        → Good (direct_stage f w sel g invocation i t)
    unfolding direct_stage
    direct_stage-Good invocation i t consented quiet h =
        direct_answered-Good invocation i _ _ _ consented quiet (
          run_webhook-Guarded sel.target_endpoint i
            (with_webhook_phase invocation webhook_active_direct) t
            (ground (arith, consented, quiet)) h)
