-- ===== src/Diagnostic/Orchestrator/Whole.antt =====
-- controlplane/internal/diagnostic/orchestrator.go: Diagnose keeps the order of events.
use vcpe.Common.{
  false, arith, if◌then◌else◌, refl, [], string_eq, none, some_where, inl, inr, ◌==◌, Bool-cases,
  some, true, ◌≡◌, Bool, Option, String,
}
use vcpe.Diagnostic.Orchestrator.Once.{diagnose_cpe_callback-Good}
use vcpe.Diagnostic.Document.{
  journey_cpe_webpa_callback, journey_webhook, EndpointResponse, Capabilities,
}
use vcpe.Diagnostic.Orchestrator.Ordered.{
  passive_stage-Good, direct_stage-Good, with_participants-Good, Good,
}
use vcpe.Common.Result.{ok, Result-cases}
use vcpe.Diagnostic.Orchestrator.{
  passive_stage, no_invocation, Selection, ResolveRequest, Diagnosis,
}
use vcpe.Diagnostic.Orchestrator.Diagnose.{
  validate_callback_request, diagnose, diagnose_source, webhook_invocation, diagnose_webhook,
  source_answered, source_discovered,
}
use vcpe.Diagnostic.Orchestrator.Active.{direct_stage}
use vcpe.Diagnostic.Orchestrator.Events.{guarded}
use vcpe.Diagnostic.Orchestrator.Requests.{discover-Extends, run-Guarded}
use vcpe.Diagnostic.Reports.{supports_journey, ExpectedGraph}
use vcpe.Diagnostic.Invocation.{validate_for}
use vcpe.Diagnostic.Formats.{Formats}
use vcpe.Diagnostic.Client.{World, Trace}

module _ (f : Formats) (w : World) (regex : String → String → Option Bool)
    (request : ResolveRequest) (sel : Selection) (g : ExpectedGraph) where
  abbrev consent : Bool
  consent = request.allow_active_callback

  source_answered-Good :
      (answer : Option EndpointResponse) (t : Trace)
      → guarded consent t ≡ true
      → Good consent f w sel g (source_answered f w regex request sel g answer t)
  unfolding source_answered
  source_answered-Good none t h = h
  source_answered-Good (some r) t h = elim (Bool-cases (r.journey == g.journey)) [
    | inl same ↦ rw (source_answered, same) h
    | inr other ↦ rw (source_answered, other) h
  ]

  source_discovered-Good :
      (answer : Option Capabilities) (t : Trace)
      → guarded consent t ≡ true
      → Good consent f w sel g (source_discovered f w regex request sel g answer t)
  unfolding source_discovered
  source_discovered-Good none t h = h
  source_discovered-Good (some c) t h = elim (Bool-cases (supports_journey c g.journey)) [
    | inr refused ↦ rw (source_discovered, refused) h
    | inl taken ↦
        rw (source_discovered, taken)
          (source_answered-Good _ _ (
            run-Guarded consent f w sel.endpoint g.journey
              (record no_invocation { client_service = request.client_service }) t refl h))
  ]

  either-Good :
      (b : Bool) (d d' : Diagnosis)
      → Good consent f w sel g d
      → Good consent f w sel g d'
      → Good consent f w sel g (if b then d else d')
  either-Good true d d' h h' = h
  either-Good false d d' h h' = h'

  diagnose_webhook-Good :
      (t : Trace)
      → guarded consent t ≡ true
      → Good consent f w sel g (diagnose_webhook f w regex request sel g t)
  unfolding diagnose_webhook
  diagnose_webhook-Good t h =
      elim (Result-cases (validate_for f journey_webhook (webhook_invocation request))) [
        | inl (e, refused) ↦ rw (diagnose_webhook, refused) h
        | inr (done, fine) ↦
            rw (diagnose_webhook, fine)
              (either-Good request.allow_active_callback _ _
                (with_participants-Good consent f w sel g
                  (direct_stage f w sel g (webhook_invocation request)) t
                  (λ i t' h'.
                    direct_stage-Good consent f w sel g (webhook_invocation request) i t'
                      (ground arith) refl h')
                  h)
                (with_participants-Good consent f w sel g (passive_stage f w sel g) t
                  (passive_stage-Good consent f w sel g) h))
      ]

  diagnose_source-Good :
      (t : Trace)
      → guarded consent t ≡ true
      → Good consent f w sel g (diagnose_source f w regex request sel g t)
  unfolding diagnose_source
  diagnose_source-Good t h =
      source_discovered-Good _ _ ((discover-Extends consent f w sel.endpoint t).guards h)

  -- Whatever the participants answer, each request that Diagnose sends is allowed by those before it:
  -- an active callback needs the consent of the request, the Caduceus operation a direct
  -- receipt, and the marked event, which is sent at most once, answers of the CPE and of WebPA that all
  -- passed and the intent of the subscriber.
  pub guarded-diagnose :
      guarded request.allow_active_callback (diagnose f w regex request sel g []).1 ≡ true
  unfolding diagnose guarded some_where
  guarded-diagnose =
      elim (Result-cases
        (if request.target == "callback" then validate_callback_request request else ok tt)) [
          | inl (e, refused) ↦ rw (diagnose, refused) refl
          | inr (done, fine) ↦ elim (Bool-cases (g.journey == journey_webhook)) [
            | inl webhook ↦ rw (diagnose, fine, webhook) (diagnose_webhook-Good [] refl)
            | inr other ↦ elim (Bool-cases (g.journey == journey_cpe_webpa_callback)) [
              | inl callback ↦
                  rw (diagnose, fine, other, callback)
                    (diagnose_cpe_callback-Good consent f w sel g regex request [] refl refl)
              | inr source ↦ rw (diagnose, fine, other, source) (diagnose_source-Good [] refl)
            ]
          ]
        ]
