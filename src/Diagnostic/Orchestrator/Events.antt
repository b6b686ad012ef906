-- ===== src/Diagnostic/Orchestrator/Events.antt =====
-- controlplane/internal/diagnostic/client.go: the requests that a diagnosis may send, and when.
use vcpe.Common.{
  string_eq, [], arith, none, ◌&&◌, ◌==◌, refl, some, ◌||◌, ◌∷◌, false, not, some_where, true, ◌∙◌,
  ◌≡◌, Bool, String,
}
use vcpe.Diagnostic.Client.{Trace, Event, ran, polled, intent_read, discovered, routed}
use vcpe.Diagnostic.Document.{
  journey_webhook, journey_cpe_webpa, webhook_active_caduceus, webhook_active_direct, Invocation,
}
use vcpe.Diagnostic.Reports.{all_passed}

-- The events that the order of a diagnosis is about.
abbrev pub is_event_run : Event → Bool
is_event_run (ran port journey i answer) = i.allow_active_event
is_event_run (discovered port answer) = false
is_event_run (intent_read port answer) = false
is_event_run (routed port id answer) = false
is_event_run (polled port id answer) = false

abbrev pub is_passed : String → Event → Bool
is_passed j (ran port journey i none) = false
is_passed j (ran port journey i (some r)) = journey == j && all_passed r.observations
is_passed j (discovered port answer) = false
is_passed j (intent_read port answer) = false
is_passed j (routed port id answer) = false
is_passed j (polled port id answer) = false

abbrev pub is_direct_receipt : Event → Bool
is_direct_receipt (polled port id none) = false
is_direct_receipt (polled port id (some none)) = false
is_direct_receipt (polled port id (some (some r))) = r.source == webhook_active_direct
is_direct_receipt (ran port journey i answer) = false
is_direct_receipt (discovered port answer) = false
is_direct_receipt (intent_read port answer) = false
is_direct_receipt (routed port id answer) = false

abbrev pub is_intent : Event → Bool
is_intent (intent_read port none) = false
is_intent (intent_read port (some i)) = true
is_intent (ran port journey i answer) = false
is_intent (discovered port answer) = false
is_intent (routed port id answer) = false
is_intent (polled port id answer) = false

-- When an invocation may be sent behind a trace: an active callback only with the consent of the request, the
-- Caduceus operation only behind the receipt of the direct callback, and the marked event only
-- once, behind the intent of the subscriber and behind answers of the CPE and of WebPA that all passed.
abbrev pub may_send : Bool → Invocation → Trace → Bool
may_send consent i t =
    (not i.allow_active_callback || consent)
    && ((not (i.active_phase == webhook_active_caduceus) || some_where is_direct_receipt t)
        && (not i.allow_active_event
            || (some_where (is_passed journey_cpe_webpa) t
                && (some_where is_intent t
                    && (some_where (is_passed journey_webhook) t
                        && not (some_where is_event_run t))))))

abbrev pub allowed : Bool → Event → Trace → Bool
allowed consent (ran port journey i answer) t = may_send consent i t
allowed consent (discovered port answer) t = true
allowed consent (intent_read port answer) t = true
allowed consent (routed port id answer) t = true
allowed consent (polled port id answer) t = true

-- Every event of a trace was allowed when it happened.
unfoldable pub guarded : Bool → Trace → Bool
guarded consent [] = true
guarded consent (e ∷ t) = allowed consent e t && guarded consent t

-- A trace that grew by events that need no permission.
pub record Extends (consent : Bool) (t t' : Trace) : Type 0 where
  pub guards : guarded consent t ≡ true → guarded consent t' ≡ true
  pub keeps : (p : Event → Bool) → some_where p t ≡ true → some_where p t' ≡ true
  pub events : some_where is_event_run t' ≡ some_where is_event_run t

module _ (consent : Bool) where
  pub Extends-same : (t : Trace) → Extends consent t t
  Extends-same t = record { guards = λ h. h; keeps = λ p h. h; events = refl }

  pub Extends-one :
      (e : Event) (t : Trace)
      → allowed consent e t ≡ true
      → is_event_run e ≡ false
      → Extends consent t (e ∷ t)
  unfolding guarded some_where
  Extends-one e t free quiet = record {
    guards = λ h. ground (arith, free, h);
    keeps = λ p h. ground (arith, h);
    events = rw quiet refl;
  }

  pub Extends-then :
      (a b c : Trace) → Extends consent a b → Extends consent b c → Extends consent a c
  Extends-then a b c h h' = record {
    guards = λ g. h'.guards (h.guards g);
    keeps = λ p g. h'.keeps p (h.keeps p g);
    events = h'.events ∙ h.events;
  }
