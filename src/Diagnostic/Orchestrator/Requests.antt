-- ===== src/Diagnostic/Orchestrator/Requests.antt =====
-- controlplane/internal/diagnostic/client.go: what each request adds to the trace of events.
use vcpe.Common.{
  eq_iff, Option, string_eq, zero, arith, inl, inr, none, ◌&&◌, ◌==◌, Bool-cases, refl, some, suc,
  ◌∷◌, false, some_where, true, ℕ, ◌≡◌, Bool, String,
}
use vcpe.Diagnostic.Validate.{validate_response}
use vcpe.Diagnostic.Invocation.{validate_for, validate_receipt, validate_intent, Receipt}
use vcpe.Common.Result.{◌>>◌, is_ok}
use vcpe.Diagnostic.Client.{
  poll_answered, max_receipt_poll_attempts, World, Trace, ran, polled, intent_read, discovered,
  routed, discover, run, subscriber_intent, poll, poll_receipt, observe_routing, checked, is_port,
}
use vcpe.Diagnostic.Fields.{Check, validate_id, validate_correlation_id}
use vcpe.Diagnostic.Document.{
  webhook_active_direct, EndpointResponse, Invocation, WebhookSubscriberIntent,
}
use vcpe.Diagnostic.Reports.{all_passed}
use vcpe.Diagnostic.Formats.{Formats}
use vcpe.Diagnostic.Orchestrator.Events.{
  Extends, Extends-same, Extends-one, Extends-then, guarded, may_send, is_passed, is_intent,
  is_direct_receipt,
}

module _ (consent : Bool) (f : Formats) (w : World) where
  pub discover-Extends : (port : ℕ) (t : Trace) → Extends consent t (discover f w port t).1
  unfolding discover
  discover-Extends port t = elim (Bool-cases (is_port port)) [
    | inl good ↦
        rw (discover, good)
          (Extends-one consent (discovered port (w.capabilities t port)) t refl refl)
    | inr bad ↦ rw (discover, bad) (Extends-same consent t)
  ]

  pub subscriber_intent-Extends :
      (port : ℕ) (t : Trace) → Extends consent t (subscriber_intent f w port t).1
  unfolding subscriber_intent
  subscriber_intent-Extends port t = elim (Bool-cases (is_port port)) [
    | inl good ↦
        rw (subscriber_intent, good)
          (Extends-one consent (intent_read port (w.intent t port)) t refl refl)
    | inr bad ↦ rw (subscriber_intent, bad) (Extends-same consent t)
  ]

  pub observe_routing-Extends :
      (port : ℕ) (id : String) (t : Trace) → Extends consent t (observe_routing f w port id t).1
  unfolding observe_routing
  observe_routing-Extends port id t =
      elim (Bool-cases (is_ok (validate_correlation_id id) && is_port port)) [
        | inl good ↦
            rw (observe_routing, good)
              (Extends-one consent (routed port id (w.routing t port id)) t refl refl)
        | inr bad ↦ rw (observe_routing, bad) (Extends-same consent t)
      ]

  poll_answered-Extends :
      (id : String) (answer : Option (Option Receipt)) (again : Option Receipt × Trace)
      (t t' : Trace)
      → Extends consent t t'
      → Extends consent t again.1
      → Extends consent t (poll_answered f w id answer again t').1
  poll_answered-Extends id none again t t' h h' = h
  poll_answered-Extends id (some none) again t t' h h' = h'
  poll_answered-Extends id (some (some r)) again t t' h h' = h

  poll-Extends :
      (attempts port : ℕ) (id : String) (t : Trace)
      → Extends consent t (poll f w attempts port id t).1
  unfolding poll
  poll-Extends zero port id t = Extends-same consent t
  poll-Extends (suc attempts) port id t =
      let answer = w.receipt t port id in
      let one = Extends-one consent (polled port id answer) t refl refl in
      let more =
        Extends-then consent t (polled port id answer ∷ t) _ one
          (poll-Extends attempts port id (polled port id answer ∷ t)) in
      elim (Bool-cases (is_port port)) [
        | inr bad ↦ rw (poll, bad) (Extends-same consent t)
        | inl good ↦ rw (poll, good) (poll_answered-Extends id answer _ t _ one more)
      ]

  pub poll_receipt-Extends :
      (port : ℕ) (id : String) (t : Trace) → Extends consent t (poll_receipt f w port id t).1
  unfolding poll_receipt
  poll_receipt-Extends port id t = elim (Bool-cases (is_ok (validate_correlation_id id))) [
    | inl good ↦ rw (poll_receipt, good) (poll-Extends max_receipt_poll_attempts port id t)
    | inr bad ↦ rw (poll_receipt, bad) (Extends-same consent t)
  ]

  -- A check passes an answer through or drops it.
  checked-some {ℓ} :
      {A : Type ℓ} (check : A → Check) (answer : Option A) {a : A}
      → checked check answer ≡ some a
      → answer ≡ some a
  checked-some check none h = h
  checked-some check (some b) {a} h = elim (Bool-cases (is_ok (check b))) [
    | inl passes ↦ simp passes at h
    | inr fails ↦ cc (simp fails at h)
  ]

  -- The receipt that a poll returns is the answer to one of its requests.
  poll_answered-some :
      (id : String) (port : ℕ) (answer : Option (Option Receipt)) (again : Option Receipt × Trace)
      (t : Trace) {r : Receipt}
      → (poll_answered f w id answer again (polled port id answer ∷ t)).0 ≡ some r
      → (r.source == webhook_active_direct) ≡ true
      → (again.0 ≡ some r → some_where is_direct_receipt again.1 ≡ true)
      → some_where is_direct_receipt
          (poll_answered f w id answer again (polled port id answer ∷ t)).1
        ≡ true
  unfolding some_where
  poll_answered-some id port none again t h source later = cc
  poll_answered-some id port (some none) again t h source later = later h
  poll_answered-some id port (some (some b)) again t {r} h source later =
      let same : some b ≡ some r = checked-some (validate_receipt id) (some b) h in
      let is : b ≡ r = cc in rw (is, source) refl

  poll-some :
      (attempts port : ℕ) (id : String) (t : Trace) {r : Receipt}
      → (poll f w attempts port id t).0 ≡ some r
      → (r.source == webhook_active_direct) ≡ true
      → some_where is_direct_receipt (poll f w attempts port id t).1 ≡ true
  unfolding poll
  poll-some zero port id t h source = cc
  poll-some (suc attempts) port id t {r} h source =
      let answer = w.receipt t port id in
      elim (Bool-cases (is_port port)) [
        | inr bad ↦ cc (simp (poll, bad) at h)
        | inl good ↦
            rw (poll, good)
              (poll_answered-some id port answer _ t (simp (poll, good) at h) source
                (λ got. poll-some attempts port id (polled port id answer ∷ t) got source))
      ]

  pub poll_receipt-some :
      (port : ℕ) (id : String) (t : Trace) {r : Receipt}
      → (poll_receipt f w port id t).0 ≡ some r
      → (r.source == webhook_active_direct) ≡ true
      → some_where is_direct_receipt (poll_receipt f w port id t).1 ≡ true
  unfolding poll_receipt
  poll_receipt-some port id t h source = elim (Bool-cases (is_ok (validate_correlation_id id))) [
    | inr bad ↦ cc (simp (poll_receipt, bad) at h)
    | inl good ↦
        rw (poll_receipt, good)
          (poll-some max_receipt_poll_attempts port id t (simp (poll_receipt, good) at h) source)
  ]

  pub subscriber_intent-some :
      (port : ℕ) (t : Trace) {i : WebhookSubscriberIntent}
      → (subscriber_intent f w port t).0 ≡ some i
      → some_where is_intent (subscriber_intent f w port t).1 ≡ true
  unfolding subscriber_intent some_where
  subscriber_intent-some port t {i} h = elim (Bool-cases (is_port port)) [
    | inr bad ↦ cc (simp (subscriber_intent, bad) at h)
    | inl good ↦
        let got =
          checked-some (validate_intent f) (w.intent t port)
            (simp (subscriber_intent, good) at h) in
        rw (subscriber_intent, good, got) refl
  ]

  -- Run sends at most one request.
  pub run-Guarded :
      (port : ℕ) (journey : String) (i : Invocation) (t : Trace)
      → may_send consent i t ≡ true
      → guarded consent t ≡ true
      → guarded consent (run f w port journey i t).1 ≡ true
  unfolding run guarded
  run-Guarded port journey i t free h =
      elim (Bool-cases
        (is_ok (validate_id "journey" journey >> validate_for f journey i) && is_port port)) [
          | inl good ↦ rw (run, good) (ground (arith, free, h))
          | inr bad ↦ rw (run, bad) h
        ]

  pub run-Extends :
      (port : ℕ) (journey : String) (i : Invocation) (t : Trace)
      → may_send consent i t ≡ true
      → i.allow_active_event ≡ false
      → Extends consent t (run f w port journey i t).1
  unfolding run
  run-Extends port journey i t free quiet =
      elim (Bool-cases
        (is_ok (validate_id "journey" journey >> validate_for f journey i) && is_port port)) [
          | inl good ↦
              rw (run, good)
                (Extends-one consent (ran port journey i (w.response t port journey i)) t free
                  quiet)
          | inr bad ↦ rw (run, bad) (Extends-same consent t)
        ]

  pub run-passed :
      (port : ℕ) (journey : String) (i : Invocation) (t : Trace) {r : EndpointResponse}
      → (run f w port journey i t).0 ≡ some r
      → all_passed r.observations ≡ true
      → some_where (is_passed journey) (run f w port journey i t).1 ≡ true
  unfolding run some_where
  run-passed port journey i t {r} h passed =
      elim (Bool-cases
        (is_ok (validate_id "journey" journey >> validate_for f journey i) && is_port port)) [
          | inr bad ↦ cc (simp (run, bad) at h)
          | inl good ↦
              let got =
                checked-some (validate_response f) (w.response t port journey i)
                  (simp (run, good) at h) in
              rw (run, good, got) (ground (arith, passed, eq_iff journey journey))
        ]
