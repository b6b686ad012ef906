-- ===== src/EventSink/Handler/Guarded.antt =====
-- services/event-sink/internal/handler/handler.go: what reaches the state and the log.
use vcpe.Common.{string_eq, some, none, true, ◌≡◌, ◌≤◌, ◌==◌, Option, length, ℕ}
use vcpe.EventSink.Handler.{
  validate_hmac, max_webhook_body_bytes, diagnostic_receipt, Answer, Request, Bytes, Wire,
}
use vcpe.EventSink.Receipts.{record_receipt}
use vcpe.EventSink.State

-- A POST whose body was read whole, is within the limit and carries a fitting signature.
pub record IsSigned (wire : Wire) (secret : Bytes) (r : Request) (body : Bytes) : Type 0 where
  pub posted : (r.method == "POST") ≡ true
  pub sent : r.body ≡ some body
  pub within : length body ≤ max_webhook_body_bytes
  pub signed : validate_hmac wire secret body (r.header "X-Webpa-Signature") ≡ true

-- What a call can come to.
pub data Verdict (wire : Wire) (secret : Bytes) (now later : ℕ) (state : Option State.Store)
    (r : Request) (a : Answer) : Type 0 where
  refused :
      400 ≤ a.status → a.event ≡ none → a.state ≡ state → Verdict wire secret now later state r a
  receipted :
      (body : Bytes) (receipt : State.Receipt)
      → IsSigned wire secret r body
      → diagnostic_receipt wire body r.header ≡ some receipt
      → a.status ≡ 204
      → a.event ≡ none
      → a.state
        ≡ elim state [ none ↦ none | some store ↦ some (record_receipt now later receipt store).1 ]
      → Verdict wire secret now later state r a
  logged :
      (body : Bytes)
      → IsSigned wire secret r body
      → diagnostic_receipt wire body r.header ≡ none
      → a.status ≡ 200
      → a.state ≡ state
      → Verdict wire secret now later state r a
