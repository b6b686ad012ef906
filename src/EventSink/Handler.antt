-- ===== src/EventSink/Handler.antt =====
-- services/event-sink/internal/handler/handler.go: the webhook that Caduceus calls. Bodies and headers
-- are byte sequences; a missing header is empty. HMAC, JSON and WRP are those of other libraries.
pub mod Guarded
use vcpe.Common.{
  string_eq, length, ltb, nat_eq, zero, ◌+◌, ◌||◌, false, not, suc, ◌&&◌, ◌++◌, ◌==◌, [],
  if◌then◌else◌, some, true, ◌^◌, ◌∷◌, Bool, List, Option, String, none, ℕ,
}
use vcpe.Common.Int.{pos}
use vcpe.EventSink.Receipts.{record_receipt}
use vcpe.Common.Text.{codes, has_part}
use vcpe.EventSink.State

abbrev pub Bytes : Type 0
Bytes = List ℕ

abbrev pub max_webhook_body_bytes : ℕ
max_webhook_body_bytes = 2 ^ 20

-- diagnosticMarker
pub record Marker : Type 0 where
  pub diagnostic : String
  pub correlation_id : String

-- What the handler reads of a WRP message.
pub record Message : Type 0 where
  pub source : Bytes
  pub destination : Bytes
  pub content_type : Bytes
  pub payload : Bytes

pub data Format : Type 0 where
  json : Format
  msgpack : Format

-- The libraries: the lower-case hex HMAC-SHA1 of a body under a secret; the first JSON value of a body
-- as a marker with no other field, and what is behind it; whether nothing but space is left; the
-- message of the headers, and of a body.
pub record Wire : Type 0 where
  pub hmac_sha1_hex : Bytes → Bytes → Bytes
  pub decode_marker : Bytes → Option (Marker × Bytes)
  pub at_end : Bytes → Bool
  pub message_from_headers : (String → Bytes) → Message
  pub decode_message : Format → Bytes → Option Message

pub record Request : Type 0 where
  pub method : String
  -- `none` if reading fails within the limit
  pub body : Option Bytes
  pub header : String → Bytes

-- The line that is logged for an event.
pub record Event : Type 0 where
  pub destination : Bytes
  pub source : Bytes
  pub device_id : Bytes
  pub content_type : Bytes
  pub payload : Bytes

pub record Answer : Type 0 where
  pub status : ℕ
  pub event : Option Event
  pub state : Option State.Store

abbrev pub webhook_diagnostic_marker : String
webhook_diagnostic_marker = "webhook-registration-callback-diagnostics"

abbrev pub callback_diagnostic_marker : String
callback_diagnostic_marker = "cpe-webpa-callback"

-- io.LimitReader
unfoldable pub limited : ℕ → Bytes → Bytes
limited zero body = []
limited (suc n) [] = []
limited (suc n) (c ∷ body) = c ∷ limited n body

unfoldable pub same_bytes : Bytes → Bytes → Bool
same_bytes [] [] = true
same_bytes [] (d ∷ ds) = false
same_bytes (c ∷ cs) [] = false
same_bytes (c ∷ cs) (d ∷ ds) = c == d && same_bytes cs ds

-- What follows a prefix, if the text has it.
unfoldable pub behind : Bytes → Bytes → Option Bytes
behind [] text = some text
behind (p ∷ ps) [] = none
behind (p ∷ ps) (c ∷ cs) = if p == c then behind ps cs else none

-- validateHMAC
unfoldable pub validate_hmac : Wire → Bytes → Bytes → Bytes → Bool
unfolding behind same_bytes
validate_hmac wire secret body sig = elim (behind (codes "sha1=") sig) [
  | none ↦ false
  | some given ↦ same_bytes (wire.hmac_sha1_hex secret body) given
]

abbrev pub is_empty : Bytes → Bool
is_empty [] = true
is_empty (c ∷ cs) = false

-- diagnosticReceipt
unfoldable pub diagnostic_receipt : Wire → Bytes → (String → Bytes) → Option State.Receipt
diagnostic_receipt wire body header = elim (wire.decode_marker body) [
  | none ↦ none
  | some (marker, rest) ↦
      let from_caduceus =
        not (is_empty (header "X-Xmidt-Message-Type")) || not (is_empty (header "X-Webpa-Event")) in
      let receipt : State.Receipt = record {
        correlation_id = marker.correlation_id;
        source = if from_caduceus then State.source_caduceus else State.source_direct;
        accepted_at = 0;
        http_status = pos 204;
      } in
      if not (State.valid_correlation_id marker.correlation_id)
      then none
      else if not (wire.at_end rest)
      then none
      else if marker.diagnostic == webhook_diagnostic_marker
      then some receipt
      else if marker.diagnostic == callback_diagnostic_marker && from_caduceus
      then some receipt
      else none
]

-- strings.Index(source, "/") > 0
unfoldable pub before_slash : Bytes → Option Bytes
before_slash [] = none
before_slash (c ∷ cs) =
    if c == b'/'
    then some []
    else elim (before_slash cs) [ none ↦ none | some front ↦ some (c ∷ front) ]

abbrev pub device_of : Bytes → Bytes
device_of source = elim (before_slash source) [
  | none ↦ source
  | some [] ↦ source
  | some (c ∷ front) ↦ c ∷ front
]

-- The message of the headers, with the event header as its destination.
unfoldable pub header_message : Wire → Bytes → (String → Bytes) → Message
unfolding behind
header_message wire body header =
    let msg = wire.message_from_headers header in
    let event = header "X-Webpa-Event" in
    let addressed : Message = if is_empty event then msg else record msg {
      destination =
          codes "event:"
          ++ elim (behind (codes "event:") event) [ none ↦ event | some short ↦ short ];
    } in
    record addressed { payload = body }

-- The message of the body, where the headers say nothing.
unfoldable pub event_message : Wire → Bytes → (String → Bytes) → Message
unfolding header_message has_part
event_message wire body header =
    let msg = header_message wire body header in
    let format : Format =
      if has_part (header "Content-Type") (codes "json") then json else msgpack in
    if is_empty msg.source && is_empty msg.destination
    then elim (wire.decode_message format body) [
      | none ↦ msg
      | some found ↦
          if not (is_empty found.source) || not (is_empty found.destination) then found else msg
    ]
    else msg

-- The answer to a body whose signature fits.
unfoldable pub accepted : Wire → ℕ → ℕ → Option State.Store → Bytes → (String → Bytes) → Answer
unfolding diagnostic_receipt event_message before_slash
accepted wire now later state body header = elim (diagnostic_receipt wire body header) [
  | some receipt ↦ record {
    status = 204;
    event = none;
    state = elim state [
      | none ↦ none
      | some store ↦ some (record_receipt now later receipt store).1
    ];
  }
  | none ↦
      let msg = event_message wire body header in
      record {
        status = 200;
        event = some (record {
          destination = msg.destination;
          source = msg.source;
          device_id = device_of msg.source;
          content_type = msg.content_type;
          payload = msg.payload;
        });
        state = state;
      }
]

-- ServeHTTP, with the readings of the clock that a receipt takes.
unfoldable pub serve_http : Wire → Bytes → ℕ → ℕ → Option State.Store → Request → Answer
unfolding validate_hmac accepted
serve_http wire secret now later state r =
    let refused : ℕ → Answer = λ status. record { status = status; event = none; state = state } in
    if not (r.method == "POST") then refused 405 else elim r.body [
      | none ↦ refused 500
      | some sent ↦
          let body = limited (max_webhook_body_bytes + 1) sent in
          if ltb max_webhook_body_bytes (length body)
          then refused 413
          else if not (validate_hmac wire secret body (r.header "X-Webpa-Signature"))
          then refused 401
          else accepted wire now later state body r.header
    ]
