-- ===== src/EventSink/Tests.antt =====
-- Runs of the event sink: receipts that expire and are pushed out, retries, and signed requests.
use vcpe.EventSink.Receipts.Window.{
  receipt-refines, record_receipt-refines, accept, new-IsValid, queue, record_receipt-IsValid,
  IsValid,
}
use vcpe.Common.{
  inl, string_eq, keep, ◌==◌, [], false, if◌then◌else◌, refl, ◌∷◌, none, some, ◌≡◌, String, true,
}
use vcpe.EventSink.Receipts.Queue.{is_fresh, find_receipt, entries}
use vcpe.EventSink.Handler.{is_empty, Request, limited, Wire, serve_http}
use vcpe.EventSink.Registration.Backoff.{
  register_with_state-IsSafe, register_with_state-delays, IsSafe,
}
use vcpe.Common.Int.{pos}
use vcpe.Common.Text.{codes}
use vcpe.EventSink.Receipts.{is_acceptable, receipt, record_receipt}
use vcpe.EventSink.Registration.{Attempt, register_with_state}
use vcpe.EventSink.State.{new, valid_correlation_id, Intent, Store, Receipt, Urls}

abbrev id_a : String
id_a = "aaaaaaaaaaaaaaaaaaaaaaaaaaaaaaaaaaaaaaaaaaaaaaaaaaaaaaaaaaaaaaaa"

abbrev id_b : String
id_b = "bbbbbbbbbbbbbbbbbbbbbbbbbbbbbbbbbbbbbbbbbbbbbbbbbbbbbbbbbbbbbbbb"

abbrev intent : Intent
intent = record {
  callback_url = "http://event-sink:8080/webhook";
  event_filter = ".*";
  device_matcher = ".*";
  content_type = "application/json";
  secret_configured = true;
}

-- A package whose texts are their own URLs.
abbrev plain_urls : Urls
plain_urls = record {
  Url = String;
  parse = λ text. some text;
  without_user = λ url. url;
  without_query = λ url. url;
  without_fragment = λ url. url;
  print = λ url. url;
}

-- Room for one receipt, for ten nanoseconds.
abbrev small : Store
small = new plain_urls intent (record { max_receipts = pos 1; receipt_ttl = pos 10 })

small-IsValid : IsValid small
small-IsValid =
    new-IsValid plain_urls intent (record { max_receipts = pos 1; receipt_ttl = pos 10 })

abbrev direct : String → Receipt
direct id = record {
  correlation_id = id;
  source = "direct";
  accepted_at = 0;
  http_status = pos 204;
}

abbrev one : Store
one = (record_receipt 100 100 (direct id_a) small).1

-- The second receipt pushes the first one out.
second_wins :
    entries
      (record_receipt 101 101 (direct id_b) one).1.receipts
      (record_receipt 101 101 (direct id_b) one).1.order
    ≡ record (direct id_b) { accepted_at = 101 } ∷ []
unfolding record_receipt entries new
second_wins = refl

-- A receipt is gone ten nanoseconds later.
expires : (receipt 110 id_a one).0 ≡ none
unfolding receipt record_receipt new
expires = refl

stays : (receipt 109 id_a one).0 ≡ some (record (direct id_a) { accepted_at = 100 })
unfolding receipt record_receipt new
stays = refl

one-IsValid : IsValid one
one-IsValid = record_receipt-IsValid 100 100 (direct id_a) small small-IsValid

record_receipt-IsValid_example : IsValid (record_receipt 100 100 (direct id_a) small).1
record_receipt-IsValid_example = record_receipt-IsValid 100 100 (direct id_a) small small-IsValid

record_receipt-refines_example :
    queue (record_receipt 101 101 (direct id_b) one).1
    ≡ accept one 101 (record (direct id_b) { accepted_at = 101 }) (queue one)
unfolding is_acceptable
record_receipt-refines_example = record_receipt-refines 101 101 (direct id_b) one one-IsValid

receipt-refines_example :
    (receipt 109 id_a one).0 ≡ find_receipt id_a (keep (is_fresh one.receipt_ttl 109) (queue one))
unfolding valid_correlation_id
receipt-refines_example = receipt-refines 109 id_a one one-IsValid

abbrev failing : Attempt
failing = record { error = some "Status 401"; now = 5; cancelled = false }

abbrev working : Attempt
working = record { error = none; now = 9; cancelled = false }

register_with_state-delays_example :
    (register_with_state (λ text. text) none 0 (failing ∷ failing ∷ working ∷ []) (some small)).1
    ≡ 1 ∷ 2 ∷ []
register_with_state-delays_example =
    register_with_state-delays (λ text. text) 0 (failing ∷ failing ∷ working ∷ []) (some small)

register_with_state-IsSafe_example :
    IsSafe (register_with_state (λ text. text) none 0 (failing ∷ []) (some small)).2
unfolding new
register_with_state-IsSafe_example =
    register_with_state-IsSafe (λ text. text) none 0 (failing ∷ []) (some small) (inl refl)

abbrev wire : Wire
wire = record {
  hmac_sha1_hex = λ secret body. secret;
  decode_marker =
      λ body. some (record { diagnostic = "cpe-webpa-callback"; correlation_id = id_a }, []);
  at_end = is_empty;
  message_from_headers =
      λ header. record { source = []; destination = []; content_type = []; payload = [] };
  decode_message = λ format body. none;
}

abbrev post : String → Request
post sig = record {
  method = "POST";
  body = some (codes "{}");
  header = λ name.
      if name == "X-Webpa-Signature"
      then codes sig
      else if name == "X-Webpa-Event"
      then codes "event:diag"
      else [];
}

-- A wrong signature is unauthorized, a right one with a marker is recorded.
refuses_signature : (serve_http wire (codes "ab") 1 1 (some small) (post "sha1=ac")).status ≡ 401
unfolding serve_http limited
refuses_signature = refl

records_callback : (serve_http wire (codes "ab") 1 1 (some small) (post "sha1=ab")).status ≡ 204
unfolding serve_http limited valid_correlation_id
records_callback = refl
