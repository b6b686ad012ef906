-- ===== src/EventSink/State.antt =====
-- services/event-sink/internal/diagnosticstate/state.go: the evidence that one event-sink process
-- keeps. A time is the number of nanoseconds behind the zero time, which is 0; a reading of the
-- clock is an argument. The map of receipts is a function. Every operation holds the store's lock from
-- its first access to its last, so operations are functions on the store.
use vcpe.Common.Text.{is_name_code, is_digit, is_lower, is_lower_hex, codes, all_codes}
use vcpe.Common.{
  leb, ◌||◌, nat_eq, ◌&&◌, ◌∷◌, false, length, ◌==◌, Bool, List, Option, [], if◌then◌else◌, some,
  String, none, ℕ,
}
use vcpe.Common.Int.{pos_part, pos, ltb_ℤ, ℤ}

pub record Intent : Type 0 where
  pub callback_url : String
  pub event_filter : String
  pub device_matcher : String
  pub content_type : String
  pub secret_configured : Bool

pub record Receipt : Type 0 where
  pub correlation_id : String
  pub source : String
  pub accepted_at : ℕ
  pub http_status : ℤ

pub record Snapshot : Type 0 where
  pub intent : Intent
  pub observed_at : ℕ
  pub initial_success_at : ℕ
  pub last_failure_at : ℕ
  pub refresh_success_at : ℕ
  pub refresh_failure_at : ℕ
  pub last_error_category : String

pub record Config : Type 0 where
  pub max_receipts : ℤ
  pub receipt_ttl : ℤ

abbrev pub Receipts : Type 0
Receipts = String → Option Receipt

pub record Store : Type 0 where
  pub max_receipts : ℕ
  pub receipt_ttl : ℕ
  pub snapshot : Snapshot
  pub receipts : Receipts
  pub order : List String

abbrev pub default_max_receipts : ℕ
default_max_receipts = 64

-- 10 minutes
abbrev pub default_receipt_ttl : ℕ
default_receipt_ttl = 600000000000

abbrev pub source_direct : String
source_direct = "direct"

abbrev pub source_caduceus : String
source_caduceus = "caduceus"

-- net/url, as far as sanitizeIntent uses it.
pub record Urls : Type 1 where
  pub Url : Type 0
  pub parse : String → Option Url
  pub without_user : Url → Url
  pub without_query : Url → Url
  pub without_fragment : Url → Url
  pub print : Url → String

-- sanitizeIntent
unfoldable pub sanitize_intent : Urls → Intent → Intent
sanitize_intent urls intent = elim (urls.parse intent.callback_url) [
  | none ↦ record intent { callback_url = "" }
  | some parsed ↦ record intent {
    callback_url =
        urls.print (urls.without_fragment (urls.without_query (urls.without_user parsed)));
  }
]

-- A limit that is not positive gives the default.
abbrev pub positive_or : ℕ → ℤ → ℕ
positive_or default n = if ltb_ℤ (pos 0) n then pos_part n else default

-- New
unfoldable pub new : Urls → Intent → Config → Store
unfolding sanitize_intent
new urls intent config = record {
  max_receipts = positive_or default_max_receipts config.max_receipts;
  receipt_ttl = positive_or default_receipt_ttl config.receipt_ttl;
  snapshot = record {
    intent = sanitize_intent urls intent;
    observed_at = 0;
    initial_success_at = 0;
    last_failure_at = 0;
    refresh_success_at = 0;
    refresh_failure_at = 0;
    last_error_category = "";
  };
  receipts = λ id. none;
  order = [];
}

-- timestamp
abbrev pub timestamp : ℕ → ℕ → ℕ
timestamp now value = if value == 0 then now else value

-- Snapshot
unfoldable pub snapshot : ℕ → Store → Snapshot
snapshot now store = record store.snapshot { observed_at = timestamp now 0 }

-- RecordInitialSuccess
unfoldable pub record_initial_success : ℕ → ℕ → Store → Store
record_initial_success now at_time store = record store {
  snapshot = record store.snapshot {
    initial_success_at = timestamp now at_time;
    last_error_category = "";
  };
}

-- stableIDPattern
unfoldable pub is_stable_id : List ℕ → Bool
unfolding all_codes
is_stable_id [] = false
is_stable_id (c ∷ cs) =
    (is_lower c || is_digit c) && (leb (length cs) 63 && all_codes is_name_code cs)

-- recordFailureLocked
unfoldable pub record_failure_locked : ℕ → ℕ → String → Store → Store
unfolding is_stable_id
record_failure_locked now at_time category store = record store {
  snapshot = record store.snapshot {
    last_failure_at = timestamp now at_time;
    last_error_category = if is_stable_id (codes category) then category else "registration-failed";
  };
}

-- RecordInitialFailure
unfoldable pub record_initial_failure : ℕ → ℕ → String → Store → Store
unfolding record_failure_locked
record_initial_failure now at_time category store = record_failure_locked now at_time category store

-- RecordRefreshSuccess
unfoldable pub record_refresh_success : ℕ → ℕ → Store → Store
record_refresh_success now at_time store = record store {
  snapshot = record store.snapshot {
    refresh_success_at = timestamp now at_time;
    last_error_category = "";
  };
}

-- RecordRefreshFailure, with the clock read twice.
unfoldable pub record_refresh_failure : ℕ → ℕ → ℕ → String → Store → Store
unfolding record_failure_locked
record_refresh_failure now later at_time category store =
    record_failure_locked later at_time category (record store {
      snapshot = record store.snapshot { refresh_failure_at = timestamp now at_time };
    })

-- ValidCorrelationID
unfoldable pub valid_correlation_id : String → Bool
unfolding all_codes
valid_correlation_id value = length (codes value) == 64 && all_codes is_lower_hex (codes value)
