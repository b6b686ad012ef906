-- ===== src/EventSink/Receipts.antt =====
-- services/event-sink/internal/diagnosticstate/state.go: the bounded receipts of callbacks.
pub mod Maps
pub mod Queue
pub mod Window
use vcpe.Common.Int.{pos, ltb_ℤ}
use vcpe.Common.{
  true, length, ◌++◌, [], ltb, ◌+◌, ◌||◌, false, none, some, string_eq, leb, not, ◌&&◌, ◌==◌, ◌∷◌,
  Bool, if◌then◌else◌, List, Option, String, ℕ,
}
use vcpe.EventSink.State.{
  Store, source_caduceus, timestamp, source_direct, Receipts, Receipt, valid_correlation_id,
}

abbrev pub update : String → Option Receipt → Receipts → Receipts
update id r m j = if id == j then r else m j

-- `now.Sub(receipt.AcceptedAt) >= store.receiptTTL`; a missing key reads the zero time.
abbrev pub is_expired : ℕ → ℕ → Option Receipt → Bool
is_expired ttl now none = leb ttl now
is_expired ttl now (some r) = leb (r.accepted_at + ttl) now

-- The loop of evictExpiredLocked.
unfoldable pub evict : ℕ → ℕ → List String → Receipts → List String × Receipts
evict ttl now [] m = ([], m)
evict ttl now (id ∷ ids) m =
    let dropped = evict ttl now ids (update id none m) in
    let kept = evict ttl now ids m in
    if is_expired ttl now (m id) then dropped else (id ∷ kept.0, kept.1)

-- evictExpiredLocked
unfoldable pub evict_expired_locked : ℕ → Store → Store
unfolding evict
evict_expired_locked now store =
    let (order, receipts) = evict store.receipt_ttl now store.order store.receipts in
    record store { order = order; receipts = receipts }

-- The loop that deletes the oldest receipts beyond the limit.
unfoldable pub trim : ℕ → List String → Receipts → List String × Receipts
trim max [] m = ([], m)
trim max (id ∷ ids) m =
    let rest = trim max ids (update id none m) in
    if ltb max (length (id ∷ ids)) then rest else (id ∷ ids, m)

-- The guard of RecordReceipt.
unfoldable pub is_acceptable : Receipt → Bool
unfolding valid_correlation_id
is_acceptable r =
    valid_correlation_id r.correlation_id
    && ((r.source == source_direct || r.source == source_caduceus)
        && (not (ltb_ℤ r.http_status (pos 100)) && not (ltb_ℤ (pos 599) r.http_status)))

-- RecordReceipt, with the readings of the clock for the eviction and for the receipt.
unfoldable pub record_receipt : ℕ → ℕ → Receipt → Store → Bool × Store
unfolding is_acceptable evict_expired_locked trim
record_receipt now later receipt store =
    if not (is_acceptable receipt)
    then (false, store)
    else (let store' = evict_expired_locked now store in
        let stamped = record receipt { accepted_at = timestamp later receipt.accepted_at } in
        let id = receipt.correlation_id in
        let order : List String = elim (store'.receipts id) [
          | none ↦ store'.order ++ id ∷ []
          | some old ↦ store'.order
        ] in
        let (order', receipts) =
          trim store'.max_receipts order (update id (some stamped) store'.receipts) in
        (true, record store' { order = order'; receipts = receipts }))

-- Receipt
unfoldable pub receipt : ℕ → String → Store → Option Receipt × Store
unfolding valid_correlation_id evict_expired_locked
receipt now id store =
    if not (valid_correlation_id id)
    then (none, store)
    else (let store' = evict_expired_locked now store in (store'.receipts id, store'))
