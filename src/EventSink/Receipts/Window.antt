-- ===== src/EventSink/Receipts/Window.antt =====
-- services/event-sink/internal/diagnosticstate/state.go: the store implements the queue of receipts.
use vcpe.EventSink.Receipts.Queue.{
  entries-enqueue, entries-evict, entries-trim, find-entries, find_receipt, is_fresh, enqueue,
  entries, newest,
}
use vcpe.Common.{
  some, ap, ◌++◌, ◌∙◌, refl, [], string_eq, eq_iff, none, ◌∷◌, inl, All, inr, keep, arith,
  if◌then◌else◌, true, Bool-cases, contains, ◌≡◌, ◌≤◌, String, length, List, ℕ,
}
use vcpe.EventSink.Receipts.{
  update, evict, is_acceptable, evict_expired_locked, receipt, record_receipt,
}
use vcpe.EventSink.Receipts.Maps.{
  length-trim, update-AreKept, order_with, trim-AreKept, is_some, evict-AreKept, AreKept,
}
use vcpe.EventSink.State.{
  timestamp, valid_correlation_id, Config, Intent, Receipt, Urls, Receipts, new, Store,
}

-- The map and the order fit, and there are not more receipts than the limit.
pub record IsValid (store : Store) : Type 0 where
  pub kept : AreKept store.receipts store.order
  pub bounded : length store.order ≤ store.max_receipts

abbrev pub queue : Store → List Receipt
queue store = entries store.receipts store.order

-- What the queue does on a receipt.
abbrev pub accept : Store → ℕ → Receipt → List Receipt → List Receipt
accept store now r l =
    newest store.max_receipts (enqueue r (keep (is_fresh store.receipt_ttl now) l))

order-present :
    (m : Receipts) (ids order : List String)
    → AreKept m order
    → ((id : String) → contains ids id ≡ true → contains order id ≡ true)
    → All (λ id. is_some (m id) ≡ true) ids
order-present m [] order k part = tt
order-present m (id ∷ ids) order k part = (
  ground (arith, k.known id, part id, eq_iff id id),
  order-present m ids order k (λ j here. part j (ground (arith, here))),
)

-- A new store is empty and within its limit.
pub new-IsValid :
    (urls : Urls) (intent : Intent) (config : Config) → IsValid (new urls intent config)
unfolding new
new-IsValid urls intent config = record {
  kept = record { distinct = tt; known = λ id. refl; keyed = λ id r here. cc };
  bounded = omega arith;
}

order_with-contains :
    (id : String) (m : Receipts) (order : List String)
    → AreKept m order
    → order_with id m order ≡ (if contains order id then order else order ++ id ∷ [])
order_with-contains id m order k = ground (arith, k.known id)

-- Every call of RecordReceipt leaves the map and the order in agreement, without a repeated id, and
-- not more receipts than the limit, if that was so before.
pub record_receipt-IsValid :
    (now later : ℕ) (r : Receipt) (store : Store)
    → IsValid store
    → IsValid (record_receipt now later r store).1
unfolding record_receipt evict_expired_locked
record_receipt-IsValid now later r store v = elim (Bool-cases (is_acceptable r)) [
  | inr bad ↦ rw (bad, record_receipt) v
  | inl good ↦
      let left = evict-AreKept store.receipt_ttl now store.order store.receipts v.kept in
      let stamped = record r { accepted_at = timestamp later r.accepted_at } in
      rw (good, record_receipt)
        (record {
          kept = trim-AreKept store.max_receipts _ _ (update-AreKept stamped _ _ left);
          bounded = length-trim store.max_receipts _ _;
        })
]

-- RecordReceipt implements the queue: an acceptable receipt expires the old ones, takes the place of
-- the one with its id or comes last, and pushes out the oldest beyond the limit; any other changes
-- nothing.
pub record_receipt-refines :
    (now later : ℕ) (r : Receipt) (store : Store)
    → IsValid store
    → queue (record_receipt now later r store).1 ≡ (
        if is_acceptable r
        then accept store now
            (record r { accepted_at = timestamp later r.accepted_at })
            (queue store)
        else queue store)
unfolding record_receipt evict_expired_locked
record_receipt-refines now later r store v = elim (Bool-cases (is_acceptable r)) [
  | inr bad ↦ rw (bad, record_receipt) refl
  | inl good ↦
      let (order, m) = evict store.receipt_ttl now store.order store.receipts in
      let left = evict-AreKept store.receipt_ttl now store.order store.receipts v.kept in
      let id = r.correlation_id in
      let stamped = record r { accepted_at = timestamp later r.accepted_at } in
      let added = update-AreKept stamped m order left in
      rw (good, record_receipt)
        (entries-trim store.max_receipts (order_with id m order) (update id (some stamped) m)
            added.distinct (order-present _ _ (order_with id m order) added (λ j here. here))
          ∙ ap (newest store.max_receipts) (
              ap (entries (update id (some stamped) m)) (order_with-contains id m order left)
              ∙ entries-enqueue stamped m order left.distinct
                  (order-present m order order left (λ j here. here)) left.keyed
              ∙ ap (enqueue stamped)
                  (entries-evict store.receipt_ttl now store.order store.receipts v.kept.distinct)))
]

-- Receipt implements the lookup: a valid id gets the receipt that the queue has for it, unless it has
-- expired.
pub receipt-refines :
    (now : ℕ) (id : String) (store : Store)
    → IsValid store
    → (receipt now id store).0 ≡ (
        if valid_correlation_id id
        then find_receipt id (keep (is_fresh store.receipt_ttl now) (queue store))
        else none)
unfolding receipt evict_expired_locked
receipt-refines now id store v = elim (Bool-cases (valid_correlation_id id)) [
  | inr bad ↦ rw (bad, receipt) refl
  | inl good ↦
      rw (good, receipt)
        (find-entries id _ _ (evict-AreKept store.receipt_ttl now store.order store.receipts v.kept)
          ∙ ap (find_receipt id)
              (entries-evict store.receipt_ttl now store.order store.receipts v.kept.distinct))
]
