-- ===== src/EventSink/Receipts/Queue.antt =====
-- services/event-sink/internal/diagnosticstate/state.go: the map and its order are a queue of
-- receipts.
use vcpe.EventSink.Receipts.Maps.{AreKept, evict-lookup, is_some}
use vcpe.Common.{
  inr, inl, Option-cases, eq_iff, ◌++◌, arith, length, refl, [], false, ltb, string_eq, true, ◌+◌,
  ◌==◌, if◌then◌else◌, leb, some, ◌≡◌, All, NoRepeat, contains, none, not, ◌∷◌, Bool, List, Option,
  keep, String, ℕ,
}
use vcpe.EventSink.Receipts.{update, evict, trim}
use vcpe.EventSink.State.{Receipt, Receipts}

-- The receipts, the oldest entry first.
unfoldable pub entries : Receipts → List String → List Receipt
entries m [] = []
entries m (id ∷ ids) = let rest = entries m ids in elim (m id) [ none ↦ rest | some r ↦ r ∷ rest ]

-- The queue that the store implements: receipts expire, a receipt takes the place of the one with its
-- id or comes last, and the oldest ones beyond the limit are dropped.
abbrev pub is_fresh : ℕ → ℕ → Receipt → Bool
is_fresh ttl now r = not (leb (r.accepted_at + ttl) now)

abbrev pub enqueue : Receipt → List Receipt → List Receipt
enqueue r [] = r ∷ []
enqueue r (q ∷ l) = if q.correlation_id == r.correlation_id then r ∷ l else q ∷ enqueue r l

abbrev pub newest : ℕ → List Receipt → List Receipt
newest max [] = []
newest max (q ∷ l) = if ltb max (length (q ∷ l)) then newest max l else q ∷ l

abbrev pub find_receipt : String → List Receipt → Option Receipt
find_receipt id [] = none
find_receipt id (q ∷ l) = if q.correlation_id == id then some q else find_receipt id l

-- A write under a key that is not in the order does not count.
entries-update :
    (id : String) (r : Option Receipt) (m : Receipts) (ids : List String)
    → contains ids id ≡ false
    → entries (update id r m) ids ≡ entries m ids
unfolding entries
entries-update id r m [] h = refl
entries-update id r m (j ∷ ids) h =
    ground (arith, entries-update id r m ids, eq_iff id j, eq_iff j id)

-- Two maps that agree on the order have the same entries.
entries-agree :
    (m m' : Receipts) (ids : List String)
    → ((j : String) → contains ids j ≡ true → m j ≡ m' j)
    → entries m ids ≡ entries m' ids
unfolding entries
entries-agree m m' [] same = refl
entries-agree m m' (j ∷ ids) same =
    ground
      (arith, same j, eq_iff j j, entries-agree m m' ids (λ i here. same i (ground (arith, here))))

pub entries-evict :
    (ttl now : ℕ) (ids : List String) (m : Receipts)
    → NoRepeat ids
    → entries (evict ttl now ids m).1 (evict ttl now ids m).0
      ≡ keep (is_fresh ttl now) (entries m ids)
unfolding entries evict keep
entries-evict ttl now [] m u = refl
entries-evict ttl now (id ∷ ids) m u = ground (
  arith,
  entries-evict ttl now ids (update id none m) u.1,
  entries-evict ttl now ids m u.1,
  entries-update id none m ids u.0,
  evict-lookup ttl now ids m id u.1,
  u.0,
)

pub entries-enqueue :
    (r : Receipt) (m : Receipts) (order : List String)
    → NoRepeat order
    → All (λ id. is_some (m id) ≡ true) order
    → ((id : String) (q : Receipt) → m id ≡ some q → q.correlation_id ≡ id)
    → entries
        (update r.correlation_id (some r) m)
        (if contains order r.correlation_id then order else order ++ r.correlation_id ∷ [])
      ≡ enqueue r (entries m order)
unfolding entries
entries-enqueue r m [] u there keyed = ground (arith, eq_iff r.correlation_id r.correlation_id)
entries-enqueue r m (id ∷ ids) u there keyed = elim (Option-cases (m id)) [
  | inl missing ↦ cc (rw missing at there.0)
  | inr (q, here) ↦ ground (
    arith,
    here,
    keyed id q here,
    eq_iff id r.correlation_id,
    eq_iff r.correlation_id id,
    u.0,
    entries-update r.correlation_id (some r) m ids,
    entries-enqueue r m ids u.1 there.1 keyed,
  )
]

length-entries :
    (m : Receipts) (order : List String)
    → All (λ id. is_some (m id) ≡ true) order
    → length (entries m order) ≡ length order
unfolding entries
length-entries m [] there = refl
length-entries m (id ∷ ids) there = ground (arith, length-entries m ids there.1)

present-delete :
    (id : String) (m : Receipts) (ids : List String)
    → contains ids id ≡ false
    → All (λ j. is_some (m j) ≡ true) ids
    → All (λ j. is_some (update id none m j) ≡ true) ids
present-delete id m [] h there = tt
present-delete id m (j ∷ ids) h there = (
  ground (arith, eq_iff id j, eq_iff j id, there.0, h),
  present-delete id m ids (ground (arith, h)) there.1,
)

pub entries-trim :
    (max : ℕ) (order : List String) (m : Receipts)
    → NoRepeat order
    → All (λ id. is_some (m id) ≡ true) order
    → entries (trim max order m).1 (trim max order m).0 ≡ newest max (entries m order)
unfolding entries trim
entries-trim max [] m u there = refl
entries-trim max (id ∷ ids) m u there = ground (
  arith,
  entries-trim max ids (update id none m) u.1 (present-delete id m ids u.0 there.1),
  entries-update id none m ids u.0,
  length-entries m ids there.1,
  there.0,
)

find-in_order :
    (id : String) (m : Receipts) (ids : List String)
    → ((j : String) (q : Receipt) → m j ≡ some q → q.correlation_id ≡ j)
    → find_receipt id (entries m ids) ≡ (if contains ids id then m id else none)
unfolding entries
find-in_order id m [] keyed = refl
find-in_order id m (j ∷ ids) keyed = elim (Option-cases (m j)) [
  | inl missing ↦ ground (arith, missing, eq_iff j id, find-in_order id m ids keyed)
  | inr (q, here) ↦ ground (arith, here, keyed j q here, eq_iff j id, find-in_order id m ids keyed)
]

-- What the map holds under an id is what the queue has for it.
pub find-entries :
    (id : String) (m : Receipts) (order : List String)
    → AreKept m order
    → m id ≡ find_receipt id (entries m order)
find-entries id m order k = ground (arith, k.known id, find-in_order id m order k.keyed)
