-- ===== src/EventSink/Receipts/Maps.antt =====
-- services/event-sink/internal/diagnosticstate/state.go: the map of receipts and the order of its keys
-- stay one another's image.
use vcpe.Common.{
  contains-append, ◌≤◌, NoRepeat-append_one, contains-keep, length, ltb, NoRepeat-keep,
  Option-cases, ◌++◌, ap, eq_iff, arith, keep-agree, inr, ◌∙◌, inl, refl, Bool-cases, [], ◌∷◌,
  string_eq, ◌&&◌, if◌then◌else◌, none, not, contains, true, ◌≡◌, NoRepeat, some, String, false,
  Bool, List, keep, ℕ, Option,
}
use vcpe.EventSink.Receipts.{trim, update, is_expired, evict}
use vcpe.EventSink.State.{Receipt, Receipts}

abbrev pub is_some {ℓ} : {A : Type ℓ} → Option A → Bool
is_some none = false
is_some (some a) = true

-- The keys of the map are the ids of the order, each once, and each receipt stands under its id.
pub record AreKept (m : Receipts) (order : List String) : Type 0 where
  pub distinct : NoRepeat order
  pub known : (id : String) → contains order id ≡ is_some (m id)
  pub keyed : (id : String) (r : Receipt) → m id ≡ some r → r.correlation_id ≡ id

-- What is left of the order and of the map.
pub evict-order :
    (ttl now : ℕ) (ids : List String) (m : Receipts)
    → NoRepeat ids
    → (evict ttl now ids m).0 ≡ keep (λ id. not (is_expired ttl now (m id))) ids
unfolding evict keep
evict-order ttl now [] m u = refl
evict-order ttl now (id ∷ ids) m u = elim (Bool-cases (is_expired ttl now (m id))) [
  | inl old ↦
      rw (old, evict)
        (evict-order ttl now ids (update id none m) u.1
          ∙ keep-agree _ _ ids (λ x here. ground (arith, eq_iff id x, u.0, here)))
  | inr new ↦
      rw (new, evict) (ap (λ (rest : List String). id ∷ rest) (evict-order ttl now ids m u.1))
]

pub evict-lookup :
    (ttl now : ℕ) (ids : List String) (m : Receipts) (j : String)
    → NoRepeat ids
    → (evict ttl now ids m).1 j ≡ (if contains ids j && is_expired ttl now (m j) then none else m j)
unfolding evict
evict-lookup ttl now [] m j u = refl
evict-lookup ttl now (id ∷ ids) m j u = elim (Bool-cases (is_expired ttl now (m id))) [
  | inl old ↦
      rw (old, evict)
        (evict-lookup ttl now ids (update id none m) j u.1 ∙ ground (arith, eq_iff id j, u.0, old))
  | inr new ↦
      rw (new, evict) (evict-lookup ttl now ids m j u.1 ∙ ground (arith, eq_iff id j, u.0, new))
]

pub evict-AreKept :
    (ttl now : ℕ) (order : List String) (m : Receipts)
    → AreKept m order
    → AreKept (evict ttl now order m).1 (evict ttl now order m).0
evict-AreKept ttl now order m k =
    let p = λ (id : String). not (is_expired ttl now (m id)) in
    record {
      distinct = rw (evict-order ttl now order m k.distinct) (NoRepeat-keep p order k.distinct);
      known = λ id.
          rw
            (
              evict-order ttl now order m k.distinct,
              evict-lookup ttl now order m id k.distinct,
              contains-keep p order id,
            )
            (ground (arith, k.known id));
      keyed = λ id r here.
          k.keyed id r (ground (arith, evict-lookup ttl now order m id k.distinct, here));
    }

-- The receipt is written, and its id is last in the order if it is new.
abbrev pub order_with : String → Receipts → List String → List String
order_with id m order = elim (m id) [ none ↦ order ++ id ∷ [] | some old ↦ order ]

pub update-AreKept :
    (r : Receipt) (m : Receipts) (order : List String)
    → AreKept m order
    → AreKept (update r.correlation_id (some r) m) (order_with r.correlation_id m order)
update-AreKept r m order k =
    let id = r.correlation_id in
    elim (Option-cases (m id)) [
      | inl new ↦
          let shape : order_with id m order ≡ order ++ id ∷ [] = rw (new, order_with) in
          rw shape (record {
            distinct = NoRepeat-append_one order id k.distinct (ground (arith, k.known id, new));
            known =
                λ j. ground (arith, contains-append order (id ∷ []) j, k.known j, eq_iff id j, new);
            keyed = λ j q here. ground (arith, eq_iff id j, k.keyed j q, here);
          })
      | inr (old, there) ↦
          let shape : order_with id m order ≡ order = rw (there, order_with) in
          rw shape (record {
            distinct = k.distinct;
            known = λ j. ground (arith, k.known j, k.known id, eq_iff id j, there);
            keyed = λ j q here. ground (arith, eq_iff id j, k.keyed j q, here);
          })
    ]

delete-AreKept :
    (id : String) (ids : List String) (m : Receipts)
    → AreKept m (id ∷ ids)
    → AreKept (update id none m) ids
delete-AreKept id ids m k = record {
  distinct = k.distinct.1;
  known = λ j. ground (arith, k.known j, k.distinct.0, eq_iff id j);
  keyed = λ j r here. ground (arith, k.keyed j r, here);
}

pub trim-AreKept :
    (max : ℕ) (order : List String) (m : Receipts)
    → AreKept m order
    → AreKept (trim max order m).1 (trim max order m).0
unfolding trim
trim-AreKept max [] m k = k
trim-AreKept max (id ∷ ids) m k = elim (Bool-cases (ltb max (length (id ∷ ids)))) [
  | inl over ↦ rw (over, trim) (trim-AreKept max ids (update id none m) (delete-AreKept id ids m k))
  | inr fits ↦ rw (fits, trim) k
]

pub length-trim : (max : ℕ) (order : List String) (m : Receipts) → length (trim max order m).0 ≤ max
unfolding trim
length-trim max [] m = omega arith
length-trim max (id ∷ ids) m = ground (arith, length-trim max ids (update id none m))
