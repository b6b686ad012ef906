-- ===== src/Persist/Health/Reservation.antt =====
-- controlplane/internal/persist/store.go: what ReserveHealthEndpoint promises.
use vcpe.Persist.Health.{
  is_endpoint_of, delete_health_endpoints, reserve_found, health_port_max, health_port_min,
  reserve_health_endpoint, find_endpoint, port_taken, identity_taken, try_ports,
}
use vcpe.Persist.Health.Constraints.{
  identity_taken-append, append_one-IsConsistent, keep-IsConsistent, IsConsistent,
}
use vcpe.Common.{
  not, keep, Option-cases, ◌⊎◌, eq_iff, ◌||◌, ◌==◌, ℕ, zero, suc, ◌+◌, ◌≤◌, ◌<◌, String, ◌≡◌, refl,
  sym, ◌∙◌, true, false, none, some, List, [], ◌∷◌, ◌++◌, string_eq, nat_eq, arith, Bool-cases, inl,
  inr,
}
use vcpe.Persist.Tables.{invalid_identity, ports_exhausted, Store, HealthEndpoint}
use vcpe.Common.Result.{err, ok}
use vcpe.Common.Int.{pos, ltb_ℤ, ℤ, int_eq}

abbrev endpoint : String → String → ℤ → ℕ → HealthEndpoint
endpoint d s r p = record { deployment = d; service = s; replica = r; host_port = p }

identity_taken-find :
    (d s : String) (r : ℤ) (rows : List HealthEndpoint)
    → find_endpoint d s r rows ≡ none
    → identity_taken d s r rows ≡ false
unfolding find_endpoint identity_taken
identity_taken-find d s r [] h = refl
identity_taken-find d s r (x ∷ rows) h = ground (arith, identity_taken-find d s r rows)

module _ (d s : String) (r : ℤ) (rows : List HealthEndpoint) where
  try_ports_taken :
      (left port : ℕ)
      → port_taken port rows ≡ true
      → try_ports (suc left) port d s r rows ≡ try_ports left (suc port) d s r rows
  unfolding try_ports
  try_ports_taken left port h = ground arith

  try_ports_free :
      (left port : ℕ)
      → identity_taken d s r rows ≡ false
      → port_taken port rows ≡ false
      → try_ports (suc left) port d s r rows ≡ some (port, rows ++ endpoint d s r port ∷ [])
  unfolding try_ports
  try_ports_free left port fresh h = ground arith

-- The loop ended at `p`, the first port from `low` on that no row has.
pub record Chosen (low high p : ℕ) (rows : List HealthEndpoint) : Type 0 where
  pub free : port_taken p rows ≡ false
  pub above : low ≤ p
  pub below : p < high
  pub least : (q : ℕ) → low ≤ q → q < p → port_taken q rows ≡ true

module _ (d s : String) (r : ℤ) (rows : List HealthEndpoint)
    (fresh : identity_taken d s r rows ≡ false) where
  try_ports-some :
      (left port : ℕ) {p : ℕ} {rows' : List HealthEndpoint}
      → try_ports left port d s r rows ≡ some (p, rows')
      → (rows' ≡ rows ++ endpoint d s r p ∷ []) × Chosen port (port + left) p rows
  unfolding try_ports
  try_ports-some zero port h = cc
  try_ports-some (suc left) port {p} {rows'} h = elim (Bool-cases (port_taken port rows)) [
    | inl taken ↦
        let (added, c) =
          try_ports-some left (suc port) (sym (try_ports_taken d s r rows left port taken) ∙ h) in
        (
          added,
          record {
            free = c.free;
            above = omega (arith, c.above);
            below = omega (arith, c.below);
            least = λ q a b. ground (arith, c.least q);
          },
        )
    | inr free ↦
        let e = sym (try_ports_free d s r rows left port fresh free) ∙ h in
        (
          ground (arith, e),
          record {
            free = ground (arith, e);
            above = ground (arith, e);
            below = ground (arith, e);
            least = λ q a b. ground (arith, e);
          },
        )
  ]

  try_ports-none :
      (left port : ℕ)
      → try_ports left port d s r rows ≡ none
      → (q : ℕ) → port ≤ q
      → q < port + left
      → port_taken q rows ≡ true
  unfolding try_ports
  try_ports-none zero port h q a b = absurd (omega arith)
  try_ports-none (suc left) port h q a b = elim (Bool-cases (port_taken port rows)) [
    | inl taken ↦ ground (
      arith,
      try_ports-none left (suc port) (sym (try_ports_taken d s r rows left port taken) ∙ h) q,
    )
    | inr free ↦ ground (arith, try_ports_free d s r rows left port fresh free)
  ]

-- The identities that ReserveHealthEndpoint accepts.
abbrev pub IsIdentity : String → String → ℤ → Type 0
IsIdentity d s r = (d == "" || (s == "" || ltb_ℤ r (pos 0))) ≡ false

-- A valid identity with no row yet gets the least port of the range that no row has, in a new last
-- row, and the rest of the database stays. If every port of the range has a row, the call fails
-- with ports_exhausted and changes nothing.
pub reserve_fresh :
    (d s : String) (r : ℤ) (st : Store)
    → IsIdentity d s r
    → find_endpoint d s r st.health_endpoints ≡ none
    → ((p : ℕ) × (reserve_health_endpoint d s r st ≡ (
      ok (record { deployment = d; service = s; replica = r; host_port = p }),
      record st {
        health_endpoints =
            st.health_endpoints
            ++ record { deployment = d; service = s; replica = r; host_port = p } ∷ [];
      },
    ))
        × Chosen health_port_min (health_port_max + 1) p st.health_endpoints)
      ⊎ ((reserve_health_endpoint d s r st ≡ (err ports_exhausted, st))
          × ((q : ℕ)
              → health_port_min ≤ q
              → q ≤ health_port_max
              → port_taken q st.health_endpoints ≡ true))
unfolding reserve_health_endpoint
reserve_fresh d s r st valid absent =
    let fresh = identity_taken-find d s r st.health_endpoints absent in
    elim (Option-cases (try_ports 1000 health_port_min d s r st.health_endpoints)) [
      | inl spent ↦ inr (
        rw (valid, absent, spent, reserve_found),
        λ q a b.
            try_ports-none d s r st.health_endpoints fresh 1000 health_port_min spent q a
              (omega arith),
      )
      | inr ((p, rows'), found) ↦
          let (added, chosen) =
            try_ports-some d s r st.health_endpoints fresh 1000 health_port_min found in
          inl (p, rw (valid, absent, found, reserve_found, added), chosen)
    ]

-- A valid identity that has a row gets the port of that row, and nothing changes.
pub reserve_known :
    (d s : String) (r : ℤ) (p : ℕ) (st : Store)
    → IsIdentity d s r
    → find_endpoint d s r st.health_endpoints ≡ some p
    → reserve_health_endpoint d s r st
      ≡ (ok (record { deployment = d; service = s; replica = r; host_port = p }), st)
unfolding reserve_health_endpoint
reserve_known d s r p st valid known = rw (valid, known)

-- What a call can do, whatever it is given.
data Outcome (d s : String) (r : ℤ) (st : Store) : Type 0 where
  refused : reserve_health_endpoint d s r st ≡ (err invalid_identity, st) → Outcome d s r st
  kept :
      (p : ℕ)
      → find_endpoint d s r st.health_endpoints ≡ some p
      → IsIdentity d s r
      → reserve_health_endpoint d s r st ≡ (ok (endpoint d s r p), st)
      → Outcome d s r st
  added :
      (p : ℕ)
      → find_endpoint d s r st.health_endpoints ≡ none
      → IsIdentity d s r
      → Chosen health_port_min (health_port_max + 1) p st.health_endpoints
      → reserve_health_endpoint d s r st ≡ (
        ok (endpoint d s r p),
        record st { health_endpoints = st.health_endpoints ++ endpoint d s r p ∷ [] },
      )
      → Outcome d s r st
  spent : reserve_health_endpoint d s r st ≡ (err ports_exhausted, st) → Outcome d s r st

outcome : (d s : String) (r : ℤ) (st : Store) → Outcome d s r st
unfolding reserve_health_endpoint
outcome d s r st = elim (Bool-cases (d == "" || (s == "" || ltb_ℤ r (pos 0)))) [
  | inl bad ↦ refused (rw bad)
  | inr valid ↦ elim (Option-cases (find_endpoint d s r st.health_endpoints)) [
    | inr (p, known) ↦ kept p known valid (reserve_known d s r p st valid known)
    | inl absent ↦ elim (reserve_fresh d s r st valid absent) [
      | inl (p, e, c) ↦ added p absent valid c e
      | inr (e, all) ↦ spent e
    ]
  ]
]

-- Every call, failing or not, leaves distinct ports and identities, all in the range, if that was
-- so before.
pub reserve-IsConsistent :
    (d s : String) (r : ℤ) (st : Store)
    → IsConsistent st.health_endpoints
    → IsConsistent (reserve_health_endpoint d s r st).1.health_endpoints
reserve-IsConsistent d s r st c = elim (outcome d s r st) [
  | refused e ↦ rw e c
  | kept p known valid e ↦ rw e c
  | added p absent valid chosen e ↦ rw e (
      append_one-IsConsistent (endpoint d s r p) st.health_endpoints
        (omega (arith, chosen.above, chosen.below)) chosen.free
        (identity_taken-find d s r st.health_endpoints absent) c)
  | spent e ↦ rw e c
]

-- DeleteHealthEndpoints keeps the invariant.
pub delete-IsConsistent :
    (d : String) (st : Store)
    → IsConsistent st.health_endpoints
    → IsConsistent (delete_health_endpoints d st).health_endpoints
unfolding delete_health_endpoints
delete-IsConsistent d st c = keep-IsConsistent _ st.health_endpoints c

keep_others-append :
    (d s : String) (r : ℤ) (p : ℕ) (rows : List HealthEndpoint)
    → keep (λ e. not (e.deployment == d)) (rows ++ endpoint d s r p ∷ [])
      ≡ keep (λ e. not (e.deployment == d)) rows
unfolding keep
keep_others-append d s r p [] = ground (arith, eq_iff d d)
keep_others-append d s r p (x ∷ rows) = ground (arith, keep_others-append d s r p rows)

-- Every call leaves the endpoints of the other deployments, the leases and the snapshots.
pub reserve-others :
    (d s : String) (r : ℤ) (st : Store)
    → (keep (λ e. not (e.deployment == d)) (reserve_health_endpoint d s r st).1.health_endpoints
        ≡ keep (λ e. not (e.deployment == d)) st.health_endpoints)
      × ((reserve_health_endpoint d s r st).1.ipam_leases ≡ st.ipam_leases)
      × ((reserve_health_endpoint d s r st).1.desired_snapshots ≡ st.desired_snapshots)
reserve-others d s r st = elim (outcome d s r st) [
  | refused e ↦ rw e (refl, refl, refl)
  | kept p known valid e ↦ rw e (refl, refl, refl)
  | added p absent valid chosen e ↦
      rw e (keep_others-append d s r p st.health_endpoints, refl, refl)
  | spent e ↦ rw e (refl, refl, refl)
]

-- No call touches the operations and their journal.
pub reserve-journal :
    (d s : String) (r : ℤ) (st : Store)
    → ((reserve_health_endpoint d s r st).1.operations ≡ st.operations)
      × ((reserve_health_endpoint d s r st).1.operation_journal ≡ st.operation_journal)
reserve-journal d s r st = elim (outcome d s r st) [
  | refused e ↦ rw e (refl, refl)
  | kept p known valid e ↦ rw e (refl, refl)
  | added p absent valid chosen e ↦ rw e (refl, refl)
  | spent e ↦ rw e (refl, refl)
]

identity_taken-found :
    (d s : String) (r : ℤ) (rows : List HealthEndpoint) {p : ℕ}
    → find_endpoint d s r rows ≡ some p
    → identity_taken d s r rows ≡ true
unfolding find_endpoint identity_taken
identity_taken-found d s r [] h = cc
identity_taken-found d s r (e ∷ rows) h = elim (Bool-cases (is_endpoint_of d s r e)) [
  | inl here ↦ rw here refl
  | inr other ↦ rw other (identity_taken-found d s r rows (simp (find_endpoint, other) at h))
]

identity_taken-added :
    (d s : String) (r : ℤ) (p : ℕ) (rows : List HealthEndpoint)
    → identity_taken d s r (rows ++ endpoint d s r p ∷ []) ≡ true
unfolding identity_taken
identity_taken-added d s r p [] = ground (arith, eq_iff d d, eq_iff s s, int_eq.same_iff r r)
identity_taken-added d s r p (e ∷ rows) = ground (arith, identity_taken-added d s r p rows)

-- A call that succeeds leaves a row for its identity.
pub reserve-identity_taken :
    (d s : String) (r : ℤ) (st : Store) {e : HealthEndpoint}
    → (reserve_health_endpoint d s r st).0 ≡ ok e
    → identity_taken d s r (reserve_health_endpoint d s r st).1.health_endpoints ≡ true
reserve-identity_taken d s r st h = elim (outcome d s r st) [
  | refused e ↦ cc (simp e at h)
  | kept p known valid e ↦ rw e (identity_taken-found d s r st.health_endpoints known)
  | added p absent valid chosen e ↦ rw e (identity_taken-added d s r p st.health_endpoints)
  | spent e ↦ cc (simp e at h)
]

-- No call removes a row.
pub reserve-keeps :
    (d s : String) (r : ℤ) (st : Store) (d' s' : String) (r' : ℤ)
    → identity_taken d' s' r' st.health_endpoints ≡ true
    → identity_taken d' s' r' (reserve_health_endpoint d s r st).1.health_endpoints ≡ true
reserve-keeps d s r st d' s' r' h = elim (outcome d s r st) [
  | refused e ↦ rw e h
  | kept p known valid e ↦ rw e h
  | added p absent valid chosen e ↦ rw e (
      ground (arith, identity_taken-append d' s' r' st.health_endpoints (endpoint d s r p ∷ []), h))
  | spent e ↦ rw e h
]
