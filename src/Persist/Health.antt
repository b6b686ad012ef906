-- ===== src/Persist/Health.antt =====
-- controlplane/internal/persist/store.go: the reservations of health ports.
pub mod Constraints
pub mod Reservation
use vcpe.Common.{
  ℕ, zero, suc, ◌+◌, ◌-◌, String, Bool, true, false, not, ◌&&◌, ◌||◌, Option, none, some, List, [],
  ◌∷◌, ◌++◌, ◌==◌, string_eq, nat_eq, if◌then◌else◌, keep,
}
use vcpe.Common.Int.{ℤ, pos, int_eq, ltb_ℤ}
use vcpe.Common.Result.{Result, ok, err}
use vcpe.Persist.Tables.{Store, HealthEndpoint, StoreError, invalid_identity, ports_exhausted}

abbrev pub health_port_min : ℕ
health_port_min = 47000

abbrev pub health_port_max : ℕ
health_port_max = 47999

-- The row of one deployment, service and replica.
abbrev pub is_endpoint_of : String → String → ℤ → HealthEndpoint → Bool
is_endpoint_of deployment service replica e =
    e.deployment == deployment && (e.service == service && e.replica == replica)

-- SELECT host_port ... WHERE customer_id = ? AND service_name = ? AND replica_index = ?
unfoldable pub find_endpoint : String → String → ℤ → List HealthEndpoint → Option ℕ
find_endpoint d s r [] = none
find_endpoint d s r (e ∷ rows) =
    if is_endpoint_of d s r e then some e.host_port else find_endpoint d s r rows

unfoldable pub port_taken : ℕ → List HealthEndpoint → Bool
port_taken p [] = false
port_taken p (e ∷ rows) = e.host_port == p || port_taken p rows

unfoldable pub identity_taken : String → String → ℤ → List HealthEndpoint → Bool
identity_taken d s r [] = false
identity_taken d s r (e ∷ rows) = is_endpoint_of d s r e || identity_taken d s r rows

-- INSERT INTO health_endpoints: `none` if the primary key or the unique port is there already.
unfoldable pub insert_endpoint : HealthEndpoint → List HealthEndpoint → Option (List HealthEndpoint)
unfolding port_taken identity_taken
insert_endpoint e rows =
    if identity_taken e.deployment e.service e.replica rows || port_taken e.host_port rows
    then none
    else some (rows ++ e ∷ [])

-- The loop over the ports, with the number of ports that are left.
unfoldable pub try_ports :
    ℕ → ℕ → String → String → ℤ → List HealthEndpoint → Option (ℕ × List HealthEndpoint)
unfolding insert_endpoint
try_ports zero port d s r rows = none
try_ports (suc left) port d s r rows =
    let rest = try_ports left (suc port) d s r rows in
    elim (insert_endpoint (record { deployment = d; service = s; replica = r; host_port = port })
      rows) [ some rows' ↦ some (port, rows') | none ↦ rest ]

-- After the identity was looked up: the old port, or the first that can be inserted.
unfoldable pub reserve_found :
    String → String → ℤ → Option ℕ → Store → Result StoreError HealthEndpoint × Store
reserve_found d s r (some port) st =
    (ok (record { deployment = d; service = s; replica = r; host_port = port }), st)
reserve_found d s r none st =
    elim (try_ports (health_port_max + 1 - health_port_min) health_port_min d s r
      st.health_endpoints) [
        | some (port, rows) ↦ (
          ok (record { deployment = d; service = s; replica = r; host_port = port }),
          record st { health_endpoints = rows },
        )
        | none ↦ (err ports_exhausted, st)
      ]

-- ReserveHealthEndpoint
unfoldable pub reserve_health_endpoint :
    String → String → ℤ → Store → Result StoreError HealthEndpoint × Store
unfolding reserve_found
reserve_health_endpoint deployment service replica st =
    if deployment == "" || (service == "" || ltb_ℤ replica (pos 0))
    then (err invalid_identity, st)
    else reserve_found deployment service replica
        (find_endpoint deployment service replica st.health_endpoints) st

-- DeleteHealthEndpoints
unfoldable pub delete_health_endpoints : String → Store → Store
unfolding keep
delete_health_endpoints deployment st = record st {
  health_endpoints = keep (λ e. not (e.deployment == deployment)) st.health_endpoints;
}
