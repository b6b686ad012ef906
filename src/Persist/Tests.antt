-- ===== src/Persist/Tests.antt =====
-- Runs of the store, and its theorems at concrete data.
use vcpe.Common.Unary.{read-write, read, write}
use vcpe.Persist.Checkpoints.{get-set_replica_count, set_replica_count, Decimal, get_replica_count}
use vcpe.Persist.Health.Reservation.{reserve_fresh, Chosen, reserve-IsConsistent}
use vcpe.Common.{
  true, ◌≤◌, ◌⊎◌, ◌+◌, refl, ◌++◌, [], arith, ltb, if◌then◌else◌, ◌∷◌, ◌≡◌, String, keep, ℕ,
}
use vcpe.Persist.Tables.{
  ports_exhausted, constraint_failed, Operation, empty, HealthEndpoint, IpamLease, Store,
}
use vcpe.Persist.Health.{
  health_port_max, health_port_min, identity_taken, try_ports, find_endpoint, port_taken,
  reserve_health_endpoint,
}
use vcpe.Persist.Operations.Recovery.{recover_lem, recovery_entry, DistinctIds}
use vcpe.Common.Result.{err, ok}
use vcpe.Persist.Leases.Replacement.{replace_customer_leases_failed, replace_customer_leases_lem}
use vcpe.Common.Int.{pos}
use vcpe.Persist.Leases.{lease_taken, replace_customer_leases}
use vcpe.Persist.Health.Constraints.{IsConsistent}
use vcpe.Persist.Operations.{operation_taken, recover_unfinished_operations, running_ids}

abbrev gateway_endpoint : HealthEndpoint
gateway_endpoint = record {
  deployment = "lab";
  service = "gateway";
  replica = pos 0;
  host_port = 47000;
}

abbrev one_port : Store
one_port = record empty { health_endpoints = gateway_endpoint ∷ [] }

one_port-IsConsistent : IsConsistent one_port.health_endpoints
unfolding port_taken identity_taken
one_port-IsConsistent = record { distinct = (refl, refl, tt); in_range = (omega arith, tt) }

second_port :
    (reserve_health_endpoint "lab" "webpa" (pos 0) one_port).0
    ≡ ok (record { deployment = "lab"; service = "webpa"; replica = pos 0; host_port = 47001 })
unfolding reserve_health_endpoint find_endpoint try_ports
second_port = refl

reserve_fresh_example :
    ((p : ℕ) × (reserve_health_endpoint "lab" "webpa" (pos 0) one_port ≡ (
      ok (record { deployment = "lab"; service = "webpa"; replica = pos 0; host_port = p }),
      record one_port {
        health_endpoints =
            one_port.health_endpoints
            ++ record { deployment = "lab"; service = "webpa"; replica = pos 0; host_port = p }
              ∷ [];
      },
    ))
      × Chosen health_port_min (health_port_max + 1) p one_port.health_endpoints)
    ⊎ ((reserve_health_endpoint "lab" "webpa" (pos 0) one_port ≡ (err ports_exhausted, one_port))
        × ((q : ℕ)
            → health_port_min ≤ q
            → q ≤ health_port_max
            → port_taken q one_port.health_endpoints ≡ true))
unfolding find_endpoint
reserve_fresh_example = reserve_fresh "lab" "webpa" (pos 0) one_port refl refl

reserve-IsConsistent_example :
    IsConsistent (reserve_health_endpoint "lab" "webpa" (pos 0) one_port).1.health_endpoints
reserve-IsConsistent_example =
    reserve-IsConsistent "lab" "webpa" (pos 0) one_port one_port-IsConsistent

abbrev lab_lease : IpamLease
lab_lease = record { customer_id = "lab"; role = "wan"; cidr = "10.0.0.0/24" }

abbrev home_lease : IpamLease
home_lease = record { customer_id = "home"; role = "wan"; cidr = "10.1.0.0/24" }

abbrev leased : Store
leased = record empty { ipam_leases = lab_lease ∷ home_lease ∷ [] }

abbrev new_lease : IpamLease
new_lease = record { customer_id = "lab"; role = "lan"; cidr = "10.2.0.0/24" }

replace_customer_leases_lem_example :
    replace_customer_leases "lab" (new_lease ∷ []) leased
    ≡ (ok tt, record leased { ipam_leases = home_lease ∷ new_lease ∷ [] })
unfolding keep lease_taken
replace_customer_leases_lem_example =
    replace_customer_leases_lem "lab" (new_lease ∷ []) leased (refl, refl, tt)

-- Two leases of one role violate the primary key.
duplicate_role :
    (replace_customer_leases "lab" (new_lease ∷ new_lease ∷ []) leased).0 ≡ err constraint_failed
unfolding replace_customer_leases
duplicate_role = refl

replace_customer_leases_failed_example :
    (replace_customer_leases "lab" (new_lease ∷ new_lease ∷ []) leased).1 ≡ leased
replace_customer_leases_failed_example =
    replace_customer_leases_failed "lab" (new_lease ∷ new_lease ∷ []) leased duplicate_role

abbrev operation : String → String → Operation
operation id status = record {
  operation_id = id;
  command = "apply";
  manifest_path = "m.yaml";
  status = status;
  created_at = "t0";
  updated_at = "t0";
}

abbrev crashed : Store
crashed = record empty {
  operations = operation "op-1" "succeeded" ∷ operation "op-2" "running" ∷ [];
}

abbrev count_text : ℕ → String
count_text n = if ltb 0 n then "some" else "0"

crashed-DistinctIds : DistinctIds crashed.operations
unfolding operation_taken
crashed-DistinctIds = (refl, (refl, tt))

recover_lem_example :
    ((recover_unfinished_operations count_text "t1" crashed).1.operations
      ≡ operation "op-1" "succeeded"
        ∷ record (operation "op-2" "failed_recovered") { updated_at = "t1" }
        ∷ [])
    × ((recover_unfinished_operations count_text "t1" crashed).1.operation_journal
        ≡ recovery_entry "t1" "op-2" ∷ [])
    × ((recover_unfinished_operations count_text "t1" crashed).0 ≡ 1)
unfolding running_ids
recover_lem_example = recover_lem count_text "t1" crashed crashed-DistinctIds

abbrev decimal : Decimal
decimal = record { itoa = write; atoi = read; atoi-itoa = read-write }

get-set_replica_count_example :
    get_replica_count decimal "lab" "gateway"
      (set_replica_count decimal "lab" "gateway" (pos 3) "now" empty)
    ≡ pos 3
get-set_replica_count_example =
    get-set_replica_count decimal "lab" "gateway" "lab" "gateway" (pos 3) "now" empty
