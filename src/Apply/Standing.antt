-- ===== src/Apply/Standing.antt =====
-- controlplane/internal/app/orchestrator.go: the states of the database that a run of apply goes
-- through, compared by the leases, the snapshots and the health ports.
-- What rollback removes.
use vcpe.Common.{
  eq_iff, Bool-cases, arith, ◌++◌, true, false, [], string_eq, inr, ◌==◌, inl, not, keep, refl, ◌∷◌,
  List, ◌∙◌, ◌≡◌, String,
}
use vcpe.Ipam.{primary_cidr, leases_for}
use vcpe.Manifest.{Network}
use vcpe.Persist.Leases.{is_customer}
use vcpe.Common.Result.{Result-cases}
use vcpe.Persist.Health.Reservation.{reserve-others}
use vcpe.Apply.{PlannedService, succeeded, Run, reserve_health_ports, reserve_instances}
use vcpe.Persist.Health.{reserve_health_endpoint}
use vcpe.Persist.Tables.{HealthEndpoint, IpamLease, Snapshot, Store}
use vcpe.Common.Int.{ℤ}
use vcpe.Persist.Operations.{record_phase}

abbrev pub others_leases : String → List IpamLease → List IpamLease
others_leases name rows = keep (λ l. not (is_customer name l)) rows

abbrev pub others_snapshots : String → List Snapshot → List Snapshot
others_snapshots name rows = keep (λ s. not (s.customer_id == name)) rows

abbrev pub others_endpoints : String → List HealthEndpoint → List HealthEndpoint
others_endpoints name rows = keep (λ e. not (e.deployment == name)) rows

-- The tables of the desired state are as before.
pub record SameDesired (st st' : Store) : Type 0 where
  pub leases : st'.ipam_leases ≡ st.ipam_leases
  pub snapshots : st'.desired_snapshots ≡ st.desired_snapshots
  pub endpoints : st'.health_endpoints ≡ st.health_endpoints

-- The tables of the desired state have lost all of one deployment, and nothing else.
pub record IsErased (name : String) (st st' : Store) : Type 0 where
  pub leases : st'.ipam_leases ≡ others_leases name st.ipam_leases
  pub snapshots : st'.desired_snapshots ≡ others_snapshots name st.desired_snapshots
  pub endpoints : st'.health_endpoints ≡ others_endpoints name st.health_endpoints

-- Health ports were reserved for one deployment, and the rest stands.
pub record Stands (name : String) (st st' : Store) : Type 0 where
  pub leases : st'.ipam_leases ≡ st.ipam_leases
  pub snapshots : st'.desired_snapshots ≡ st.desired_snapshots
  pub endpoints :
      others_endpoints name st'.health_endpoints ≡ others_endpoints name st.health_endpoints

pub Stands-refl : (name : String) (st : Store) → Stands name st st
Stands-refl name st = record { leases = refl; snapshots = refl; endpoints = refl }

-- The journal does not count.
pub succeeded-Stands :
    (run : Run) (st st' : Store) (phase message : String)
    → Stands run.name st st'
    → Stands run.name st (succeeded run phase message st')
unfolding record_phase
succeeded-Stands run st st' phase message h = record {
  leases = h.leases;
  snapshots = h.snapshots;
  endpoints = h.endpoints;
}

pub Stands-trans :
    (name : String) (a b c : Store) → Stands name a b → Stands name b c → Stands name a c
Stands-trans name a b c p q = record {
  leases = q.leases ∙ p.leases;
  snapshots = q.snapshots ∙ p.snapshots;
  endpoints = q.endpoints ∙ p.endpoints;
}

reserve_health_endpoint-Stands :
    (name s : String) (r : ℤ) (st : Store) → Stands name st (reserve_health_endpoint name s r st).1
reserve_health_endpoint-Stands name s r st =
    let (e, l, d) = reserve-others name s r st in
    record { leases = l; snapshots = d; endpoints = e }

reserve_instances-Stands :
    (run : Run) (service : String) (indices : List ℤ) (st : Store)
    → Stands run.name st (reserve_instances run service indices st).1
unfolding reserve_instances
reserve_instances-Stands run service [] st = Stands-refl run.name st
reserve_instances-Stands run service (i ∷ indices) st =
    let first = reserve_health_endpoint-Stands run.name service i st in
    elim (Result-cases (reserve_health_endpoint run.name service i st).0) [
      | inl (e, failed) ↦ rw (failed, reserve_instances) first
      | inr (x, done) ↦
          rw (done, reserve_instances)
            (Stands-trans run.name st (reserve_health_endpoint run.name service i st).1 _ first (
              reserve_instances-Stands run service indices
                (reserve_health_endpoint run.name service i st).1))
    ]

pub reserve_health_ports-Stands :
    (run : Run) (services : List PlannedService) (st : Store)
    → Stands run.name st (reserve_health_ports run services st).1
unfolding reserve_health_ports
reserve_health_ports-Stands run [] st = Stands-refl run.name st
reserve_health_ports-Stands run (svc ∷ services) st = elim (Result-cases svc.health) [
  | inl (e, failed) ↦ rw (failed, reserve_health_ports) (Stands-refl run.name st)
  | inr (false, skipped) ↦
      rw (skipped, reserve_health_ports) (reserve_health_ports-Stands run services st)
  | inr (true, required) ↦
      let first = reserve_instances-Stands run svc.name svc.indices st in
      elim (Result-cases (reserve_instances run svc.name svc.indices st).0) [
        | inl (e, failed) ↦ rw (required, reserve_health_ports, failed) first
        | inr (x, done) ↦
            rw (required, reserve_health_ports, done)
              (Stands-trans run.name st (reserve_instances run svc.name svc.indices st).1 _ first (
                reserve_health_ports-Stands run services
                  (reserve_instances run svc.name svc.indices st).1))
      ]
]

others_leases-own :
    (d : String) (networks : List Network) → others_leases d (leases_for d networks) ≡ []
unfolding leases_for keep
others_leases-own d [] = refl
others_leases-own d (n ∷ networks) = elim (Bool-cases (primary_cidr n == "")) [
  | inl bare ↦ rw (bare, leases_for) (others_leases-own d networks)
  | inr leased ↦ rw (leased, leases_for) (ground (arith, eq_iff d d, others_leases-own d networks))
]

-- A rollback takes back just what the deployment leased.
pub others_leases-apply :
    (d : String) (rows : List IpamLease) (networks : List Network)
    → others_leases d (others_leases d rows ++ leases_for d networks) ≡ others_leases d rows
unfolding keep
others_leases-apply d [] networks = others_leases-own d networks
others_leases-apply d (l ∷ rows) networks = ground (arith, others_leases-apply d rows networks)

pub others_snapshots-save :
    (d manifest now : String) (rows : List Snapshot)
    → others_snapshots d
        (rows ++ record { customer_id = d; manifest = manifest; created_at = now } ∷ [])
      ≡ others_snapshots d rows
unfolding keep
others_snapshots-save d manifest now [] = ground (arith, eq_iff d d)
others_snapshots-save d manifest now (s ∷ rows) =
    ground (arith, others_snapshots-save d manifest now rows)
