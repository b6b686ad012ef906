-- ===== src/Apply/Endings.antt =====
-- controlplane/internal/app/orchestrator.go: where a whole run of apply can end.
use vcpe.Common.{
  [], eq_iff, string_eq, ◌∷◌, arith, ◌&&◌, ◌==◌, List, not, keep, some_where, refl, if◌then◌else◌,
  String, ◌≡◌,
}
use vcpe.Apply.Standing.{others_endpoints, others_leases, others_snapshots, IsErased}
use vcpe.Persist.Tables.{HealthEndpoint, IpamLease, Snapshot, Store}
use vcpe.Apply.{rollback, Run}
use vcpe.Persist.Snapshots.{customer_exists}

some_where-others_leases :
    (d c : String) (rows : List IpamLease)
    → some_where (λ (l : IpamLease). l.customer_id == c) (others_leases d rows)
      ≡ (not (c == d) && some_where (λ (l : IpamLease). l.customer_id == c) rows)
unfolding some_where keep
some_where-others_leases d c [] = ground arith
some_where-others_leases d c (l ∷ rows) = ground (
  arith,
  some_where-others_leases d c rows,
  eq_iff l.customer_id c,
  eq_iff l.customer_id d,
  eq_iff c d,
)

some_where-others_snapshots :
    (d c : String) (rows : List Snapshot)
    → some_where (λ (s : Snapshot). s.customer_id == c) (others_snapshots d rows)
      ≡ (not (c == d) && some_where (λ (s : Snapshot). s.customer_id == c) rows)
unfolding some_where keep
some_where-others_snapshots d c [] = ground arith
some_where-others_snapshots d c (s ∷ rows) = ground (
  arith,
  some_where-others_snapshots d c rows,
  eq_iff s.customer_id c,
  eq_iff s.customer_id d,
  eq_iff c d,
)

keep-others_endpoints :
    (d c : String) (rows : List HealthEndpoint)
    → keep (λ e. e.deployment == c) (others_endpoints d rows)
      ≡ (if c == d then [] else keep (λ e. e.deployment == c) rows)
unfolding keep
keep-others_endpoints d c [] = ground arith
keep-others_endpoints d c (e ∷ rows) = ground (
  arith,
  keep-others_endpoints d c rows,
  eq_iff e.deployment c,
  eq_iff e.deployment d,
  eq_iff c d,
)

customer_exists-erased :
    (d c : String) (st st' : Store)
    → IsErased d st st'
    → customer_exists c st' ≡ (not (c == d) && customer_exists c st)
unfolding customer_exists
customer_exists-erased d c st st' h =
    rw
      (
        customer_exists,
        h.snapshots,
        h.leases,
        some_where-others_leases d c st.ipam_leases,
        some_where-others_snapshots d c st.desired_snapshots,
      )
      (ground arith)

-- After a rollback the deployment of the run is not known any more, though it may have been before
-- the run; every other deployment is known just as before. The health ports of the run's deployment
-- are free, and those of every other deployment stay.
pub customer_exists-rollback :
    (run : Run) (st : Store) (c : String)
    → (customer_exists c (rollback run st) ≡ (not (c == run.name) && customer_exists c st))
      × (keep (λ e. e.deployment == c) (rollback run st).health_endpoints
          ≡ (if c == run.name then [] else keep (λ e. e.deployment == c) st.health_endpoints))
unfolding rollback
customer_exists-rollback run st c = (
  customer_exists-erased run.name c st (rollback run st)
      (record { leases = refl; snapshots = refl; endpoints = refl }),
  keep-others_endpoints run.name c st.health_endpoints,
)
