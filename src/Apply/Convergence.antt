-- ===== src/Apply/Convergence.antt =====
-- controlplane/internal/app/orchestrator.go: a run in which no step fails converges.
use vcpe.Common.{map, ◌++◌, NoRepeat, ◌∷◌, [], ℕ, string_eq, All, Option, String, ◌≡◌, false}
use vcpe.Apply.Converged.{all_entries}
use vcpe.Apply.Outcomes.{IsDeployed}
use vcpe.Persist.Tables.{Operation, Store}
use vcpe.Persist.Checkpoints.{get_replica_count, Decimal}
use vcpe.Apply.{PlannedService, Applied, exceeds_cap, reserve_health_ports, Run}
use vcpe.Manifest.{DistinctRoles}
use vcpe.Ipam.{check_conflicts}
use vcpe.Persist.Operations.{record_phase, operation_taken}
use vcpe.Apply.Ports.{HasPorts}
use vcpe.Common.Result.{ok}
use vcpe.Net.{Prefix}

-- The database has room for the run: its cap, its id, its leases and its health ports.
pub record HasRoom (parse_prefix : String → Option Prefix) (run : Run) (st : Store) : Type 0 where
  pub cap : exceeds_cap run st ≡ false
  pub fresh : operation_taken run.op_id st.operations ≡ false
  pub roles : DistinctRoles run.networks
  pub names : NoRepeat (map (λ (s : PlannedService). s.name) run.services)
  pub counts : ℕ × ℕ
  pub conflicts : check_conflicts parse_prefix run.name run.networks st ≡ ok counts
  pub ports :
      (st' : Store)
      → st'.health_endpoints ≡ st.health_endpoints
      → (reserve_health_ports run run.services st').0 ≡ ok tt

-- What a run that converges leaves: the operation succeeded, its journal tells of every phase, the
-- replica counts are those of the services, every instance that needs a health port has one, and the
-- tables of the desired state are those of the run.
pub record HasConverged (decimal : Decimal) (run : Run) (counts : ℕ × ℕ) (st : Store)
    (out : Applied) : Type 0 where
  pub result : out.0 ≡ ok run.op_id
  pub operations :
      out.1.operations
      ≡ st.operations
        ++ record {
          operation_id = run.op_id;
          command = "apply";
          manifest_path = run.manifest_path;
          status = "succeeded";
          created_at = run.now;
          updated_at = run.now;
        }
          ∷ []
  pub journal : out.1.operation_journal ≡ st.operation_journal ++ all_entries run counts
  pub replicas :
      All
        (λ (s : PlannedService). get_replica_count decimal run.name s.name out.1 ≡ s.replicas)
        run.services
  pub ports : HasPorts run.name run.services out.1.health_endpoints
  pub desired : IsDeployed run st out.1

-- The row of the operation when it starts.
abbrev running : Run → Operation
running run = record {
  operation_id = run.op_id;
  command = "apply";
  manifest_path = run.manifest_path;
  status = "running";
  created_at = run.now;
  updated_at = run.now;
}

started : Run → Store → Store
unfolding record_phase
started run st =
    record_phase run.op_id "operation" "started" "operation started" run.now
      (record st { operations = st.operations ++ running run ∷ [] })
