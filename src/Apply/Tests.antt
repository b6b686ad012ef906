-- ===== src/Apply/Tests.antt =====
-- Runs of apply on a small deployment.
use vcpe.Common.{string_eq, ◌==◌, none, [], false, true, ◌∷◌, ◌≡◌, refl, some, some_where, keep}
use vcpe.Persist.Operations.{
  set_status, finish_operation, record_phase, start_operation, operation_taken,
}
use vcpe.Persist.Health.{
  delete_health_endpoints, find_endpoint, reserve_found, reserve_health_endpoint,
}
use vcpe.Persist.Snapshots.{delete_deployment_snapshot, save_desired_snapshot, customer_exists}
use vcpe.Apply.{
  rollback, fail, render_phase, health_phase, allocation_phase, reserve_instances, preflight_phase,
  reserve_health_ports, run_operation, PlannedService, Run, exceeds_cap, run_apply,
}
use vcpe.Persist.Leases.{
  lease_taken, insert_lease, insert_leases, replace_customer_leases, list_ipam_leases,
}
use vcpe.Ipam.{
  primary_cidr, leases_for, apply, load, overlaps, check_leases, check_existing, check_later,
  check_requested, network_cidrs, request_cidrs, requests, check_conflicts,
}
use vcpe.Net.{prefix_overlaps}
use vcpe.Apply.Endings.{customer_exists-rollback}
use vcpe.Apply.Finished.{run_operation-HasFinished, HasFinished}
use vcpe.Common.Result.{ok}
use vcpe.Common.Unary.{read-write, read, write}
use vcpe.Ipam.Tests.{lab_networks, other_leases, parse}
use vcpe.Common.Int.{pos}
use vcpe.Persist.Checkpoints.{Decimal}
use vcpe.Persist.Tables.{Store}

abbrev decimal : Decimal
decimal = record { itoa = write; atoi = read; atoi-itoa = read-write }

abbrev gateway : PlannedService
gateway = record { name = "gateway"; replicas = pos 1; indices = pos 0 ∷ []; health = ok true }

abbrev lab_run : Run
lab_run = record {
  name = "lab";
  op_id = "op-1";
  manifest_path = "lab.yaml";
  manifest_raw = "kind: Deployment";
  networks = lab_networks;
  services = gateway ∷ [];
  fail_phase = "";
  skip_hostnet_preflight = false;
  skip_runtime = false;
  secrets_error = none;
  preflight_error = none;
  images_error = none;
  allocate_error = none;
  render_error = none;
  contracts_error = none;
  contracts = ("gateway", none) ∷ [];
  lifecycle_error = none;
  now = "2026-01-01T00:00:00Z";
  max_active_deployments = pos 2;
  disruptive = [];
  allow_disruptive = false;
  intents_text = "intents=1";
  checks_text = λ counts. "checked";
  conflict_text = λ e. "conflict";
  store_text = λ e. "database";
}

abbrev broken_run : Run
broken_run = record lab_run { op_id = "op-2"; render_error = some "unknown type" }

-- The deployment is known, with a lease and a health port of its own.
abbrev deployed_before : Store
deployed_before = record other_leases {
  desired_snapshots =
      record { customer_id = "lab"; manifest = "kind: Deployment"; created_at = "" } ∷ [];
  health_endpoints =
      record { deployment = "lab"; service = "gateway"; replica = pos 0; host_port = 47000 } ∷ [];
}

-- A second run that fails in rendering makes a deployment unknown that the first run recorded.
known_before : customer_exists "lab" deployed_before ≡ true
unfolding customer_exists some_where
known_before = refl

unknown_after : customer_exists "lab" (run_apply parse decimal broken_run deployed_before).1 ≡ false
unfolding customer_exists some_where run_apply exceeds_cap run_operation start_operation
    operation_taken record_phase preflight_phase allocation_phase check_conflicts requests
    request_cidrs network_cidrs check_requested check_later check_existing check_leases overlaps
    prefix_overlaps load list_ipam_leases apply leases_for primary_cidr replace_customer_leases
    insert_leases insert_lease lease_taken keep save_desired_snapshot health_phase
    reserve_health_ports reserve_instances reserve_health_endpoint reserve_found find_endpoint
    render_phase fail rollback delete_deployment_snapshot delete_health_endpoints finish_operation
    set_status
unknown_after = refl

run_operation-HasFinished_example :
    HasFinished broken_run (run_operation parse decimal broken_run deployed_before)
unfolding operation_taken
run_operation-HasFinished_example =
    run_operation-HasFinished parse decimal broken_run deployed_before refl

customer_exists-rollback_example :
    (customer_exists "lab" (rollback broken_run deployed_before) ≡ false)
    × (keep (λ e. e.deployment == "lab") (rollback broken_run deployed_before).health_endpoints
        ≡ [])
customer_exists-rollback_example = customer_exists-rollback broken_run deployed_before "lab"
