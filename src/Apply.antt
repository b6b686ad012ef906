-- ===== src/Apply.antt =====
-- controlplane/internal/app/orchestrator.go: runApply on a plan, from the deployment cap to the end of
-- its operation, with its rollback. Steps that do not touch the state database (secrets, host preflight, images,
-- interface allocation, rendering, startup contracts, the compose lifecycle) enter by the error that
-- they return, if any.
pub mod Disruptive
pub mod Convergence
pub mod Converged
pub mod Endings
pub mod Finished
pub mod Outcomes
pub mod Phases
pub mod Ports
pub mod Standing
mod Tests
use vcpe.Common.{
  ◌+◌, not, ◌&&◌, length, ltb, ℕ, ◌<>◌, false, string_eq, [], none, some, true, ◌==◌, ◌∷◌,
  if◌then◌else◌, Bool, List, Option, String,
}
use vcpe.Persist.Snapshots.{
  count_known_customers, customer_exists, save_desired_snapshot, delete_deployment_snapshot,
}
use vcpe.Common.Int.{pos, ltb_ℤ, ℤ}
use vcpe.Ipam.{IpamError, apply, check_conflicts}
use vcpe.Persist.Checkpoints.{set_replica_count, Decimal}
use vcpe.Persist.Health.{reserve_health_endpoint, delete_health_endpoints}
use vcpe.Persist.Operations.{start_operation, finish_operation, record_phase}
use vcpe.Common.Result.{err, ok, Result}
use vcpe.Persist.Leases.{replace_customer_leases}
use vcpe.Manifest.{Network}
use vcpe.Net.{Prefix}
use vcpe.Persist.Tables.{Store, StoreError}

-- One service of the resolved plan; `health` is the result of serviceHealthTransportRequired.
pub record PlannedService : Type 0 where
  pub name : String
  pub replicas : ℤ
  pub indices : List ℤ
  pub health : Result String Bool

-- What a run of apply is given: the deployment, the environment variables, and the errors of the
-- steps that do not touch the database.
pub record Run : Type 0 where
  pub name : String
  pub op_id : String
  pub manifest_path : String
  pub manifest_raw : String
  pub networks : List Network
  pub services : List PlannedService
  pub fail_phase : String
  pub skip_hostnet_preflight : Bool
  pub skip_runtime : Bool
  pub secrets_error : Option String
  pub preflight_error : Option String
  pub images_error : Option String
  pub allocate_error : Option String
  pub render_error : Option String
  pub contracts_error : Option String
  -- the startup contracts in the order of their names, with what contract.Validate says
  pub contracts : List (String × Option String)
  pub lifecycle_error : Option String
  pub now : String
  -- maxActiveDeployments, the reasons of classifyDisruptive, and --allow-disruptive
  pub max_active_deployments : ℤ
  pub disruptive : List String
  pub allow_disruptive : Bool
  -- how counts and errors are printed
  pub intents_text : String
  pub checks_text : ℕ × ℕ → String
  pub conflict_text : IpamError → String
  pub store_text : StoreError → String

pub data ApplyError : Type 0 where
  too_many_deployments : ApplyError
  blocked : List String → ApplyError
  not_started : StoreError → ApplyError
  secrets_failed : String → ApplyError
  -- the phase, its cause, and whether containers may already run
  phase_failed : String → String → Bool → ApplyError

abbrev pub Applied : Type 0
Applied = Result ApplyError String × Store

-- rollback
unfoldable pub rollback : Run → Store → Store
unfolding record_phase delete_deployment_snapshot delete_health_endpoints replace_customer_leases
rollback run st = record_phase run.op_id "rollback" "succeeded" "reverted allocation" run.now (
    delete_deployment_snapshot run.name
      (delete_health_endpoints run.name (replace_customer_leases run.name [] st).1))

-- The closure `fail`, over its variables `allocated` and `livePodmanState`.
unfoldable pub fail : Run → Bool → Bool → String → String → Store → Applied
unfolding rollback record_phase finish_operation
fail run allocated live phase cause st =
    let noted = record_phase run.op_id phase "failed" cause run.now st in
    let undone =
      if live
      then record_phase run.op_id "rollback" "skipped"
          ("compose lifecycle may have partially applied; state preserved so `vcpe down --name "
            <> (run.name <> "` can tear it down"))
          run.now noted
      else if allocated
      then rollback run noted
      else noted in
    (err (phase_failed phase cause live), finish_operation run.op_id "failed" cause run.now undone)

-- `if failPhase(phase) { return fail(phase, ...) }`, then the step's own error.
abbrev pub step_error : Run → String → Option String → Option String
step_error run phase e = if run.fail_phase == phase then some ("VCPE_FAIL_PHASE=" <> phase) else e

abbrev pub succeeded : Run → String → String → Store → Store
succeeded run phase message st = record_phase run.op_id phase "succeeded" message run.now st

-- reserveHealthPorts, for the instances of one service and then for all services.
unfoldable pub reserve_instances : Run → String → List ℤ → Store → Result String (Unit {0}) × Store
reserve_instances run service [] st = (ok tt, st)
reserve_instances run service (i ∷ indices) st =
    let (r, st') = reserve_health_endpoint run.name service i st in
    elim r [
      | err e ↦ (err (run.store_text e), st')
      | ok endpoint ↦ reserve_instances run service indices st'
    ]

unfoldable pub reserve_health_ports :
    Run → List PlannedService → Store → Result String (Unit {0}) × Store
unfolding reserve_instances
reserve_health_ports run [] st = (ok tt, st)
reserve_health_ports run (svc ∷ services) st = elim svc.health [
  | err e ↦ (err e, st)
  | ok required ↦
      let (r, st') =
        if required then reserve_instances run svc.name svc.indices st else (ok tt, st) in
      elim r [ err e ↦ (err e, st') | ok done ↦ reserve_health_ports run services st' ]
]

-- enforceActiveDeploymentCap
unfoldable pub exceeds_cap : Run → Store → Bool
exceeds_cap run st =
    ltb_ℤ (pos 0) run.max_active_deployments
    && (not (customer_exists run.name st)
        && ltb_ℤ run.max_active_deployments (pos (count_known_customers st + 1)))

module _ (decimal : Decimal) where
  -- SetReplicaCount for every service.
  unfoldable pub set_replica_counts : Run → List PlannedService → Store → Store
  set_replica_counts run [] st = st
  set_replica_counts run (svc ∷ services) st =
      set_replica_counts run services
        (set_replica_count decimal run.name svc.name svc.replicas run.now st)

  -- The compose lifecycle and what follows it.
  unfoldable pub lifecycle_phase : Run → Store → Applied
  unfolding fail set_replica_counts record_phase finish_operation
  lifecycle_phase run st =
      elim (step_error run "lifecycle" (if run.skip_runtime then none else run.lifecycle_error)) [
        | some cause ↦ fail run true true "lifecycle" cause st
        | none ↦ (
          ok run.op_id,
          finish_operation run.op_id "succeeded" "apply converged" run.now (
              set_replica_counts run run.services
                (succeeded run "lifecycle" "compose lifecycle applied" st)),
        )
      ]

  -- The loop over the startup contracts.
  unfoldable pub contract_phase : Run → List (String × Option String) → Store → Applied
  unfolding fail record_phase
  contract_phase run [] st = elim (step_error run "runtime-init-verify" none) [
    | some cause ↦ fail run true false "runtime-init-verify" cause st
    | none ↦
        lifecycle_phase run (succeeded run "runtime-init-verify" "startup contracts verified" st)
  ]
  contract_phase run ((service, invalid) ∷ contracts) st = elim invalid [
    | some cause ↦ fail run true false "runtime-init" cause st
    | none ↦
        contract_phase run contracts
          (succeeded run ("runtime-init:" <> service) "startup contract generated" st)
  ]

  -- Rendering and the startup contracts.
  unfoldable pub render_phase : Run → Store → Applied
  unfolding fail record_phase
  render_phase run st = elim (step_error run "render" run.render_error) [
    | some cause ↦ fail run true false "render" cause st
    | none ↦
        let rendered = succeeded run "render" "typed artifacts rendered" st in
        elim run.contracts_error [
          | some cause ↦ fail run true false "runtime-init" cause rendered
          | none ↦ contract_phase run run.contracts rendered
        ]
  ]

  -- The health ports, and what follows.
  unfoldable pub health_phase : Run → Store → Applied
  unfolding fail record_phase
  health_phase run st =
      let (r, st') = reserve_health_ports run run.services st in
      elim r [
        | err cause ↦ fail run true false "health-endpoints" cause st'
        | ok done ↦
            render_phase run (succeeded run "health-endpoints" "health endpoint ports reserved" st')
      ]

module _ (parse_prefix : String → Option Prefix) (decimal : Decimal) where
  -- Allocation: conflicts, leases, interfaces and the snapshot.
  unfoldable pub allocation_phase : Run → Store → Applied
  unfolding fail record_phase save_desired_snapshot
  allocation_phase run st = elim (check_conflicts parse_prefix run.name run.networks st) [
    | err e ↦ fail run false false "allocation" (run.conflict_text e) st
    | ok counts ↦
        let (r, leased) = apply run.name run.networks st in
        elim r [
          | err e ↦ fail run false false "allocation" (run.store_text e) leased
          | ok done ↦ elim run.allocate_error [
            | some cause ↦ fail run true false "allocation" cause leased
            | none ↦ elim (step_error run "allocation" none) [
              | some cause ↦ fail run true false "allocation" cause leased
              | none ↦ health_phase decimal run (
                  save_desired_snapshot run.name run.manifest_raw run.now
                    (succeeded run "allocation" (run.checks_text counts) leased))
            ]
          ]
        ]
  ]

  -- Host preflight and images.
  unfoldable pub preflight_phase : Run → Store → Applied
  unfolding fail record_phase
  preflight_phase run st = elim (if run.skip_hostnet_preflight then none else run.preflight_error) [
    | some cause ↦ fail run false false "preflight" cause st
    | none ↦ elim (step_error run "preflight" none) [
      | some cause ↦ fail run false false "preflight" cause st
      | none ↦
          let ready = succeeded run "preflight" run.intents_text st in
          elim (step_error run "images" (if run.skip_runtime then none else run.images_error)) [
            | some cause ↦ fail run false false "images" cause ready
            | none ↦ allocation_phase run (succeeded run "images" "image lifecycle resolved" ready)
          ]
    ]
  ]

  -- From StartOperation on.
  unfoldable pub run_operation : Run → Store → Applied
  unfolding finish_operation
  run_operation run st =
      let (started, st') = start_operation run.op_id "apply" run.manifest_path run.now st in
      elim started [
        | err e ↦ (err (not_started e), st')
        | ok op_id ↦ elim run.secrets_error [
          | some cause ↦ (
            err (secrets_failed cause),
            finish_operation run.op_id "failed" "secret resolution failed" run.now st',
          )
          | none ↦ preflight_phase run st'
        ]
      ]

  -- runApply, behind the manifest's validation and planning.
  unfoldable pub run_apply : Run → Store → Applied
  unfolding exceeds_cap
  run_apply run st =
      if exceeds_cap run st
      then (err too_many_deployments, st)
      else if ltb 0 (length run.disruptive) && not run.allow_disruptive
      then (err (blocked run.disruptive), st)
      else run_operation run st
