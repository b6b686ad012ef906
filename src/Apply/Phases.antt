-- ===== src/Apply/Phases.antt =====
-- controlplane/internal/app/orchestrator.go: the phases of a run in which no step fails.
use vcpe.Common.{
  map, NoRepeat, ◌∷◌, [], ℕ, refl, string_eq, true, All, List, if◌then◌else◌, ◌==◌, Option, none,
  Bool, String, ◌≡◌, false,
}
use vcpe.Apply.Converged.{
  Ends-same, Ends-succeeded, finish-Ends, reserve_health_ports-same, last_entries, noted, Ends,
  contract_entries,
}
use vcpe.Apply.Outcomes.{leased}
use vcpe.Persist.Tables.{Store}
use vcpe.Persist.Checkpoints.{Decimal}
use vcpe.Apply.{
  PlannedService, succeeded, allocation_phase, preflight_phase, reserve_health_ports, step_error,
  render_phase, contract_phase, health_phase, lifecycle_phase, Run,
}
use vcpe.Manifest.{DistinctRoles}
use vcpe.Ipam.Conflicts.{leases_for-AreLeasesOf}
use vcpe.Ipam.{leases_for, apply, check_conflicts}
use vcpe.Persist.Leases.Replacement.{replace_customer_leases_lem}
use vcpe.Persist.Snapshots.{save_desired_snapshot}
use vcpe.Persist.Operations.{record_phase}
use vcpe.Apply.Ports.{HasPorts, reserve_health_ports-HasPorts}
use vcpe.Common.Result.{ok}
use vcpe.Net.{Prefix}

-- No step of the run reports an error.
pub record HasNoError (run : Run) : Type 0 where
  pub no_fault : run.fail_phase ≡ ""
  pub secrets : run.secrets_error ≡ none
  pub preflight : run.preflight_error ≡ none
  pub images : run.images_error ≡ none
  pub allocate : run.allocate_error ≡ none
  pub render : run.render_error ≡ none
  pub contracts_found : run.contracts_error ≡ none
  pub contracts_valid : All (λ (c : String × Option String). c.1 ≡ none) run.contracts
  pub lifecycle : run.lifecycle_error ≡ none

unless_none : (skip : Bool) {e : Option String} → e ≡ none → (if skip then none else e) ≡ none
unless_none true h = refl
unless_none false h = h

step_error-none :
    (run : Run) (phase : String) {e : Option String}
    → run.fail_phase ≡ ""
    → ("" == phase) ≡ false
    → e ≡ none
    → step_error run phase e ≡ none
step_error-none run phase h other none_here = rw (h, other) none_here

module _ (decimal : Decimal) (run : Run) (smooth : HasNoError run)
    (names : NoRepeat (map (λ (s : PlannedService). s.name) run.services)) where
  lifecycle_phase-Ends :
      (st : Store)
      → HasPorts run.name run.services st.health_endpoints
      → Ends decimal run
          (noted run "lifecycle" "compose lifecycle applied"
            ∷ noted run "operation" "apply converged"
            ∷ [])
          st
          (lifecycle_phase decimal run st)
  unfolding lifecycle_phase
  lifecycle_phase-Ends st reserved =
      let e =
        step_error-none run "lifecycle" smooth.no_fault refl
          (unless_none run.skip_runtime smooth.lifecycle) in
      rw (lifecycle_phase, e) (finish-Ends decimal run st names reserved)

  contract_phase-Ends :
      (contracts : List (String × Option String)) (st : Store)
      → All (λ (c : String × Option String). c.1 ≡ none) contracts
      → HasPorts run.name run.services st.health_endpoints
      → Ends decimal run
          (contract_entries run contracts (last_entries run))
          st
          (contract_phase decimal run contracts st)
  unfolding contract_phase contract_entries record_phase
  contract_phase-Ends [] st all reserved =
      let e = step_error-none run "runtime-init-verify" {e = none} smooth.no_fault refl refl in
      rw (contract_phase, e) (Ends-succeeded decimal run _ st _ _ (lifecycle_phase-Ends _ reserved))
  contract_phase-Ends ((service, invalid) ∷ contracts) st all reserved =
      rw (contract_phase, all.0)
        (Ends-succeeded decimal run _ st _ _ (contract_phase-Ends contracts _ all.1 reserved))

  health_phase-Ends :
      (st : Store)
      → (reserve_health_ports run run.services st).0 ≡ ok tt
      → Ends decimal run
          (noted run "health-endpoints" "health endpoint ports reserved"
            ∷ noted run "render" "typed artifacts rendered"
            ∷ contract_entries run run.contracts (last_entries run))
          st
          (health_phase decimal run st)
  unfolding health_phase render_phase record_phase
  health_phase-Ends st ports =
      let e = step_error-none run "render" smooth.no_fault refl smooth.render in
      let (o, j) = reserve_health_ports-same decimal run run.services st in
      simp (ports, health_phase, render_phase, e, smooth.contracts_found)
        (Ends-same decimal run _ st (reserve_health_ports run run.services st).1 o j (
          Ends-succeeded decimal run _ _ _ _ (
            Ends-succeeded decimal run _ _ _ _ (
              contract_phase-Ends run.contracts _ smooth.contracts_valid
                (reserve_health_ports-HasPorts run run.services st ports)))))

  pub allocation_phase-Ends :
      (parse_prefix : String → Option Prefix) (st : Store) {counts : ℕ × ℕ}
      → DistinctRoles run.networks
      → check_conflicts parse_prefix run.name run.networks st ≡ ok counts
      → ((st' : Store)
          → st'.health_endpoints ≡ st.health_endpoints
          → (reserve_health_ports run run.services st').0 ≡ ok tt)
      → Ends decimal run
          (noted run "allocation" (run.checks_text counts)
            ∷ noted run "health-endpoints" "health endpoint ports reserved"
            ∷ noted run "render" "typed artifacts rendered"
            ∷ contract_entries run run.contracts (last_entries run))
          st
          (allocation_phase parse_prefix decimal run st)
  unfolding allocation_phase apply record_phase save_desired_snapshot
  allocation_phase-Ends parse_prefix st {counts} roles checked ports =
      let made =
        replace_customer_leases_lem run.name (leases_for run.name run.networks) st
          (leases_for-AreLeasesOf run.name run.networks roles) in
      let e = step_error-none run "allocation" {e = none} smooth.no_fault refl refl in
      simp (checked, allocation_phase, made, smooth.allocate, e)
        (Ends-same decimal run _ st (leased run st) refl refl (
          Ends-succeeded decimal run _ (leased run st) "allocation" (run.checks_text counts)
            (Ends-same decimal run _ _ _ refl refl (health_phase-Ends _ (ports _ refl)))))

  pub preflight_phase-allocates :
      (parse_prefix : String → Option Prefix) (st : Store)
      → preflight_phase parse_prefix decimal run st
        ≡ allocation_phase parse_prefix decimal run (
            succeeded run "images" "image lifecycle resolved"
              (succeeded run "preflight" run.intents_text st))
  unfolding preflight_phase
  preflight_phase-allocates parse_prefix st =
      let host = unless_none run.skip_hostnet_preflight smooth.preflight in
      let preflight = step_error-none run "preflight" {e = none} smooth.no_fault refl refl in
      let images =
        step_error-none run "images" smooth.no_fault refl
          (unless_none run.skip_runtime smooth.images) in
      simp (host, preflight_phase, preflight, images)
