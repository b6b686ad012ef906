-- ===== src/Apply/Finished.antt =====
-- controlplane/internal/app/orchestrator.go: every path of runApply finishes its operation.
use vcpe.Persist.Operations.{
  operation_taken, start_operation, record_phase, finish_operation, set_status, running_ids,
}
use vcpe.Apply.{
  preflight_phase, run_operation, succeeded, reserve_health_ports, step_error, allocation_phase,
  Applied, contract_phase, health_phase, lifecycle_phase, render_phase, Run, fail,
}
use vcpe.Common.{
  [], arith, true, if◌then◌else◌, inl, inr, none, refl, ◌∷◌, ◌==◌, Bool, Option-cases, string_eq,
  List, contains, Option, String, ◌≡◌, false,
}
use vcpe.Ipam.{apply, check_conflicts}
use vcpe.Common.Result.{Result-cases}
use vcpe.Persist.Tables.{Operation, Store}
use vcpe.Net.{Prefix}
use vcpe.Persist.Checkpoints.{Decimal}

-- The operation is not running any more.
abbrev pub HasFinished : Run → Applied → Type 0
HasFinished run out = contains (running_ids out.1.operations) run.op_id ≡ false

set_status-running_ids :
    (op_id status now : String) (rows : List Operation)
    → (status == "running") ≡ false
    → contains (running_ids (set_status op_id status now rows)) op_id ≡ false
unfolding running_ids set_status
set_status-running_ids op_id status now [] h = refl
set_status-running_ids op_id status now (o ∷ rows) h =
    ground (arith, set_status-running_ids op_id status now rows h)

fail-HasFinished :
    (run : Run) (allocated live : Bool) (phase cause : String) (st : Store)
    → HasFinished run (fail run allocated live phase cause st)
unfolding fail finish_operation record_phase
fail-HasFinished run allocated live phase cause st =
    set_status-running_ids run.op_id "failed" run.now _ refl

module _ (decimal : Decimal) (run : Run) where
  lifecycle_phase-HasFinished : (st : Store) → HasFinished run (lifecycle_phase decimal run st)
  unfolding lifecycle_phase finish_operation record_phase
  lifecycle_phase-HasFinished st =
      elim (Option-cases
        (step_error run "lifecycle" (if run.skip_runtime then none else run.lifecycle_error))) [
          | inr (cause, e) ↦
              rw (e, lifecycle_phase) (fail-HasFinished run true true "lifecycle" cause st)
          | inl e ↦
              rw (e, lifecycle_phase) (set_status-running_ids run.op_id "succeeded" run.now _ refl)
        ]

  contract_phase-HasFinished :
      (contracts : List (String × Option String)) (st : Store)
      → HasFinished run (contract_phase decimal run contracts st)
  unfolding contract_phase
  contract_phase-HasFinished [] st =
      elim (Option-cases (step_error run "runtime-init-verify" none)) [
        | inr (cause, e) ↦
            rw (e, contract_phase) (fail-HasFinished run true false "runtime-init-verify" cause st)
        | inl e ↦ rw (e, contract_phase) (lifecycle_phase-HasFinished _)
      ]
  contract_phase-HasFinished ((service, invalid) ∷ contracts) st = elim (Option-cases invalid) [
    | inr (cause, e) ↦
        rw (e, contract_phase) (fail-HasFinished run true false "runtime-init" cause st)
    | inl e ↦ rw (e, contract_phase) (contract_phase-HasFinished contracts _)
  ]

  render_phase-HasFinished : (st : Store) → HasFinished run (render_phase decimal run st)
  unfolding render_phase
  render_phase-HasFinished st = elim (Option-cases (step_error run "render" run.render_error)) [
    | inr (cause, e) ↦ rw (e, render_phase) (fail-HasFinished run true false "render" cause st)
    | inl e ↦ elim (Option-cases run.contracts_error) [
      | inr (cause, f) ↦
          simp (e, f, render_phase)
            (fail-HasFinished run true false "runtime-init" cause
              (succeeded run "render" "typed artifacts rendered" st))
      | inl f ↦ simp (e, f, render_phase) (contract_phase-HasFinished run.contracts _)
    ]
  ]

  health_phase-HasFinished : (st : Store) → HasFinished run (health_phase decimal run st)
  unfolding health_phase
  health_phase-HasFinished st = elim (Result-cases (reserve_health_ports run run.services st).0) [
    | inl (cause, e) ↦
        rw (e, health_phase)
          (fail-HasFinished run true false "health-endpoints" cause
            (reserve_health_ports run run.services st).1)
    | inr (x, e) ↦ rw (e, health_phase) (render_phase-HasFinished _)
  ]

module _ (parse_prefix : String → Option Prefix) (decimal : Decimal) (run : Run) where
  allocation_phase-HasFinished :
      (st : Store) → HasFinished run (allocation_phase parse_prefix decimal run st)
  unfolding allocation_phase
  allocation_phase-HasFinished st =
      elim (Result-cases (check_conflicts parse_prefix run.name run.networks st)) [
        | inl (x, e) ↦
            rw (e, allocation_phase)
              (fail-HasFinished run false false "allocation" (run.conflict_text x) st)
        | inr (x, e) ↦ elim (Result-cases (apply run.name run.networks st).0) [
          | inl (y, f) ↦
              rw (e, allocation_phase, f)
                (fail-HasFinished run false false "allocation" (run.store_text y)
                  (apply run.name run.networks st).1)
          | inr (y, f) ↦ elim (Option-cases run.allocate_error) [
            | inr (cause, g) ↦
                simp (e, allocation_phase, f, g)
                  (fail-HasFinished run true false "allocation" cause
                    (apply run.name run.networks st).1)
            | inl g ↦ elim (Option-cases (step_error run "allocation" none)) [
              | inr (cause, i) ↦
                  simp (e, allocation_phase, f, g, i)
                    (fail-HasFinished run true false "allocation" cause
                      (apply run.name run.networks st).1)
              | inl i ↦ simp (e, allocation_phase, f, g, i) (health_phase-HasFinished decimal run _)
            ]
          ]
        ]
      ]

  preflight_phase-HasFinished :
      (st : Store) → HasFinished run (preflight_phase parse_prefix decimal run st)
  unfolding preflight_phase
  preflight_phase-HasFinished st =
      elim (Option-cases (if run.skip_hostnet_preflight then none else run.preflight_error)) [
        | inr (cause, e) ↦
            rw (e, preflight_phase) (fail-HasFinished run false false "preflight" cause st)
        | inl e ↦ elim (Option-cases (step_error run "preflight" none)) [
          | inr (cause, f) ↦
              rw (e, preflight_phase, f) (fail-HasFinished run false false "preflight" cause st)
          | inl f ↦
              elim (Option-cases
                (step_error run "images" (if run.skip_runtime then none else run.images_error))) [
                  | inr (cause, g) ↦
                      rw (e, preflight_phase, f, g)
                        (fail-HasFinished run false false "images" cause
                          (succeeded run "preflight" run.intents_text st))
                  | inl g ↦ rw (e, preflight_phase, f, g) (allocation_phase-HasFinished _)
                ]
        ]
      ]

  -- Whatever fails in a run whose operation starts, the operation is not left `running`.
  pub run_operation-HasFinished :
      (st : Store)
      → operation_taken run.op_id st.operations ≡ false
      → HasFinished run (run_operation parse_prefix decimal run st)
  unfolding run_operation start_operation finish_operation record_phase
  run_operation-HasFinished st fresh = elim (Option-cases run.secrets_error) [
    | inr (cause, e) ↦
        simp (fresh, run_operation, e) (set_status-running_ids run.op_id "failed" run.now _ refl)
    | inl e ↦ simp (fresh, run_operation, e) (preflight_phase-HasFinished _)
  ]
