-- ===== src/Apply/Outcomes.antt =====
-- controlplane/internal/app/orchestrator.go: what a run of apply leaves of the desired state, on every
-- path: the leases, the snapshots and the health ports.
use vcpe.Apply.Standing.{
  others_snapshots-save, others_leases-apply, others_endpoints, others_snapshots, succeeded-Stands,
  IsErased, SameDesired, Stands, others_leases, reserve_health_ports-Stands,
}
use vcpe.Apply.{
  health_phase, render_phase, succeeded, step_error, contract_phase, lifecycle_phase, phase_failed,
  reserve_health_ports, set_replica_counts, PlannedService, Applied, Run, fail,
}
use vcpe.Common.{
  if◌then◌else◌, none, Option, Option-cases, ◌⊎◌, ap, inr, inl, ◌∙◌, string_eq, [], ◌∷◌, refl, ◌++◌,
  List, false, true, ◌≡◌, String,
}
use vcpe.Persist.Operations.{record_phase, upsert_checkpoint, finish_operation}
use vcpe.Common.Result.{err, ok, Result-cases, is_ok}
use vcpe.Persist.Checkpoints.{set_replica_count, Decimal}
use vcpe.Ipam.{leases_for}
use vcpe.Persist.Tables.{Snapshot, Store}

-- The deployment is recorded: its leases, a new snapshot, and health ports of its own.
pub record IsDeployed (run : Run) (st st' : Store) : Type 0 where
  pub leases :
      st'.ipam_leases ≡ others_leases run.name st.ipam_leases ++ leases_for run.name run.networks
  pub snapshots :
      st'.desired_snapshots
      ≡ st.desired_snapshots
        ++ record { customer_id = run.name; manifest = run.manifest_raw; created_at = run.now } ∷ []
  pub endpoints :
      others_endpoints run.name st'.health_endpoints ≡ others_endpoints run.name st.health_endpoints

-- The run converged, or the lifecycle failed when containers may already run.
abbrev pub HasLifecycle : Run → Applied → Type 0
HasLifecycle run out =
    (out.0 ≡ ok run.op_id)
    ⊎ ((cause : String) × (out.0 ≡ err (phase_failed "lifecycle" cause true)))

-- Where a run from behind the allocation can end.
pub data After (run : Run) (st : Store) (out : Applied) : Type 0 where
  undone :
      (phase cause : String)
      → out.0 ≡ err (phase_failed phase cause false)
      → IsErased run.name st out.1
      → After run st out
  stands : HasLifecycle run out → Stands run.name st out.1 → After run st out

pub fail_early-SameDesired :
    (run : Run) (phase cause : String) (st : Store)
    → SameDesired st (fail run false false phase cause st).1
unfolding fail
fail_early-SameDesired run phase cause st = record {
  leases = refl;
  snapshots = refl;
  endpoints = refl;
}

fail-After :
    (run : Run) (phase cause : String) (st st' : Store)
    → Stands run.name st st'
    → After run st (fail run true false phase cause st')
unfolding fail
fail-After run phase cause st st' h = undone phase cause refl (record {
  leases = ap (others_leases run.name) h.leases;
  snapshots = ap (others_snapshots run.name) h.snapshots;
  endpoints = h.endpoints;
})

module _ (decimal : Decimal) (run : Run) (st : Store) where
  set_replica_counts-Stands :
      (services : List PlannedService) (st' : Store)
      → Stands run.name st st'
      → Stands run.name st (set_replica_counts decimal run services st')
  unfolding set_replica_counts set_replica_count upsert_checkpoint
  set_replica_counts-Stands [] st' h = h
  set_replica_counts-Stands (svc ∷ services) st' h =
      set_replica_counts-Stands services
        (set_replica_count decimal run.name svc.name svc.replicas run.now st')
        (record { leases = h.leases; snapshots = h.snapshots; endpoints = h.endpoints })

  lifecycle_phase-After :
      (st' : Store) → Stands run.name st st' → After run st (lifecycle_phase decimal run st')
  unfolding lifecycle_phase fail finish_operation record_phase
  lifecycle_phase-After st' h =
      elim (Option-cases
        (step_error run "lifecycle" (if run.skip_runtime then none else run.lifecycle_error))) [
          | inr (cause, e) ↦
              rw (e, lifecycle_phase)
                (stands (inr (cause, refl))
                  (record { leases = h.leases; snapshots = h.snapshots; endpoints = h.endpoints }))
          | inl e ↦
              let st'' = succeeded run "lifecycle" "compose lifecycle applied" st' in
              let counted =
                set_replica_counts-Stands run.services st'' (succeeded-Stands run st st' _ _ h) in
              rw (e, lifecycle_phase)
                (stands (inl refl) (record {
                  leases = counted.leases;
                  snapshots = counted.snapshots;
                  endpoints = counted.endpoints;
                }))
        ]

  contract_phase-After :
      (contracts : List (String × Option String)) (st' : Store)
      → Stands run.name st st'
      → After run st (contract_phase decimal run contracts st')
  unfolding contract_phase record_phase
  contract_phase-After [] st' h = elim (Option-cases (step_error run "runtime-init-verify" none)) [
    | inr (cause, e) ↦ rw (e, contract_phase) (fail-After run "runtime-init-verify" cause st st' h)
    | inl e ↦ rw (e, contract_phase) (lifecycle_phase-After _ (succeeded-Stands run st st' _ _ h))
  ]
  contract_phase-After ((service, invalid) ∷ contracts) st' h = elim (Option-cases invalid) [
    | inr (cause, e) ↦ rw (e, contract_phase) (fail-After run "runtime-init" cause st st' h)
    | inl e ↦
        rw (e, contract_phase)
          (contract_phase-After contracts _ (succeeded-Stands run st st' _ _ h))
  ]

  render_phase-After :
      (st' : Store) → Stands run.name st st' → After run st (render_phase decimal run st')
  unfolding render_phase record_phase
  render_phase-After st' h = elim (Option-cases (step_error run "render" run.render_error)) [
    | inr (cause, e) ↦ rw (e, render_phase) (fail-After run "render" cause st st' h)
    | inl e ↦
        let h' = succeeded-Stands run st st' "render" "typed artifacts rendered" h in
        elim (Option-cases run.contracts_error) [
          | inr (cause, f) ↦ simp (e, f, render_phase) (fail-After run "runtime-init" cause st _ h')
          | inl f ↦ simp (e, f, render_phase) (contract_phase-After run.contracts _ h')
        ]
  ]

  pub health_phase-After : After run st (health_phase decimal run st)
  unfolding health_phase record_phase
  health_phase-After =
      let h = reserve_health_ports-Stands run run.services st in
      elim (Result-cases (reserve_health_ports run run.services st).0) [
        | inl (cause, failed) ↦
            rw (failed, health_phase)
              (fail-After run "health-endpoints" cause st
                (reserve_health_ports run run.services st).1 h)
        | inr (x, done) ↦
            rw (done, health_phase)
              (render_phase-After _
                (succeeded-Stands run st (reserve_health_ports run run.services st).1 _ _ h))
      ]

-- Where a run that starts its operation can end.
pub data Ending (run : Run) (st : Store) (out : Applied) : Type 0 where
  untouched : is_ok out.0 ≡ false → SameDesired st out.1 → Ending run st out
  erased :
      (phase cause : String)
      → out.0 ≡ err (phase_failed phase cause false)
      → IsErased run.name st out.1
      → Ending run st out
  deployed : HasLifecycle run out → IsDeployed run st out.1 → Ending run st out

pub Ending-same :
    (run : Run) (st st' : Store) {out : Applied}
    → SameDesired st st'
    → Ending run st' out
    → Ending run st out
Ending-same run st st' p (untouched failed q) = untouched failed (record {
  leases = q.leases ∙ p.leases;
  snapshots = q.snapshots ∙ p.snapshots;
  endpoints = q.endpoints ∙ p.endpoints;
})
Ending-same run st st' p (erased phase cause failed q) = erased phase cause failed (record {
  leases = q.leases ∙ ap (others_leases run.name) p.leases;
  snapshots = q.snapshots ∙ ap (others_snapshots run.name) p.snapshots;
  endpoints = q.endpoints ∙ ap (others_endpoints run.name) p.endpoints;
})
Ending-same run st st' p (deployed ran q) = deployed ran (record {
  leases =
      q.leases
      ∙ ap (λ rows. others_leases run.name rows ++ leases_for run.name run.networks) p.leases;
  snapshots =
      q.snapshots
      ∙ ap
          (λ (rows : List Snapshot).
            rows
            ++ record { customer_id = run.name; manifest = run.manifest_raw; created_at = run.now }
              ∷ [])
          p.snapshots;
  endpoints = q.endpoints ∙ ap (others_endpoints run.name) p.endpoints;
})

-- The database behind the allocation: the leases are new, and then the snapshot.
abbrev pub leased : Run → Store → Store
leased run st = record st {
  ipam_leases = others_leases run.name st.ipam_leases ++ leases_for run.name run.networks;
}

pub fail-erased :
    (run : Run) (cause : String) (st : Store)
    → Ending run st (fail run true false "allocation" cause (leased run st))
unfolding fail
fail-erased run cause st = erased "allocation" cause refl (record {
  leases = others_leases-apply run.name st.ipam_leases run.networks;
  snapshots = refl;
  endpoints = refl;
})

pub After-Ending :
    (run : Run) (st st' : Store) {out : Applied}
    → st'.ipam_leases ≡ others_leases run.name st.ipam_leases ++ leases_for run.name run.networks
    → st'.desired_snapshots
      ≡ st.desired_snapshots
        ++ record { customer_id = run.name; manifest = run.manifest_raw; created_at = run.now } ∷ []
    → st'.health_endpoints ≡ st.health_endpoints
    → After run st' out
    → Ending run st out
After-Ending run st st' l s e (undone phase cause failed q) = erased phase cause failed (record {
  leases =
      q.leases
      ∙ ap (others_leases run.name) l
      ∙ others_leases-apply run.name st.ipam_leases run.networks;
  snapshots =
      q.snapshots
      ∙ ap (others_snapshots run.name) s
      ∙ others_snapshots-save run.name run.manifest_raw run.now st.desired_snapshots;
  endpoints = q.endpoints ∙ ap (others_endpoints run.name) e;
})
After-Ending run st st' l s e (stands ran q) = deployed ran (record {
  leases = q.leases ∙ l;
  snapshots = q.snapshots ∙ s;
  endpoints = q.endpoints ∙ ap (others_endpoints run.name) e;
})
