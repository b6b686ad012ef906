-- ===== src/Apply/Converged.antt =====
-- controlplane/internal/app/orchestrator.go: what a run that converges leaves of its operation, its
-- journal and the replica counts.
use vcpe.Common.{
  sym, subst, inr, inl, eq_iff, append_assoc, true, ap, ◌∙◌, contains, NoRepeat, map, ◌++◌, ◌∷◌, [],
  ℕ, refl, string_eq, All, List, Option, arith, ◌<>◌, String, ◌≡◌, false,
}
use vcpe.Apply.Ports.{HasPorts}
use vcpe.Common.Result.{Result-cases, ok}
use vcpe.Persist.Checkpoints.{
  replica_key, set_replica_count, get_replica_count, get-set_replica_count, replica_key-injective,
  Decimal,
}
use vcpe.Persist.Health.{reserve_health_endpoint}
use vcpe.Common.Int.{ℤ}
use vcpe.Persist.Operations.{
  record_phase, set_status, finish_operation, operation_taken, upsert_checkpoint,
}
use vcpe.Persist.Health.Reservation.{reserve-journal}
use vcpe.Persist.Tables.{JournalEntry, Operation, Store}
use vcpe.Apply.{
  PlannedService, set_replica_counts, reserve_instances, reserve_health_ports, succeeded, Applied,
  Run,
}

-- The entry of a phase that succeeded.
abbrev pub noted : Run → String → String → JournalEntry
noted run phase message = record {
  operation_id = run.op_id;
  phase = phase;
  status = "succeeded";
  message = message;
  created_at = run.now;
}

unfoldable pub contract_entries :
    Run → List (String × Option String) → List JournalEntry → List JournalEntry
contract_entries run [] rest = rest
contract_entries run ((service, invalid) ∷ contracts) rest =
    noted run ("runtime-init:" <> service) "startup contract generated"
    ∷ contract_entries run contracts rest

-- From the startup contracts to the end.
abbrev pub last_entries : Run → List JournalEntry
last_entries run =
    noted run "runtime-init-verify" "startup contracts verified"
    ∷ noted run "lifecycle" "compose lifecycle applied"
    ∷ noted run "operation" "apply converged"
    ∷ []

-- The entries of a whole run.
abbrev pub all_entries : Run → ℕ × ℕ → List JournalEntry
all_entries run counts =
    record {
      operation_id = run.op_id;
      phase = "operation";
      status = "started";
      message = "operation started";
      created_at = run.now;
    }
    ∷ noted run "preflight" run.intents_text
    ∷ noted run "images" "image lifecycle resolved"
    ∷ noted run "allocation" (run.checks_text counts)
    ∷ noted run "health-endpoints" "health endpoint ports reserved"
    ∷ noted run "render" "typed artifacts rendered"
    ∷ contract_entries run run.contracts (last_entries run)

module _ (decimal : Decimal) (run : Run) where
  -- A part of a run that ends well: its result, the operation, the journal and the replica counts.
  pub record Ends (entries : List JournalEntry) (st : Store) (out : Applied) : Type 0 where
    pub result : out.0 ≡ ok run.op_id
    pub operations : out.1.operations ≡ set_status run.op_id "succeeded" run.now st.operations
    pub journal : out.1.operation_journal ≡ st.operation_journal ++ entries
    pub replicas :
        All
          (λ (s : PlannedService). get_replica_count decimal run.name s.name out.1 ≡ s.replicas)
          run.services
    pub ports : HasPorts run.name run.services out.1.health_endpoints

  pub Ends-same :
      (entries : List JournalEntry) (st st' : Store) {out : Applied}
      → st'.operations ≡ st.operations
      → st'.operation_journal ≡ st.operation_journal
      → Ends entries st' out
      → Ends entries st out
  Ends-same entries st st' o j h = record {
    result = h.result;
    operations = h.operations ∙ ap (set_status run.op_id "succeeded" run.now) o;
    journal = h.journal ∙ ap (λ (js : List JournalEntry). js ++ entries) j;
    replicas = h.replicas;
    ports = h.ports;
  }

  pub Ends-succeeded :
      (entries : List JournalEntry) (st : Store) (phase message : String) {out : Applied}
      → Ends entries (succeeded run phase message st) out
      → Ends (noted run phase message ∷ entries) st out
  unfolding record_phase
  Ends-succeeded entries st phase message h = record {
    result = h.result;
    operations = h.operations;
    journal = h.journal ∙ append_assoc st.operation_journal (noted run phase message ∷ []) entries;
    replicas = h.replicas;
    ports = h.ports;
  }

  set_replica_counts-same :
      (services : List PlannedService) (st : Store)
      → ((set_replica_counts decimal run services st).operations ≡ st.operations)
        × ((set_replica_counts decimal run services st).operation_journal ≡ st.operation_journal)
        × ((set_replica_counts decimal run services st).health_endpoints ≡ st.health_endpoints)
  unfolding set_replica_counts set_replica_count upsert_checkpoint
  set_replica_counts-same [] st = (refl, refl, refl)
  set_replica_counts-same (svc ∷ services) st =
      set_replica_counts-same services
        (set_replica_count decimal run.name svc.name svc.replicas run.now st)

  set_replica_counts-other :
      (services : List PlannedService) (name : String) (st : Store)
      → contains (map (λ (s : PlannedService). s.name) services) name ≡ false
      → get_replica_count decimal run.name name (set_replica_counts decimal run services st)
        ≡ get_replica_count decimal run.name name st
  unfolding set_replica_counts
  set_replica_counts-other [] name st h = refl
  set_replica_counts-other (svc ∷ services) name st h =
      set_replica_counts-other services name
        (set_replica_count decimal run.name svc.name svc.replicas run.now st) (ground (arith, h))
      ∙ get-set_replica_count decimal run.name svc.name run.name name svc.replicas run.now st
      ∙ rw (replica_key-injective run.name svc.name name) (ground (arith, h))

  -- Services with distinct names have their own counts.
  pub set_replica_counts-get :
      (services : List PlannedService) (st : Store)
      → NoRepeat (map (λ (s : PlannedService). s.name) services)
      → All
          (λ (s : PlannedService).
            get_replica_count decimal run.name s.name (set_replica_counts decimal run services st)
            ≡ s.replicas)
          services
  unfolding set_replica_counts
  set_replica_counts-get [] st distinct = tt
  set_replica_counts-get (svc ∷ services) st distinct =
      let st' = set_replica_count decimal run.name svc.name svc.replicas run.now st in
      (
        set_replica_counts-other services svc.name st' distinct.0
            ∙ get-set_replica_count decimal run.name svc.name run.name svc.name svc.replicas run.now
                st
            ∙ rw ((eq_iff (replica_key run.name svc.name) (replica_key run.name svc.name)).1 refl)
                refl,
        set_replica_counts-get services st' distinct.1,
      )

  -- What follows the compose lifecycle.
  pub finish-Ends :
      (st : Store)
      → NoRepeat (map (λ (s : PlannedService). s.name) run.services)
      → HasPorts run.name run.services st.health_endpoints
      → Ends
          (noted run "lifecycle" "compose lifecycle applied"
            ∷ noted run "operation" "apply converged"
            ∷ [])
          st
          (
            ok run.op_id,
            finish_operation run.op_id "succeeded" "apply converged" run.now (
                set_replica_counts decimal run run.services
                  (succeeded run "lifecycle" "compose lifecycle applied" st)),
          )
  unfolding finish_operation record_phase get_replica_count
  finish-Ends st distinct reserved =
      let st' = succeeded run "lifecycle" "compose lifecycle applied" st in
      let (o, j, e) = set_replica_counts-same run.services st' in
      record {
        result = refl;
        operations = ap (set_status run.op_id "succeeded" run.now) o;
        journal =
            ap (λ (js : List JournalEntry). js ++ noted run "operation" "apply converged" ∷ []) j
            ∙ append_assoc st.operation_journal _ _;
        replicas = set_replica_counts-get run.services st' distinct;
        ports = subst (HasPorts run.name run.services) (sym e) reserved;
      }

  reserve_instances-same :
      (service : String) (indices : List ℤ) (st : Store)
      → ((reserve_instances run service indices st).1.operations ≡ st.operations)
        × ((reserve_instances run service indices st).1.operation_journal ≡ st.operation_journal)
  unfolding reserve_instances
  reserve_instances-same service [] st = (refl, refl)
  reserve_instances-same service (i ∷ indices) st =
      let (o, j) = reserve-journal run.name service i st in
      let st' = (reserve_health_endpoint run.name service i st).1 in
      elim (Result-cases (reserve_health_endpoint run.name service i st).0) [
        | inl (x, e) ↦ rw (reserve_instances, e) (o, j)
        | inr (x, e) ↦
            let (o', j') = reserve_instances-same service indices st' in
            rw (reserve_instances, e) (o' ∙ o, j' ∙ j)
      ]

  pub reserve_health_ports-same :
      (services : List PlannedService) (st : Store)
      → ((reserve_health_ports run services st).1.operations ≡ st.operations)
        × ((reserve_health_ports run services st).1.operation_journal ≡ st.operation_journal)
  unfolding reserve_health_ports
  reserve_health_ports-same [] st = (refl, refl)
  reserve_health_ports-same (svc ∷ services) st = elim (Result-cases svc.health) [
    | inl (e, failed) ↦ rw (failed, reserve_health_ports) (refl, refl)
    | inr (false, skipped) ↦
        rw (skipped, reserve_health_ports) (reserve_health_ports-same services st)
    | inr (true, required) ↦
        let (o, j) = reserve_instances-same svc.name svc.indices st in
        let st' = (reserve_instances run svc.name svc.indices st).1 in
        elim (Result-cases (reserve_instances run svc.name svc.indices st).0) [
          | inl (e, failed) ↦ rw (required, reserve_health_ports, failed) (o, j)
          | inr (x, done) ↦
              let (o', j') = reserve_health_ports-same services st' in
              rw (required, reserve_health_ports, done) (o' ∙ o, j' ∙ j)
        ]
  ]

-- A fresh row is the one that changes.
pub set_status-fresh :
    (status now : String) (rows : List Operation) (o : Operation)
    → operation_taken o.operation_id rows ≡ false
    → set_status o.operation_id status now (rows ++ o ∷ [])
      ≡ rows ++ record o { status = status; updated_at = now } ∷ []
unfolding set_status operation_taken
set_status-fresh status now [] o h = rw ((eq_iff o.operation_id o.operation_id).1 refl) refl
set_status-fresh status now (row ∷ rows) o h =
    ground (arith, set_status-fresh status now rows o (ground (arith, h)), h)
