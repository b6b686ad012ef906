-- ===== src/Persist/Operations.antt =====
-- controlplane/internal/persist/store.go: operations, their journal, and the recovery at startup.
pub mod Recovery
use vcpe.Common.{
  string_eq, ◌||◌, ltb, ◌==◌, [], false, if◌then◌else◌, Bool, length, ◌++◌, ◌∷◌, List, String, ℕ,
}
use vcpe.Common.Result.{ok, err, Result}
use vcpe.Persist.Tables.{constraint_failed, StoreError, Checkpoint, Operation, Store}

-- UpsertCheckpoint
unfoldable pub upsert : String → String → String → List Checkpoint → List Checkpoint
upsert key value now [] = record { key = key; value = value; updated_at = now } ∷ []
upsert key value now (c ∷ rows) =
    if c.key == key
    then record c { value = value; updated_at = now } ∷ rows
    else c ∷ upsert key value now rows

unfoldable pub upsert_checkpoint : String → String → String → Store → Store
unfolding upsert
upsert_checkpoint key value now st = record st { checkpoints = upsert key value now st.checkpoints }

-- RecordPhase
unfoldable pub record_phase : String → String → String → String → String → Store → Store
record_phase op_id phase status message now st = record st {
  operation_journal =
      st.operation_journal
      ++ record {
        operation_id = op_id;
        phase = phase;
        status = status;
        message = message;
        created_at = now;
      }
        ∷ [];
}

unfoldable pub operation_taken : String → List Operation → Bool
operation_taken id [] = false
operation_taken id (o ∷ rows) = o.operation_id == id || operation_taken id rows

-- StartOperation; the id is made from the clock by the caller.
unfoldable pub start_operation :
    String → String → String → String → Store → Result StoreError String × Store
unfolding operation_taken record_phase
start_operation op_id command manifest_path now st =
    if operation_taken op_id st.operations then (err constraint_failed, st) else (
      ok op_id,
      record_phase op_id "operation" "started" "operation started" now (record st {
        operations =
            st.operations
            ++ record {
              operation_id = op_id;
              command = command;
              manifest_path = manifest_path;
              status = "running";
              created_at = now;
              updated_at = now;
            }
              ∷ [];
      }),
    )

-- UPDATE operations SET status = ?, updated_at = ? WHERE operation_id = ?
unfoldable pub set_status : String → String → String → List Operation → List Operation
set_status op_id status now [] = []
set_status op_id status now (o ∷ rows) =
    let rest = set_status op_id status now rows in
    (if o.operation_id == op_id then record o { status = status; updated_at = now } else o) ∷ rest

-- FinishOperation
unfoldable pub finish_operation : String → String → String → String → Store → Store
unfolding set_status record_phase
finish_operation op_id status message now st =
    record_phase op_id "operation" status message now
      (record st { operations = set_status op_id status now st.operations })

-- SELECT operation_id FROM operations WHERE status = 'running'
unfoldable pub running_ids : List Operation → List String
running_ids [] = []
running_ids (o ∷ rows) =
    let rest = running_ids rows in if o.status == "running" then o.operation_id ∷ rest else rest

-- The loop of RecoverUnfinishedOperations. The code reads its clock for each statement; here all have
-- one time stamp.
unfoldable pub recover_each : List String → String → Store → Store
unfolding set_status record_phase
recover_each [] now st = st
recover_each (op_id ∷ ids) now st = recover_each ids now (
    record_phase op_id "recovery" "failed_recovered"
      "operation was running at startup and was marked failed" now
      (record st { operations = set_status op_id "failed_recovered" now st.operations }))

-- RecoverUnfinishedOperations; `itoa` prints the count.
unfoldable pub recover_unfinished_operations : (ℕ → String) → String → Store → ℕ × Store
unfolding recover_each running_ids upsert_checkpoint
recover_unfinished_operations itoa now st =
    let recovered = running_ids st.operations in
    let st' = recover_each recovered now st in
    (
      length recovered,
      (if ltb 0 (length recovered)
          then upsert_checkpoint "last_recovery" (itoa (length recovered)) now st'
          else st'),
    )
