-- ===== src/Persist/Operations/Recovery.antt =====
-- controlplane/internal/persist/store.go: what RecoverUnfinishedOperations promises.
use vcpe.Common.{
  true, length, Bool, ℕ, append_assoc, append-nil, eq_iff, ◌∙◌, arith, contains, false, map, refl,
  sym, ◌++◌, All, [], ◌∷◌, ◌≡◌, List, string_eq, ◌==◌, if◌then◌else◌, String,
}
use vcpe.Persist.Operations.{
  recover_unfinished_operations, upsert_checkpoint, operation_taken, recover_each, running_ids,
  set_status,
}
use vcpe.Persist.Tables.{Store, JournalEntry, Operation}

-- What recovery does to a row.
abbrev pub recovered : String → Operation → Operation
recovered now o =
    if o.status == "running" then record o { status = "failed_recovered"; updated_at = now } else o

-- The journal entry that recovery writes for an operation.
abbrev pub recovery_entry : String → String → JournalEntry
recovery_entry now op_id = record {
  operation_id = op_id;
  phase = "recovery";
  status = "failed_recovered";
  message = "operation was running at startup and was marked failed";
  created_at = now;
}

-- The primary key of `operations`.
abbrev pub DistinctIds : List Operation → Type 0
DistinctIds [] = Unit
DistinctIds (o ∷ rows) = (operation_taken o.operation_id rows ≡ false) × DistinctIds rows

marked : String → Operation → Operation
marked now o = record o { status = "failed_recovered"; updated_at = now }

-- All the updates of the loop at once.
mark_all : List String → String → List Operation → List Operation
unfolding marked
mark_all ids now [] = []
mark_all ids now (o ∷ rows) =
    let rest = mark_all ids now rows in
    (if contains ids o.operation_id then marked now o else o) ∷ rest

mark_all-nil : (now : String) (rows : List Operation) → mark_all [] now rows ≡ rows
unfolding mark_all
mark_all-nil now [] = refl
mark_all-nil now (o ∷ rows) = rw (mark_all-nil now rows)

mark_all-set_status :
    (id : String) (ids : List String) (now : String) (rows : List Operation)
    → mark_all ids now (set_status id "failed_recovered" now rows) ≡ mark_all (id ∷ ids) now rows
unfolding mark_all set_status
mark_all-set_status id ids now [] = refl
mark_all-set_status id ids now (o ∷ rows) =
    ground (
      arith,
      mark_all-set_status id ids now rows,
      eq_iff o.operation_id id,
      eq_iff id o.operation_id,
    )

operations-recover_each :
    (ids : List String) (now : String) (st : Store)
    → (recover_each ids now st).operations ≡ mark_all ids now st.operations
unfolding recover_each
operations-recover_each [] now st = sym (mark_all-nil now st.operations)
operations-recover_each (id ∷ ids) now st =
    operations-recover_each ids now _ ∙ mark_all-set_status id ids now st.operations

journal-recover_each :
    (ids : List String) (now : String) (st : Store)
    → (recover_each ids now st).operation_journal
      ≡ st.operation_journal ++ map (recovery_entry now) ids
unfolding recover_each
journal-recover_each [] now st = rw append-nil
journal-recover_each (id ∷ ids) now st = journal-recover_each ids now _ ∙ rw append_assoc

-- `ids` names exactly the rows that run.
abbrev Covers : List String → List Operation → Type 0
Covers ids = All (λ o. contains ids o.operation_id ≡ (o.status == "running"))

mark_all-Covers :
    (ids : List String) (now : String) (rows : List Operation)
    → Covers ids rows
    → mark_all ids now rows ≡ map (recovered now) rows
unfolding mark_all
mark_all-Covers ids now [] c = refl
mark_all-Covers ids now (o ∷ rows) c = rw (c.0, mark_all-Covers ids now rows c.1)

contains-running_ids :
    (id : String) (rows : List Operation)
    → operation_taken id rows ≡ false
    → contains (running_ids rows) id ≡ false
unfolding running_ids operation_taken
contains-running_ids id [] h = refl
contains-running_ids id (o ∷ rows) h = ground (arith, contains-running_ids id rows)

Covers-cons :
    (id : String) (ids : List String) (rows : List Operation)
    → operation_taken id rows ≡ false
    → Covers ids rows
    → Covers (id ∷ ids) rows
unfolding operation_taken
Covers-cons id ids [] h c = tt
Covers-cons id ids (o ∷ rows) h c = (
  ground (arith, c.0, eq_iff id o.operation_id, eq_iff o.operation_id id),
  Covers-cons id ids rows (ground arith) c.1,
)

Covers-add :
    (o : Operation) (ids : List String) (rows : List Operation) (runs : Bool)
    → (o.status == "running") ≡ runs
    → operation_taken o.operation_id rows ≡ false
    → contains ids o.operation_id ≡ false
    → Covers ids rows
    → Covers (if runs then o.operation_id ∷ ids else ids) (o ∷ rows)
Covers-add o ids rows true e new out c = (
  ground (arith, eq_iff o.operation_id o.operation_id),
  Covers-cons o.operation_id ids rows new c,
)
Covers-add o ids rows false e new out c = (rw e out, c)

running_ids-Covers : (rows : List Operation) → DistinctIds rows → Covers (running_ids rows) rows
unfolding running_ids
running_ids-Covers [] d = tt
running_ids-Covers (o ∷ rows) d =
    Covers-add o (running_ids rows) rows (o.status == "running") refl d.0
      (contains-running_ids o.operation_id rows d.0) (running_ids-Covers rows d.1)

operations-upsert_checkpoint :
    (b : Bool) (k v now : String) (st : Store)
    → (if b then upsert_checkpoint k v now st else st).operations ≡ st.operations
unfolding upsert_checkpoint
operations-upsert_checkpoint true k v now st = refl
operations-upsert_checkpoint false k v now st = refl

journal-upsert_checkpoint :
    (b : Bool) (k v now : String) (st : Store)
    → (if b then upsert_checkpoint k v now st else st).operation_journal ≡ st.operation_journal
unfolding upsert_checkpoint
journal-upsert_checkpoint true k v now st = refl
journal-upsert_checkpoint false k v now st = refl

-- In a database whose operation ids are distinct, recovery marks exactly the running operations as
-- failed_recovered, leaves every other row as it is, appends one journal entry for each of them
-- in their order, and returns their number.
pub recover_lem :
    (itoa : ℕ → String) (now : String) (st : Store)
    → DistinctIds st.operations
    → ((recover_unfinished_operations itoa now st).1.operations ≡ map (recovered now) st.operations)
      × ((recover_unfinished_operations itoa now st).1.operation_journal
          ≡ st.operation_journal ++ map (recovery_entry now) (running_ids st.operations))
      × ((recover_unfinished_operations itoa now st).0 ≡ length (running_ids st.operations))
unfolding recover_unfinished_operations
recover_lem itoa now st d = (
  operations-upsert_checkpoint _ "last_recovery" (itoa (length (running_ids st.operations))) now
        (recover_each (running_ids st.operations) now st)
      ∙ operations-recover_each (running_ids st.operations) now st
      ∙ mark_all-Covers _ now st.operations (running_ids-Covers st.operations d),
  journal-upsert_checkpoint _ "last_recovery" (itoa (length (running_ids st.operations))) now
        (recover_each (running_ids st.operations) now st)
      ∙ journal-recover_each (running_ids st.operations) now st,
  refl,
)
