-- ===== src/Persist/Tables.antt =====
-- controlplane/internal/persist/store.go: the rows of each table, and the whole database.
-- A table is the list of its rows in the order of insertion, which is the order of the ids of an
-- AUTOINCREMENT key, so those ids are left out. Time stamps are texts that the caller reads from
-- its clock. A statement fails only by a constraint of the schema.
use vcpe.Common.{ℕ, String, List, []}
use vcpe.Common.Int.{ℤ}

pub record Operation : Type 0 where
  pub operation_id : String
  pub command : String
  pub manifest_path : String
  pub status : String
  pub created_at : String
  pub updated_at : String

pub record JournalEntry : Type 0 where
  pub operation_id : String
  pub phase : String
  pub status : String
  pub message : String
  pub created_at : String

pub record Snapshot : Type 0 where
  pub customer_id : String
  pub manifest : String
  pub created_at : String

pub record IpamLease : Type 0 where
  pub customer_id : String
  pub role : String
  pub cidr : String

pub record HealthEndpoint : Type 0 where
  pub deployment : String
  pub service : String
  pub replica : ℤ
  pub host_port : ℕ

pub record Checkpoint : Type 0 where
  pub key : String
  pub value : String
  pub updated_at : String

pub record Store : Type 0 where
  pub operations : List Operation
  pub operation_journal : List JournalEntry
  pub desired_snapshots : List Snapshot
  pub ipam_leases : List IpamLease
  pub health_endpoints : List HealthEndpoint
  pub checkpoints : List Checkpoint

abbrev pub empty : Store
empty = record {
  operations = [];
  operation_journal = [];
  desired_snapshots = [];
  ipam_leases = [];
  health_endpoints = [];
  checkpoints = [];
}

-- What a call of the store reports.
pub data StoreError : Type 0 where
  constraint_failed : StoreError
  invalid_identity : StoreError
  ports_exhausted : StoreError
  incompatible_schema : String → StoreError
