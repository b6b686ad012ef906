-- ===== src/Persist/Snapshots.antt =====
-- controlplane/internal/persist/store.go: desired snapshots, and the deployments that are known.
use vcpe.Common.{
  some, string_eq, contains, map, ◌||◌, [], if◌then◌else◌, length, none, ◌==◌, Bool, Option, not, ℕ,
  ◌++◌, ◌∷◌, List, String, keep, some_where,
}
use vcpe.Persist.Tables.{IpamLease, Snapshot, Store}

-- SaveDesiredSnapshot
unfoldable pub save_desired_snapshot : String → String → String → Store → Store
save_desired_snapshot customer_id manifest now st = record st {
  desired_snapshots =
      st.desired_snapshots
      ++ record { customer_id = customer_id; manifest = manifest; created_at = now } ∷ [];
}

-- DeleteDeploymentSnapshot
unfoldable pub delete_deployment_snapshot : String → Store → Store
unfolding keep
delete_deployment_snapshot customer_id st = record st {
  desired_snapshots = keep (λ s. not (s.customer_id == customer_id)) st.desired_snapshots;
}

-- SELECT manifest ... WHERE customer_id = ? ORDER BY id DESC LIMIT 1
unfoldable pub last_manifest : String → List Snapshot → Option String
last_manifest c [] = none
last_manifest c (s ∷ rows) = elim (last_manifest c rows) [
  | some m ↦ some m
  | none ↦ if s.customer_id == c then some s.manifest else none
]

-- LatestDesiredSnapshot
unfoldable pub latest_desired_snapshot : String → Store → Option String
unfolding last_manifest
latest_desired_snapshot customer_id st =
    if customer_id == "" then none else last_manifest customer_id st.desired_snapshots

-- CustomerExists
unfoldable pub customer_exists : String → Store → Bool
unfolding some_where
customer_exists c st =
    some_where (λ (s : Snapshot). s.customer_id == c) st.desired_snapshots
    || some_where (λ (l : IpamLease). l.customer_id == c) st.ipam_leases

-- SELECT DISTINCT: one copy of each name.
unfoldable pub distinct : List String → List String
distinct [] = []
distinct (n ∷ names) = let rest = distinct names in if contains rest n then rest else n ∷ rest

-- CountKnownCustomers
unfoldable pub count_known_customers : Store → ℕ
unfolding distinct
count_known_customers st = length (
    distinct
      (map (λ s. s.customer_id) st.desired_snapshots ++ map (λ l. l.customer_id) st.ipam_leases))
