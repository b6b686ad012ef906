-- ===== src/Apply/Disruptive.antt =====
-- controlplane/internal/app/disruptive.go: classifyDisruptive, the changes that an apply asks to allow; and previousReplicaCounts
-- of orchestrator.go. `decode` is the YAML decoder of a snapshot. The queries of the database do not fail here.
pub mod Reasons
mod Tests
use vcpe.Common.{
  length, ltb, Bool, string_eq, some, ◌&&◌, [], not, ◌++◌, ◌==◌, Option, if◌then◌else◌, none, ◌∷◌,
  List, String,
}
use vcpe.Common.Int.{int_eq, pos, ltb_ℤ, ℤ}
use vcpe.Persist.Snapshots.{latest_desired_snapshot}
use vcpe.Persist.Leases.{list_ipam_leases}
use vcpe.Manifest.{Document, Network, Service}
use vcpe.Persist.Tables.{Store, IpamLease}
use vcpe.Persist.Checkpoints.{get_replica_count, Decimal}
use vcpe.Ipam.{primary_cidr}

-- A reason, by what its message shows.
pub data Reason : Type 0 where
  cidr_changes : String → String → String → Reason
  identity_reset : String → String → Reason
  scale_to_zero : String → ℤ → Reason

-- existingCIDR: the last lease of the deployment for the role.
unfoldable pub existing_cidr : String → String → List IpamLease → Option String → Option String
existing_cidr name role [] found = found
existing_cidr name role (l ∷ leases) found =
    existing_cidr name role leases
      (if l.customer_id == name && l.role == role then some l.cidr else found)

unfoldable pub cidr_reason : String → Network → List IpamLease → List Reason
unfolding existing_cidr primary_cidr
cidr_reason name n leases = elim (existing_cidr name n.role leases none) [
  | none ↦ []
  | some prior ↦
      let desired = primary_cidr n in
      if not (desired == "") && (not (prior == "") && not (desired == prior))
      then cidr_changes n.role prior desired ∷ []
      else []
]

unfoldable pub cidr_reasons : String → List Network → List IpamLease → List Reason
unfolding cidr_reason
cidr_reasons name [] leases = []
cidr_reasons name (n ∷ networks) leases =
    cidr_reason name n leases ++ cidr_reasons name networks leases

-- prevReplicas: the last service of the previous manifest with the name.
unfoldable pub replicas_before : String → List Service → Option ℤ → Option ℤ
replicas_before name [] found = found
replicas_before name (svc ∷ services) found =
    replicas_before name services (if svc.name == name then some svc.replicas else found)

unfoldable pub scale_reason : Service → List Service → List Reason
unfolding replicas_before
scale_reason svc services = elim (replicas_before svc.name services none) [
  | none ↦ []
  | some was ↦
      if ltb_ℤ (pos 0) was && svc.replicas == pos 0 then scale_to_zero svc.name was ∷ [] else []
]

unfoldable pub scale_reasons : List Service → List Service → List Reason
unfolding scale_reason
scale_reasons [] services = []
scale_reasons (svc ∷ rest) services = scale_reason svc services ++ scale_reasons rest services

unfoldable pub reset_reason : String → String → List Reason
reset_reason name prior =
    if not (prior == "") && not (prior == name) then identity_reset prior name ∷ [] else []

module _ (decode : String → Option Document) where
  unfoldable pub snapshot_reasons : Document → Option String → List Reason
  unfolding scale_reasons reset_reason
  snapshot_reasons doc none = []
  snapshot_reasons doc (some snap) = elim (decode snap) [
    | none ↦ []
    | some prev ↦
        reset_reason doc.metadata.name prev.metadata.name
        ++ scale_reasons doc.spec.services prev.spec.services
  ]

  -- classifyDisruptive; the code sorts the messages of these reasons.
  unfoldable pub classify_disruptive : Store → Document → Bool × List Reason
  unfolding cidr_reasons snapshot_reasons list_ipam_leases latest_desired_snapshot
  classify_disruptive st doc =
      let reasons =
        cidr_reasons doc.metadata.name doc.spec.networks (list_ipam_leases st)
        ++ snapshot_reasons doc (latest_desired_snapshot doc.metadata.name st) in
      (ltb 0 (length reasons), reasons)

module _ (decimal : Decimal) where
  -- previousReplicaCounts
  unfoldable pub previous_replica_counts : Store → String → List Service → List (String × ℤ)
  unfolding get_replica_count
  previous_replica_counts st deployment [] = []
  previous_replica_counts st deployment (svc ∷ services) =
      (svc.name, get_replica_count decimal deployment svc.name st)
      ∷ previous_replica_counts st deployment services
