-- ===== src/Apply/Disruptive/Tests.antt =====
-- A manifest with one network and one service, applied twice, and then scaled to zero on another range.
use vcpe.Apply.Disruptive.{scale_to_zero, cidr_changes, classify_disruptive}
use vcpe.Common.{
  string_eq, none, refl, some, true, ◌==◌, false, if◌then◌else◌, ◌∷◌, ◌≡◌, Option, [], String, keep,
}
use vcpe.Apply.Disruptive.Reasons.{classify_disruptive-again}
use vcpe.Persist.Snapshots.{latest_desired_snapshot}
use vcpe.Common.Int.{pos, ℤ}
use vcpe.Ipam.{leases_for}
use vcpe.Manifest.{Network, Service, Document}
use vcpe.Persist.Tables.{IpamLease, Store}

abbrev lan : String → Network
lan cidr = record {
  role = "lan";
  bridge = "";
  nat = false;
  firewall = false;
  ipv4 = some (record { cidr = cidr; gateway = ""; pool = none });
  ipv6 = none;
  driver = "";
  driver_options = [];
  ipam_driver = "";
}

abbrev gateway : ℤ → Service
gateway replicas = record {
  name = "gw";
  type = "gateway";
  replicas = replicas;
  image = record {
    repository = "img";
    tag = "1";
    build_context = "";
    containerfile = "";
    pull_policy = "";
    platforms = [];
  };
  depends_on = [];
  interfaces = [];
  bridges = [];
  ports = [];
  volumes = [];
  config = "";
}

abbrev manifest : String → ℤ → Document
manifest cidr replicas = record {
  api_version = "v1";
  kind = "Deployment";
  metadata = record { name = "home"; labels = []; annotations = [] };
  spec = record {
    networks = lan cidr ∷ [];
    services = gateway replicas ∷ [];
    secrets = [];
    max_replicas_per_service = pos 0;
    max_active_deployments = pos 0;
  };
}

abbrev before : Document
before = manifest "10.0.10.0/24" (pos 2)

abbrev other_lease : IpamLease
other_lease = record { customer_id = "office"; role = "lan"; cidr = "10.9.0.0/24" }

abbrev store : Store
store = record {
  operations = [];
  operation_journal = [];
  desired_snapshots =
      record { customer_id = "home"; manifest = "home.yaml"; created_at = "t" } ∷ [];
  ipam_leases =
      other_lease ∷ record { customer_id = "home"; role = "lan"; cidr = "10.0.10.0/24" } ∷ [];
  health_endpoints = [];
  checkpoints = [];
}

abbrev decode : String → Option Document
decode text = if text == "home.yaml" then some before else none

-- A new range and no replica are two reasons.
reports_both :
    classify_disruptive decode store (manifest "10.0.20.0/24" (pos 0))
    ≡ (true, cidr_changes "lan" "10.0.10.0/24" "10.0.20.0/24" ∷ scale_to_zero "gw" (pos 2) ∷ [])
unfolding classify_disruptive
reports_both = refl

classify_disruptive-again_example : classify_disruptive decode store before ≡ (false, [])
unfolding keep leases_for latest_desired_snapshot
classify_disruptive-again_example =
    classify_disruptive-again decode store before (other_lease ∷ []) "home.yaml" (refl, tt)
      (refl, tt) refl refl refl
