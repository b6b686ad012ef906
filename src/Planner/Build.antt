-- ===== src/Planner/Build.antt =====
-- controlplane/internal/planner/planner.go: Build, the whole plan of a manifest.
pub mod Planned
pub mod Validated
use vcpe.Common.{string_eq, ◌==◌, [], if◌then◌else◌, ◌∷◌, List, ℕ, String}
use vcpe.Manifest
use vcpe.Manifest.{Document}
use vcpe.Plan.{Network, Service, Deployment}
use vcpe.Common.Result.{ok, ◌>>=◌, Result}
use vcpe.Planner.Order.{OrderError, order_services}
use vcpe.Common.Int.{pos, ℤ}
use vcpe.Planner.Instances.{resolve_service}
use vcpe.Planner.Networks.{resolve_networks, Formats}

-- previousReplicas[name]; a missing key counts no replica, as a nil map does.
unfoldable pub previous_of : String → List (String × ℤ) → ℤ
previous_of name [] = pos 0
previous_of name ((key, count) ∷ rows) = if key == name then count else previous_of name rows

module _ (formats : Formats) (sha1 : String → ℕ → ℕ) (itoa : ℕ → String) where
  unfoldable pub resolve_services :
      String → List (String × ℤ) → List Network → List Manifest.Service → List Service
  unfolding resolve_service previous_of
  resolve_services deployment counts networks [] = []
  resolve_services deployment counts networks (svc ∷ services) =
      resolve_service sha1 itoa deployment svc (previous_of svc.name counts) networks
      ∷ resolve_services deployment counts networks services

  unfoldable pub build : Document → List (String × ℤ) → Result OrderError Deployment
  unfolding resolve_networks order_services resolve_services
  build doc counts =
      let networks = resolve_networks formats sha1 itoa doc in
      order_services doc.spec.services >>= λ ordered. ok (record {
        name = doc.metadata.name;
        labels = doc.metadata.labels;
        networks = networks;
        services = resolve_services doc.metadata.name counts networks ordered;
      })
