-- ===== src/Planner/Build/Validated.antt =====
-- controlplane/internal/manifest/validate.go and controlplane/internal/planner/planner.go: a validated manifest is
-- planned.
use vcpe.Common.{
  string_eq, inr, true, ◌∙◌, sym, inl, keep, contains, Bool-cases, ◌≡◌, List, ℕ, Option, String,
}
use vcpe.Manifest.Validate.Accepted.{IsValid, validate-IsValid}
use vcpe.Manifest.Validate.{validate, has_dependencies, service_names}
use vcpe.Planner.Order.Started.{All-contains}
use vcpe.Planner.Build.Planned.{build-ok, build-sorted, IsPlanOf}
use vcpe.Manifest.Validate.Names.{has_dependencies-lem}
use vcpe.Planner.Order.Acyclic.{order_services-acyclic}
use vcpe.Common.Result.{ok}
use vcpe.Planner.Order.{order_services}
use vcpe.Common.Int.{ℤ}
use vcpe.Manifest.{Service, Document}
use vcpe.Planner.Networks.{Formats}
use vcpe.Planner.Build.{build}
use vcpe.Plan.{Deployment}
use vcpe.Net.{Prefix, Addr}

valid-order :
    (parse_prefix : String → Option Prefix) (parse_addr : String → Option Addr) (doc : Document)
    → IsValid parse_prefix parse_addr doc
    → (ordered : List Service) × (order_services doc.spec.services ≡ ok ordered)
valid-order parse_prefix parse_addr doc v =
    order_services-acyclic doc.spec.services v.order v.names v.known v.ordered (λ n free.
      has_dependencies-lem doc.spec.services n
        (elim (Bool-cases (contains (service_names (keep has_dependencies doc.spec.services)) n)) [
          | inl has ↦ cc (
              sym free
              ∙ All-contains (λ (m : String). contains v.order m ≡ true)
                  (service_names (keep has_dependencies doc.spec.services)) v.complete n has)
          | inr bare ↦ bare
        ]))

-- Build returns a plan for every manifest that Validate accepts, whatever the replica counts of the last apply: the error of a
-- cycle is unreachable. The plan has the networks of the manifest in their order, by their roles, and as many services as the
-- manifest, each behind the services that it depends on.
pub build-planned :
    (parse_prefix : String → Option Prefix) (parse_addr : String → Option Addr) (formats : Formats)
    (sha1 : String → ℕ → ℕ) (itoa : ℕ → String) (doc : Document) (counts : List (String × ℤ))
    → validate parse_prefix parse_addr doc ≡ ok tt
    → (plan : Deployment) × (build formats sha1 itoa doc counts ≡ ok plan) × IsPlanOf doc plan
unfolding build
build-planned parse_prefix parse_addr formats sha1 itoa doc counts accepted =
    let v = validate-IsValid parse_prefix parse_addr doc accepted in
    let (ordered, sorted) = valid-order parse_prefix parse_addr doc v in
    let (plan, made) = build-sorted formats sha1 itoa doc counts ordered sorted in
    (plan, made, build-ok formats sha1 itoa doc counts plan v.names made)
