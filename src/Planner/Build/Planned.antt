-- ===== src/Planner/Build/Planned.antt =====
-- controlplane/internal/planner/planner.go: what Build makes of a manifest.
use vcpe.Common.{
  inl, inr, ◌∙◌, subst, string_eq, NoRepeat, refl, suc, true, ap, contains, All, [], arith, length,
  ℕ, ◌∷◌, String, ◌≡◌, List, map,
}
use vcpe.Common.Result.{Result-cases, ok-injective, >>=-ok, ok}
use vcpe.Manifest.Validate.{service_names}
use vcpe.Planner.Order.Started.{order_services-ok, StartsAfter}
use vcpe.Planner.Order.{order_services}
use vcpe.Common.Int.{ℤ}
use vcpe.Planner.Instances.{resolve_service}
use vcpe.Planner.Networks.{resolve_networks, resolve_network, Formats, add_gateway}
use vcpe.Planner.Build.{build, resolve_services}
use vcpe.Manifest
use vcpe.Manifest.{Document}
use vcpe.Plan.{Network, Service, Deployment}

-- Each planned service depends on services in front of it only, by their names.
abbrev pub PlanStartsAfter : List String → List Service → Type 0
PlanStartsAfter done [] = Unit
PlanStartsAfter done (s ∷ services) =
    All (λ d. contains done d ≡ true) s.depends_on × PlanStartsAfter (s.name ∷ done) services

-- The plan has the networks of the manifest and as many services, in an order for startup.
abbrev pub IsPlanOf : Document → Deployment → Type 0
IsPlanOf doc plan =
    (map (λ (n : Network). n.role) plan.networks
      ≡ map (λ (n : Manifest.Network). n.role) doc.spec.networks)
    × (length plan.services ≡ length doc.spec.services)
    × PlanStartsAfter [] plan.services

add_gateway-role :
    (formats : Formats) (lan_roles : List String) (lan_dns : List (String × String)) (n : Network)
    → (add_gateway formats lan_roles lan_dns n).role ≡ n.role
unfolding add_gateway
add_gateway-role formats lan_roles lan_dns n = grind arith

module _ (formats : Formats) (sha1 : String → ℕ → ℕ) (itoa : ℕ → String) where
  resolved-roles :
      (lan_roles : List String) (lan_dns : List (String × String)) (deployment : String)
      (networks : List Manifest.Network)
      → map
          (λ (n : Network). n.role)
          (map
            (add_gateway formats lan_roles lan_dns)
            (map (resolve_network formats sha1 itoa deployment) networks))
        ≡ map (λ (n : Manifest.Network). n.role) networks
  unfolding resolve_network
  resolved-roles lan_roles lan_dns deployment [] = refl
  resolved-roles lan_roles lan_dns deployment (n ∷ networks) =
      rw
        (add_gateway-role formats lan_roles lan_dns
          (resolve_network formats sha1 itoa deployment n))
        (ap (λ (rest : List String). n.role ∷ rest)
          (resolved-roles lan_roles lan_dns deployment networks))

  resolve_services-PlanStartsAfter :
      (deployment : String) (counts : List (String × ℤ)) (networks : List Network)
      (done : List String) (services : List Manifest.Service)
      → StartsAfter done services
      → PlanStartsAfter done
          (resolve_services formats sha1 itoa deployment counts networks services)
  unfolding resolve_services resolve_service
  resolve_services-PlanStartsAfter deployment counts networks done [] after = tt
  resolve_services-PlanStartsAfter deployment counts networks done (svc ∷ services) after = (
    after.0,
    resolve_services-PlanStartsAfter deployment counts networks (svc.name ∷ done) services after.1,
  )

  length-resolve_services :
      (deployment : String) (counts : List (String × ℤ)) (networks : List Network)
      (services : List Manifest.Service)
      → length (resolve_services formats sha1 itoa deployment counts networks services)
        ≡ length services
  unfolding resolve_services
  length-resolve_services deployment counts networks [] = refl
  length-resolve_services deployment counts networks (svc ∷ services) =
      ap suc (length-resolve_services deployment counts networks services)

  -- When the names of the services are distinct and Build returns a plan, the plan has the networks of the manifest in their
  -- order, by their roles, and as many services as the manifest, each behind the services that it depends on.
  pub build-ok :
      (doc : Document) (counts : List (String × ℤ)) (plan : Deployment)
      → NoRepeat (service_names doc.spec.services)
      → build formats sha1 itoa doc counts ≡ ok plan
      → IsPlanOf doc plan
  unfolding build resolve_networks
  build-ok doc counts plan once h =
      let (ordered, made, sorted) = >>=-ok (order_services doc.spec.services) _ h in
      let (after, distinct, known, size) =
        order_services-ok doc.spec.services ordered once sorted in
      subst (IsPlanOf doc) (ok-injective _ _ made) (
        resolved-roles _ _ doc.metadata.name doc.spec.networks,
        length-resolve_services _ _ _ ordered ∙ size,
        resolve_services-PlanStartsAfter _ _ _ [] ordered after,
      )

  -- An order of the services is all that Build needs.
  pub build-sorted :
      (doc : Document) (counts : List (String × ℤ)) (ordered : List Manifest.Service)
      → order_services doc.spec.services ≡ ok ordered
      → (plan : Deployment) × (build formats sha1 itoa doc counts ≡ ok plan)
  unfolding build
  build-sorted doc counts ordered sorted =
      elim (Result-cases (build formats sha1 itoa doc counts)) [
        | inr planned ↦ planned
        | inl (e, failed) ↦ cc (simp (build, sorted) at failed)
      ]
