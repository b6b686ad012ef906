-- ===== src/Planner/Instances/Identities.antt =====
-- controlplane/internal/planner/planner.go: the identities that resolveService gives to the replicas.
use vcpe.Common.{
  ap, length, map, false, true, ◌==◌, arith, refl, [], zero, suc, ◌≡◌, All, ◌∷◌, List, String, ℕ,
}
use vcpe.Common.Int.{int_eq, ltb_ℤ, pos, ℤ}
use vcpe.Planner.Instances.{
  resolve_instance, resolve_interface, resolve_instances, resolve_interfaces, resolve_service,
}
use vcpe.Manifest
use vcpe.Plan.{Network, Interface, Instance, canonical_mac}

-- No address of the manifest is in an interface, and its MAC address is the derived one.
abbrev pub IsDerived :
    (String → ℕ → ℕ) → (ℕ → String) → String → String → ℕ → List Interface → Type 0
IsDerived sha1 itoa deployment service index interfaces =
    All
      (λ (i : Interface).
        (i.mac ≡ canonical_mac sha1 itoa deployment service i.role index)
        × (i.ipv4 ≡ "")
        × (i.ipv6 ≡ ""))
      interfaces

-- The instances of a service from an index on: each has the next index, the interfaces of the manifest
-- by their roles, and the identities that are derived from the index of its place in the list.
abbrev pub AreDerived :
    (String → ℕ → ℕ) → (ℕ → String) → String → Manifest.Service → ℕ → List Instance → Type 0
AreDerived sha1 itoa deployment svc index [] = Unit
AreDerived sha1 itoa deployment svc index (r ∷ instances) =
    (r.index ≡ index)
    × (map (λ (i : Interface). i.role) r.interfaces
        ≡ map (λ (i : Manifest.Interface). i.role) svc.interfaces)
    × IsDerived sha1 itoa deployment svc.name index r.interfaces
    × AreDerived sha1 itoa deployment svc (suc index) instances

many : (n : ℕ) → ltb_ℤ (pos 1) (pos (suc (suc n))) ≡ true
many n = ground arith

not_single : (n : ℕ) → (pos (suc (suc n)) == pos 1) ≡ false
not_single n = ground arith

module _ (sha1 : String → ℕ → ℕ) (itoa : ℕ → String) (deployment : String)
    (networks : List Network) where
  resolve_interfaces-IsDerived :
      (svc : Manifest.Service) (index n position : ℕ) (interfaces : List Manifest.Interface)
      → IsDerived sha1 itoa deployment svc.name index (
          resolve_interfaces sha1 itoa deployment svc index
            (pos (suc (suc n)))
            networks
            position
            interfaces)
  unfolding resolve_interfaces resolve_interface
  resolve_interfaces-IsDerived svc index n position [] = tt
  resolve_interfaces-IsDerived svc index n position (i ∷ interfaces) = (
    (rw (many n) refl, rw (not_single n) refl, rw (not_single n) refl),
    resolve_interfaces-IsDerived svc index n (suc position) interfaces,
  )

  resolve_interfaces-roles :
      (svc : Manifest.Service) (index : ℕ) (replicas : ℤ) (position : ℕ)
      (interfaces : List Manifest.Interface)
      → map
          (λ (i : Interface). i.role)
          (resolve_interfaces sha1 itoa deployment svc index replicas networks position interfaces)
        ≡ map (λ (i : Manifest.Interface). i.role) interfaces
  unfolding resolve_interfaces resolve_interface
  resolve_interfaces-roles svc index replicas position [] = refl
  resolve_interfaces-roles svc index replicas position (i ∷ interfaces) =
      ap (λ (rest : List String). i.role ∷ rest)
        (resolve_interfaces-roles svc index replicas (suc position) interfaces)

  resolve_instances-AreDerived :
      (svc : Manifest.Service) (index m n : ℕ)
      → (let made =
            resolve_instances sha1 itoa deployment svc index m (pos (suc (suc n))) networks in
          AreDerived sha1 itoa deployment svc index made × (length made ≡ m))
  unfolding resolve_instances resolve_instance
  resolve_instances-AreDerived svc index zero n = (tt, refl)
  resolve_instances-AreDerived svc index (suc m) n =
      let (all, count) = resolve_instances-AreDerived svc (suc index) m n in
      (
        (
          refl,
          resolve_interfaces-roles svc index (pos (suc (suc n))) 0 svc.interfaces,
          resolve_interfaces-IsDerived svc index n 0 svc.interfaces,
          all,
        ),
        ap suc count,
      )

  -- When a service has two replicas or more, resolveService makes one instance for each. The k-th of
  -- them, from 0, has the index k and an interface for each of the manifest, by their roles in their order; the
  -- MAC address of an interface is the one that is derived from the deployment, the service, its role and
  -- k, and no address of the manifest is in it.
  pub resolve_service-AreDerived :
      (svc : Manifest.Service) (before : ℤ) (n : ℕ)
      → svc.replicas ≡ pos (suc (suc n))
      → (let made = (resolve_service sha1 itoa deployment svc before networks).instances in
          AreDerived sha1 itoa deployment svc 0 made × (length made ≡ suc (suc n)))
  unfolding resolve_service
  resolve_service-AreDerived svc before n many =
      rw many (resolve_instances-AreDerived svc 0 (suc (suc n)) n)
