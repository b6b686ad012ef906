-- ===== src/Apply/Ports.antt =====
-- controlplane/internal/app/orchestrator.go: reserveHealthPorts leaves a port for every instance that
-- needs one.
use vcpe.Common.{
  ◌∙◌, ap, sym, arith, subst, inr, false, inl, [], ◌∷◌, List, String, Bool, not, ◌||◌, All, ◌≡◌,
  true, refl,
}
use vcpe.Common.Result.{Result, ok, err, Result-cases}
use vcpe.Common.Int.{ℤ}
use vcpe.Persist.Tables.{Store, HealthEndpoint}
use vcpe.Persist.Health.{identity_taken, reserve_health_endpoint}
use vcpe.Persist.Health.Reservation.{reserve-identity_taken, reserve-keeps}
use vcpe.Apply.{PlannedService, Run, reserve_instances, reserve_health_ports}

-- serviceHealthTransportRequired says that a port is needed.
abbrev pub needs_port : PlannedService → Bool
needs_port svc = elim svc.health [ err e ↦ false | ok required ↦ required ]

-- Every instance that needs a port has one.
abbrev pub HasPorts : String → List PlannedService → List HealthEndpoint → Type 0
HasPorts name services rows =
    All
      (λ (svc : PlannedService).
        All (λ (i : ℤ). (not (needs_port svc) || identity_taken name svc.name i rows) ≡ true)
          svc.indices)
      services

module _ (run : Run) where
  reserve_instances-keeps :
      (service : String) (indices : List ℤ) (st : Store) (d s : String) (r : ℤ)
      → identity_taken d s r st.health_endpoints ≡ true
      → identity_taken d s r (reserve_instances run service indices st).1.health_endpoints ≡ true
  unfolding reserve_instances
  reserve_instances-keeps service [] st d s r h = h
  reserve_instances-keeps service (i ∷ indices) st d s r h =
      let first = reserve-keeps run.name service i st d s r h in
      elim (Result-cases (reserve_health_endpoint run.name service i st).0) [
        | inl (x, e) ↦ rw (e, reserve_instances) first
        | inr (x, e) ↦
            rw (e, reserve_instances)
              (reserve_instances-keeps service indices
                (reserve_health_endpoint run.name service i st).1 d s r first)
      ]

  reserve_instances-taken :
      (service : String) (indices : List ℤ) (st : Store)
      → (reserve_instances run service indices st).0 ≡ ok tt
      → All
          (λ (i : ℤ).
            identity_taken run.name service i
              (reserve_instances run service indices st).1.health_endpoints
            ≡ true)
          indices
  unfolding reserve_instances
  reserve_instances-taken service [] st h = tt
  reserve_instances-taken service (i ∷ indices) st h =
      let st' = (reserve_health_endpoint run.name service i st).1 in
      elim (Result-cases (reserve_health_endpoint run.name service i st).0) [
        | inl (x, e) ↦ cc (simp (e, reserve_instances) at h)
        | inr (x, e) ↦
            let step : reserve_instances run service (i ∷ indices) st
                ≡ reserve_instances run service indices st' =
              simp (e, reserve_instances) refl in
            subst
              (λ (out : Result String (Unit {0}) × Store).
                All (λ (j : ℤ). identity_taken run.name service j out.1.health_endpoints ≡ true)
                  (i ∷ indices))
              (sym step)
              (
                reserve_instances-keeps service indices st' run.name service i
                    (reserve-identity_taken run.name service i st e),
                reserve_instances-taken service indices st' (ap (λ x. x.0) (sym step) ∙ h),
              )
      ]

  reserve_health_ports-keeps :
      (services : List PlannedService) (st : Store) (d s : String) (r : ℤ)
      → identity_taken d s r st.health_endpoints ≡ true
      → identity_taken d s r (reserve_health_ports run services st).1.health_endpoints ≡ true
  unfolding reserve_health_ports
  reserve_health_ports-keeps [] st d s r h = h
  reserve_health_ports-keeps (svc ∷ services) st d s r h = elim (Result-cases svc.health) [
    | inl (e, failed) ↦ rw (failed, reserve_health_ports) h
    | inr (false, skipped) ↦
        rw (skipped, reserve_health_ports) (reserve_health_ports-keeps services st d s r h)
    | inr (true, required) ↦
        let first = reserve_instances-keeps svc.name svc.indices st d s r h in
        elim (Result-cases (reserve_instances run svc.name svc.indices st).0) [
          | inl (e, failed) ↦ rw (required, reserve_health_ports, failed) first
          | inr (x, done) ↦
              rw (required, reserve_health_ports, done)
                (reserve_health_ports-keeps services
                  (reserve_instances run svc.name svc.indices st).1 d s r first)
        ]
  ]

  All-weaken :
      (needed : Bool) (taken : ℤ → Bool) (indices : List ℤ)
      → All (λ (i : ℤ). taken i ≡ true) indices
      → All (λ (i : ℤ). (not needed || taken i) ≡ true) indices
  All-weaken needed taken [] all = tt
  All-weaken needed taken (i ∷ indices) all =
      (ground (arith, all.0), All-weaken needed taken indices all.1)

  All-unneeded :
      (needed : Bool) (taken : ℤ → Bool) (indices : List ℤ)
      → needed ≡ false
      → All (λ (i : ℤ). (not needed || taken i) ≡ true) indices
  All-unneeded needed taken [] h = tt
  All-unneeded needed taken (i ∷ indices) h =
      (ground (arith, h), All-unneeded needed taken indices h)

  All-keeps :
      (service : String) (indices : List ℤ) (services : List PlannedService) (st : Store)
      → All (λ (i : ℤ). identity_taken run.name service i st.health_endpoints ≡ true) indices
      → All
          (λ (i : ℤ).
            identity_taken run.name service i
              (reserve_health_ports run services st).1.health_endpoints
            ≡ true)
          indices
  All-keeps service [] services st all = tt
  All-keeps service (i ∷ indices) services st all = (
    reserve_health_ports-keeps services st run.name service i all.0,
    All-keeps service indices services st all.1,
  )

  pub reserve_health_ports-HasPorts :
      (services : List PlannedService) (st : Store)
      → (reserve_health_ports run services st).0 ≡ ok tt
      → HasPorts run.name services (reserve_health_ports run services st).1.health_endpoints
  unfolding reserve_health_ports
  reserve_health_ports-HasPorts [] st h = tt
  reserve_health_ports-HasPorts (svc ∷ services) st h = elim (Result-cases svc.health) [
    | inl (e, failed) ↦ cc (simp (failed, reserve_health_ports) at h)
    | inr (false, skipped) ↦
        let step : reserve_health_ports run (svc ∷ services) st
            ≡ reserve_health_ports run services st =
          simp (skipped, reserve_health_ports) refl in
        subst (HasAll svc services) (sym step) (
          All-unneeded _ _ svc.indices (
              ap
                (λ (health : Result String Bool). elim health [
                  | err e ↦ false
                  | ok required ↦ required
                ])
                skipped),
          reserve_health_ports-HasPorts services st (ap (λ x. x.0) (sym step) ∙ h),
        )
    | inr (true, required) ↦
        let st' = (reserve_instances run svc.name svc.indices st).1 in
        elim (Result-cases (reserve_instances run svc.name svc.indices st).0) [
          | inl (e, failed) ↦ cc (simp (required, reserve_health_ports, failed) at h)
          | inr (x, done) ↦
              let step : reserve_health_ports run (svc ∷ services) st
                  ≡ reserve_health_ports run services st' =
                simp (required, reserve_health_ports, done) refl in
              subst (HasAll svc services) (sym step) (
                All-weaken _ _ svc.indices (
                    All-keeps svc.name svc.indices services st'
                      (reserve_instances-taken svc.name svc.indices st done)),
                reserve_health_ports-HasPorts services st' (ap (λ x. x.0) (sym step) ∙ h),
              )
        ]
  ]
    where
      HasAll : PlannedService → List PlannedService → Result String (Unit {0}) × Store → Type 0
      HasAll svc services out = HasPorts run.name (svc ∷ services) out.1.health_endpoints
