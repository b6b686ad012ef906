-- ===== src/Apply/Disruptive/Reasons.antt =====
-- controlplane/internal/app/disruptive.go: a manifest against the state that its own apply left.
use vcpe.Manifest.Validate.{service_names}
use vcpe.Common.{
  ap, All-weaken, NoRepeat, contains, some, if◌then◌else◌, inr, ◌∙◌, eq_iff, inl, Bool-cases, arith,
  string_eq, [], false, refl, All, none, not, ◌++◌, ◌∷◌, ◌≡◌, Option, ◌==◌, List, keep, String,
}
use vcpe.Apply.Disruptive.{
  reset_reason, snapshot_reasons, classify_disruptive, replicas_before, scale_reason, scale_reasons,
  cidr_reason, cidr_reasons, existing_cidr,
}
use vcpe.Persist.Snapshots.{latest_desired_snapshot}
use vcpe.Persist.Tables.{Store, IpamLease}
use vcpe.Common.Int.{ℤ}
use vcpe.Manifest.{Document, Service, DistinctRoles, role_used, Network}
use vcpe.Ipam.{primary_cidr, leases_for}
use vcpe.Persist.Leases.{is_customer}

existing_cidr-append :
    (name role : String) (front back : List IpamLease) (found : Option String)
    → existing_cidr name role (front ++ back) found
      ≡ existing_cidr name role back (existing_cidr name role front found)
unfolding existing_cidr
existing_cidr-append name role [] back found = refl
existing_cidr-append name role (l ∷ front) back found = existing_cidr-append name role front back _

existing_cidr-others :
    (name role : String) (rows : List IpamLease) (found : Option String)
    → existing_cidr name role (keep (λ l. not (is_customer name l)) rows) found ≡ found
unfolding existing_cidr keep
existing_cidr-others name role [] found = refl
existing_cidr-others name role (l ∷ rows) found = elim (Bool-cases (l.customer_id == name)) [
  | inl own ↦ rw own (existing_cidr-others name role rows found)
  | inr other ↦ rw (other, other) (existing_cidr-others name role rows found)
]

skip_lease :
    (name role : String) (m : Network) (networks : List Network) (found : Option String)
    → (m.role == role) ≡ false
    → existing_cidr name role (leases_for name (m ∷ networks)) found
      ≡ existing_cidr name role (leases_for name networks) found
unfolding existing_cidr leases_for
skip_lease name role m networks found other = elim (Bool-cases (primary_cidr m == "")) [
  | inl bare ↦ rw bare refl
  | inr given ↦
      rw (given, existing_cidr, other)
        (elim (Bool-cases (name == name)) [ inl same ↦ rw same refl | inr ne ↦ rw ne refl ])
]

existing_cidr-absent :
    (name role : String) (networks : List Network) (found : Option String)
    → role_used role networks ≡ false
    → existing_cidr name role (leases_for name networks) found ≡ found
unfolding existing_cidr leases_for
existing_cidr-absent name role [] found new = refl
existing_cidr-absent name role (n ∷ networks) found new =
    skip_lease name role n networks found (ground (arith, new))
    ∙ existing_cidr-absent name role networks found (ground (arith, new))

cidr_reason-same :
    (name : String) (n : Network) (leases leases' : List IpamLease)
    → existing_cidr name n.role leases none ≡ existing_cidr name n.role leases' none
    → cidr_reason name n leases ≡ cidr_reason name n leases'
unfolding cidr_reason
cidr_reason-same name n leases leases' same = rw (cidr_reason, same) refl

-- The networks change no range.
abbrev AreKept : String → List Network → List IpamLease → Type 0
AreKept name networks leases = All (λ n. cidr_reason name n leases ≡ []) networks

AreKept-behind :
    (name : String) (m : Network) (networks behind : List Network)
    → role_used m.role behind ≡ false
    → AreKept name behind (leases_for name networks)
    → AreKept name behind (leases_for name (m ∷ networks))
AreKept-behind name m networks [] new kept = tt
AreKept-behind name m networks (n ∷ behind) new kept = (
  cidr_reason-same name n _ _ (
        skip_lease name n.role m networks none
          (ground (arith, new, eq_iff m.role n.role, eq_iff n.role m.role)))
      ∙ kept.0,
  AreKept-behind name m networks behind (ground (arith, new)) kept.1,
)

existing_cidr-own :
    (name : String) (m : Network) (networks : List Network)
    → role_used m.role networks ≡ false
    → existing_cidr name m.role (leases_for name (m ∷ networks)) none
      ≡ (if primary_cidr m == "" then none else some (primary_cidr m))
unfolding leases_for existing_cidr
existing_cidr-own name m networks new = elim (Bool-cases (primary_cidr m == "")) [
  | inl bare ↦ rw bare (existing_cidr-absent name m.role networks none new)
  | inr given ↦
      rw (given, existing_cidr, (eq_iff name name).1 refl, (eq_iff m.role m.role).1 refl)
        (existing_cidr-absent name m.role networks _ new)
]

own_lease :
    (name : String) (m : Network) (networks : List Network)
    → role_used m.role networks ≡ false
    → cidr_reason name m (leases_for name (m ∷ networks)) ≡ []
unfolding cidr_reason
own_lease name m networks new =
    rw (cidr_reason, existing_cidr-own name m networks new)
      (elim (Bool-cases (primary_cidr m == "")) [
        | inl bare ↦ rw bare refl
        | inr given ↦ rw (given, (eq_iff (primary_cidr m) (primary_cidr m)).1 refl, given) refl
      ])

leases_for-AreKept :
    (name : String) (networks : List Network)
    → DistinctRoles networks
    → AreKept name networks (leases_for name networks)
leases_for-AreKept name [] distinct = tt
leases_for-AreKept name (m ∷ networks) distinct = (
  own_lease name m networks distinct.0,
  AreKept-behind name m networks networks distinct.0 (leases_for-AreKept name networks distinct.1),
)

cidr_reasons-none :
    (name : String) (networks : List Network) (leases : List IpamLease)
    → AreKept name networks leases
    → cidr_reasons name networks leases ≡ []
unfolding cidr_reasons
cidr_reasons-none name [] leases kept = refl
cidr_reasons-none name (n ∷ networks) leases kept =
    rw kept.0 (cidr_reasons-none name networks leases kept.1)

replicas_before-absent :
    (name : String) (services : List Service) (found : Option ℤ)
    → contains (service_names services) name ≡ false
    → replicas_before name services found ≡ found
unfolding replicas_before
replicas_before-absent name [] found new = refl
replicas_before-absent name (svc ∷ services) found new = elim (Bool-cases (svc.name == name)) [
  | inl same ↦ cc (simp same at new)
  | inr other ↦ rw other (replicas_before-absent name services found (ground (arith, new)))
]

-- No service is scaled to zero.
abbrev AreScaled : List Service → List Service → Type 0
AreScaled behind services = All (λ svc. scale_reason svc services ≡ []) behind

AreScaled-behind :
    (m : Service) (services behind : List Service)
    → contains (service_names behind) m.name ≡ false
    → AreScaled behind services
    → AreScaled behind (m ∷ services)
unfolding scale_reason replicas_before
AreScaled-behind m services [] new kept = tt
AreScaled-behind m services (svc ∷ behind) new kept =
    let other : (m.name == svc.name) ≡ false =
      ground (arith, new, eq_iff m.name svc.name, eq_iff svc.name m.name) in
    (
      rw (scale_reason, replicas_before, other) kept.0,
      AreScaled-behind m services behind (ground (arith, new)) kept.1,
    )

own_replicas :
    (m : Service) (services : List Service)
    → contains (service_names services) m.name ≡ false
    → scale_reason m (m ∷ services) ≡ []
unfolding scale_reason replicas_before
own_replicas m services new =
    rw
      (
        scale_reason,
        replicas_before,
        (eq_iff m.name m.name).1 refl,
        replicas_before-absent m.name services (some m.replicas) new,
      )
      (ground arith)

same-AreScaled :
    (services : List Service) → NoRepeat (service_names services) → AreScaled services services
same-AreScaled [] once = tt
same-AreScaled (m ∷ services) once = (
  own_replicas m services once.0,
  AreScaled-behind m services services once.0 (same-AreScaled services once.1),
)

scale_reasons-none :
    (behind services : List Service)
    → AreScaled behind services
    → scale_reasons behind services ≡ []
unfolding scale_reasons
scale_reasons-none [] services kept = refl
scale_reasons-none (svc ∷ behind) services kept =
    rw kept.0 (scale_reasons-none behind services kept.1)

AreKept-others :
    (name : String) (rows leases : List IpamLease) (networks : List Network)
    → AreKept name networks leases
    → AreKept name networks (keep (λ l. not (is_customer name l)) rows ++ leases)
AreKept-others name rows leases networks kept =
    All-weaken _ _ networks
      (λ n none_here.
        cidr_reason-same name n _ _ (
          existing_cidr-append name n.role _ leases none
          ∙ ap (existing_cidr name n.role leases) (existing_cidr-others name n.role rows none))
        ∙ none_here)
      kept

reset_reason-same : (name : String) → reset_reason name name ≡ []
unfolding reset_reason
reset_reason-same name = ground (arith, eq_iff name name)

-- When the leases of a deployment are those that Apply writes for the manifest, behind the leases of others, its latest
-- snapshot decodes to the same manifest, and roles and service names are distinct, then applying the manifest again
-- is not disruptive, and no reason is given.
pub classify_disruptive-again :
    (decode : String → Option Document) (st : Store) (doc : Document) (rows : List IpamLease)
    (snap : String)
    → DistinctRoles doc.spec.networks
    → NoRepeat (service_names doc.spec.services)
    → st.ipam_leases
      ≡ keep (λ l. not (is_customer doc.metadata.name l)) rows
        ++ leases_for doc.metadata.name doc.spec.networks
    → latest_desired_snapshot doc.metadata.name st ≡ some snap
    → decode snap ≡ some doc
    → classify_disruptive decode st doc ≡ (false, [])
unfolding classify_disruptive
classify_disruptive-again decode st doc rows snap roles names leases latest decoded =
    let name = doc.metadata.name in
    let ranges = cidr_reasons-none name doc.spec.networks st.ipam_leases (
      rw leases (
        AreKept-others name rows (leases_for name doc.spec.networks) doc.spec.networks
          (leases_for-AreKept name doc.spec.networks roles))) in
    let counts =
      scale_reasons-none doc.spec.services doc.spec.services
        (same-AreScaled doc.spec.services names) in
    rw (ranges, latest, snapshot_reasons, decoded, reset_reason-same name, counts) refl
