-- ===== src/Ipam/Conflicts.antt =====
-- controlplane/internal/ipam/store.go: leases that were checked overlap no lease of another
-- deployment.
use vcpe.Manifest.{DistinctRoles, role_used, Network}
use vcpe.Persist.Leases.Replacement.{replace_customer_leases_lem, AreLeasesOf}
use vcpe.Ipam.{
  check_requested, load, apply, check_conflicts, requests, family_cidr, first_cidr, Request,
  primary_cidr, check_existing, check_leases, network_cidrs, overlaps, request_cidrs, leases_for,
}
use vcpe.Persist.Leases.{is_customer, lease_taken}
use vcpe.Common.{
  not, All-front, All-back, eq_iff, sym, ◌∙◌, All-append, All-weaken, subst, All-keep, ℕ, keep,
  Option-cases, ◌++◌, inr, inl, refl, [], arith, string_eq, Bool-cases, false, ◌==◌, All, Bool, ◌∷◌,
  ◌≡◌, Option, List, String,
}
use vcpe.Common.Result.{ok-injective, >>=-ok, ok}
use vcpe.Persist.Tables.{Store, IpamLease}
use vcpe.Net.{prefix_overlaps_comm, Prefix}

-- No network is managed by its containers.
abbrev pub AreManaged : List Network → Type 0
AreManaged = All (λ n. (n.ipam_driver == "none") ≡ false)

lease_taken-leases_for :
    (d role : String) (networks : List Network)
    → role_used role networks ≡ false
    → lease_taken d role (leases_for d networks) ≡ false
unfolding leases_for lease_taken
lease_taken-leases_for d role [] h = refl
lease_taken-leases_for d role (n ∷ networks) h =
    ground (arith, lease_taken-leases_for d role networks)

pub leases_for-AreLeasesOf :
    (d : String) (networks : List Network)
    → DistinctRoles networks
    → AreLeasesOf d (leases_for d networks)
unfolding leases_for
leases_for-AreLeasesOf d [] u = tt
leases_for-AreLeasesOf d (n ∷ networks) u = elim (Bool-cases (primary_cidr n == "")) [
  | inl bare ↦ rw bare (leases_for-AreLeasesOf d networks u.1)
  | inr leased ↦
      rw leased
        (refl, lease_taken-leases_for d n.role networks u.0, leases_for-AreLeasesOf d networks u.1)
]

module _ (parse_prefix : String → Option Prefix) where
  overlaps_comm : (a b : String) → overlaps parse_prefix a b ≡ overlaps parse_prefix b a
  unfolding overlaps
  overlaps_comm a b = elim (Option-cases (parse_prefix a)) [
    | inl bad ↦ elim (Option-cases (parse_prefix b)) [
      | inl worse ↦ rw (overlaps, bad, worse) refl
      | inr (q, eq) ↦ rw (overlaps, bad, eq, bad) refl
    ]
    | inr (p, ep) ↦ elim (Option-cases (parse_prefix b)) [
      | inl bad ↦ rw (overlaps, ep, bad) refl
      | inr (q, eq) ↦ rw (overlaps, ep, eq, ep) (prefix_overlaps_comm p q)
    ]
  ]

  -- The range overlaps no lease of another deployment.
  abbrev pub IsClear : String → List IpamLease → String → Type 0
  IsClear d leases cidr =
      All (λ l. (l.customer_id == d) ≡ false → overlaps parse_prefix cidr l.cidr ≡ false) leases

  -- No two leases of different deployments overlap.
  abbrev pub NoOverlap : List IpamLease → Type 0
  NoOverlap [] = Unit
  NoOverlap (l ∷ leases) = IsClear l.customer_id leases l.cidr × NoOverlap leases

  check_leases-ok :
      (d : String) (r : Request) (leases : List IpamLease)
      → check_leases parse_prefix d r leases ≡ ok tt
      → IsClear d leases r.cidr
  unfolding check_leases
  check_leases-ok d r [] h = tt
  check_leases-ok d r (l ∷ leases) h = elim (Bool-cases (l.customer_id == d)) [
    | inl own ↦ (λ other. cc, check_leases-ok d r leases (rw own at h))
    | inr other ↦ elim (Bool-cases (overlaps parse_prefix r.cidr l.cidr)) [
      | inl hits ↦ cc (rw (other, hits) at h)
      | inr misses ↦ (λ _. misses, check_leases-ok d r leases (rw (other, misses) at h))
    ]
  ]

  check_existing-ok :
      (d : String) (rs : List Request) (leases : List IpamLease)
      → check_existing parse_prefix d rs leases ≡ ok tt
      → All (λ r. IsClear d leases r.cidr) rs
  unfolding check_existing
  check_existing-ok d [] leases h = tt
  check_existing-ok d (r ∷ rs) leases h =
      let (v, rest, first) = >>=-ok (check_leases parse_prefix d r leases) _ h in
      (check_leases-ok d r leases first, check_existing-ok d rs leases rest)

module _ (parse_prefix : String → Option Prefix) (P : String → Type 0) where
  request_cidrs-ok :
      (role : String) (cidrs : List String) {rs : List Request}
      → request_cidrs parse_prefix role cidrs ≡ ok rs
      → All (λ r. P r.cidr) rs
      → All P cidrs
  unfolding request_cidrs
  request_cidrs-ok role [] h all = tt
  request_cidrs-ok role (cidr ∷ cidrs) {rs} h all = elim (Option-cases (parse_prefix cidr)) [
    | inl bad ↦ cc (rw (bad, request_cidrs) at h)
    | inr (p, e) ↦
        let (more, built, found) =
          >>=-ok (request_cidrs parse_prefix role cidrs) _ (rw (e, request_cidrs) at h) in
        let both : All (λ r. P r.cidr) (record { role = role; cidr = cidr } ∷ more) =
          subst (λ (z : List Request). All (λ r. P r.cidr) z) (sym (ok-injective _ _ built)) all in
        (both.0, request_cidrs-ok role cidrs found both.1)
  ]

  first_cidr-ok :
      (xs ys : List String)
      → All P (xs ++ ys)
      → (first_cidr xs ys == "") ≡ false
      → P (first_cidr xs ys)
  first_cidr-ok (cidr ∷ xs) ys all given = all.0
  first_cidr-ok [] (cidr ∷ ys) all given = all.0
  first_cidr-ok [] [] all given = cc

  primary_cidr-ok :
      (n : Network) → All P (network_cidrs n) → (primary_cidr n == "") ≡ false → P (primary_cidr n)
  unfolding network_cidrs primary_cidr
  primary_cidr-ok n all leased = first_cidr-ok (family_cidr n.ipv4) (family_cidr n.ipv6) all leased

  -- What holds of every requested range holds of the lease of every managed network.
  requests-ok :
      (d : String) (networks : List Network) {rs : List Request}
      → AreManaged networks
      → requests parse_prefix networks ≡ ok rs
      → All (λ r. P r.cidr) rs
      → All (λ l. P l.cidr) (leases_for d networks)
  unfolding leases_for requests
  requests-ok d [] managed h all = tt
  requests-ok d (n ∷ networks) {rs} managed h all =
      let (here, rest, found) =
        >>=-ok (request_cidrs parse_prefix n.role (network_cidrs n)) _
          (rw (managed.0, requests) at h) in
      let (more, built, others) = >>=-ok (requests parse_prefix networks) _ rest in
      let both : All (λ r. P r.cidr) (here ++ more) =
        subst (λ (z : List Request). All (λ r. P r.cidr) z) (sym (ok-injective _ _ built)) all in
      let below : All (λ l. P l.cidr) (leases_for d networks) =
        requests-ok d networks managed.1 others (All-back _ here more both) in
      elim (Bool-cases (primary_cidr n == "")) [
        | inl bare ↦ rw (bare, leases_for) below
        | inr leased ↦
            rw (leased, leases_for)
              (
                primary_cidr-ok n
                    (request_cidrs-ok n.role (network_cidrs n) found (All-front _ here more both))
                    leased,
                below,
              )
      ]

module _ (parse_prefix : String → Option Prefix) where
  IsClear-keep :
      (d cidr : String) (p : IpamLease → Bool) (leases : List IpamLease)
      → IsClear parse_prefix d leases cidr
      → IsClear parse_prefix d (keep p leases) cidr
  IsClear-keep d cidr p leases c = All-keep _ p leases c

  NoOverlap-keep :
      (p : IpamLease → Bool) (leases : List IpamLease)
      → NoOverlap parse_prefix leases
      → NoOverlap parse_prefix (keep p leases)
  unfolding keep
  NoOverlap-keep p [] u = tt
  NoOverlap-keep p (l ∷ leases) u = elim (Bool-cases (p l)) [
    | inl stays ↦
        rw stays (IsClear-keep l.customer_id l.cidr p leases u.0, NoOverlap-keep p leases u.1)
    | inr goes ↦ rw goes (NoOverlap-keep p leases u.1)
  ]

  -- Leases of one customer overlap none of a different one.
  NoOverlap-own :
      (d : String) (leases : List IpamLease)
      → All (λ l. l.customer_id ≡ d) leases
      → NoOverlap parse_prefix leases
  NoOverlap-own d [] own = tt
  NoOverlap-own d (l ∷ leases) own = (
    All-weaken _ _ leases
        (λ m same other. absurd (ground (arith, eq_iff m.customer_id l.customer_id, own.0, same)))
        own.1,
    NoOverlap-own d leases own.1,
  )

  NoOverlap-append :
      (d : String) (old new : List IpamLease)
      → NoOverlap parse_prefix old
      → All (λ l. l.customer_id ≡ d) new
      → All (λ l. IsClear parse_prefix d old l.cidr) new
      → All (λ l. (l.customer_id == d) ≡ false) old
      → NoOverlap parse_prefix (old ++ new)
  NoOverlap-append d [] new u own clear others = NoOverlap-own d new own
  NoOverlap-append d (l ∷ old) new u own clear others = (
    All-append _ old new
        (All-weaken _ _ new (λ m c _. overlaps_comm parse_prefix l.cidr m.cidr ∙ c.0 others.0)
          clear)
        u.0,
    NoOverlap-append d old new u.1 own (All-weaken _ _ new (λ m c. c.1) clear) others.1,
  )

-- What a request that passed CheckConflicts went through.
check_conflicts-ok :
    (parse_prefix : String → Option Prefix) (d : String) (networks : List Network) (st : Store)
    {counts : ℕ × ℕ}
    → check_conflicts parse_prefix d networks st ≡ ok counts
    → (rs : List Request) × (requests parse_prefix networks ≡ ok rs)
      × (check_existing parse_prefix d rs st.ipam_leases ≡ ok tt)
unfolding check_conflicts load
check_conflicts-ok parse_prefix d networks st h =
    let (rs, rest, found) = >>=-ok (requests parse_prefix networks) _ h in
    let (v, rest', first) = >>=-ok (check_requested parse_prefix rs) _ rest in
    let (w, last, second) = >>=-ok (check_existing parse_prefix d rs st.ipam_leases) _ rest' in
    (rs, found, second)

leases_for-own :
    (d : String) (networks : List Network) → All (λ l. l.customer_id ≡ d) (leases_for d networks)
unfolding leases_for
leases_for-own d [] = tt
leases_for-own d (n ∷ networks) = elim (Bool-cases (primary_cidr n == "")) [
  | inl bare ↦ rw bare (leases_for-own d networks)
  | inr leased ↦ rw leased (refl, leases_for-own d networks)
]

keep-others :
    (d : String) (leases : List IpamLease)
    → All (λ l. (l.customer_id == d) ≡ false) (keep (λ l. not (is_customer d l)) leases)
unfolding keep
keep-others d [] = tt
keep-others d (l ∷ leases) = elim (Bool-cases (l.customer_id == d)) [
  | inl own ↦ rw own (keep-others d leases)
  | inr other ↦ rw other (other, keep-others d leases)
]

-- A deployment whose networks have distinct roles and are all managed, and whose request passed
-- CheckConflicts, gets leases that overlap no lease of another deployment: in the database no two
-- leases of different deployments overlap, if that was so before.
pub apply-NoOverlap :
    (parse_prefix : String → Option Prefix) (d : String) (networks : List Network) (st : Store)
    {counts : ℕ × ℕ}
    → DistinctRoles networks
    → AreManaged networks
    → check_conflicts parse_prefix d networks st ≡ ok counts
    → NoOverlap parse_prefix st.ipam_leases
    → NoOverlap parse_prefix (apply d networks st).1.ipam_leases
unfolding apply
apply-NoOverlap parse_prefix d networks st roles managed checked u =
    let (rs, found, clear) = check_conflicts-ok parse_prefix d networks st checked in
    let others = λ (l : IpamLease). not (is_customer d l) in
    rw
      (replace_customer_leases_lem d (leases_for d networks) st
        (leases_for-AreLeasesOf d networks roles))
      (NoOverlap-append parse_prefix d (keep others st.ipam_leases) (leases_for d networks)
        (NoOverlap-keep parse_prefix others st.ipam_leases u) (leases_for-own d networks)
        (requests-ok parse_prefix (λ cidr. IsClear parse_prefix d (keep others st.ipam_leases) cidr)
          d networks managed found
          (All-weaken _ _ rs (λ r c. IsClear-keep parse_prefix d r.cidr others st.ipam_leases c)
            (check_existing-ok parse_prefix d rs st.ipam_leases clear)))
        (keep-others d st.ipam_leases))
