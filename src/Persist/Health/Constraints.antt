-- ===== src/Persist/Health/Constraints.antt =====
-- controlplane/internal/persist/store.go: what the schema of `health_endpoints` guarantees.
use vcpe.Common.{
  ℕ, ◌≤◌, String, ◌≡◌, refl, Bool, false, ◌||◌, some, List, [], ◌∷◌, ◌++◌, string_eq, nat_eq, All,
  All-append, All-keep, keep, eq_iff, arith,
}
use vcpe.Common.Int.{ℤ, int_eq}
use vcpe.Persist.Tables.{HealthEndpoint}
use vcpe.Persist.Health.{
  health_port_min, health_port_max, port_taken, identity_taken, insert_endpoint,
}

-- A port of the range that the control plane owns.
abbrev pub InPortRange : HealthEndpoint → Type 0
InPortRange e = (health_port_min ≤ e.host_port) × (e.host_port ≤ health_port_max)

-- No two rows share a port, and no two share an identity.
abbrev pub Distinct : List HealthEndpoint → Type 0
Distinct [] = Unit
Distinct (e ∷ rows) =
    (port_taken e.host_port rows ≡ false)
    × (identity_taken e.deployment e.service e.replica rows ≡ false)
    × Distinct rows

pub record IsConsistent (rows : List HealthEndpoint) : Type 0 where
  pub distinct : Distinct rows
  pub in_range : All InPortRange rows

pub port_taken-append :
    (p : ℕ) (xs ys : List HealthEndpoint)
    → port_taken p (xs ++ ys) ≡ (port_taken p xs || port_taken p ys)
unfolding port_taken
port_taken-append p [] ys = refl
port_taken-append p (x ∷ xs) ys = ground (arith, port_taken-append p xs ys)

pub identity_taken-append :
    (d s : String) (r : ℤ) (xs ys : List HealthEndpoint)
    → identity_taken d s r (xs ++ ys) ≡ (identity_taken d s r xs || identity_taken d s r ys)
unfolding identity_taken
identity_taken-append d s r [] ys = refl
identity_taken-append d s r (x ∷ xs) ys = ground (arith, identity_taken-append d s r xs ys)

-- A row whose port and identity are new may come last.
pub Distinct-append_one :
    (e : HealthEndpoint) (rows : List HealthEndpoint)
    → port_taken e.host_port rows ≡ false
    → identity_taken e.deployment e.service e.replica rows ≡ false
    → Distinct rows
    → Distinct (rows ++ e ∷ [])
unfolding port_taken identity_taken
Distinct-append_one e [] p i u = (refl, refl, tt)
Distinct-append_one e (x ∷ rows) p i u = (
  rw port_taken-append (ground (arith, u.0)),
  rw identity_taken-append (
      ground (
        arith,
        eq_iff e.deployment x.deployment,
        eq_iff x.deployment e.deployment,
        eq_iff e.service x.service,
        eq_iff x.service e.service,
      )),
  Distinct-append_one e rows (ground arith) (ground arith) u.2,
)

pub append_one-IsConsistent :
    (e : HealthEndpoint) (rows : List HealthEndpoint)
    → InPortRange e
    → port_taken e.host_port rows ≡ false
    → identity_taken e.deployment e.service e.replica rows ≡ false
    → IsConsistent rows
    → IsConsistent (rows ++ e ∷ [])
append_one-IsConsistent e rows fits p i c = record {
  distinct = Distinct-append_one e rows p i c.distinct;
  in_range = All-append InPortRange rows (e ∷ []) (fits, tt) c.in_range;
}

-- An INSERT that the schema accepts added the row behind the others, and both keys were free.
pub insert_endpoint-some :
    (e : HealthEndpoint) (rows : List HealthEndpoint) {rows' : List HealthEndpoint}
    → insert_endpoint e rows ≡ some rows'
    → (rows' ≡ rows ++ e ∷ [])
      × (port_taken e.host_port rows ≡ false)
      × (identity_taken e.deployment e.service e.replica rows ≡ false)
unfolding insert_endpoint
insert_endpoint-some e rows h = ground arith

pub insert_endpoint-IsConsistent :
    (e : HealthEndpoint) (rows : List HealthEndpoint) {rows' : List HealthEndpoint}
    → InPortRange e
    → insert_endpoint e rows ≡ some rows'
    → IsConsistent rows
    → IsConsistent rows'
insert_endpoint-IsConsistent e rows fits h c =
    let (added, port, identity) = insert_endpoint-some e rows h in
    rw added (append_one-IsConsistent e rows fits port identity c)

port_taken-keep :
    (q : HealthEndpoint → Bool) (p : ℕ) (rows : List HealthEndpoint)
    → port_taken p rows ≡ false
    → port_taken p (keep q rows) ≡ false
unfolding keep port_taken
port_taken-keep q p [] h = refl
port_taken-keep q p (x ∷ rows) h = ground (arith, port_taken-keep q p rows)

identity_taken-keep :
    (q : HealthEndpoint → Bool) (d s : String) (r : ℤ) (rows : List HealthEndpoint)
    → identity_taken d s r rows ≡ false
    → identity_taken d s r (keep q rows) ≡ false
unfolding keep identity_taken
identity_taken-keep q d s r [] h = refl
identity_taken-keep q d s r (x ∷ rows) h = ground (arith, identity_taken-keep q d s r rows)

Distinct-keep :
    (q : HealthEndpoint → Bool) (rows : List HealthEndpoint)
    → Distinct rows
    → Distinct (keep q rows)
unfolding keep
Distinct-keep q [] u = tt
Distinct-keep q (x ∷ rows) u = ground (
  arith,
  Distinct-keep q rows u.2,
  port_taken-keep q x.host_port rows u.0,
  identity_taken-keep q x.deployment x.service x.replica rows u.1,
)

-- Rows may be deleted.
pub keep-IsConsistent :
    (q : HealthEndpoint → Bool) (rows : List HealthEndpoint)
    → IsConsistent rows
    → IsConsistent (keep q rows)
keep-IsConsistent q rows c = record {
  distinct = Distinct-keep q rows c.distinct;
  in_range = All-keep InPortRange q rows c.in_range;
}
