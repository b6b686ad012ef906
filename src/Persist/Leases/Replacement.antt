-- ===== src/Persist/Leases/Replacement.antt =====
-- controlplane/internal/persist/store.go: what ReplaceCustomerLeases promises.
use vcpe.Common.Result.{err, ok}
use vcpe.Common.{
  append_assoc, ◌∙◌, append-nil, eq_iff, refl, [], arith, false, some, ◌||◌, not, ◌++◌, ◌∷◌, ◌≡◌,
  List, keep, String,
}
use vcpe.Persist.Tables.{StoreError, Store, IpamLease}
use vcpe.Persist.Leases.{replace_customer_leases, is_customer, insert_leases, lease_taken}

-- The leases of one customer, with no role twice.
abbrev pub AreLeasesOf : String → List IpamLease → Type 0
AreLeasesOf c [] = Unit
AreLeasesOf c (l ∷ leases) =
    (l.customer_id ≡ c) × (lease_taken c l.role leases ≡ false) × AreLeasesOf c leases

lease_taken-append :
    (c role : String) (xs ys : List IpamLease)
    → lease_taken c role (xs ++ ys) ≡ (lease_taken c role xs || lease_taken c role ys)
unfolding lease_taken
lease_taken-append c role [] ys = refl
lease_taken-append c role (x ∷ xs) ys = ground (arith, lease_taken-append c role xs ys)

lease_taken-keep :
    (c role : String) (rows : List IpamLease)
    → lease_taken c role (keep (λ l. not (is_customer c l)) rows) ≡ false
unfolding lease_taken keep
lease_taken-keep c role [] = refl
lease_taken-keep c role (x ∷ rows) = ground (arith, lease_taken-keep c role rows)

-- No lease of the one list has the key of a lease of the other.
abbrev Fresh : String → List IpamLease → List IpamLease → Type 0
Fresh c rows [] = Unit
Fresh c rows (l ∷ leases) = (lease_taken c l.role rows ≡ false) × Fresh c rows leases

Fresh-append_one :
    (c : String) (rows : List IpamLease) (l : IpamLease) (leases : List IpamLease)
    → l.customer_id ≡ c
    → lease_taken c l.role leases ≡ false
    → AreLeasesOf c leases
    → Fresh c rows leases
    → Fresh c (rows ++ l ∷ []) leases
unfolding lease_taken
Fresh-append_one c rows l [] own new all f = tt
Fresh-append_one c rows l (x ∷ leases) own new all f = (
  rw lease_taken-append (
      ground (
        arith,
        eq_iff l.role x.role,
        eq_iff x.role l.role,
        eq_iff x.customer_id c,
        eq_iff l.customer_id c,
      )),
  Fresh-append_one c rows l leases own (ground (arith, new)) all.2 f.1,
)

insert_leases-all :
    (c : String) (leases rows : List IpamLease)
    → AreLeasesOf c leases
    → Fresh c rows leases
    → insert_leases leases rows ≡ some (rows ++ leases)
unfolding insert_leases
insert_leases-all c [] rows own f = rw append-nil
insert_leases-all c (l ∷ leases) rows own f =
    let free : lease_taken l.customer_id l.role rows ≡ false = rw own.0 f.0 in
    rw (free, insert_leases)
      (insert_leases-all c leases (rows ++ l ∷ []) own.2
          (Fresh-append_one c rows l leases own.0 own.1 own.2 f.1)
        ∙ rw append_assoc)

Fresh-keep :
    (c : String) (rows leases : List IpamLease)
    → Fresh c (keep (λ l. not (is_customer c l)) rows) leases
Fresh-keep c rows [] = tt
Fresh-keep c rows (l ∷ leases) = (lease_taken-keep c l.role rows, Fresh-keep c rows leases)

-- Leases of one customer with no role twice replace all that the customer had, behind the leases of
-- the others, which stay as they are and in their order; nothing else in the database changes.
pub replace_customer_leases_lem :
    (c : String) (leases : List IpamLease) (st : Store)
    → AreLeasesOf c leases
    → replace_customer_leases c leases st ≡ (
      ok tt,
      record st { ipam_leases = keep (λ l. not (is_customer c l)) st.ipam_leases ++ leases },
    )
unfolding replace_customer_leases
replace_customer_leases_lem c leases st own =
    rw (
      insert_leases-all c leases _ own (Fresh-keep c st.ipam_leases leases),
      replace_customer_leases,
    )

-- A replacement that fails changes nothing.
pub replace_customer_leases_failed :
    (c : String) (leases : List IpamLease) (st : Store) {e : StoreError}
    → (replace_customer_leases c leases st).0 ≡ err e
    → (replace_customer_leases c leases st).1 ≡ st
unfolding replace_customer_leases
replace_customer_leases_failed c leases st h = ground arith
