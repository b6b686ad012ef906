-- ===== src/Persist/Leases.antt =====
-- controlplane/internal/persist/store.go: the leases of network ranges.
pub mod Replacement
use vcpe.Common.{
  string_eq, [], ◌||◌, ◌&&◌, ◌++◌, none, not, ◌∷◌, false, if◌then◌else◌, some, ◌==◌, Bool, Option,
  List, String, keep,
}
use vcpe.Common.Result.{ok, err, Result}
use vcpe.Persist.Tables.{constraint_failed, StoreError, IpamLease, Store}

-- ListIPAMLeases
unfoldable pub list_ipam_leases : Store → List IpamLease
list_ipam_leases st = st.ipam_leases

abbrev pub is_customer : String → IpamLease → Bool
is_customer c l = l.customer_id == c

-- The primary key of `ipam_leases` is there.
unfoldable pub lease_taken : String → String → List IpamLease → Bool
lease_taken c role [] = false
lease_taken c role (l ∷ rows) = (l.customer_id == c && l.role == role) || lease_taken c role rows

unfoldable pub insert_lease : IpamLease → List IpamLease → Option (List IpamLease)
unfolding lease_taken
insert_lease l rows = if lease_taken l.customer_id l.role rows then none else some (rows ++ l ∷ [])

-- The loop of INSERTs; `none` at the first one that fails.
unfoldable pub insert_leases : List IpamLease → List IpamLease → Option (List IpamLease)
unfolding insert_lease
insert_leases [] rows = some rows
insert_leases (l ∷ leases) rows = elim (insert_lease l rows) [
  | none ↦ none
  | some rows' ↦ insert_leases leases rows'
]

-- ReplaceCustomerLeases: a failure rolls the transaction back.
unfoldable pub replace_customer_leases :
    String → List IpamLease → Store → Result StoreError (Unit {0}) × Store
unfolding insert_leases keep
replace_customer_leases c leases st =
    elim (insert_leases leases (keep (λ l. not (is_customer c l)) st.ipam_leases)) [
      | none ↦ (err constraint_failed, st)
      | some rows ↦ (ok tt, record st { ipam_leases = rows })
    ]
