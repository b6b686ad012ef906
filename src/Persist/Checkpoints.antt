-- ===== src/Persist/Checkpoints.antt =====
-- controlplane/internal/persist/store.go: checkpoints by key, and the replica counts kept in them.
use vcpe.Common.{
  inr, sym, ◌∙◌, inl, Bool-cases, true, refl, eq_iff, string_eq, [], arith, ◌==◌, ◌∷◌,
  if◌then◌else◌, none, some, ◌≡◌, List, Option, ◌<>◌, String,
}
use vcpe.Common.Int.{pos, ℤ}
use vcpe.Persist.Tables.{Checkpoint, Store}
use vcpe.Persist.Operations.{upsert, upsert_checkpoint}
use text.Mathlib.TextLemmas.{append_cancel_left}

unfoldable pub checkpoint : String → List Checkpoint → Option String
checkpoint key [] = none
checkpoint key (c ∷ rows) = if c.key == key then some c.value else checkpoint key rows

abbrev pub replica_key : String → String → String
replica_key deployment service = "replica_count/" <> (deployment <> ("/" <> service))

-- `strconv.Itoa` and `strconv.Atoi`.
pub record Decimal : Type 0 where
  pub itoa : ℤ → String
  pub atoi : String → Option ℤ
  pub atoi-itoa : (n : ℤ) → atoi (itoa n) ≡ some n

module _ (decimal : Decimal) where
  -- GetReplicaCount: a missing or malformed value counts as no prior apply.
  unfoldable pub get_replica_count : String → String → Store → ℤ
  unfolding checkpoint
  get_replica_count deployment service st =
      elim (checkpoint (replica_key deployment service) st.checkpoints) [
        | none ↦ pos 0
        | some value ↦ elim (decimal.atoi value) [ none ↦ pos 0 | some count ↦ count ]
      ]

  -- SetReplicaCount
  unfoldable pub set_replica_count : String → String → ℤ → String → Store → Store
  unfolding upsert_checkpoint
  set_replica_count deployment service count now st =
      upsert_checkpoint (replica_key deployment service) (decimal.itoa count) now st

  checkpoint-upsert :
      (j k v now : String) (rows : List Checkpoint)
      → checkpoint j (upsert k v now rows) ≡ (if k == j then some v else checkpoint j rows)
  unfolding checkpoint upsert
  checkpoint-upsert j k v now [] = refl
  checkpoint-upsert j k v now (c ∷ rows) =
      ground (arith, checkpoint-upsert j k v now rows, eq_iff c.key k, eq_iff c.key j, eq_iff k j)

  -- A replica count that was set is read back for the same key; a count under any other key stays.
  pub get-set_replica_count :
      (d s d' s' : String) (n : ℤ) (now : String) (st : Store)
      → get_replica_count d' s' (set_replica_count d s n now st)
        ≡ (if replica_key d s == replica_key d' s' then n else get_replica_count d' s' st)
  unfolding get_replica_count set_replica_count
  get-set_replica_count d s d' s' n now st =
      rw
        (
          get_replica_count,
          checkpoint-upsert (replica_key d' s') (replica_key d s) (decimal.itoa n) now
              st.checkpoints,
        )
        (ground (arith, decimal.atoi-itoa n))

-- The keys of two services of one deployment are equal only if the services are.
pub replica_key-injective : (d s s' : String) → (replica_key d s == replica_key d s') ≡ (s == s')
replica_key-injective d s s' = elim (Bool-cases (s == s')) [
  | inl same ↦ rw ((eq_iff s s').0 same) (itself (replica_key d s') ∙ sym (itself s'))
  | inr other ↦ elim (Bool-cases (replica_key d s == replica_key d s')) [
    | inr apart ↦ apart ∙ sym other
    | inl equal ↦
        let tails =
          append_cancel_left "replica_count/" _ _
            ((eq_iff (replica_key d s) (replica_key d s')).0 equal) in
        let names = append_cancel_left "/" s s' (append_cancel_left d _ _ tails) in
        let is = (eq_iff s s').1 names in cc
  ]
]
  where
    itself : (t : String) → (t == t) ≡ true
    itself t = (eq_iff t t).1 refl
