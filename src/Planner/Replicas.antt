-- ===== src/Planner/Replicas.antt =====
-- controlplane/internal/planner/planner.go: computeReplicaDelta, the replicas that an apply adds and
-- removes.
pub mod Delta
use vcpe.Common.{◌-◌, ◌∷◌, [], zero, ◌+◌, List, suc, ℕ}
use vcpe.Common.Int.{neg_part, negsuc, pos_part, pos, ℤ}
use vcpe.Plan.{ReplicaDelta}

abbrev pub next : ℤ → ℤ
next (pos n) = pos (suc n)
next (negsuc zero) = pos 0
next (negsuc (suc n)) = negsuc n

abbrev pub previous : ℤ → ℤ
previous (pos zero) = negsuc 0
previous (pos (suc n)) = pos n
previous (negsuc n) = negsuc (suc n)

-- The number of steps of a loop from one integer up to another.
abbrev pub distance : ℤ → ℤ → ℕ
distance a b = pos_part b + neg_part a - (pos_part a + neg_part b)

unfoldable pub count_up : ℤ → ℕ → List ℤ
count_up i zero = []
count_up i (suc n) = i ∷ count_up (next i) n

unfoldable pub count_down : ℤ → ℕ → List ℤ
count_down i zero = []
count_down i (suc n) = i ∷ count_down (previous i) n

-- computeReplicaDelta
unfoldable pub compute_replica_delta : ℤ → ℤ → ReplicaDelta
unfolding count_up count_down
compute_replica_delta before desired = record {
  to_add = count_up before (distance before desired);
  to_remove = count_down (previous before) (distance desired before);
}
