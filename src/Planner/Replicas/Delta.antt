-- ===== src/Planner/Replicas/Delta.antt =====
-- controlplane/internal/planner/planner.go: what computeReplicaDelta adds and removes.
use vcpe.Common.Int.{negsuc, neg_part, pos_part, int_eq, ltb_ℤ, pos, ℤ}
use vcpe.Common.{◌+◌, arith, zero, ltb, suc, ◌||◌, ◌&&◌, ◌≡◌, contains, not, Bool, ℕ}
use vcpe.Planner.Replicas.{distance, next, previous, compute_replica_delta, count_down, count_up}
use vcpe.Common.Sort.{IsSorted}

-- The replica with the index `i` of a service that has `n` replicas.
abbrev pub runs : ℤ → ℤ → Bool
runs n i = not (ltb_ℤ i (pos 0)) && ltb_ℤ i n

next-parts : (i : ℤ) → pos_part (next i) + neg_part i ≡ suc (pos_part i + neg_part (next i))
next-parts (pos n) = omega arith
next-parts (negsuc zero) = omega arith
next-parts (negsuc (suc n)) = omega arith

previous-parts :
    (i : ℤ) → suc (pos_part (previous i) + neg_part i) ≡ pos_part i + neg_part (previous i)
previous-parts (pos zero) = omega arith
previous-parts (pos (suc n)) = omega arith
previous-parts (negsuc n) = omega arith

contains-count_up :
    (i : ℤ) (n : ℕ) (x : ℤ) → contains (count_up i n) x ≡ (not (ltb_ℤ x i) && ltb (distance i x) n)
unfolding count_up
contains-count_up i zero x = ground arith
contains-count_up i (suc n) x = ground (arith, contains-count_up (next i) n x, next-parts i)

contains-count_down :
    (i : ℤ) (n : ℕ) (x : ℤ)
    → contains (count_down i n) x ≡ (not (ltb_ℤ i x) && ltb (distance x i) n)
unfolding count_down
contains-count_down i zero x = ground arith
contains-count_down i (suc n) x =
    ground (arith, contains-count_down (previous i) n x, previous-parts i)

count_up-IsSorted : (i : ℤ) (n : ℕ) → IsSorted ltb_ℤ (count_up i n)
unfolding count_up
count_up-IsSorted i zero = tt
count_up-IsSorted i (suc zero) = tt
count_up-IsSorted i (suc (suc n)) =
    (ground (arith, next-parts i), count_up-IsSorted (next i) (suc n))

count_down-IsSorted : (i : ℤ) (n : ℕ) → IsSorted (λ x y. ltb_ℤ y x) (count_down i n)
unfolding count_down
count_down-IsSorted i zero = tt
count_down-IsSorted i (suc zero) = tt
count_down-IsSorted i (suc (suc n)) =
    (ground (arith, previous-parts i), count_down-IsSorted (previous i) (suc n))

-- If the replicas that ran before are those of a count that is not negative, and the desired count is
-- not negative, then taking away the removed ones and adding the added ones yields exactly the desired
-- ones. Those to add ascend and those to remove descend.
pub compute_replica_delta_lem :
    (before desired : ℕ)
    → (let delta = compute_replica_delta (pos before) (pos desired) in
        ((i : ℤ)
          → ((runs (pos before) i && not (contains delta.to_remove i)) || contains delta.to_add i)
            ≡ runs (pos desired) i)
        × IsSorted ltb_ℤ delta.to_add
        × IsSorted (λ x y. ltb_ℤ y x) delta.to_remove)
unfolding compute_replica_delta
compute_replica_delta_lem before desired = (
  λ i.
      rw
        (
          contains-count_down (previous (pos before)) (distance (pos desired) (pos before)) i,
          contains-count_up (pos before) (distance (pos before) (pos desired)) i,
        )
        (ground (arith, previous-parts (pos before))),
  count_up-IsSorted _ _,
  count_down-IsSorted _ _,
)
