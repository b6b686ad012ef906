-- ===== src/Manifest/Dependencies/Enough.antt =====
-- controlplane/internal/manifest/validate.go: the fuel of detectCycle is enough.
use vcpe.Common.{
  zero, ◌∙◌, inr, inl, Bool-cases, suc, ◌≢◌, eq_iff, refl, [], string_eq, ◌<◌, arith, false, not,
  true, length, ◌≡◌, ◌≤◌, contains, ℕ, ◌∷◌, List, String, keep,
}
use vcpe.Common.Result.{Result-cases, err}
use vcpe.Manifest.Dependencies.{out_of_fuel, detect_cycle, visit_all}

-- The nodes that are not gray.
abbrev white : List String → List String → ℕ
white gray nodes = length (keep (λ n. not (contains gray n)) nodes)

white-weaken : (n : String) (gray nodes : List String) → white (n ∷ gray) nodes ≤ white gray nodes
unfolding keep
white-weaken n gray [] = omega arith
white-weaken n gray (x ∷ nodes) = ground (arith, white-weaken n gray nodes)

-- A node that turns gray counts no more.
white-gray :
    (n : String) (gray nodes : List String)
    → contains nodes n ≡ true
    → contains gray n ≡ false
    → white (n ∷ gray) nodes < white gray nodes
unfolding keep
white-gray n gray [] known g = cc
white-gray n gray (x ∷ nodes) known g =
    ground (arith, white-weaken n gray nodes, white-gray n gray nodes, eq_iff n x, eq_iff x n)

module _ (deps : String → List String) (nodes : List String)
    (leaf : (n : String) → contains nodes n ≡ false → deps n ≡ []) where
  visit_all-fuel :
      (fuel : ℕ) (nexts gray black : List String)
      → white gray nodes < fuel
      → visit_all deps fuel nexts gray black ≢ err out_of_fuel
  unfolding visit_all
  visit_all-fuel fuel [] gray black enough h = cc
  visit_all-fuel zero (next ∷ rest) gray black enough h = absurd (omega arith)
  visit_all-fuel (suc fuel) (next ∷ rest) gray black enough h =
      elim (Bool-cases (contains gray next)) [
        | inl g ↦ cc (simp (g, visit_all) at h)
        | inr g ↦ elim (Bool-cases (contains black next)) [
          | inl b ↦ visit_all-fuel (suc fuel) rest gray black enough (simp (g, b, visit_all) at h)
          | inr b ↦ elim (Result-cases (visit_all deps fuel (deps next) (next ∷ gray) black)) [
            | inr (mid, found) ↦
                visit_all-fuel (suc fuel) rest gray (next ∷ mid) enough
                  (simp (g, b, found, visit_all) at h)
            | inl (e, failed) ↦ elim (Bool-cases (contains nodes next)) [
              | inl known ↦
                  visit_all-fuel fuel (deps next) (next ∷ gray) black
                    (omega (arith, white-gray next gray nodes known g, enough))
                    (failed ∙ (simp (g, b, failed, visit_all) at h))
              | inr unknown ↦ cc (rw (leaf next unknown) at failed)
            ]
          ]
        ]
      ]

  white_nodes : (rows : List String) → white [] rows ≡ length rows
  unfolding keep
  white_nodes [] = refl
  white_nodes (n ∷ rows) = omega (arith, white_nodes rows)

  -- On a graph whose keys are the given nodes, detectCycle never runs out of fuel: it finds a cycle or
  -- an order.
  pub detect_cycle-fuel : detect_cycle deps nodes ≢ err out_of_fuel
  unfolding detect_cycle
  detect_cycle-fuel h =
      visit_all-fuel (suc (length nodes)) nodes [] [] (omega (arith, white_nodes nodes)) h
