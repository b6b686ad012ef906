-- ===== src/Manifest/Dependencies/Cycles.antt =====
-- controlplane/internal/manifest/validate.go: a cycle that detectCycle reports is one.
use vcpe.Manifest.Dependencies.{CycleError, cycle, detect_cycle, visit_all}
use vcpe.Common.Result.{Result, Result-cases, err}
use vcpe.Common.{
  zero, ◌∙◌, arith, eq_iff, [], inr, subst, inl, length, ◌==◌, Bool-cases, suc, string_eq, ◌∷◌,
  true, ℕ, ◌≡◌, contains, List, String,
}

-- A path of at least one dependency.
pub data Reaches (deps : String → List String) (a : String) : String → Type 0 where
  edge : (b : String) → contains (deps a) b ≡ true → Reaches deps a b
  longer : (b c : String) → Reaches deps a b → contains (deps b) c ≡ true → Reaches deps a c

module _ (deps : String → List String) where
  -- Every gray node reaches every node that is visited next.
  abbrev LeadTo : List String → List String → Type 0
  LeadTo gray nexts =
      (y n : String) → contains gray y ≡ true → contains nexts n ≡ true → Reaches deps y n

  LeadTo-deps :
      (next : String) (gray nexts : List String)
      → contains nexts next ≡ true
      → LeadTo gray nexts
      → LeadTo (next ∷ gray) (deps next)
  LeadTo-deps next gray nexts here lead y n gray_y dep = elim (Bool-cases (next == y)) [
    | inl same ↦ subst (λ (z : String). Reaches deps z n) ((eq_iff next y).0 same) (edge n dep)
    | inr other ↦ longer next n (lead y next (ground (arith, gray_y, other)) here) dep
  ]

  closes :
      (next : String) (gray nexts : List String) {x : String}
      → LeadTo gray nexts
      → contains gray next ≡ true
      → contains nexts next ≡ true
      → ◌≡◌ {A = Result CycleError (List String)} (err (cycle next)) (err (cycle x))
      → Reaches deps x x
  closes next gray nexts {x} lead g here h =
      let same : (next ≡ x) = cc h in
      subst (λ (z : String). Reaches deps z z) same (lead next next g here)

  visit_all-cycle :
      (fuel : ℕ) (nexts gray black : List String) {x : String}
      → LeadTo gray nexts
      → visit_all deps fuel nexts gray black ≡ err (cycle x)
      → Reaches deps x x
  unfolding visit_all
  visit_all-cycle fuel [] gray black lead h = cc h
  visit_all-cycle zero (next ∷ rest) gray black {x} lead h =
      elim (Bool-cases (contains gray next)) [
        | inl g ↦
            closes next gray (next ∷ rest) lead g (ground (arith, eq_iff next next))
              (simp (g, visit_all) at h)
        | inr g ↦ elim (Bool-cases (contains black next)) [
          | inl b ↦
              visit_all-cycle zero rest gray black (λ y n q r. lead y n q (ground (arith, r)))
                (simp (g, b, visit_all) at h)
          | inr b ↦ cc (simp (g, b, visit_all) at h)
        ]
      ]
  visit_all-cycle (suc fuel) (next ∷ rest) gray black {x} lead h =
      let first : contains (next ∷ rest) next ≡ true = ground (arith, eq_iff next next) in
      elim (Bool-cases (contains gray next)) [
        | inl g ↦ closes next gray (next ∷ rest) lead g first (simp (g, visit_all) at h)
        | inr g ↦ elim (Bool-cases (contains black next)) [
          | inl b ↦
              visit_all-cycle (suc fuel) rest gray black (λ y n q r. lead y n q (ground (arith, r)))
                (simp (g, b, visit_all) at h)
          | inr b ↦ elim (Result-cases (visit_all deps fuel (deps next) (next ∷ gray) black)) [
            | inl (e, failed) ↦
                visit_all-cycle fuel (deps next) (next ∷ gray) black
                  (LeadTo-deps next gray (next ∷ rest) first lead)
                  (failed ∙ (simp (g, b, failed, visit_all) at h))
            | inr (mid, found) ↦
                visit_all-cycle (suc fuel) rest gray (next ∷ mid)
                  (λ y n q r. lead y n q (ground (arith, r))) (simp (g, b, found, visit_all) at h)
          ]
        ]
      ]

  -- A service that detectCycle reports depends on itself along a path of dependencies.
  pub detect_cycle-cycle :
      (nodes : List String) {x : String}
      → detect_cycle deps nodes ≡ err (cycle x)
      → Reaches deps x x
  unfolding detect_cycle
  detect_cycle-cycle nodes h =
      visit_all-cycle (suc (length nodes)) nodes [] [] (λ y n q r. absurd (cc q)) h
