-- ===== src/Manifest/Dependencies/Order.antt =====
-- controlplane/internal/manifest/validate.go: what detectCycle finds.
use vcpe.Common.{
  zero, eq_iff, arith, suc, inr, inl, Bool-cases, subst, [], length, string_eq, true, All, ℕ, ◌≡◌,
  contains, ◌∷◌, List, String,
}
use vcpe.Common.Result.{>>=-ok, ok-injective, ok}
use vcpe.Manifest.Dependencies.{detect_cycle, visit_all}

module _ (deps : String → List String) where
  -- Every node depends on nodes behind it only.
  abbrev pub IsOrder : List String → Type 0
  IsOrder [] = Unit
  IsOrder (n ∷ rest) = All (λ d. contains rest d ≡ true) (deps n) × IsOrder rest

  record Visited (nexts black black' : List String) : Type 0 where
    grows : (x : String) → contains black x ≡ true → contains black' x ≡ true
    done : All (λ n. contains black' n ≡ true) nexts
    order : IsOrder black'

  visit_all-Visited :
      (fuel : ℕ) (nexts gray black : List String) {black' : List String}
      → IsOrder black
      → visit_all deps fuel nexts gray black ≡ ok black'
      → Visited nexts black black'
  unfolding visit_all
  visit_all-Visited fuel [] gray black {black'} o h =
      let same = ok-injective black black' h in
      subst (λ (z : List String). Visited [] black z) same
        (record { grows = λ x here. here; done = tt; order = o })
  visit_all-Visited zero (next ∷ rest) gray black o h = elim (Bool-cases (contains gray next)) [
    | inl g ↦ cc (simp (g, visit_all) at h)
    | inr g ↦ elim (Bool-cases (contains black next)) [
      | inl b ↦
          let v = visit_all-Visited zero rest gray black o (simp (g, b, visit_all) at h) in
          record { grows = v.grows; done = (v.grows next b, v.done); order = v.order }
      | inr b ↦ cc (simp (g, b, visit_all) at h)
    ]
  ]
  visit_all-Visited (suc fuel) (next ∷ rest) gray black o h =
      elim (Bool-cases (contains gray next)) [
        | inl g ↦ cc (simp (g, visit_all) at h)
        | inr g ↦ elim (Bool-cases (contains black next)) [
          | inl b ↦
              let v =
                visit_all-Visited (suc fuel) rest gray black o (simp (g, b, visit_all) at h) in
              record { grows = v.grows; done = (v.grows next b, v.done); order = v.order }
          | inr b ↦
              let (mid, later, inner) =
                >>=-ok (visit_all deps fuel (deps next) (next ∷ gray) black) _
                  (simp (g, b, visit_all) at h) in
              let v = visit_all-Visited fuel (deps next) (next ∷ gray) black o inner in
              let w = visit_all-Visited (suc fuel) rest gray (next ∷ mid) (v.done, v.order) later in
              record {
                grows = λ x here. w.grows x (ground (arith, v.grows x here));
                done = (w.grows next (ground (arith, eq_iff next next)), w.done);
                order = w.order;
              }
        ]
      ]

  -- If detectCycle finds no cycle, then the services have an order in which each depends on nodes behind
  -- it only, and which contains every service.
  pub detect_cycle-ok :
      (nodes : List String) {black : List String}
      → detect_cycle deps nodes ≡ ok black
      → IsOrder black × All (λ n. contains black n ≡ true) nodes
  unfolding detect_cycle
  detect_cycle-ok nodes h =
      let v = visit_all-Visited (suc (length nodes)) nodes [] [] tt h in (v.order, v.done)
