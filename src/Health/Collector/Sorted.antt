-- ===== src/Health/Collector/Sorted.antt =====
-- controlplane/internal/health/collector.go: the result is sorted, and holds each target's observation.
use vcpe.Common.{string_eq, [], ◌⊎◌, ◌∷◌, false, true, ◌≡◌, List, ℕ, String}
use vcpe.Common.Sort.{text_before}
use vcpe.Common.Int.{ltb_ℤ}
use vcpe.Health.Collector.{Observation, Reply, Target}

module _ (trim_space : String → String) (reply : Target → Reply) (now : ℕ) where
  -- The services ascend in the order of texts, and the replicas of one service in that of numbers.
  abbrev pub InOrder : List Observation → Type 0
  InOrder [] = Unit
  InOrder (x ∷ []) = Unit
  InOrder (x ∷ y ∷ rest) =
      ((text_before x.target.service y.target.service ≡ true)
        ⊎ ((x.target.service ≡ y.target.service)
            × (ltb_ℤ y.target.replica x.target.replica ≡ false)))
      × InOrder (y ∷ rest)
