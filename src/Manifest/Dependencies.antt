-- ===== src/Manifest/Dependencies.antt =====
-- controlplane/internal/manifest/validate.go: detectCycle, the search for a cycle of dependencies.
-- The gray nodes are those on the path to the current one, the black ones those that are done; the
-- rest is white. `deps` is the graph, and `nodes` its keys in the order in which the code meets them.
pub mod Cycles
pub mod Enough
pub mod Order
use vcpe.Common.{string_eq, zero, suc, contains, if◌then◌else◌, [], ◌∷◌, length, ℕ, List, String}
use vcpe.Common.Result.{◌>>=◌, err, ok, Result}

pub data CycleError : Type 0 where
  cycle : String → CycleError
  out_of_fuel : CycleError

module _ (deps : String → List String) where
  -- The loop over the successors of a node, with `visit` of a white one inside; `ok` is the list of
  -- black nodes, the last one first.
  unfoldable pub visit_all :
      ℕ → List String → List String → List String → Result CycleError (List String)
  visit_all fuel [] gray black = ok black
  visit_all zero (next ∷ rest) gray black =
      let skipped = visit_all zero rest gray black in
      if contains gray next
      then err (cycle next)
      else if contains black next
      then skipped
      else err out_of_fuel
  visit_all (suc fuel) (next ∷ rest) gray black =
      let skipped = visit_all (suc fuel) rest gray black in
      let visited = visit_all fuel (deps next) (next ∷ gray) black >>= λ done.
      visit_all (suc fuel) rest gray (next ∷ done) in
      if contains gray next
      then err (cycle next)
      else if contains black next
      then skipped
      else visited

  -- detectCycle
  unfoldable pub detect_cycle : List String → Result CycleError (List String)
  unfolding visit_all
  detect_cycle nodes = visit_all (suc (length nodes)) nodes [] []
