-- ===== src/Planner/Order.antt =====
-- controlplane/internal/planner/planner.go: orderServices, a topological sort that takes the least ready name. The
-- loop over the ready names runs on fuel: the number of services is enough, as Order/Ends shows.
pub mod Edges
pub mod Steps
pub mod Ends
pub mod Sound
pub mod Runs
pub mod Started
pub mod Complete
pub mod Acyclic
use vcpe.Manifest.Validate.{service_names}
use vcpe.Common.{
  nat_eq, zero, string_eq, suc, ◌++◌, length, some, ◌==◌, Option, if◌then◌else◌, map, none, [],
  keep, ℕ, ◌∷◌, List, String,
}
use vcpe.Common.Int.{int_eq, ℤ, pos}
use vcpe.Common.Result.{ok, err, Result}
use vcpe.Planner.Replicas.{next, previous}
use vcpe.Common.Sort.{text_before, sort}
use vcpe.Manifest.{Service}

-- The maps `indegree` and `dependents`; a missing key has none.
pub record Graph : Type 0 where
  pub indegree : String → ℤ
  pub dependents : String → List String

abbrev pub no_edges : Graph
no_edges = record { indegree = λ x. pos 0; dependents = λ x. [] }

-- `indegree[name]++` and `indegree[name]--`
unfoldable pub count_edge : String → (String → ℤ) → String → ℤ
count_edge name indegree x = if x == name then next (indegree x) else indegree x

unfoldable pub drop_edge : String → (String → ℤ) → String → ℤ
drop_edge name indegree x = if x == name then previous (indegree x) else indegree x

-- One edge, from a dependency to the service with the name.
unfoldable pub add_edge : String → String → Graph → Graph
unfolding count_edge
add_edge name dep g = record {
  indegree = count_edge name g.indegree;
  dependents = λ x. if x == dep then g.dependents x ++ name ∷ [] else g.dependents x;
}

unfoldable pub add_edges : String → List String → Graph → Graph
unfolding add_edge
add_edges name [] g = g
add_edges name (dep ∷ deps) g = add_edges name deps (add_edge name dep g)

unfoldable pub build_graph : List Service → Graph → Graph
unfolding add_edges
build_graph [] g = g
build_graph (svc ∷ services) g = build_graph services (add_edges svc.name svc.depends_on g)

-- The loop over the dependents of a name that is done.
unfoldable pub release : List String → (String → ℤ) → List String → (String → ℤ) × List String
unfolding drop_edge
release [] indegree ready = (indegree, ready)
release (d ∷ deps) indegree ready =
    let less = drop_edge d indegree in
    release deps less (if less d == pos 0 then ready ++ d ∷ [] else ready)

-- byName[name], the last service with the name.
unfoldable pub by_name : String → List Service → Option Service → Option Service
by_name name [] found = found
by_name name (svc ∷ services) found =
    by_name name services (if svc.name == name then some svc else found)

-- The name goes in front of the names that follow.
abbrev pub in_front : String → Option (List String) → Option (List String)
in_front name none = none
in_front name (some later) = some (name ∷ later)

-- The loop over the ready names: the names in their order, or none without fuel.
unfoldable pub start_order :
    (String → List String) → ℕ → (String → ℤ) → List String → Option (List String)
unfolding release sort
start_order dependents zero indegree ready = elim (sort text_before ready) [
  | [] ↦ some []
  | name ∷ rest ↦ none
]
start_order dependents (suc fuel) indegree ready = elim (sort text_before ready) [
  | [] ↦ some []
  | name ∷ rest ↦
      let (less, more) = release (sort text_before (dependents name)) indegree rest in
      in_front name (start_order dependents fuel less more)
]

pub data OrderError : Type 0 where
  cycle : OrderError
  out_of_fuel : OrderError

-- `byName[name]` of each name.
unfoldable pub named : List Service → List String → List Service
unfolding by_name
named services [] = []
named services (name ∷ names) = elim (by_name name services none) [
  | none ↦ named services names
  | some svc ↦ svc ∷ named services names
]

unfoldable pub start_names : List Service → Option (List String)
unfolding build_graph start_order sort keep
start_names services =
    let g = build_graph services no_edges in
    start_order g.dependents (length services) g.indegree
      (keep (λ name. g.indegree name == pos 0) (sort text_before (service_names services)))

-- orderServices
unfoldable pub order_services : List Service → Result OrderError (List Service)
unfolding start_names named
order_services services = elim (start_names services) [
  | none ↦ err out_of_fuel
  | some names ↦ if length names == length services then ok (named services names) else err cycle
]
