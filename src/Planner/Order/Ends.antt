-- ===== src/Planner/Order/Ends.antt =====
-- controlplane/internal/planner/planner.go: orderServices ends within its fuel. Each turn takes one name from the ready
-- ones, and a name that becomes ready loses its last edge.
use vcpe.Manifest.Validate.{service_names}
use vcpe.Common.{
  nat_eq, All-weaken, ◌⊎◌, keep, ◌∙◌, length-append, ap, inr, some, zero, ◌++◌, inl, length, All,
  refl, suc, ◌==◌, Bool-cases, eq_iff, string_eq, ◌+◌, ◌<◌, [], if◌then◌else◌, true, arith, ◌∷◌,
  ◌≡◌, contains, ℕ, ◌≤◌, String, List,
}
use vcpe.Planner.Order.{
  named, cycle, no_edges, build_graph, order_services, start_names, in_front, release, start_order,
  drop_edge,
}
use vcpe.Planner.Order.Edges.{dependents-known}
use vcpe.Common.Result.{ok, err}
use vcpe.Common.Sort.{contains-sort, All-sort, length-sort, text_before, sort}
use vcpe.Manifest.{Service}
use vcpe.Planner.Order.Steps.{
  start_order-turn, start_order-end, release-waits, List-cases, release-last,
}
use vcpe.Common.Int.{int_eq, int_beq_iff, negsuc, ltb_ℤ, pos, ℤ}
use vcpe.Planner.Replicas.{previous}

abbrev weight : ℤ → ℕ
weight z = if ltb_ℤ (pos 0) z then 1 else 0

-- How many of the names wait for a dependency.
unfoldable waiting : List String → (String → ℤ) → ℕ
waiting [] indegree = 0
waiting (n ∷ ns) indegree = weight (indegree n) + waiting ns indegree

weight-previous : (z : ℤ) → weight (previous z) ≤ weight z
weight-previous (pos zero) = omega arith
weight-previous (pos (suc n)) = ground arith
weight-previous (negsuc n) = ground arith

weight-last : (z : ℤ) → previous z ≡ pos 0 → weight z ≡ 1
weight-last (pos zero) last = cc
weight-last (pos (suc n)) last = ground arith
weight-last (negsuc n) last = cc

weight-drop :
    (d : String) (indegree : String → ℤ) (n : String)
    → weight (drop_edge d indegree n) ≤ weight (indegree n)
unfolding drop_edge
weight-drop d indegree n = elim (Bool-cases (n == d)) [
  | inl same ↦ rw same (weight-previous (indegree n))
  | inr other ↦ rw other (omega arith)
]

drop_edge-le :
    (ns : List String) (d : String) (indegree : String → ℤ)
    → waiting ns (drop_edge d indegree) ≤ waiting ns indegree
unfolding waiting
drop_edge-le [] d indegree = omega arith
drop_edge-le (n ∷ ns) d indegree =
    omega (arith, weight-drop d indegree n, drop_edge-le ns d indegree)

drop_edge-last :
    (d : String) (indegree : String → ℤ) → drop_edge d indegree d ≡ pos 0 → weight (indegree d) ≡ 1
unfolding drop_edge
drop_edge-last d indegree last = weight-last (indegree d) (simp ((eq_iff d d).1 refl) at last)

drop_edge-lt :
    (ns : List String) (d : String) (indegree : String → ℤ)
    → contains ns d ≡ true
    → drop_edge d indegree d ≡ pos 0
    → waiting ns (drop_edge d indegree) < waiting ns indegree
unfolding waiting
drop_edge-lt [] d indegree here last = cc
drop_edge-lt (n ∷ ns) d indegree here last = elim (Bool-cases (n == d)) [
  | inl same ↦
      let now = ap weight last in
      let was = drop_edge-last d indegree last in
      let rest = drop_edge-le ns d indegree in
      rw ((eq_iff n d).0 same) (omega (arith, now, was, rest))
  | inr other ↦
      omega (arith, weight-drop d indegree n, drop_edge-lt ns d indegree (simp other at here) last)
]

-- The names that are ready and those that wait do not grow in number.
release-le :
    (names deps : List String) (indegree : String → ℤ) (ready : List String)
    → All (λ d. contains names d ≡ true) deps
    → length (release deps indegree ready).1 + waiting names (release deps indegree ready).0
      ≤ length ready + waiting names indegree
unfolding release
release-le names [] indegree ready known = omega arith
release-le names (d ∷ deps) indegree ready known =
    elim (Bool-cases (drop_edge d indegree d == pos 0)) [
      | inl last ↦ rw (release-last d deps indegree ready last) (
          omega (
            arith,
            release-le names deps (drop_edge d indegree) (ready ++ d ∷ []) known.1,
            length-append ready (d ∷ []),
            drop_edge-lt names d indegree known.0 ((int_beq_iff _ _).0 last),
          ))
      | inr waits ↦ rw (release-waits d deps indegree ready waits) (
          omega (
            arith,
            release-le names deps (drop_edge d indegree) ready known.1,
            drop_edge-le names d indegree,
          ))
    ]

start_order-fuel :
    (dependents : String → List String) (names : List String)
    → ((x : String) → All (λ d. contains names d ≡ true) (dependents x))
    → (fuel : ℕ) (indegree : String → ℤ) (ready : List String)
    → length ready + waiting names indegree ≤ fuel
    → (order : List String) × (start_order dependents fuel indegree ready ≡ some order)
unfolding start_order
start_order-fuel dependents names known zero indegree ready enough =
    elim (List-cases (sort text_before ready)) [
      | inl e ↦ ([], start_order-end dependents 0 indegree ready e)
      | inr (name, (rest, e)) ↦
          let size = ap length e in absurd (omega (arith, size, length-sort text_before ready))
    ]
start_order-fuel dependents names known (suc fuel) indegree ready enough =
    elim (List-cases (sort text_before ready)) [
      | inl e ↦ ([], start_order-end dependents (suc fuel) indegree ready e)
      | inr (name, (rest, e)) ↦
          let size = ap length e in
          let step = release (sort text_before (dependents name)) indegree rest in
          let less =
            release-le names (sort text_before (dependents name)) indegree rest (
              All-sort text_before (λ d. contains names d ≡ true) (dependents name) (known name)) in
          let (later, run) =
            start_order-fuel dependents names known fuel step.0 step.1
              (omega (arith, size, less, length-sort text_before ready)) in
          (name ∷ later, start_order-turn dependents fuel indegree ready e ∙ ap (in_front name) run)
    ]

ready-le :
    (indegree : String → ℤ) (names : List String)
    → length (keep (λ n. indegree n == pos 0) names) + waiting names indegree ≤ length names
unfolding keep waiting
ready-le indegree [] = omega arith
ready-le indegree (n ∷ names) = elim (Bool-cases (indegree n == pos 0)) [
  | inl none_left ↦
      rw (none_left, (int_beq_iff (indegree n) (pos 0)).0 none_left)
        (omega (arith, ready-le indegree names))
  | inr waits ↦ rw waits (ground (arith, ready-le indegree names))
]

pub length-service_names :
    (services : List Service) → length (service_names services) ≡ length services
length-service_names [] = refl
length-service_names (svc ∷ services) = omega (arith, length-service_names services)

pub start_names-fuel :
    (services : List Service) → (names : List String) × (start_names services ≡ some names)
unfolding start_names
start_names-fuel services =
    let g = build_graph services no_edges in
    let names = sort text_before (service_names services) in
    start_order-fuel g.dependents names
      (λ x.
        All-weaken _ _ (g.dependents x)
          (λ d known. contains-sort text_before (service_names services) d ∙ known)
          (dependents-known services x))
      (length services) g.indegree (keep (λ n. g.indegree n == pos 0) names)
      (omega (
        arith,
        ready-le g.indegree names,
        length-sort text_before (service_names services),
        length-service_names services,
      ))

-- On any services, also those with cycles, unknown dependencies or repeated names, orderServices ends: it
-- returns an order, or the error of a cycle; the loop over the ready names never runs out of fuel.
pub order_services-ends :
    (services : List Service)
    → (order_services services ≡ err cycle)
      ⊎ ((ordered : List Service) × (order_services services ≡ ok ordered))
unfolding order_services
order_services-ends services =
    let (names, run) = start_names-fuel services in
    elim (Bool-cases (length names == length services)) [
      | inl all ↦ inr (named services names, rw (order_services, run, all) refl)
      | inr some_left ↦ inl (rw (order_services, run, some_left) refl)
    ]
