-- ===== src/Planner/Order/Acyclic.antt =====
-- controlplane/internal/planner/planner.go: orderServices succeeds on every graph that has an order, which is what
-- the manifest's detectCycle yields.
use vcpe.Common.{
  nat_eq, nat_beq_iff, false, refl, ap, eq_iff, subst, string_eq, ◌∙◌, contains-keep, inl,
  length-keep, [], inr, ◌<◌, arith, ◌==◌, Bool-cases, not, ◌≤◌, length, ◌∷◌, some, true, ◌≡◌, All,
  NoRepeat, contains, List, String, keep,
}
use vcpe.Planner.Order.{named, order_services, no_edges, build_graph, start_names}
use vcpe.Planner.Order.Ends.{length-service_names, start_names-fuel}
use vcpe.Planner.Order.Started.{start_names-InOrder, start-IsState, All-contains}
use vcpe.Common.Result.{ok}
use vcpe.Common.Sort.{contains-sort, text_before, sort}
use vcpe.Common.Int.{int_beq_iff, int_eq, pos}
use vcpe.Planner.Order.Sound.{pending-start}
use vcpe.Planner.Order.Edges.{
  build_graph-indegree, contains→All, dependents-known, dependents-count, count,
}
use vcpe.Manifest.Validate.{dependencies, service_names}
use vcpe.Manifest.{Service}
use vcpe.Planner.Order.Complete.{IsSettled, start_order-IsClosed}
use vcpe.Manifest.Dependencies.Order.{IsOrder}

length-keep-lt :
    (a : String) (xs : List String)
    → contains xs a ≡ true
    → length (keep (λ x. not (x == a)) xs) < length xs
unfolding keep
length-keep-lt a [] h = cc
length-keep-lt a (x ∷ xs) h =
    ground (arith, length-keep-lt a xs, length-keep (λ y. not (y == a)) xs)

-- Distinct texts that all stand in a list are no more than it has.
length-contains :
    (xs ys : List String) → NoRepeat xs → All (λ x. contains ys x ≡ true) xs → length xs ≤ length ys
length-contains [] ys once all = omega arith
length-contains (x ∷ xs) ys once all =
    let others =
      contains→All (λ y. contains (keep (λ z. not (z == x)) ys) y ≡ true) xs
        (λ y here.
          contains-keep (λ z. not (z == x)) ys y
          ∙ ground (
            arith,
            All-contains (λ z. contains ys z ≡ true) xs all.1 y here,
            once.0,
            here,
            eq_iff y x,
          )) in
    omega (
      arith,
      length-contains xs (keep (λ z. not (z == x)) ys) once.1 others,
      length-keep-lt x ys all.0,
    )

initial-IsSettled :
    (services : List Service)
    → (let g = build_graph services no_edges in
        IsSettled g.dependents
          (dependencies services)
          (service_names services)
          (dependents-count services)
          (dependents-known services)
          []
          []
          (keep (λ n. g.indegree n == pos 0) (sort text_before (service_names services))))
unfolding count
initial-IsSettled services n name none_left =
    let g = build_graph services no_edges in
    let zero_edges =
      build_graph-indegree services n no_edges 0 refl
      ∙ ap pos (omega (arith, pending-start (dependencies services n), none_left)) in
    let ready = (int_beq_iff (g.indegree n) (pos 0)).1 zero_edges in
    ground (
      arith,
      contains-keep (λ m. g.indegree m == pos 0) (sort text_before (service_names services)) n,
      contains-sort text_before (service_names services) n,
      name,
      ready,
    )

start_names-closed :
    (services : List Service) (result : List String)
    → NoRepeat (service_names services)
    → start_names services ≡ some result
    → (n : String) → contains (service_names services) n ≡ true
    → All (λ d. contains result d ≡ true) (dependencies services n)
    → contains result n ≡ true
unfolding start_names
start_names-closed services result once run =
    let g = build_graph services no_edges in
    start_order-IsClosed g.dependents (dependencies services) (service_names services)
      (dependents-count services) (dependents-known services) (length services) []
      (keep (λ n. g.indegree n == pos 0) (sort text_before (service_names services))) g.indegree
      result (start-IsState services once) (initial-IsSettled services) run

-- The names in an order of the graph are all in a closed result.
order-done :
    (deps : String → List String) (names result : List String)
    → ((n : String) → All (λ d. contains names d ≡ true) (deps n))
    → ((n : String)
        → contains names n ≡ true
        → All (λ d. contains result d ≡ true) (deps n)
        → contains result n ≡ true)
    → (order : List String) → IsOrder deps order
    → (n : String) → contains names n ≡ true
    → contains order n ≡ true
    → contains result n ≡ true
order-done deps names result known closed [] o n name here = cc
order-done deps names result known closed (m ∷ order) o n name here = elim (Bool-cases (m == n)) [
  | inr other ↦
      order-done deps names result known closed order o.1 n name (ground (arith, here, other))
  | inl same ↦ closed n name (
      contains→All (λ d. contains result d ≡ true) (deps n)
        (λ d dep.
          order-done deps names result known closed order o.1 d
            (All-contains (λ x. contains names x ≡ true) (deps n) (known n) d dep)
            (All-contains (λ x. contains order x ≡ true) (deps n)
              (subst (λ (x : String). All (λ y. contains order y ≡ true) (deps x))
                ((eq_iff m n).0 same) o.0)
              d dep)))
]

-- On services with distinct names, known dependencies and an order of the graph that has every name with dependencies,
-- orderServices succeeds.
pub order_services-acyclic :
    (services : List Service) (order : List String)
    → NoRepeat (service_names services)
    → ((n : String)
        → All (λ d. contains (service_names services) d ≡ true) (dependencies services n))
    → IsOrder (dependencies services) order
    → ((n : String) → contains order n ≡ false → dependencies services n ≡ [])
    → (ordered : List Service) × (order_services services ≡ ok ordered)
unfolding order_services
order_services-acyclic services order once known acyclic rest_free =
    let names = service_names services in
    let (result, run) = start_names-fuel services in
    let closed = start_names-closed services result once run in
    let (follows, (distinct, own)) = start_names-InOrder services result once run in
    let done =
      contains→All (λ n. contains result n ≡ true) names
        (λ n here. elim (Bool-cases (contains order n)) [
          | inl ordered ↦
              order-done (dependencies services) names result known closed order acyclic n here
                ordered
          | inr free ↦ closed n here (rw (rest_free n free) tt)
        ]) in
    let full : (length result == length services) ≡ true =
      (nat_beq_iff (length result) (length services)).1 (
        omega (
          arith,
          length-contains names result once done,
          length-contains result names distinct own,
          length-service_names services,
        )) in
    (named services result, rw (order_services, run, full) refl)
