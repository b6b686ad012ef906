-- ===== src/Planner/Order/Runs.antt =====
-- controlplane/internal/planner/planner.go: the order of orderServices, by induction on its loop.
use vcpe.Common.{
  zero, suc, inr, inl, ◌==◌, ◌∙◌, Bool-cases, sym, eq_iff, arith, string_eq, subst, ℕ, [], false,
  true, All, contains, some, NoRepeat, Option, ◌∷◌, ◌≡◌, List, String,
}
use vcpe.Common.Sort.{All-sort, text_before, sort}
use vcpe.Planner.Order.Steps.{
  start_order-turn, in_front-some, start_order-stops, start_order-end, List-cases, some-injective,
}
use vcpe.Planner.Order.{release, start_order}
use vcpe.Common.Int.{ℤ}
use vcpe.Planner.Order.Edges.{count}
use vcpe.Planner.Order.Sound.{
  IsState, pending, pending-none, take-IsState, release-IsState, first-free,
}

-- Each name depends on names that are done, and is done itself from then on.
abbrev pub InOrder : (String → List String) → List String → List String → Type 0
InOrder deps done [] = Unit
InOrder deps done (n ∷ names) =
    All (λ d. contains done d ≡ true) (deps n) × InOrder deps (n ∷ done) names

record IsRun (deps : String → List String) (names done result : List String) : Type 0 where
  follows : InOrder deps done result
  distinct : NoRepeat result
  new : (n : String) → contains result n ≡ true → contains done n ≡ false
  known_names : All (λ n. contains names n ≡ true) result

IsRun-end :
    (deps : String → List String) (names done result : List String) {o : Option (List String)}
    → o ≡ some []
    → o ≡ some result
    → IsRun deps names done result
IsRun-end deps names done result ends run =
    subst (IsRun deps names done) (some-injective _ _ (sym ends ∙ run))
      (record { follows = tt; distinct = tt; new = λ n here. cc; known_names = tt })

IsRun-turn :
    (deps : String → List String) (names done : List String) (name : String) (later : List String)
    → pending done (deps name) ≡ 0
    → contains done name ≡ false
    → contains names name ≡ true
    → IsRun deps names (name ∷ done) later
    → IsRun deps names done (name ∷ later)
IsRun-turn deps names done name later settled fresh known_name r = record {
  follows = (pending-none done (deps name) settled, r.follows);
  distinct = (ground (arith, r.new name, eq_iff name name), r.distinct);
  new = λ n here. elim (Bool-cases (name == n)) [
    | inl is ↦ subst (λ (x : String). contains done x ≡ false) ((eq_iff name n).0 is) fresh
    | inr other ↦ ground (arith, r.new n, here, other)
  ];
  known_names = (known_name, r.known_names);
}

module _ (dependents deps : String → List String) (names : List String)
    (mirror : (n x : String) → count n (dependents x) ≡ count x (deps n))
    (known : (x : String) → All (λ d. contains names d ≡ true) (dependents x)) where
  start_order-IsRun :
      (fuel : ℕ) (done ready : List String) (indegree : String → ℤ) (result : List String)
      → IsState dependents deps names mirror known done [] ready indegree
      → start_order dependents fuel indegree ready ≡ some result
      → IsRun deps names done result
  unfolding count
  start_order-IsRun zero done ready indegree result s run =
      elim (List-cases (sort text_before ready)) [
        | inl e ↦
            IsRun-end deps names done result (start_order-end dependents 0 indegree ready e) run
        | inr (name, (rest, e)) ↦ cc (simp (start_order-stops dependents indegree ready e) at run)
      ]
  start_order-IsRun (suc fuel) done ready indegree result s run =
      elim (List-cases (sort text_before ready)) [
        | inl e ↦
            IsRun-end deps names done result
              (start_order-end dependents (suc fuel) indegree ready e) run
        | inr (name, (rest, e)) ↦
            let taken =
              take-IsState dependents deps names mirror known done ready indegree name rest e s in
            let first =
              first-free dependents deps names mirror known done ready indegree name rest e s in
            let left = sort text_before (dependents name) in
            let step = release left indegree rest in
            let (later, (rest_run, shape)) =
              in_front-some name (start_order dependents fuel step.0 step.1) result
                (sym (start_order-turn dependents fuel indegree ready e) ∙ run) in
            let released =
              release-IsState dependents deps names mirror known (name ∷ done) left rest indegree
                (All-sort text_before _ (dependents name) (known name)) taken in
            subst (IsRun deps names done) (sym shape) (
              IsRun-turn deps names done name later (omega (arith, first.0)) first.1.0 first.1.1
                (start_order-IsRun fuel (name ∷ done) step.1 step.0 later released rest_run))
      ]

  -- A run of the loop from the counts that the graph gives.
  pub start_order-lem :
      (fuel : ℕ) (ready : List String) (indegree : String → ℤ) (result : List String)
      → IsState dependents deps names mirror known [] [] ready indegree
      → start_order dependents fuel indegree ready ≡ some result
      → InOrder deps [] result × (NoRepeat result × All (λ n. contains names n ≡ true) result)
  start_order-lem fuel ready indegree result s run =
      let r = start_order-IsRun fuel [] ready indegree result s run in
      (r.follows, (r.distinct, r.known_names))
