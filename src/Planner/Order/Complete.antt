-- ===== src/Planner/Order/Complete.antt =====
-- controlplane/internal/planner/planner.go: orderServices leaves no name whose dependencies are done. A name without edges
-- to drop is always ready or done.
use vcpe.Common.{
  zero, suc, eq_iff, All-weaken, Option, subst, inr, ap, inl, ◌∙◌, false, some, Bool-cases,
  contains-append, refl, sym, ◌==◌, [], arith, string_eq, ◌++◌, ℕ, ◌||◌, ◌∷◌, true, contains, ◌≡◌,
  All, List, String, keep,
}
use vcpe.Common.Sort.{All-sort, contains-sort, text_before, sort}
use vcpe.Planner.Order.Steps.{
  start_order-turn, in_front-some, start_order-stops, some-injective, start_order-end, List-cases,
  release-waits, release-last,
}
use vcpe.Common.Int.{int_beq_iff, int_eq, pos, ℤ}
use vcpe.Planner.Order.{drop_edge, start_order, release}
use vcpe.Planner.Order.Edges.{count}
use vcpe.Planner.Order.Sound.{
  IsState, left_of, pending, drop-IsState, push-IsState, is_new, same_left, first-free,
  take-IsState, release-IsState,
}

pending-all : (done xs : List String) → All (λ d. contains done d ≡ true) xs → pending done xs ≡ 0
unfolding pending keep
pending-all done [] all = refl
pending-all done (x ∷ xs) all = ground (arith, all.0, pending-all done xs all.1)

module _ (dependents deps : String → List String) (names : List String)
    (mirror : (n x : String) → count n (dependents x) ≡ count x (deps n))
    (known : (x : String) → All (λ d. contains names d ≡ true) (dependents x)) where
  abbrev pub IsSettled : List String → List String → List String → Type 0
  IsSettled done left ready =
      (n : String)
      → contains names n ≡ true
      → left_of dependents deps names mirror known done left n ≡ 0
      → (contains ready n || contains done n) ≡ true

  push-IsSettled :
      (done : List String) (d : String) (left ready : List String)
      → IsSettled done (d ∷ left) ready
      → IsSettled done left (ready ++ d ∷ [])
  unfolding count
  push-IsSettled done d left ready s n name zero_left =
      ground (arith, contains-append ready (d ∷ []) n, s n name, zero_left)

  wait-IsSettled :
      (done : List String) (d : String) (left ready : List String) (indegree : String → ℤ)
      → indegree d ≡ pos (left_of dependents deps names mirror known done left d)
      → (indegree d == pos 0) ≡ false
      → IsSettled done (d ∷ left) ready
      → IsSettled done left ready
  unfolding count
  wait-IsSettled done d left ready indegree counts waits s n name zero_left =
      elim (Bool-cases (d == n)) [
        | inl same ↦
            let at_d =
              subst (λ (x : String). left_of dependents deps names mirror known done left x ≡ 0)
                (sym ((eq_iff d n).0 same)) zero_left in
            let none_left = (int_beq_iff (indegree d) (pos 0)).1 (counts ∙ ap pos at_d) in cc
        | inr other ↦ s n name (ground (arith, other, zero_left))
      ]

  release-IsSettled :
      (done left ready : List String) (indegree : String → ℤ)
      → All (λ d. contains names d ≡ true) left
      → IsState dependents deps names mirror known done left ready indegree
      → IsSettled done left ready
      → IsSettled done [] (release left indegree ready).1
  unfolding release
  release-IsSettled done [] ready indegree all s settled = settled
  release-IsSettled done (d ∷ left) ready indegree all s settled =
      let less = drop-IsState dependents deps names mirror known done d left ready indegree s in
      elim (Bool-cases (drop_edge d indegree d == pos 0)) [
        | inl last ↦ rw (release-last d left indegree ready last) (
            release-IsSettled done left (ready ++ d ∷ []) (drop_edge d indegree) all.1
              (push-IsState dependents deps names mirror known done d left ready
                (drop_edge d indegree) less ((int_beq_iff _ _).0 last)
                (is_new dependents deps names mirror known done d left ready indegree s) all.0)
              (push-IsSettled done d left ready settled))
        | inr waits ↦ rw (release-waits d left indegree ready waits) (
            release-IsSettled done left ready (drop_edge d indegree) all.1 less (
              wait-IsSettled done d left ready (drop_edge d indegree) (less.counts d) waits
                settled))
      ]

  take-IsSettled :
      (done ready : List String) (indegree : String → ℤ) (name : String) (rest : List String)
      → sort text_before ready ≡ name ∷ rest
      → IsState dependents deps names mirror known done [] ready indegree
      → IsSettled done [] ready
      → IsSettled (name ∷ done) (sort text_before (dependents name)) rest
  take-IsSettled done ready indegree name rest e s settled n here zero_left =
      let first = first-free dependents deps names mirror known done ready indegree name rest e s in
      let same = same_left dependents deps names mirror known done name first.1.0 n in
      let there =
        sym (contains-sort text_before ready n) ∙ ap (λ (xs : List String). contains xs n) e in
      ground (arith, settled n here (sym same ∙ zero_left), there)

  end-IsSettled :
      (done ready : List String) (n : String)
      → sort text_before ready ≡ []
      → IsSettled done [] ready
      → contains names n ≡ true
      → All (λ d. contains done d ≡ true) (deps n)
      → contains done n ≡ true
  unfolding count
  end-IsSettled done ready n e settled name all =
      let there =
        sym (contains-sort text_before ready n) ∙ ap (λ (xs : List String). contains xs n) e in
      ground (arith, settled n name (omega (arith, pending-all done (deps n) all)), there)

  -- A name whose dependencies are done, before or in the result, is done itself.
  abbrev pub IsClosed : List String → List String → Type 0
  IsClosed done result =
      (n : String)
      → contains names n ≡ true
      → All (λ d. (contains done d || contains result d) ≡ true) (deps n)
      → (contains done n || contains result n) ≡ true

  IsClosed-end :
      (done ready result : List String) {o : Option (List String)}
      → sort text_before ready ≡ []
      → IsSettled done [] ready
      → o ≡ some []
      → o ≡ some result
      → IsClosed done result
  IsClosed-end done ready result e settled ends run =
      subst (IsClosed done) (some-injective _ _ (sym ends ∙ run)) (λ n name all.
        let before =
          All-weaken _ (λ d. contains done d ≡ true) (deps n) (λ d here. ground arith) all in
        ground (arith, end-IsSettled done ready n e settled name before))

  IsClosed-turn :
      (done later : List String) (name : String)
      → IsClosed (name ∷ done) later
      → IsClosed done (name ∷ later)
  IsClosed-turn done later name closed n here all =
      let inner =
        All-weaken _ (λ d. (contains (name ∷ done) d || contains later d) ≡ true) (deps n)
          (λ d in_one. ground (arith, in_one)) all in
      ground (arith, closed n here inner)

  pub start_order-IsClosed :
      (fuel : ℕ) (done ready : List String) (indegree : String → ℤ) (result : List String)
      → IsState dependents deps names mirror known done [] ready indegree
      → IsSettled done [] ready
      → start_order dependents fuel indegree ready ≡ some result
      → IsClosed done result
  start_order-IsClosed zero done ready indegree result s settled run =
      elim (List-cases (sort text_before ready)) [
        | inl e ↦
            IsClosed-end done ready result e settled (start_order-end dependents 0 indegree ready e)
              run
        | inr (name, (rest, e)) ↦ cc (simp (start_order-stops dependents indegree ready e) at run)
      ]
  start_order-IsClosed (suc fuel) done ready indegree result s settled run =
      elim (List-cases (sort text_before ready)) [
        | inl e ↦
            IsClosed-end done ready result e settled
              (start_order-end dependents (suc fuel) indegree ready e) run
        | inr (name, (rest, e)) ↦
            let taken =
              take-IsState dependents deps names mirror known done ready indegree name rest e s in
            let left = sort text_before (dependents name) in
            let step = release left indegree rest in
            let (later, (rest_run, shape)) =
              in_front-some name (start_order dependents fuel step.0 step.1) result
                (sym (start_order-turn dependents fuel indegree ready e) ∙ run) in
            let all = All-sort text_before _ (dependents name) (known name) in
            subst (IsClosed done) (sym shape) (
              IsClosed-turn done later name (
                start_order-IsClosed fuel (name ∷ done) step.1 step.0 later
                  (release-IsState dependents deps names mirror known (name ∷ done) left rest
                    indegree all taken)
                  (release-IsSettled (name ∷ done) left rest indegree all taken
                    (take-IsSettled done ready indegree name rest e s settled))
                  rest_run))
      ]
