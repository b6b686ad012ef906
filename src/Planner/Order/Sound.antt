-- ===== src/Planner/Order/Sound.antt =====
-- controlplane/internal/planner/planner.go: the state of orderServices. While the code runs, the count of a name is
-- the number of its dependencies that are not done yet.
use vcpe.Common.{
  ◌&&◌, refl, contains-append, subst, NoRepeat-append_one, ◌∙◌, sym, ap, ◌++◌, NoRepeat, eq_iff,
  inr, arith, inl, ◌==◌, Bool-cases, [], string_eq, ◌+◌, false, not, true, All, contains, length, ℕ,
  ◌∷◌, ◌≡◌, List, String, keep,
}
use vcpe.Planner.Order.Steps.{previous-suc, release-waits, release-last}
use vcpe.Common.Sort.{NoRepeat-sort, contains-sort, text_before, sort}
use vcpe.Planner.Order.{drop_edge, release}
use vcpe.Planner.Order.Edges.{count-sort, count}
use vcpe.Common.Int.{int_beq_iff, pos_part, int_eq, pos, ℤ}

unfoldable pub pending : List String → List String → ℕ
pending done xs = length (keep (λ d. not (contains done d)) xs)

pending-done :
    (name : String) (done xs : List String)
    → contains done name ≡ false
    → pending done xs ≡ pending (name ∷ done) xs + count name xs
unfolding pending keep count
pending-done name done [] new = omega arith
pending-done name done (x ∷ xs) new =
    ground (arith, pending-done name done xs new, eq_iff name x, eq_iff x name)

pub pending-none :
    (done xs : List String) → pending done xs ≡ 0 → All (λ d. contains done d ≡ true) xs
unfolding pending keep
pending-none done [] h = tt
pending-none done (x ∷ xs) h = elim (Bool-cases (contains done x)) [
  | inl here ↦ (here, pending-none done xs (ground arith))
  | inr out ↦ absurd (ground (arith, out, h))
]

pub pending-start : (xs : List String) → pending [] xs ≡ length xs
unfolding pending keep
pending-start [] = refl
pending-start (x ∷ xs) = omega (arith, pending-start xs)

module _ (dependents deps : String → List String) (names : List String)
    (mirror : (n x : String) → count n (dependents x) ≡ count x (deps n))
    (known : (x : String) → All (λ d. contains names d ≡ true) (dependents x)) where
  -- The edges into a name that are still to be dropped; `left` are those of the current turn.
  abbrev pub left_of : List String → List String → String → ℕ
  left_of done left n = pending done (deps n) + count n left

  pub record IsState (done left ready : List String) (indegree : String → ℤ) : Type 0 where
    pub counts : (n : String) → indegree n ≡ pos (left_of done left n)
    pub once : NoRepeat ready
    pub free :
        (n : String)
        → contains ready n ≡ true
        → (left_of done left n ≡ 0) × (contains done n ≡ false)
    pub finished : (n : String) → contains done n ≡ true → left_of done left n ≡ 0
    pub named : (n : String) → contains ready n ≡ true → contains names n ≡ true

  drop-counts :
      (done : List String) (d : String) (left ready : List String) (indegree : String → ℤ)
      → IsState done (d ∷ left) ready indegree
      → (n : String) → drop_edge d indegree n ≡ pos (left_of done left n)
  unfolding drop_edge count
  drop-counts done d left ready indegree s n = elim (Bool-cases (n == d)) [
    | inl same ↦
        rw (same, s.counts n)
          (previous-suc (left_of done (d ∷ left) n) (left_of done left n)
            (ground (arith, eq_iff n d, eq_iff d n)))
    | inr other ↦ rw (other, s.counts n) (ap pos (ground (arith, eq_iff n d, eq_iff d n)))
  ]

  pub drop-IsState :
      (done : List String) (d : String) (left ready : List String) (indegree : String → ℤ)
      → IsState done (d ∷ left) ready indegree
      → IsState done left ready (drop_edge d indegree)
  unfolding count
  drop-IsState done d left ready indegree s = record {
    counts = drop-counts done d left ready indegree s;
    once = s.once;
    free = λ n here. (omega (arith, (s.free n here).0), (s.free n here).1);
    finished = λ n here. omega (arith, s.finished n here);
    named = s.named;
  }

  -- A name with an edge to drop is neither ready nor done.
  pub is_new :
      (done : List String) (d : String) (left ready : List String) (indegree : String → ℤ)
      → IsState done (d ∷ left) ready indegree
      → (contains ready d ≡ false) × (contains done d ≡ false)
  unfolding count
  is_new done d left ready indegree s =
      (ground (arith, s.free d, eq_iff d d), ground (arith, s.finished d, eq_iff d d))

  pub push-IsState :
      (done : List String) (d : String) (left ready : List String) (indegree : String → ℤ)
      → IsState done left ready indegree
      → indegree d ≡ pos 0
      → (contains ready d ≡ false) × (contains done d ≡ false)
      → contains names d ≡ true
      → IsState done left (ready ++ d ∷ []) indegree
  push-IsState done d left ready indegree s last new named =
      let size = ap pos_part (sym (s.counts d) ∙ last) in
      record {
        counts = s.counts;
        once = NoRepeat-append_one ready d s.once new.0;
        free = λ n here. elim (Bool-cases (d == n)) [
          | inl same ↦
              subst (λ (x : String). (left_of done left x ≡ 0) × (contains done x ≡ false))
                ((eq_iff d n).0 same) ((size, new.1))
          | inr other ↦ s.free n (ground (arith, contains-append ready (d ∷ []) n, here, other))
        ];
        finished = s.finished;
        named = λ n here. elim (Bool-cases (d == n)) [
          | inl same ↦ subst (λ (x : String). contains names x ≡ true) ((eq_iff d n).0 same) named
          | inr other ↦ s.named n (ground (arith, contains-append ready (d ∷ []) n, here, other))
        ];
      }

  pub release-IsState :
      (done left ready : List String) (indegree : String → ℤ)
      → All (λ d. contains names d ≡ true) left
      → IsState done left ready indegree
      → IsState done [] (release left indegree ready).1 (release left indegree ready).0
  unfolding release
  release-IsState done [] ready indegree all s = s
  release-IsState done (d ∷ left) ready indegree all s =
      let less = drop-IsState done d left ready indegree s in
      elim (Bool-cases (drop_edge d indegree d == pos 0)) [
        | inl last ↦ rw (release-last d left indegree ready last) (
            release-IsState done left (ready ++ d ∷ []) (drop_edge d indegree) all.1 (
              push-IsState done d left ready (drop_edge d indegree) less ((int_beq_iff _ _).0 last)
                (is_new done d left ready indegree s) all.0))
        | inr waits ↦
            rw (release-waits d left indegree ready waits)
              (release-IsState done left ready (drop_edge d indegree) all.1 less)
      ]

  pub same_left :
      (done : List String) (name : String)
      → contains done name ≡ false
      → (n : String)
      → left_of (name ∷ done) (sort text_before (dependents name)) n ≡ left_of done [] n
  unfolding count
  same_left done name new n =
      omega
        (arith, pending-done name done (deps n) new, count-sort n (dependents name), mirror n name)

  -- The name that is taken was ready.
  pub first-free :
      (done ready : List String) (indegree : String → ℤ) (name : String) (rest : List String)
      → sort text_before ready ≡ name ∷ rest
      → IsState done [] ready indegree
      → (left_of done [] name ≡ 0) × ((contains done name ≡ false) × (contains names name ≡ true))
  first-free done ready indegree name rest e s =
      let here =
        sym (contains-sort text_before ready name)
        ∙ (ap (λ (xs : List String). contains xs name) e ∙ ground (arith, eq_iff name name)) in
      ((s.free name here).0, ((s.free name here).1, s.named name here))

  -- The least name is taken.
  pub take-IsState :
      (done ready : List String) (indegree : String → ℤ) (name : String) (rest : List String)
      → sort text_before ready ≡ name ∷ rest
      → IsState done [] ready indegree
      → IsState (name ∷ done) (sort text_before (dependents name)) rest indegree
  take-IsState done ready indegree name rest e s =
      let there = λ (n : String).
        sym (contains-sort text_before ready n) ∙ ap (λ (xs : List String). contains xs n) e in
      let once = subst NoRepeat e (NoRepeat-sort text_before ready s.once) in
      let first = first-free done ready indegree name rest e s in
      let same = same_left done name first.1.0 in
      record {
        counts = λ n. s.counts n ∙ ap pos (sym (same n));
        once = once.1;
        free = λ n here. (
          same n ∙ (s.free n (there n ∙ ground (arith, here))).0,
          ground
              (arith, (s.free n (there n ∙ ground (arith, here))).1, once.0, here, eq_iff name n),
        );
        finished = λ n here. same n ∙ elim (Bool-cases (name == n)) [
          | inl is ↦ subst (λ (x : String). left_of done [] x ≡ 0) ((eq_iff name n).0 is) first.0
          | inr other ↦ s.finished n (ground (arith, here, other))
        ];
        named = λ n here. s.named n (there n ∙ ground (arith, here));
      }

  pub initial-IsState :
      (ready : List String) (indegree : String → ℤ)
      → ((n : String) → indegree n ≡ pos (length (deps n)))
      → NoRepeat ready
      → ((n : String) → contains ready n ≡ (contains names n && (indegree n == pos 0)))
      → IsState [] [] ready indegree
  unfolding count
  initial-IsState ready indegree counts once chosen = record {
    counts = λ n. counts n ∙ ap pos (omega (arith, pending-start (deps n)));
    once = once;
    free = λ n here. (
      (let none_left = (int_beq_iff (indegree n) (pos 0)).0 (ground (arith, chosen n, here)) in
          let size = ap pos_part (sym (counts n) ∙ none_left) in
          omega (arith, size, pending-start (deps n))),
      refl,
    );
    finished = λ n here. cc;
    named = λ n here. ground (arith, chosen n, here);
  }
