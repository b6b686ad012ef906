-- ===== src/Health/Collector/Workers/Ends.antt =====
-- controlplane/internal/health/collector.go: the workers of Collect finish, and Wait returns.
use vcpe.Common.{
  false, ltb→lt, length-append, ltb, refl, Bool-cases, ap, inl, inr, suc, nat_eq, ◌++◌, true, ◌+◌,
  ◌-◌, ◌∷◌, ◌⊎◌, arith, if◌then◌else◌, length, ◌≤◌, [], ◌*◌, ◌<◌, ◌≡◌, ℕ, List,
}
use vcpe.Health.Collector.Workers.{
  Pool, Step, take, finish, close, leave, wait, Reach, here, later, steps, start, worker_count,
}

list_cases {ℓ} : {A : Type ℓ} (l : List A) → (l ≡ []) ⊎ ((x : A) × (rest : List A) × (l ≡ x ∷ rest))
list_cases [] = inl refl
list_cases (x ∷ l) = inr (x, l, refl)

worker_count-some : (c n : ℕ) → 0 < c → 0 < n → 0 < worker_count c n
unfolding worker_count
worker_count-some c n some_worker some_target = ground (arith, some_worker, some_target)

module _ {ℓ κ} {A : Type ℓ} {B : Type κ} (f : A → B) (targets : List A) (concurrency : ℕ) where
  abbrev workers : ℕ
  workers = worker_count concurrency (length targets)

  -- A worker leaves only when the channel is closed, which is when all indices are handed out; and Wait
  -- returns only when all workers have left.
  record IsSound (p : Pool f targets concurrency) : Type 0 where
    bound : p.next ≤ length targets
    room : length p.held + p.exited ≤ workers
    order : ((p.closed ≡ false) × (p.exited ≡ 0)) ⊎ ((p.closed ≡ true) × (p.next ≡ length targets))
    waited : (p.returned ≡ false) ⊎ ((p.returned ≡ true) × (p.closed ≡ true) × (p.exited ≡ workers))

  -- How many steps are left.
  abbrev left : Pool f targets concurrency → ℕ
  left p =
      2 * (length targets - p.next)
      + length p.held
      + (if p.closed then 0 else 1)
      + (workers - p.exited)
      + (if p.returned then 0 else 1)

  finish-size :
      (held front back : List ℕ) (i : ℕ)
      → held ≡ front ++ i ∷ back
      → length held ≡ suc (length (front ++ back))
  finish-size held front back i e =
      let size : length held ≡ length (front ++ i ∷ back) = ap (λ (l : List ℕ). length l) e in
      omega (arith, size, length-append front (i ∷ back), length-append front back)

  Step-IsSound :
      {p q : Pool f targets concurrency} → Step f targets concurrency p q → IsSound p → IsSound q
  Step-IsSound {p} (take unclosed more idle) s = record {
    bound = omega arith;
    room = omega (arith, idle);
    order = elim s.order [ inl early ↦ inl early | inr late ↦ cc ];
    waited = elim s.waited [ inl waits ↦ inl waits | inr gone ↦ inr gone ];
  }
  Step-IsSound {p} (finish front back i e) s = record {
    bound = s.bound;
    room = omega (arith, s.room, finish-size p.held front back i e);
    order = s.order;
    waited = s.waited;
  }
  Step-IsSound {p} (close unclosed all) s = record {
    bound = s.bound;
    room = s.room;
    order = inr (refl, all);
    waited = elim s.waited [ inl waits ↦ inl waits | inr gone ↦ cc ];
  }
  Step-IsSound {p} (leave closed idle) s = record {
    bound = s.bound;
    room = omega (arith, idle);
    order = elim s.order [ inl early ↦ cc | inr late ↦ inr late ];
    waited = elim s.waited [
      | inl waits ↦ inl waits
      | inr (done, shut, gone) ↦ absurd (omega (arith, idle, gone))
    ];
  }
  Step-IsSound {p} (wait closed gone waits) s = record {
    bound = s.bound;
    room = s.room;
    order = s.order;
    waited = inr (refl, closed, gone);
  }

  start-IsSound : IsSound (start f targets concurrency)
  start-IsSound = record {
    bound = omega arith;
    room = omega arith;
    order = inl (refl, refl);
    waited = inl refl;
  }

  Reach-IsSound :
      {p : Pool f targets concurrency}
      → Reach f targets concurrency (start f targets concurrency) p
      → IsSound p
  Reach-IsSound here = start-IsSound
  Reach-IsSound (later r step) = Step-IsSound step (Reach-IsSound r)

  -- Each step brings the end nearer by one.
  Step-left :
      {p q : Pool f targets concurrency}
      → IsSound p
      → Step f targets concurrency p q
      → left p ≡ suc (left q)
  Step-left {p} s (take unclosed more idle) = omega arith
  Step-left {p} s (finish front back i e) = omega (arith, finish-size p.held front back i e)
  Step-left {p} s (close unclosed all) = rw unclosed (omega arith)
  Step-left {p} s (leave closed idle) = omega (arith, idle)
  Step-left {p} s (wait closed gone waits) = rw waits (omega arith)

  Reach-steps :
      {p : Pool f targets concurrency}
      → (r : Reach f targets concurrency (start f targets concurrency) p)
      → steps f targets concurrency r + left p ≡ left (start f targets concurrency)
  unfolding steps
  Reach-steps here = omega arith
  Reach-steps (later r step) = omega (arith, Reach-steps r, Step-left (Reach-IsSound r) step)

  idle-exists :
      (p : Pool f targets concurrency)
      → IsSound p
      → 0 < concurrency
      → p.held ≡ []
      → p.returned ≡ false
      → (q : Pool f targets concurrency) × Step f targets concurrency p q
  idle-exists p s some_worker idle waits =
      let none_held : length p.held ≡ 0 = ap (λ (l : List ℕ). length l) idle in
      elim s.order [
        | inl (unclosed, stayed) ↦ elim (Bool-cases (ltb p.next (length targets))) [
          | inl more ↦
              let some_room =
                worker_count-some concurrency (length targets) some_worker (ground (arith, more)) in
              (_, take unclosed (ltb→lt _ _ more) (omega (arith, none_held, stayed, some_room)))
          | inr all ↦ (_, close unclosed (ground (arith, all, s.bound)))
        ]
        | inr (closed, all) ↦ elim (Bool-cases (ltb p.exited workers)) [
          | inl more ↦ (_, leave closed (omega (arith, none_held, ltb→lt _ _ more)))
          | inr gone ↦ (_, wait closed (ground (arith, gone, s.room, none_held)) waits)
        ]
      ]

  -- With a worker, every pool that the steps reach from the start has returned, with all indices handed
  -- out and none held, or has a further step: it cannot deadlock. And it is reached by no more than two
  -- steps for each target, one for each worker and two more.
  pub Reach-ends :
      {p : Pool f targets concurrency}
      (r : Reach f targets concurrency (start f targets concurrency) p)
      → 0 < concurrency
      → (((p.returned ≡ true) × (p.next ≡ length targets) × (p.held ≡ []))
          ⊎ ((q : Pool f targets concurrency) × Step f targets concurrency p q))
        × (steps f targets concurrency r
            ≤ 2 * length targets + worker_count concurrency (length targets) + 2)
  Reach-ends {p} r some_worker =
      let s = Reach-IsSound r in
      (
        elim (list_cases p.held) [
          | inr (i, back, e) ↦ inr (_, finish [] back i e)
          | inl idle ↦ elim s.waited [
            | inl waits ↦ inr (idle-exists p s some_worker idle waits)
            | inr (done, closed, gone) ↦ elim s.order [
              | inl early ↦ cc
              | inr late ↦ inl (done, late.1, idle)
            ]
          ]
        ],
        omega (arith, Reach-steps r),
      )
