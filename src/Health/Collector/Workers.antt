-- ===== src/Health/Collector/Workers.antt =====
-- controlplane/internal/health/collector.go: the worker goroutines of Collect. The feeding loop hands
-- each index to an idle worker, in order, and then closes the channel; a worker writes its slot and is
-- idle again, and leaves its loop when it is idle on the closed channel; Wait returns when all have
-- left. Steps of different workers may come in any order.
pub mod Ends
use vcpe.Common.{
  Bool, false, contains-append, nat_beq_iff, ltb, nat_beq, refl, subst, Bool-cases, ap, inl, inr,
  zero, suc, nat_eq, some, ◌++◌, true, ◌+◌, ◌==◌, ◌∷◌, ◌⊎◌, arith, contains, if◌then◌else◌, length,
  none, Option, [], ◌<◌, ◌≡◌, ℕ, List,
}

-- The slot for each index of the targets.
abbrev pub slot_of {ℓ κ} : {A : Type ℓ} {B : Type κ} → (A → B) → List A → ℕ → Option B
slot_of f [] i = none
slot_of f (x ∷ xs) zero = some (f x)
slot_of f (x ∷ xs) (suc i) = slot_of f xs i

-- As many workers as the collector is made with, but not more than targets.
unfoldable pub worker_count : ℕ → ℕ → ℕ
worker_count concurrency targets = if ltb targets concurrency then targets else concurrency

module _ {ℓ κ} {A : Type ℓ} {B : Type κ} (f : A → B) (targets : List A) (concurrency : ℕ) where
  abbrev workers : ℕ
  workers = worker_count concurrency (length targets)

  -- The next index to hand out, whether the channel is closed, the indices that workers hold, how many
  -- workers have left, whether Wait has returned, and the slots.
  pub record Pool : Type κ where
    pub next : ℕ
    pub closed : Bool
    pub held : List ℕ
    pub exited : ℕ
    pub returned : Bool
    pub slots : ℕ → Option B

  abbrev pub write : ℕ → (ℕ → Option B) → ℕ → Option B
  write i slots j = if i == j then slot_of f targets i else slots j

  pub data Step (p : Pool) : Pool → Type (ℓ ⊔ κ) where
    take :
        p.closed ≡ false
        → p.next < length targets
        → length p.held + p.exited < workers
        → Step p (record p { next = p.next + 1; held = p.next ∷ p.held })
    finish :
        (front back : List ℕ) (i : ℕ)
        → p.held ≡ front ++ i ∷ back
        → Step p (record p { held = front ++ back; slots = write i p.slots })
    close : p.closed ≡ false → p.next ≡ length targets → Step p (record p { closed = true })
    leave :
        p.closed ≡ true
        → length p.held + p.exited < workers
        → Step p (record p { exited = p.exited + 1 })
    wait :
        p.closed ≡ true
        → p.exited ≡ workers
        → p.returned ≡ false
        → Step p (record p { returned = true })

  pub data Reach (p : Pool) : Pool → Type (ℓ ⊔ κ) where
    here : Reach p p
    later : {q r : Pool} → Reach p q → Step q r → Reach p r

  unfoldable pub steps : {p q : Pool} → Reach p q → ℕ
  steps here = 0
  steps (later r step) = suc (steps r)

  abbrev pub start : Pool
  start = record {
    next = 0;
    closed = false;
    held = [];
    exited = 0;
    returned = false;
    slots = λ i. none;
  }

  -- An index that was handed out is held or written.
  abbrev IsServed : Pool → Type κ
  IsServed p = (i : ℕ) → i < p.next → (contains p.held i ≡ true) ⊎ (p.slots i ≡ slot_of f targets i)

  Step-IsServed : {p q : Pool} → Step p q → IsServed p → IsServed q
  Step-IsServed {p} (take unclosed room idle) s i below = elim (Bool-cases (nat_beq p.next i)) [
    | inl same ↦ inl (rw same refl)
    | inr other ↦ elim (s i (ground (arith, other, below))) [
      | inl held ↦ inl (rw other held)
      | inr written ↦ inr written
    ]
  ]
  Step-IsServed {p} (finish front back j e) s i below = elim (Bool-cases (nat_beq j i)) [
    | inl same ↦ inr (rw same (ap (slot_of f targets) ((nat_beq_iff j i).0 same)))
    | inr other ↦ elim (s i below) [
      | inl held ↦
          let here = subst (λ (l : List ℕ). contains l i ≡ true) e held in
          inl (
            ground (
              arith,
              contains-append front (j ∷ back) i,
              contains-append front back i,
              other,
              here,
            ))
      | inr written ↦ inr (rw other written)
    ]
  ]
  Step-IsServed (close unclosed all) s i below = s i below
  Step-IsServed (leave closed idle) s i below = s i below
  Step-IsServed (wait closed gone waits) s i below = s i below

  Reach-IsServed : {p q : Pool} → Reach p q → IsServed p → IsServed q
  Reach-IsServed here s = s
  Reach-IsServed (later r step) s = Step-IsServed step (Reach-IsServed r s)

  -- However the steps interleave, once all indices are handed out and no worker holds one, each slot has
  -- what the loop without workers writes there.
  pub Reach-slots :
      {p : Pool}
      → Reach start p
      → p.next ≡ length targets
      → p.held ≡ []
      → (i : ℕ) → i < length targets
      → p.slots i ≡ slot_of f targets i
  Reach-slots {p} r all idle i below =
      elim (Reach-IsServed r (λ j none_yet. absurd (omega arith)) i (omega (arith, all, below))) [
        | inl held ↦ cc (subst (λ (l : List ℕ). contains l i ≡ true) idle held)
        | inr written ↦ written
      ]
