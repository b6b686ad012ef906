-- ===== src/Planner/Order/Steps.antt =====
-- controlplane/internal/planner/planner.go: the turns of the two loops of orderServices, as equations.
use vcpe.Common.{
  ap, arith, Option, refl, ◌++◌, false, inr, true, zero, inl, none, some, suc, ◌==◌, ◌∷◌, ◌⊎◌, [],
  ℕ, String, ◌≡◌, List,
}
use vcpe.Planner.Replicas.{previous}
use vcpe.Common.Int.{int_eq, pos, ℤ}
use vcpe.Planner.Order.{in_front, drop_edge, release, start_order}
use vcpe.Common.Sort.{text_before, sort}

pub release-last :
    (d : String) (deps : List String) (indegree : String → ℤ) (ready : List String)
    → (drop_edge d indegree d == pos 0) ≡ true
    → release (d ∷ deps) indegree ready ≡ release deps (drop_edge d indegree) (ready ++ d ∷ [])
unfolding release
release-last d deps indegree ready last = rw last refl

pub release-waits :
    (d : String) (deps : List String) (indegree : String → ℤ) (ready : List String)
    → (drop_edge d indegree d == pos 0) ≡ false
    → release (d ∷ deps) indegree ready ≡ release deps (drop_edge d indegree) ready
unfolding release
release-waits d deps indegree ready waits = rw waits refl

pub start_order-end :
    (dependents : String → List String) (fuel : ℕ) (indegree : String → ℤ) (ready : List String)
    → sort text_before ready ≡ []
    → start_order dependents fuel indegree ready ≡ some []
unfolding start_order
start_order-end dependents zero indegree ready e = rw (start_order, e) refl
start_order-end dependents (suc fuel) indegree ready e = rw (start_order, e) refl

pub start_order-turn :
    (dependents : String → List String) (fuel : ℕ) (indegree : String → ℤ) (ready : List String)
    → {name : String} {rest : List String} → sort text_before ready ≡ name ∷ rest
    → start_order dependents (suc fuel) indegree ready ≡ (
        let step = release (sort text_before (dependents name)) indegree rest in
        in_front name (start_order dependents fuel step.0 step.1))
unfolding start_order
start_order-turn dependents fuel indegree ready e = rw (start_order, e) refl

-- Without fuel no turn is left.
pub start_order-stops :
    (dependents : String → List String) (indegree : String → ℤ) (ready : List String)
    → {name : String} {rest : List String} → sort text_before ready ≡ name ∷ rest
    → start_order dependents 0 indegree ready ≡ none
unfolding start_order
start_order-stops dependents indegree ready e = rw (start_order, e) refl

pub List-cases {ℓ} :
    {A : Type ℓ} (xs : List A) → (xs ≡ []) ⊎ ((x : A) × ((ys : List A) × (xs ≡ x ∷ ys)))
List-cases [] = inl refl
List-cases (x ∷ xs) = inr (x, (xs, refl))

pub in_front-some :
    (name : String) (o : Option (List String)) (result : List String)
    → in_front name o ≡ some result
    → (later : List String) × ((o ≡ some later) × (result ≡ name ∷ later))
in_front-some name none result h = cc
in_front-some name (some later) result h = (later, (refl, cc))

pub some-injective : (xs ys : List String) → some xs ≡ some ys → xs ≡ ys
some-injective xs ys h = cc

pub previous-suc : (a b : ℕ) → a ≡ suc b → previous (pos a) ≡ pos b
previous-suc zero b h = absurd (omega arith)
previous-suc (suc a) b h = ap pos (omega arith)
