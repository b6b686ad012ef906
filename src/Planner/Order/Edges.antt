-- ===== src/Planner/Order/Edges.antt =====
-- controlplane/internal/planner/planner.go: the maps that orderServices builds, by the dependencies of a name.
use vcpe.Manifest.Validate.{service_names, dependencies}
use vcpe.Common.{
  ◌<◌, All, true, length-append, ap, ◌∙◌, inr, eq_iff, inl, refl, Bool-cases, [], string_eq, arith,
  false, length, ◌==◌, contains, if◌then◌else◌, ◌+◌, ◌∷◌, ℕ, ◌++◌, ◌≡◌, List, String,
}
use vcpe.Planner.Order.{no_edges, add_edge, Graph, count_edge, add_edges, build_graph}
use vcpe.Common.Int.{ℤ, pos}
use vcpe.Common.Sort.{text_before, insert, sort}
use vcpe.Manifest.{Service}

-- How often a text stands in a list.
unfoldable pub count : String → List String → ℕ
count a [] = 0
count a (x ∷ xs) = (if x == a then 1 else 0) + count a xs

pub count-append : (a : String) (xs ys : List String) → count a (xs ++ ys) ≡ count a xs + count a ys
unfolding count
count-append a [] ys = omega arith
count-append a (x ∷ xs) ys = omega (arith, count-append a xs ys)

pub count-none : (a : String) (xs : List String) → count a xs ≡ 0 → contains xs a ≡ false
unfolding count
count-none a [] h = refl
count-none a (x ∷ xs) h = ground (arith, count-none a xs)

count-insert :
    (a x : String) (ys : List String)
    → count a (insert text_before x ys) ≡ (if x == a then 1 else 0) + count a ys
unfolding insert count
count-insert a x [] = refl
count-insert a x (y ∷ ys) = ground (arith, count-insert a x ys)

pub count-sort : (a : String) (xs : List String) → count a (sort text_before xs) ≡ count a xs
unfolding sort count
count-sort a [] = refl
count-sort a (x ∷ xs) = omega (arith, count-insert a x (sort text_before xs), count-sort a xs)

count_edge-lem :
    (name n : String) (indegree : String → ℤ) (k : ℕ)
    → indegree n ≡ pos k
    → count_edge name indegree n ≡ pos (k + (if name == n then 1 else 0))
unfolding count_edge
count_edge-lem name n indegree k h = elim (Bool-cases (n == name)) [
  | inl same ↦
      rw (same, (eq_iff n name).0 same, (eq_iff name name).1 refl, ← (eq_iff n name).0 same, h)
        (ap pos (omega arith))
  | inr other ↦ rw (other, h) (ap pos (ground (arith, eq_iff n name, eq_iff name n)))
]

add_edges-indegree :
    (name n : String) (deps : List String) (g : Graph) (k : ℕ)
    → g.indegree n ≡ pos k
    → (add_edges name deps g).indegree n ≡ pos (k + (if name == n then length deps else 0))
unfolding add_edges add_edge
add_edges-indegree name n [] g k h = h ∙ ap pos (ground arith)
add_edges-indegree name n (dep ∷ deps) g k h =
    add_edges-indegree name n deps (add_edge name dep g) (k + (if name == n then 1 else 0))
      (count_edge-lem name n g.indegree k h)
    ∙ ap pos (ground arith)

add_edges-dependents :
    (name n x : String) (deps : List String) (g : Graph)
    → count n ((add_edges name deps g).dependents x)
      ≡ count n (g.dependents x) + (if name == n then count x deps else 0)
unfolding add_edges count add_edge
add_edges-dependents name n x [] g = ground arith
add_edges-dependents name n x (dep ∷ deps) g = ground (
  arith,
  add_edges-dependents name n x deps (add_edge name dep g),
  count-append n (g.dependents x) (name ∷ []),
  eq_iff x dep,
  eq_iff dep x,
)

pub build_graph-indegree :
    (services : List Service) (n : String) (g : Graph) (k : ℕ)
    → g.indegree n ≡ pos k
    → (build_graph services g).indegree n ≡ pos (k + length (dependencies services n))
unfolding build_graph dependencies
build_graph-indegree [] n g k h = h ∙ ap pos (omega arith)
build_graph-indegree (svc ∷ services) n g k h =
    build_graph-indegree services n (add_edges svc.name svc.depends_on g) _
      (add_edges-indegree svc.name n svc.depends_on g k h)
    ∙ ap pos (ground (arith, length-append svc.depends_on (dependencies services n)))

pub build_graph-dependents :
    (services : List Service) (n x : String) (g : Graph)
    → count n ((build_graph services g).dependents x)
      ≡ count n (g.dependents x) + count x (dependencies services n)
unfolding build_graph dependencies count
build_graph-dependents [] n x g = omega arith
build_graph-dependents (svc ∷ services) n x g = ground (
  arith,
  build_graph-dependents services n x (add_edges svc.name svc.depends_on g),
  add_edges-dependents svc.name n x svc.depends_on g,
  count-append x svc.depends_on (dependencies services n),
)

dependencies-known :
    (services : List Service) (n : String)
    → contains (service_names services) n ≡ false
    → dependencies services n ≡ []
unfolding dependencies
dependencies-known [] n h = refl
dependencies-known (svc ∷ services) n h = ground (arith, dependencies-known services n)

count-some : (a : String) (xs : List String) → contains xs a ≡ true → 0 < count a xs
unfolding count
count-some a [] h = cc
count-some a (x ∷ xs) h = ground (arith, count-some a xs)

pub contains→All :
    (P : String → Type 0) (xs : List String)
    → ((x : String) → contains xs x ≡ true → P x)
    → All P xs
contains→All P [] f = tt
contains→All P (x ∷ xs) f =
    (f x (ground (arith, eq_iff x x)), contains→All P xs (λ y here. f y (ground (arith, here))))

-- The graph has an edge from `x` to a name for each time that a service with the name depends on `x`.
pub dependents-count :
    (services : List Service) (n x : String)
    → count n ((build_graph services no_edges).dependents x) ≡ count x (dependencies services n)
unfolding count
dependents-count services n x = omega (arith, build_graph-dependents services n x no_edges)

-- Only services depend on a name.
pub dependents-known :
    (services : List Service) (x : String)
    → All
        (λ d. contains (service_names services) d ≡ true)
        ((build_graph services no_edges).dependents x)
unfolding count
dependents-known services x = contains→All _ _ (λ d here.
    elim (Bool-cases (contains (service_names services) d)) [
      | inl known ↦ known
      | inr unknown ↦
          let some_edge = count-some d ((build_graph services no_edges).dependents x) here in
          let no_edge = ap (count x) (dependencies-known services d unknown) in
          absurd (omega (arith, some_edge, no_edge, dependents-count services d x))
    ])
