-- ===== src/Planner/Order/Started.antt =====
-- controlplane/internal/planner/planner.go: what orderServices returns.
use vcpe.Common.{
  ◌&&◌, Bool, nat_beq_iff, nat_eq, contains-keep, NoRepeat-keep, ap, ◌∙◌, keep, Option-cases,
  length, sym, NoRepeat, subst, eq_iff, inr, contains-append, arith, if◌then◌else◌, ◌||◌, inl, refl,
  ◌==◌, Bool-cases, [], false, none, string_eq, some, true, All, contains, ◌≡◌, Option, ◌∷◌, String,
  List,
}
use vcpe.Manifest.Validate.{service_names, dependencies}
use vcpe.Planner.Order.Sound.{IsState, initial-IsState}
use vcpe.Planner.Order.Runs.{start_order-lem, InOrder}
use vcpe.Planner.Order.Ends.{length-service_names}
use vcpe.Common.Int.{int_eq, pos}
use vcpe.Common.Sort.{contains-sort, NoRepeat-sort, text_before, sort}
use vcpe.Planner.Order.Edges.{
  build_graph-indegree, dependents-known, dependents-count, contains→All,
}
use vcpe.Common.Result.{ok-injective, ok}
use vcpe.Planner.Order.{start_names, no_edges, build_graph, order_services, by_name, named}
use vcpe.Manifest.{Service}

-- Each service depends on services in front of it only, by their names.
abbrev pub StartsAfter : List String → List Service → Type 0
StartsAfter done [] = Unit
StartsAfter done (svc ∷ services) =
    All (λ d. contains done d ≡ true) svc.depends_on × StartsAfter (svc.name ∷ done) services

pub All-contains :
    (P : String → Type 0) (xs : List String) → All P xs → (x : String) → contains xs x ≡ true → P x
All-contains P [] all x here = cc
All-contains P (y ∷ xs) all x here = elim (Bool-cases (y == x)) [
  | inl same ↦ subst P ((eq_iff y x).0 same) all.0
  | inr other ↦ All-contains P xs all.1 x (ground (arith, here, other))
]

by_name-none :
    (name : String) (services : List Service) (found : Option Service)
    → contains (service_names services) name ≡ false
    → by_name name services found ≡ found
unfolding by_name
by_name-none name [] found h = refl
by_name-none name (svc ∷ services) found h =
    rw (show_ne h) (by_name-none name services found (ground (arith, h)))
  where
    show_ne :
        (svc.name == name || contains (service_names services) name) ≡ false
        → (svc.name == name) ≡ false
    show_ne h = ground arith

-- A service that the code finds has the name, and its dependencies are among those of the name.
record IsFound (services : List Service) (name : String) (found : Option Service) : Type 0 where
  svc : Service
  is_found : found ≡ some svc
  same_name : svc.name ≡ name
  of_name :
      (d : String)
      → contains svc.depends_on d ≡ true
      → contains (dependencies services name) d ≡ true

by_name-IsFound :
    (name : String) (services : List Service) (found : Option Service)
    → contains (service_names services) name ≡ true
    → IsFound services name (by_name name services found)
unfolding by_name dependencies
by_name-IsFound name [] found h = cc
by_name-IsFound name (svc ∷ services) found h =
    elim (Bool-cases (contains (service_names services) name)) [
      | inl later ↦
          let f =
            by_name-IsFound name services (if svc.name == name then some svc else found) later in
          record {
            svc = f.svc;
            is_found = f.is_found;
            same_name = f.same_name;
            of_name = λ d here. ground (
              arith,
              f.of_name d here,
              contains-append svc.depends_on (dependencies services name) d,
            );
          }
      | inr last ↦
          let here : (svc.name == name) ≡ true = ground (arith, h, last) in
          record {
            svc = svc;
            is_found = rw here (by_name-none name services (some svc) last);
            same_name = (eq_iff svc.name name).0 here;
            of_name = λ d dep.
                ground
                  (arith, here, dep, contains-append svc.depends_on (dependencies services name) d);
          }
    ]

named-found :
    (services : List Service) (n : String) (names : List String) (svc : Service)
    → by_name n services none ≡ some svc
    → named services (n ∷ names) ≡ svc ∷ named services names
unfolding named
named-found services n names svc e = rw (named, e) refl

named-StartsAfter :
    (services : List Service) (done names : List String)
    → InOrder (dependencies services) done names
    → All (λ n. contains (service_names services) n ≡ true) names
    → StartsAfter done (named services names) × (service_names (named services names) ≡ names)
unfolding named
named-StartsAfter services done [] o known = (tt, refl)
named-StartsAfter services done (n ∷ names) o known =
    let f = by_name-IsFound n services none known.0 in
    let rest = named-StartsAfter services (n ∷ done) names o.1 known.1 in
    rw (named-found services n names f.svc f.is_found) (
      (
        contains→All _ f.svc.depends_on (λ d dep.
            All-contains (λ x. contains done x ≡ true) (dependencies services n) o.0 d
              (f.of_name d dep)),
        subst (λ (x : String). StartsAfter (x ∷ done) (named services names)) (sym f.same_name)
            rest.0,
      ),
      rw (f.same_name, rest.1) refl,
    )

-- What the loop starts from.
pub start-IsState :
    (services : List Service)
    → NoRepeat (service_names services)
    → (let g = build_graph services no_edges in
        IsState g.dependents
          (dependencies services)
          (service_names services)
          (dependents-count services)
          (dependents-known services)
          []
          []
          (keep (λ n. g.indegree n == pos 0) (sort text_before (service_names services)))
          g.indegree)
start-IsState services once =
    let g = build_graph services no_edges in
    let names = sort text_before (service_names services) in
    let first = λ (n : String). g.indegree n == pos 0 in
    initial-IsState g.dependents (dependencies services) (service_names services)
      (dependents-count services) (dependents-known services) (keep first names) g.indegree
      (λ n. build_graph-indegree services n no_edges 0 refl ∙ ap pos (omega arith))
      (NoRepeat-keep first names (NoRepeat-sort text_before (service_names services) once))
      (λ n.
        contains-keep first names n
        ∙ ap (λ (b : Bool). b && first n) (contains-sort text_before (service_names services) n))

pub start_names-InOrder :
    (services : List Service) (result : List String)
    → NoRepeat (service_names services)
    → start_names services ≡ some result
    → InOrder (dependencies services) [] result
      × (NoRepeat result × All (λ n. contains (service_names services) n ≡ true) result)
unfolding start_names
start_names-InOrder services result once run =
    let g = build_graph services no_edges in
    start_order-lem g.dependents (dependencies services) (service_names services)
      (dependents-count services) (dependents-known services) (length services)
      (keep (λ n. g.indegree n == pos 0) (sort text_before (service_names services))) g.indegree
      result (start-IsState services once) run

-- An order of exactly the services, by their names, in which each one stands behind those it depends on.
abbrev pub IsStartOrder : List Service → List Service → Type 0
IsStartOrder services ordered =
    StartsAfter [] ordered
    × NoRepeat (service_names ordered)
    × All (λ n. contains (service_names services) n ≡ true) (service_names ordered)
    × (length ordered ≡ length services)

-- When the names of the services are distinct and orderServices returns an order, then each service stands behind all the services
-- that it depends on, and the order has exactly the given number of services, with distinct names of the given ones.
pub order_services-ok :
    (services ordered : List Service)
    → NoRepeat (service_names services)
    → order_services services ≡ ok ordered
    → IsStartOrder services ordered
unfolding order_services
order_services-ok services ordered once h = elim (Option-cases (start_names services)) [
  | inl out ↦ cc (simp (order_services, out) at h)
  | inr (names, run) ↦ elim (Bool-cases (length names == length services)) [
    | inr some_left ↦ cc (simp (order_services, run, some_left) at h)
    | inl full ↦
        let same = ok-injective _ _ (simp (order_services, run, full) at h) in
        let (follows, (distinct, known)) = start_names-InOrder services names once run in
        let (after, shape) = named-StartsAfter services [] names follows known in
        let size =
          sym (length-service_names (named services names))
          ∙ (ap length shape ∙ (nat_beq_iff _ _).0 full) in
        subst (λ (o : List Service). IsStartOrder services o) same
          (rw shape (after, distinct, known, size))
  ]
]
