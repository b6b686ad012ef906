-- ===== src/Ipam/Allocate/Distinct.antt =====
-- controlplane/internal/ipam/store.go: what AllocateInterfaces does to a whole plan.
use vcpe.Common.{
  string_eq, ◌==◌, Bool-cases, inr, inl, none, Option-cases, subst, refl, [], ◌++◌, ◌≡◌, String,
  ◌∷◌, List,
}
use vcpe.Common.Result.{>>=-ok, ok-injective, ok}
use vcpe.Plan.{Network, Interface, Instance, Service}
use vcpe.Ipam.Allocate.{
  Texts, Books, allocate_interface, allocate_list, allocate_instances, allocate_services, addr_eq,
  find_last, fill,
}
use vcpe.Ipam.Allocate.Handed.{Hands, Hands-append, Hands-none}
use vcpe.Ipam.Allocate.Fresh.{fill-Filled, Filled-Hands, Hands-idle, handed_one-same, handed-one}

abbrev pub of_instances : List Instance → List Interface
of_instances [] = []
of_instances (r ∷ instances) = r.interfaces ++ of_instances instances

-- All interfaces of a plan, in the order in which addresses are handed out.
abbrev pub of_services : List Service → List Interface
of_services [] = []
of_services (s ∷ services) = of_instances s.instances ++ of_services services

module _ (texts : Texts) (networks : List Network) (role : String) where
  -- Both families.
  pub record HandsBoth (b b' : Books) (olds news : List Interface) : Type 0 where
    pub four : Hands texts (λ i. i.ipv4) role b.0 b'.0 olds news
    pub six : Hands texts (λ i. i.ipv6) role b.1 b'.1 olds news

  HandsBoth-same : (b : Books) (i : Interface) → HandsBoth b b (i ∷ []) (i ∷ [])
  HandsBoth-same b i = record {
    four =
        Hands-idle texts (λ i. i.ipv4) role b.0 b.0 i i
          (handed-one texts (λ i. i.ipv4) role i i
            (handed_one-same texts (λ i. i.ipv4) role i i refl))
          (λ a here. here);
    six =
        Hands-idle texts (λ i. i.ipv6) role b.1 b.1 i i
          (handed-one texts (λ i. i.ipv6) role i i
            (handed_one-same texts (λ i. i.ipv6) role i i refl))
          (λ a here. here);
  }

  HandsBoth-append :
      (b b' b'' : Books) (olds news olds' news' : List Interface)
      → HandsBoth b b' olds news
      → HandsBoth b' b'' olds' news'
      → HandsBoth b b'' (olds ++ olds') (news ++ news')
  HandsBoth-append b b' b'' olds news olds' news' h h' = record {
    four =
        Hands-append texts (λ i. i.ipv4) role b.0 b'.0 b''.0 olds news olds' news' h.four h'.four;
    six = Hands-append texts (λ i. i.ipv6) role b.1 b'.1 b''.1 olds news olds' news' h.six h'.six;
  }

  interface-HandsBoth :
      (i : Interface) (b : Books) {r : Interface × Books}
      → allocate_interface texts networks i b ≡ ok r
      → HandsBoth b r.1 (i ∷ []) (r.0 ∷ [])
  unfolding allocate_interface
  interface-HandsBoth i (b4, b6) {r} h = elim (Option-cases (find_last i.role networks none)) [
    | inl unknown ↦
        subst (λ (x : Interface × Books). HandsBoth (b4, b6) x.1 (i ∷ []) (x.0 ∷ []))
          (ok-injective _ _ (simp (allocate_interface, unknown) at h)) (HandsBoth-same (b4, b6) i)
    | inr (net, known) ↦ elim (Bool-cases (net.ipam_driver == "none")) [
      | inl own ↦
          subst (λ (x : Interface × Books). HandsBoth (b4, b6) x.1 (i ∷ []) (x.0 ∷ []))
            (ok-injective _ _ (simp (allocate_interface, known, own) at h))
            (HandsBoth-same (b4, b6) i)
      | inr managed ↦
          let (first, rest, got4) =
            >>=-ok (fill texts net.ipv4 i.role i.ipv4 b4) _
              (simp (allocate_interface, known, managed) at h) in
          let (second, made, got6) = >>=-ok (fill texts net.ipv6 i.role i.ipv6 b6) _ rest in
          subst (λ (x : Interface × Books). HandsBoth (b4, b6) x.1 (i ∷ []) (x.0 ∷ []))
            (ok-injective _ _ made)
            (record {
              four =
                  Filled-Hands texts (λ i. i.ipv4) role b4 i _
                    (fill-Filled texts net.ipv4 i.role i.ipv4 b4 got4) refl;
              six =
                  Filled-Hands texts (λ i. i.ipv6) role b6 i _
                    (fill-Filled texts net.ipv6 i.role i.ipv6 b6 got6) refl;
            })
    ]
  ]

  HandsBoth-none : (b : Books) → HandsBoth b b [] []
  HandsBoth-none b = record {
    four = Hands-none texts (λ i. i.ipv4) role b.0;
    six = Hands-none texts (λ i. i.ipv6) role b.1;
  }

  list-HandsBoth :
      (interfaces : List Interface) (b : Books) {r : List Interface × Books}
      → allocate_list texts networks interfaces b ≡ ok r
      → HandsBoth b r.1 interfaces r.0
  unfolding allocate_list
  list-HandsBoth [] b h =
      subst (λ (x : List Interface × Books). HandsBoth b x.1 [] x.0) (ok-injective _ _ h)
        (HandsBoth-none b)
  list-HandsBoth (i ∷ interfaces) b h =
      let (one, tail, first) = >>=-ok (allocate_interface texts networks i b) _ h in
      let (rest, made, later) = >>=-ok (allocate_list texts networks interfaces one.1) _ tail in
      subst (λ (x : List Interface × Books). HandsBoth b x.1 (i ∷ interfaces) x.0)
        (ok-injective _ _ made)
        (HandsBoth-append b one.1 rest.1 (i ∷ []) (one.0 ∷ []) interfaces rest.0
          (interface-HandsBoth i b first) (list-HandsBoth interfaces one.1 later))

  instances-HandsBoth :
      (instances : List Instance) (b : Books) {r : List Instance × Books}
      → allocate_instances texts networks instances b ≡ ok r
      → HandsBoth b r.1 (of_instances instances) (of_instances r.0)
  unfolding allocate_instances
  instances-HandsBoth [] b h =
      subst (λ (x : List Instance × Books). HandsBoth b x.1 [] (of_instances x.0))
        (ok-injective _ _ h) (HandsBoth-none b)
  instances-HandsBoth (i ∷ instances) b h =
      let (one, tail, first) = >>=-ok (allocate_list texts networks i.interfaces b) _ h in
      let (rest, made, later) = >>=-ok (allocate_instances texts networks instances one.1) _ tail in
      subst
        (λ (x : List Instance × Books).
          HandsBoth b x.1 (i.interfaces ++ of_instances instances) (of_instances x.0))
        (ok-injective _ _ made)
        (HandsBoth-append b one.1 rest.1 i.interfaces one.0 (of_instances instances)
          (of_instances rest.0) (list-HandsBoth i.interfaces b first)
          (instances-HandsBoth instances one.1 later))

  pub services-HandsBoth :
      (services : List Service) (b : Books) {r : List Service × Books}
      → allocate_services texts networks services b ≡ ok r
      → HandsBoth b r.1 (of_services services) (of_services r.0)
  unfolding allocate_services
  services-HandsBoth [] b h =
      subst (λ (x : List Service × Books). HandsBoth b x.1 [] (of_services x.0))
        (ok-injective _ _ h) (HandsBoth-none b)
  services-HandsBoth (s ∷ services) b h =
      let (one, tail, first) = >>=-ok (allocate_instances texts networks s.instances b) _ h in
      let (rest, made, later) = >>=-ok (allocate_services texts networks services one.1) _ tail in
      subst
        (λ (x : List Service × Books).
          HandsBoth b x.1 (of_instances s.instances ++ of_services services) (of_services x.0))
        (ok-injective _ _ made)
        (HandsBoth-append b one.1 rest.1 (of_instances s.instances) (of_instances one.0)
          (of_services services) (of_services rest.0) (instances-HandsBoth s.instances b first)
          (services-HandsBoth services one.1 later))
