-- ===== src/Ipam/Allocate/Handed.antt =====
-- controlplane/internal/ipam/store.go: the addresses that AllocateInterfaces hands out, read off the interfaces before and
-- after.
use vcpe.Common.{
  ap, contains-append, inr, inl, Bool-cases, NoRepeat-append, string_eq, false, some, none, refl,
  true, append_assoc, contains, not, NoRepeat, length-append, sym, ◌&&◌, arith, ◌==◌, ◌≡◌,
  if◌then◌else◌, length, ◌++◌, ◌∷◌, List, [], String,
}
use vcpe.Ipam.Allocate.{Texts, Book, addr_eq}
use vcpe.Net.{Addr}
use vcpe.Plan.{Interface}

module _ (texts : Texts) where
  -- The address that an interface of the role got.
  unfoldable pub handed_one : (Interface → String) → String → Interface → Interface → List Addr
  handed_one address role o n =
      if o.role == role && (address o == "" && not (address n == ""))
      then elim (texts.parse (address n)) [ none ↦ [] | some a ↦ a ∷ [] ]
      else []

  unfoldable pub handed :
      (Interface → String) → String → List Interface → List Interface → List Addr
  unfolding handed_one
  handed address role [] news = []
  handed address role (o ∷ olds) [] = []
  handed address role (o ∷ olds) (n ∷ news) =
      handed_one address role o n ++ handed address role olds news

  pub handed-append :
      (address : Interface → String) (role : String) (olds news olds' news' : List Interface)
      → length olds ≡ length news
      → handed address role (olds ++ olds') (news ++ news')
        ≡ handed address role olds news ++ handed address role olds' news'
  unfolding handed
  handed-append address role [] [] olds' news' same = refl
  handed-append address role [] (n ∷ news) olds' news' same = absurd (omega (arith, same))
  handed-append address role (o ∷ olds) [] olds' news' same = absurd (omega (arith, same))
  handed-append address role (o ∷ olds) (n ∷ news) olds' news' same =
      rw (handed-append address role olds news olds' news' (omega (arith, same))) (
        sym (
          append_assoc (handed_one address role o n) (handed address role olds news)
            (handed address role olds' news')))

  -- The addresses handed out for a role are new, distinct, and used from then on.
  pub record Hands (address : Interface → String) (role : String) (b b' : Book)
      (olds news : List Interface) : Type 0 where
    pub paired : length olds ≡ length news
    pub once : NoRepeat (handed address role olds news)
    pub new :
        (a : Addr)
        → contains (handed address role olds news) a ≡ true
        → (contains (b.used role) a ≡ false) × (contains (b'.used role) a ≡ true)
    pub grows : (a : Addr) → contains (b.used role) a ≡ true → contains (b'.used role) a ≡ true

  pub Hands-none :
      (address : Interface → String) (role : String) (b : Book) → Hands address role b b [] []
  unfolding handed
  Hands-none address role b = record {
    paired = refl;
    once = tt;
    new = λ a here. cc;
    grows = λ a here. here;
  }

  pub Hands-append :
      (address : Interface → String) (role : String) (b b' b'' : Book)
      (olds news olds' news' : List Interface)
      → Hands address role b b' olds news
      → Hands address role b' b'' olds' news'
      → Hands address role b b'' (olds ++ olds') (news ++ news')
  Hands-append address role b b' b'' olds news olds' news' h h' =
      let split = handed-append address role olds news olds' news' h.paired in
      record {
        paired =
            omega (arith, length-append olds olds', length-append news news', h.paired, h'.paired);
        once =
            rw split (
              NoRepeat-append _ _ h.once h'.once
                (λ a here. ground (arith, h.new a here, h'.new a)));
        new = λ a here. elim (Bool-cases (contains (handed address role olds news) a)) [
          | inl first ↦ ((h.new a first).0, h'.grows a (h.new a first).1)
          | inr later ↦
              let second : contains (handed address role olds' news') a ≡ true = ground (
                arith,
                contains-append (handed address role olds news) (handed address role olds' news') a,
                ap (λ (xs : List Addr). contains xs a) split,
                here,
                later,
              ) in
              (ground (arith, h'.new a second, h.grows a), (h'.new a second).1)
        ];
        grows = λ a here. h'.grows a (h.grows a here);
      }
