-- ===== src/Ipam/Allocate/Fresh.antt =====
-- controlplane/internal/ipam/store.go: AllocateInterfaces hands every address out once.
use vcpe.Common.{
  length, suc, not, sym, ◌∙◌, ap, append-nil, ◌&&◌, List, arith, refl, true, ◌⊎◌, string_eq, none,
  eq_iff, ◌==◌, Bool-cases, inr, inl, Option-cases, some, [], false, subst, contains, ◌∷◌, ◌≡◌,
  Option, String,
}
use vcpe.Ipam.Allocate.Loop.{search-some}
use vcpe.Common.Result.{>>=-ok, ok-injective, ok}
use vcpe.Ipam.Allocate.{
  Texts, Book, addr_eq, addr_beq_iff, cursor_of, allocate, fill, hand_out, put,
}
use vcpe.Net.{Addr}
use vcpe.Plan.{Interface, Pool, Family}
use vcpe.Ipam.Allocate.Handed.{Hands, handed, handed_one}

module _ (texts : Texts) where
  -- What fill does: nothing, or it hands out an unused address for an empty text.
  pub data Filled (role text : String) (b : Book) : String × Book → Type 0 where
    left_alone : Filled role text b (text, b)
    filled :
        (a : Addr) (cursor : String → Option Addr)
        → text ≡ ""
        → contains (b.used role) a ≡ false
        → Filled role text b
            (texts.show a, record { used = put role (a ∷ b.used role) b.used; cursor = cursor })

  found-Filled :
      (pool : Pool) (role text : String) (b : Book) (found : Option Addr) {r : String × Book}
      → text ≡ ""
      → hand_out texts pool role b found ≡ ok r
      → ((a : Addr) → found ≡ some a → contains (b.used role) a ≡ false)
      → Filled role text b r
  unfolding hand_out
  found-Filled pool role text b none e h free = cc
  found-Filled pool role text b (some a) e h free =
      subst (Filled role text b) (ok-injective _ _ h) (filled a _ e (free a refl))

  allocate-Filled :
      (pool : Pool) (role text : String) (b : Book) {r : String × Book}
      → text ≡ ""
      → allocate texts pool role b ≡ ok r
      → Filled role text b r
  unfolding allocate hand_out
  allocate-Filled pool role text b {r} e h = elim (Option-cases (texts.parse pool.start)) [
    | inl bad ↦ cc (simp (allocate, bad) at h)
    | inr (start, from) ↦ elim (Option-cases (texts.parse pool.end)) [
      | inl bad ↦ cc (simp (allocate, from, bad) at h)
      | inr (end, to) ↦
          let (found, rest, looked) =
            >>=-ok _ (hand_out texts pool role b) (simp (allocate, from, to) at h) in
          found-Filled pool role text b found e rest (λ a is.
            (search-some (suc (length (b.used role))) (b.used role) end (cursor_of b role start)
              (looked ∙ ap ok is)).0)
    ]
  ]

  pub fill-Filled :
      (f : Option Family) (role text : String) (b : Book) {r : String × Book}
      → fill texts f role text b ≡ ok r
      → Filled role text b r
  unfolding fill
  fill-Filled none role text b {r} h = subst (Filled role text b) (ok-injective _ _ h) left_alone
  fill-Filled (some f) role text b {r} h = elim (Option-cases f.pool) [
    | inl absent ↦
        subst (Filled role text b) (ok-injective _ _ (simp (fill, absent) at h)) left_alone
    | inr (pool, given) ↦ elim (Bool-cases (text == "")) [
      | inl empty ↦
          allocate-Filled pool role text b ((eq_iff text "").0 empty)
            (simp (fill, given, empty) at h)
      | inr full ↦
          subst (Filled role text b) (ok-injective _ _ (simp (fill, given, full) at h)) left_alone
    ]
  ]

  pub handed_one-same :
      (address : Interface → String) (role : String) (o n : Interface)
      → address n ≡ address o
      → handed_one texts address role o n ≡ []
  unfolding handed_one
  handed_one-same address role o n same = rw (handed_one, same) (ground arith)

  -- An interface of another role, or the address itself.
  handed_one-new :
      (address : Interface → String) (role : String) (o n : Interface) (a : Addr)
      → address n ≡ texts.show a
      → (handed_one texts address role o n ≡ [])
        ⊎ ((o.role ≡ role) × (handed_one texts address role o n ≡ a ∷ []))
  unfolding handed_one
  handed_one-new address role o n a same =
      elim (Bool-cases (o.role == role && (address o == "" && not (address n == "")))) [
        | inr idle ↦ inl (rw (handed_one, idle) refl)
        | inl got ↦ elim (Option-cases (texts.parse (address n))) [
          | inl unread ↦ inl (rw (handed_one, got, unread) refl)
          | inr (c, read) ↦
              let is = texts.parse-show a c (ap texts.parse (sym same) ∙ read) in
              inr (ground (arith, got, eq_iff o.role role), rw (handed_one, got, read, is) refl)
        ]
      ]

  pub handed-one :
      (address : Interface → String) (role : String) (o n : Interface) {xs : List Addr}
      → handed_one texts address role o n ≡ xs
      → handed texts address role (o ∷ []) (n ∷ []) ≡ xs
  unfolding handed
  handed-one address role o n {xs} e = rw (handed, e) (append-nil xs)

  -- Nothing is handed out for a role, and its addresses stay used.
  pub Hands-idle :
      (address : Interface → String) (role : String) (b b' : Book) (o n : Interface)
      → handed texts address role (o ∷ []) (n ∷ []) ≡ []
      → ((a : Addr) → contains (b.used role) a ≡ true → contains (b'.used role) a ≡ true)
      → Hands texts address role b b' (o ∷ []) (n ∷ [])
  Hands-idle address role b b' o n e grows = record {
    paired = refl;
    once = rw e tt;
    new = λ a here. cc (ap (λ (xs : List Addr). contains xs a) (sym e) ∙ here);
    grows = grows;
  }

  pub put-grows :
      (role other : String) (a c : Addr) (used : String → List Addr)
      → contains (used role) c ≡ true
      → contains (put other (a ∷ used other) used role) c ≡ true
  put-grows role other a c used here = elim (Bool-cases (role == other)) [
    | inl same ↦ rw (same, ← (eq_iff role other).0 same) (ground (arith, here))
    | inr ne ↦ rw ne here
  ]

  pub put-here :
      (role other : String) (a : Addr) (used : String → List Addr)
      → other ≡ role
      → contains (put other (a ∷ used other) used role) a ≡ true
  put-here role other a used same =
      rw ((eq_iff role other).1 (sym same)) (ground (arith, addr_beq_iff a a))

  -- One family of one interface.
  pub Filled-Hands :
      (address : Interface → String) (role : String) (b : Book) (o n : Interface)
      {r : String × Book}
      → Filled o.role (address o) b r
      → address n ≡ r.0
      → Hands texts address role b r.1 (o ∷ []) (n ∷ [])
  Filled-Hands address role b o n left_alone same =
      Hands-idle address role b b o n
        (handed-one address role o n (handed_one-same address role o n same)) (λ a here. here)
  Filled-Hands address role b o n (filled a cursor empty free) same =
      elim (handed_one-new address role o n a same) [
        | inl idle ↦
            Hands-idle address role b _ o n (handed-one address role o n idle)
              (λ c here. put-grows role o.role a c b.used here)
        | inr (is, got) ↦
            let one = handed-one address role o n got in
            record {
              paired = refl;
              once = rw one (refl, tt);
              new = λ c here.
                  let found : contains (a ∷ []) c ≡ true =
                    ap (λ (xs : List Addr). contains xs c) (sym one) ∙ here in
                  let same_addr : a ≡ c = (addr_beq_iff a c).0 (ground (arith, found)) in
                  subst
                    (λ (x : Addr).
                      (contains (b.used role) x ≡ false)
                      × (contains (put o.role (a ∷ b.used o.role) b.used role) x ≡ true))
                    same_addr
                    ((
                      subst (λ (x : String). contains (b.used x) a ≡ false) is free,
                      put-here role o.role a b.used is,
                    ));
              grows = λ c here. put-grows role o.role a c b.used here;
            }
      ]
