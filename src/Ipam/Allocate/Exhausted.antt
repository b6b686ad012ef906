-- ===== src/Ipam/Allocate/Exhausted.antt =====
-- controlplane/internal/ipam/store.go: when allocate gives up. The cursor of a role misses no address.
use vcpe.Common.{
  nat_beq_iff, nat_eq, eq_iff, string_eq, false, leb, refl, ◌∷◌, Bool-cases, subst, ◌==◌, sym,
  Option, ap, ◌∙◌, inr, inl, Option-cases, arith, length, suc, true, contains, ◌≤◌, ℕ, ◌^◌, ◌<◌,
  ◌+◌, none, some, ◌≡◌, String,
}
use vcpe.Ipam.Allocate.{
  addr_beq_iff, next_addr, put, Texts, Book, allocate, hand_out, search, cursor_of, exhausted,
  AllocateError, addr_eq,
}
use vcpe.Ipam.Allocate.Loop.{next-inner, search-found, search-ends, search-none}
use vcpe.Common.Result.{>>=-ok, ok-injective, Result, ok, err}
use vcpe.Plan.{Pool}
use vcpe.Net.{Addr}

-- The book after an address was handed out for a role.
abbrev after : String → Addr → Book → Book
after role a b = record {
  used = put role (a ∷ b.used role) b.used;
  cursor = put role (some (next_addr a)) b.cursor;
}

-- The books in which the calls of allocate for a role find themselves: the role has no cursor yet, or
-- earlier calls for it, all on its pool, or for other roles have succeeded.
pub data Calls (texts : Texts) (pool : Pool) (role : String) : Book → Type 0 where
  fresh : (b : Book) → b.cursor role ≡ none → Calls texts pool role b
  again :
      {b : Book} {r : String × Book}
      → Calls texts pool role b
      → allocate texts pool role b ≡ ok r
      → Calls texts pool role r.1
  other :
      {b : Book} {r : String × Book} (pool' : Pool) (role' : String)
      → Calls texts pool role b
      → (role == role') ≡ false
      → allocate texts pool' role' b ≡ ok r
      → Calls texts pool role r.1

-- What a call that succeeds found and did.
record Found (texts : Texts) (pool : Pool) (role : String) (b b' : Book) : Type 0 where
  start : Addr
  end : Addr
  address : Addr
  from : texts.parse pool.start ≡ some start
  to : texts.parse pool.end ≡ some end
  ran :
      search (suc (length (b.used role))) (b.used role) end (cursor_of b role start)
      ≡ ok (some address)
  book : b' ≡ after role address b

hand_out-ok :
    (texts : Texts) (pool : Pool) (role : String) (b : Book) (found : Option Addr)
    {r : String × Book}
    → hand_out texts pool role b found ≡ ok r
    → (a : Addr) × (found ≡ some a) × (r.1 ≡ after role a b)
unfolding hand_out
hand_out-ok texts pool role b none h = cc
hand_out-ok texts pool role b (some a) h = (a, refl, sym (ap (λ x. x.1) (ok-injective _ _ h)))

allocate-ok :
    (texts : Texts) (pool : Pool) (role : String) (b : Book) {r : String × Book}
    → allocate texts pool role b ≡ ok r
    → Found texts pool role b r.1
unfolding allocate
allocate-ok texts pool role b h = elim (Option-cases (texts.parse pool.start)) [
  | inl bad ↦ cc (simp (allocate, bad) at h)
  | inr (start, from) ↦ elim (Option-cases (texts.parse pool.end)) [
    | inl bad ↦ cc (simp (allocate, from, bad) at h)
    | inr (end, to) ↦
        let (found, rest, looked) =
          >>=-ok _ (hand_out texts pool role b) (simp (allocate, from, to) at h) in
        let (a, is, made) = hand_out-ok texts pool role b found rest in
        record {
          start = start;
          end = end;
          address = a;
          from = from;
          to = to;
          ran = looked ∙ ap ok is;
          book = made;
        }
  ]
]

-- The cursor of the role stands in its pool or behind it, and every address before it is used.
record IsPassed (role : String) (start : Addr) (b : Book) : Type 0 where
  place : ℕ
  cursor : cursor_of b role start ≡ record start { value = place }
  low : start.value ≤ place
  passed :
      (n : ℕ)
      → start.value ≤ n
      → n < place
      → contains (b.used role) (record start { value = n }) ≡ true

module _ (texts : Texts) (pool : Pool) (role : String) (start end : Addr)
    (from : texts.parse pool.start ≡ some start) (to : texts.parse pool.end ≡ some end)
    (family : start.width ≡ end.width) (zones : (start.zone ≡ "") × (end.zone ≡ ""))
    (inner : end.value + 1 < 2 ^ end.width) where
  again-IsPassed :
      (b : Book) (a : Addr)
      → IsPassed role start b
      → search (suc (length (b.used role))) (b.used role) end (cursor_of b role start) ≡ ok (some a)
      → IsPassed role start (after role a b)
  again-IsPassed b a s ran =
      let first =
        search-found (suc (length (b.used role))) (b.used role) end
          (record start { value = s.place }) family zones inner (simp s.cursor at ran) in
      let next : next_addr a ≡ record start { value = a.value + 1 } =
        ap next_addr first.place
        ∙ next-inner (record start { value = a.value })
            (rw family (omega (arith, inner, first.high))) in
      let itself : (role == role) ≡ true = (eq_iff role role).1 refl in
      record {
        place = a.value + 1;
        cursor = rw (cursor_of, itself, next) refl;
        low = omega (arith, s.low, first.low);
        passed = λ n low high. elim (Bool-cases (leb s.place n)) [
          | inr before ↦
              let seen = s.passed n low (ground (arith, before)) in rw itself (ground (arith, seen))
          | inl behind ↦ elim (Bool-cases (a.value == n)) [
            | inl same ↦
                let is = (addr_beq_iff a (record start { value = n })).1 (
                  first.place
                  ∙ ap (λ (v : ℕ). record start { value = v }) ((nat_beq_iff a.value n).0 same)) in
                rw (itself, is) refl
            | inr different ↦
                let seen =
                  first.passed n (ground (arith, behind)) (ground (arith, high, different)) in
                rw itself (ground (arith, seen))
          ]
        ];
      }

  Calls-IsPassed : {b : Book} → Calls texts pool role b → IsPassed role start b
  Calls-IsPassed (fresh b none_yet) = record {
    place = start.value;
    cursor = ap (λ (c : Option Addr). elim c [ none ↦ start | some at ↦ at ]) none_yet;
    low = omega arith;
    passed = λ n low high. absurd (omega (arith, low, high));
  }
  Calls-IsPassed (again {b} {r} calls h) =
      let f = allocate-ok texts pool role b h in
      let same_start : f.start ≡ start = cc in
      let same_end : f.end ≡ end = cc in
      subst (IsPassed role start) (sym f.book)
        (again-IsPassed b f.address (Calls-IsPassed calls) (simp (same_start, same_end) at f.ran))
  Calls-IsPassed (other {b} {r} pool' role' calls apart h) =
      let f = allocate-ok texts pool' role' b h in
      let s = Calls-IsPassed calls in
      subst (IsPassed role start) (sym f.book) (record {
        place = s.place;
        cursor = rw (cursor_of, apart) s.cursor;
        low = s.low;
        passed = rw apart s.passed;
      })

  -- On a pool of one family whose bounds read as addresses without a zone, and which does not contain the
  -- last address of the family, every call of allocate for a role fails only with the error that the
  -- pool is exhausted, and only if every address from the start of the pool to its end is used: its loop
  -- ends, and no free address is missed. The call may be the first for the role, or follow calls that
  -- succeeded, those for the role on the same pool.
  pub allocate-exhausted :
      {b : Book}
      → Calls texts pool role b
      → {e : AllocateError} → allocate texts pool role b ≡ err e
      → (n : ℕ) → start.value ≤ n
      → n ≤ end.value
      → (e ≡ exhausted pool.start pool.end)
        × (contains (b.used role) (record start { value = n }) ≡ true)
  unfolding allocate hand_out
  allocate-exhausted {b} calls {e} h n low high =
      let used = b.used role in
      let s = Calls-IsPassed calls in
      let (found, ran) =
        search-ends (suc (length used)) used end (cursor_of b role start) (omega arith) in
      elim (Option-cases found) [
        | inl nothing ↦
            let ended = ran ∙ ap ok nothing in
            let failed : ◌≡◌ {A = Result AllocateError (String × Book)}
                (err (exhausted pool.start pool.end)) (err e) =
              simp (allocate, from, to, ended) at h in
            (
              cc,
              elim (Bool-cases (leb s.place n)) [
                | inl behind ↦
                    search-none (suc (length used)) used end (record start { value = s.place })
                      family zones inner (simp s.cursor at ended) n (ground (arith, behind)) high
                | inr before ↦ s.passed n low (ground (arith, before))
              ],
            )
        | inr (a, some_a) ↦
            let ended = ran ∙ ap ok some_a in cc (simp (allocate, from, to, ended) at h)
      ]
