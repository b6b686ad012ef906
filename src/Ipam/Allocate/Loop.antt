-- ===== src/Ipam/Allocate/Loop.antt =====
-- controlplane/internal/ipam/store.go: the loop of allocate ends within its fuel, and what it finds.
use vcpe.Common.{
  nat_beq_iff, ◌∙◌, sym, subst, false, length-keep, none, some, zero, suc, Option, refl, inr, inl,
  Bool-cases, [], arith, nat_eq, ◌∷◌, true, ◌+◌, ◌≤◌, contains, length, ◌^◌, leb, ◌<◌, ◌==◌, ◌⊎◌,
  List, if◌then◌else◌, ◌≡◌, keep, ℕ,
}
use vcpe.Common.Sort.{text_before}
use vcpe.Ipam.Allocate.{
  AllocateError, addr_beq_iff, addr_beq, next_addr, addr_eq, search, addr_le, is_last,
}
use vcpe.Common.Result.{Result, ok}
use vcpe.Net.{Addr}

-- The place of an address in the order in which the cursor of a family visits them.
unfoldable rank : ℕ → Addr → ℕ
rank w a = if a.width == 0 then 2 ^ w + a.value else a.value

rank-next : (w : ℕ) (a : Addr) → (a.width ≡ w) ⊎ (a.width ≡ 0) → rank w a < rank w (next_addr a)
unfolding next_addr rank
rank-next w a family = elim (Bool-cases (is_last a)) [
  | inl last ↦ rw last (elim family [
    | inl same ↦ rw (← same) (ground (arith, last))
    | inr invalid ↦ ground (arith, last, invalid)
  ])
  | inr more ↦ rw more (elim (Bool-cases (a.width == 0)) [
    | inl zero_width ↦ rw zero_width (omega arith)
    | inr some_width ↦ rw some_width (omega arith)
  ])
]

next-family :
    (w : ℕ) (a : Addr)
    → (a.width ≡ w) ⊎ (a.width ≡ 0)
    → ((next_addr a).width ≡ w) ⊎ ((next_addr a).width ≡ 0)
unfolding next_addr
next-family w a family = elim (Bool-cases (is_last a)) [
  | inl last ↦ rw last (inr refl)
  | inr more ↦ rw more family
]

-- The used addresses that the cursor has not visited yet.
abbrev ahead : ℕ → Addr → List Addr → List Addr
ahead w cur used = keep (λ a. leb (rank w cur) (rank w a)) used

ahead-le :
    (w : ℕ) (cur next : Addr) (used : List Addr)
    → rank w cur < rank w next
    → length (ahead w next used) ≤ length (ahead w cur used)
unfolding keep
ahead-le w cur next [] less = omega arith
ahead-le w cur next (a ∷ used) less = ground (arith, ahead-le w cur next used less)

ahead-lt :
    (w : ℕ) (cur next : Addr) (used : List Addr)
    → rank w cur < rank w next
    → contains used cur ≡ true
    → length (ahead w next used) < length (ahead w cur used)
unfolding keep
ahead-lt w cur next [] less here = cc
ahead-lt w cur next (a ∷ used) less here = elim (Bool-cases (addr_beq a cur)) [
  | inl same ↦ rw ((addr_beq_iff a cur).0 same) (ground (arith, ahead-le w cur next used less))
  | inr other ↦ ground (arith, ahead-lt w cur next used less (ground (arith, here, other)))
]

turns :
    (w fuel : ℕ) (used : List Addr) (end cur : Addr)
    → (cur.width ≡ w) ⊎ (cur.width ≡ 0)
    → length (ahead w cur used) < fuel
    → (found : Option Addr) × (search fuel used end cur ≡ ok found)
unfolding search
turns w zero used end cur family enough = absurd (omega arith)
turns w (suc fuel) used end cur family enough = elim (Bool-cases (addr_le cur end)) [
  | inr behind ↦ (none, rw (search, behind) refl)
  | inl before ↦ elim (Bool-cases (contains used cur)) [
    | inr free ↦ (some cur, rw (search, before, free) refl)
    | inl taken ↦
        let less = ahead-lt w cur (next_addr cur) used (rank-next w cur family) taken in
        let (found, run) =
          turns w fuel used end (next_addr cur) (next-family w cur family)
            (omega (arith, less, enough)) in
        (found, rw (search, before, taken) run)
  ]
]

-- With as much fuel as used addresses and one more, the loop ends: each turn that goes on passes one
-- of them.
pub search-ends :
    (fuel : ℕ) (used : List Addr) (end cur : Addr)
    → length used < fuel
    → (found : Option Addr) × (search fuel used end cur ≡ ok found)
search-ends fuel used end cur enough =
    turns cur.width fuel used end cur (inl refl)
      (omega (arith, length-keep (λ a. leb (rank cur.width cur) (rank cur.width a)) used, enough))

-- An address that is found is not used, and not behind the end.
pub search-some :
    (fuel : ℕ) (used : List Addr) (end cur : Addr) {a : Addr}
    → search fuel used end cur ≡ ok (some a)
    → (contains used a ≡ false) × (addr_le a end ≡ true)
unfolding search
search-some zero used end cur h = cc
search-some (suc fuel) used end cur h = elim (Bool-cases (addr_le cur end)) [
  | inr behind ↦ cc (simp (search, behind) at h)
  | inl before ↦ elim (Bool-cases (contains used cur)) [
    | inl taken ↦ search-some fuel used end (next_addr cur) (simp (search, before, taken) at h)
    | inr free ↦
        let same : ◌≡◌ {A = Result AllocateError (Option Addr)} (ok (some cur)) (ok (some _)) =
          simp (search, before, free) at h in
        let is : cur ≡ _ = cc in
        subst (λ (x : Addr). (contains used x ≡ false) × (addr_le x end ≡ true)) is (free, before)
  ]
]

addr_le-here :
    (a b : Addr)
    → a.width ≡ b.width
    → (a.zone ≡ "") × (b.zone ≡ "")
    → a.value ≤ b.value
    → addr_le a b ≡ true
unfolding addr_le text_before
addr_le-here a b family zones le = rw (zones.0, zones.1) (ground (arith, family, le))

pub next-inner :
    (a : Addr) → a.value + 1 < 2 ^ a.width → next_addr a ≡ record a { value = a.value + 1 }
unfolding next_addr
next-inner a inner = rw (not_last a inner) refl
  where
    not_last : (a : Addr) → a.value + 1 < 2 ^ a.width → is_last a ≡ false
    not_last a inner = ground (arith, inner)

addr_le-value : (a b : Addr) → a.width ≡ b.width → addr_le a b ≡ true → a.value ≤ b.value
unfolding addr_le
addr_le-value a b family le = ground (arith, family, le)

-- When none is found, every address of the pool from the cursor on is used.
pub search-none :
    (fuel : ℕ) (used : List Addr) (end cur : Addr)
    → cur.width ≡ end.width
    → (cur.zone ≡ "") × (end.zone ≡ "")
    → end.value + 1 < 2 ^ end.width
    → search fuel used end cur ≡ ok none
    → (n : ℕ) → cur.value ≤ n
    → n ≤ end.value
    → contains used (record cur { value = n }) ≡ true
unfolding search
search-none zero used end cur family zones inner h n low high = cc
search-none (suc fuel) used end cur family zones inner h n low high =
    elim (Bool-cases (addr_le cur end)) [
      | inr behind ↦
          cc (sym (addr_le-here cur end family zones (omega (arith, low, high))) ∙ behind)
      | inl before ↦ elim (Bool-cases (contains used cur)) [
        | inr free ↦ cc (simp (search, before, free) at h)
        | inl taken ↦ elim (Bool-cases (cur.value == n)) [
          | inl same ↦ rw (← (nat_beq_iff cur.value n).0 same) taken
          | inr other ↦
              let rest : search fuel used end (next_addr cur) ≡ ok none =
                simp (search, before, taken) at h in
              let more : cur.value < n = ground (arith, low, other) in
              let next = next-inner cur (rw family (omega (arith, inner, more, high))) in
              search-none fuel used end (record cur { value = cur.value + 1 }) family zones inner
                (simp next at rest) n (omega (arith, more)) high
        ]
      ]
    ]

-- What the search passed over before it found an address.
pub record IsFirstFree (used : List Addr) (end cur a : Addr) : Type 0 where
  pub place : a ≡ record cur { value = a.value }
  pub low : cur.value ≤ a.value
  pub high : a.value ≤ end.value
  pub passed :
      (n : ℕ) → cur.value ≤ n → n < a.value → contains used (record cur { value = n }) ≡ true

-- When one is found, every address of the pool from the cursor up to it is used.
pub search-found :
    (fuel : ℕ) (used : List Addr) (end cur : Addr)
    → cur.width ≡ end.width
    → (cur.zone ≡ "") × (end.zone ≡ "")
    → end.value + 1 < 2 ^ end.width
    → {a : Addr} → search fuel used end cur ≡ ok (some a)
    → IsFirstFree used end cur a
unfolding search
search-found zero used end cur family zones inner h = cc
search-found (suc fuel) used end cur family zones inner {a} h =
    elim (Bool-cases (addr_le cur end)) [
      | inr behind ↦ cc (simp (search, behind) at h)
      | inl before ↦ elim (Bool-cases (contains used cur)) [
        | inr free ↦
            let same : ◌≡◌ {A = Result AllocateError (Option Addr)} (ok (some cur)) (ok (some a)) =
              simp (search, before, free) at h in
            let is : cur ≡ a = cc in
            subst (IsFirstFree used end cur) is (record {
              place = refl;
              low = omega arith;
              high = addr_le-value cur end family before;
              passed = λ n low high. absurd (omega (arith, low, high));
            })
        | inl taken ↦
            let rest : search fuel used end (next_addr cur) ≡ ok (some a) =
              simp (search, before, taken) at h in
            let bound = addr_le-value cur end family before in
            let next = next-inner cur (rw family (omega (arith, inner, bound))) in
            let later =
              search-found fuel used end (record cur { value = cur.value + 1 }) family zones inner
                (simp next at rest) in
            record {
              place = later.place;
              low = omega (arith, later.low);
              high = later.high;
              passed = λ n low high. elim (Bool-cases (cur.value == n)) [
                | inl same ↦ rw (← (nat_beq_iff cur.value n).0 same) taken
                | inr other ↦ later.passed n (ground (arith, low, other)) high
              ];
            }
      ]
    ]
