-- ===== src/Ipam/Allocate.antt =====
-- controlplane/internal/ipam/store.go: AllocateInterfaces, which fills the empty addresses of a plan from the pools of its
-- networks. `Texts` is netip.ParseAddr and Addr.String. A set of addresses is a list, and a map by
-- roles a function.
pub mod Loop
pub mod Handed
pub mod Fresh
pub mod Distinct
pub mod Taken
pub mod Exhausted
mod Tests
use vcpe.Common.{
  eq_iff, arith, ◌^◌, nat_eq, string_eq, zero, ◌+◌, contains, ◌&&◌, ◌||◌, ◌↔◌, length, ltb, not,
  true, ◌==◌, Bool, if◌then◌else◌, none, some, suc, ◌∷◌, ◌≡◌, Eq, List, Option, String, [], ℕ,
}
use vcpe.Common.Sort.{text_before}
use vcpe.Net.{Addr}
use vcpe.Plan.{Network, Pool, Family, Interface, Instance, Service, Deployment}
use vcpe.Common.Result.{Result, ok, err, ◌>>=◌}

pub record Texts : Type 0 where
  pub parse : String → Option Addr
  pub show : Addr → String
  -- the empty text is no address
  pub parse-empty : parse "" ≡ none
  -- what String prints reads as the same address, if it reads at all
  pub parse-show : (a b : Addr) → parse (show a) ≡ some b → b ≡ a

abbrev pub addr_beq : Addr → Addr → Bool
addr_beq a b = a.width == b.width && (a.value == b.value && a.zone == b.zone)

pub addr_beq_iff : (a b : Addr) → (addr_beq a b ≡ true) ↔ (a ≡ b)
addr_beq_iff a b = ground (arith, eq_iff a.zone b.zone)

instance abbrev pub addr_eq : Eq Addr
addr_eq = record { same = addr_beq; same_iff = addr_beq_iff }

-- `a.Compare(b) <= 0`
unfoldable pub addr_le : Addr → Addr → Bool
addr_le a b =
    ltb a.width b.width
    || (a.width == b.width
        && (ltb a.value b.value || (a.value == b.value && not (text_before b.zone a.zone))))

abbrev pub zero_addr : Addr
zero_addr = record { width = 0; value = 0; zone = "" }

-- The last address of its family.
abbrev pub is_last : Addr → Bool
is_last a = not (a.width == 0) && (a.value + 1 == 2 ^ a.width)

-- Addr.Next: the zero Addr follows the last address of a family, and counts on from there.
unfoldable pub next_addr : Addr → Addr
next_addr a = if is_last a then zero_addr else record a { value = a.value + 1 }

-- The used addresses and the cursors of one family, by role.
pub record Book : Type 0 where
  pub used : String → List Addr
  pub cursor : String → Option Addr

abbrev pub put {ℓ} : {A : Type ℓ} → String → A → (String → A) → String → A
put role a f r = if r == role then a else f r

abbrev pub empty_book : Book
empty_book = record { used = λ role. []; cursor = λ role. none }

pub data AllocateError : Type 0 where
  invalid_pool_start : String → AllocateError
  invalid_pool_end : String → AllocateError
  exhausted : String → String → AllocateError
  out_of_fuel : AllocateError

-- The loop of allocate, from a cursor: the first address that is not used, or none up to the end.
unfoldable pub search : ℕ → List Addr → Addr → Addr → Result AllocateError (Option Addr)
unfolding addr_le next_addr
search zero used end cur = err out_of_fuel
search (suc fuel) used end cur =
    let rest = search fuel used end (next_addr cur) in
    if not (addr_le cur end) then ok none else if contains used cur then rest else ok (some cur)

abbrev pub cursor_of : Book → String → Addr → Addr
cursor_of b role start = elim (b.cursor role) [ none ↦ start | some c ↦ c ]

-- netByRole: the last network with the role.
unfoldable pub find_last : String → List Network → Option Network → Option Network
find_last role [] found = found
find_last role (n ∷ networks) found =
    find_last role networks (if n.role == role then some n else found)

abbrev pub Books : Type 0
Books = Book × Book

module _ (texts : Texts) where
  -- mark
  unfoldable pub mark : String → String → Book → Book
  mark role text b = if text == "" then b else elim (texts.parse text) [
    | none ↦ b
    | some a ↦ record b { used = put role (a ∷ b.used role) b.used }
  ]

  unfoldable pub mark_gateway : String → Option Family → Book → Book
  unfolding mark
  mark_gateway role none b = b
  mark_gateway role (some f) b = mark role f.gateway b

  unfoldable pub mark_gateways : (Network → Option Family) → List Network → Book → Book
  unfolding mark_gateway
  mark_gateways family [] b = b
  mark_gateways family (n ∷ networks) b =
      mark_gateways family networks (mark_gateway n.role (family n) b)

  unfoldable pub mark_interfaces : (Interface → String) → List Interface → Book → Book
  unfolding mark
  mark_interfaces address [] b = b
  mark_interfaces address (i ∷ interfaces) b =
      mark_interfaces address interfaces (mark i.role (address i) b)

  unfoldable pub mark_instances : (Interface → String) → List Instance → Book → Book
  unfolding mark_interfaces
  mark_instances address [] b = b
  mark_instances address (r ∷ instances) b =
      mark_instances address instances (mark_interfaces address r.interfaces b)

  unfoldable pub mark_services : (Interface → String) → List Service → Book → Book
  unfolding mark_instances
  mark_services address [] b = b
  mark_services address (s ∷ services) b =
      mark_services address services (mark_instances address s.instances b)

  -- What allocate does with the address that its loop found.
  unfoldable pub hand_out :
      Pool → String → Book → Option Addr → Result AllocateError (String × Book)
  unfolding next_addr
  hand_out pool role b none = err (exhausted pool.start pool.end)
  hand_out pool role b (some a) = ok (
    texts.show a,
    record {
      used = put role (a ∷ b.used role) b.used;
      cursor = put role (some (next_addr a)) b.cursor;
    },
  )

  -- allocate
  unfoldable pub allocate : Pool → String → Book → Result AllocateError (String × Book)
  unfolding search hand_out
  allocate pool role b = elim (texts.parse pool.start) [
    | none ↦ err (invalid_pool_start pool.start)
    | some start ↦ elim (texts.parse pool.end) [
      | none ↦ err (invalid_pool_end pool.end)
      | some end ↦
          search (suc (length (b.used role))) (b.used role) end (cursor_of b role start)
          >>= hand_out pool role b
    ]
  ]

  -- One family of one interface.
  unfoldable pub fill :
      Option Family → String → String → Book → Result AllocateError (String × Book)
  unfolding allocate
  fill none role text b = ok (text, b)
  fill (some f) role text b = elim f.pool [
    | none ↦ ok (text, b)
    | some pool ↦ if text == "" then allocate pool role b else ok (text, b)
  ]

  -- The body of the loop over the interfaces.
  unfoldable pub allocate_interface :
      List Network → Interface → Books → Result AllocateError (Interface × Books)
  unfolding fill find_last
  allocate_interface networks i (b4, b6) = elim (find_last i.role networks none) [
    | none ↦ ok (i, (b4, b6))
    | some net ↦
        if net.ipam_driver == "none"
        then ok (i, (b4, b6))
        else (fill net.ipv4 i.role i.ipv4 b4 >>= λ first.
            fill net.ipv6 i.role i.ipv6 b6 >>= λ second.
            ok (record i { ipv4 = first.0; ipv6 = second.0 }, (first.1, second.1)))
  ]

  unfoldable pub allocate_list :
      List Network → List Interface → Books → Result AllocateError (List Interface × Books)
  unfolding allocate_interface
  allocate_list networks [] books = ok ([], books)
  allocate_list networks (i ∷ interfaces) books = allocate_interface networks i books >>= λ one.
      allocate_list networks interfaces one.1 >>= λ rest. ok (one.0 ∷ rest.0, rest.1)

  unfoldable pub allocate_instances :
      List Network → List Instance → Books → Result AllocateError (List Instance × Books)
  unfolding allocate_list
  allocate_instances networks [] books = ok ([], books)
  allocate_instances networks (r ∷ instances) books =
      allocate_list networks r.interfaces books >>= λ one.
      allocate_instances networks instances one.1 >>= λ rest.
      ok (record r { interfaces = one.0 } ∷ rest.0, rest.1)

  unfoldable pub allocate_services :
      List Network → List Service → Books → Result AllocateError (List Service × Books)
  unfolding allocate_instances
  allocate_services networks [] books = ok ([], books)
  allocate_services networks (s ∷ services) books =
      allocate_instances networks s.instances books >>= λ one.
      allocate_services networks services one.1 >>= λ rest.
      ok (record s { instances = one.0 } ∷ rest.0, rest.1)

  abbrev pub seed4 : Deployment → Book
  seed4 dep =
      mark_services (λ i. i.ipv4) dep.services (mark_gateways (λ n. n.ipv4) dep.networks empty_book)

  abbrev pub seed6 : Deployment → Book
  seed6 dep =
      mark_services (λ i. i.ipv6) dep.services (mark_gateways (λ n. n.ipv6) dep.networks empty_book)

  -- AllocateInterfaces
  unfoldable pub allocate_interfaces : Deployment → Result AllocateError Deployment
  unfolding mark_services mark_gateways allocate_services
  allocate_interfaces dep =
      allocate_services dep.networks dep.services (seed4 dep, seed6 dep) >>= λ done.
      ok (record dep { services = done.0 })
