-- ===== src/Net.antt =====
-- Go's `net/netip`, as far as the control plane uses it: addresses in their order, and prefixes.
-- The text formats are parameters of the modules that parse.
use vcpe.Common.{
  string_eq, String, ltb, nat_beq_iff, inl, inr, Bool-cases, ℕ, ◌^◌, ◌/◌, ◌-◌, ◌≡◌, refl, Bool,
  ◌&&◌, leb, ◌==◌, nat_eq, if◌then◌else◌, arith,
}

-- A prefix of the one family (32 bits) or of the other (128 bits), by its address and its length.
pub record Prefix : Type 0 where
  pub width : ℕ
  pub addr : ℕ
  pub bits : ℕ

abbrev shorter : ℕ → ℕ → ℕ
shorter a b = if leb a b then a else b

-- Prefix.Overlaps: the families agree, and so do the addresses up to the shorter length.
unfoldable pub prefix_overlaps : Prefix → Prefix → Bool
prefix_overlaps p q =
    p.width == q.width
    && (p.addr / 2 ^ (p.width - shorter p.bits q.bits)
        == q.addr / 2 ^ (p.width - shorter p.bits q.bits))

shorter_comm : (a b : ℕ) → shorter a b ≡ shorter b a
shorter_comm a b = ground arith

nat_beq_comm : (a b : ℕ) → (a == b) ≡ (b == a)
nat_beq_comm a b = ground arith

pub prefix_overlaps_comm : (p q : Prefix) → prefix_overlaps p q ≡ prefix_overlaps q p
unfolding prefix_overlaps
prefix_overlaps_comm p q = elim (Bool-cases (p.width == q.width)) [
  | inr other ↦ rw (other, nat_beq_comm q.width p.width, other) refl
  | inl same ↦
      rw
        (
          nat_beq_comm q.width p.width,
          same,
          (nat_beq_iff p.width q.width).0 same,
          shorter_comm p.bits q.bits,
        )
        (nat_beq_comm _ _)
]

-- An address by its family and value; an IPv6 address may have a zone.
pub record Addr : Type 0 where
  pub width : ℕ
  pub value : ℕ
  pub zone : String

-- Prefix.Contains: an address with a zone is in no prefix.
unfoldable pub prefix_contains : Prefix → Addr → Bool
prefix_contains p a =
    a.zone == ""
    && (p.width == a.width && (p.addr / 2 ^ (p.width - p.bits) == a.value / 2 ^ (p.width - p.bits)))

-- Addr.Compare is positive, for addresses without a zone.
unfoldable pub addr_after : Addr → Addr → Bool
addr_after a b = if a.width == b.width then ltb b.value a.value else ltb b.width a.width
