-- ===== src/Plan.antt =====
-- controlplane/internal/plan: the resolved deployment (model.go), and the identities that are derived
-- (identity.go). `sha1` is crypto/sha1 as bytes, and `itoa` prints an integer.
use vcpe.Common.{
  string_eq, [], some, true, false, ◌==◌, leb, ◌∷◌, if◌then◌else◌, none, ◌%◌, Bool, Option, ◌+◌,
  ◌/◌, ◌<>◌, List, String, ℕ,
}
use vcpe.Common.Int.{ℤ}
use Prim.Native.String.{len, slice}
use vcpe.Manifest.{Image, BridgeSpec}

pub record Pool : Type 0 where
  pub start : String
  pub end : String

pub record Family : Type 0 where
  pub cidr : String
  pub gateway : String
  pub pool : Option Pool

pub record Network : Type 0 where
  pub role : String
  pub bridge : String
  pub nat : Bool
  pub firewall : Bool
  pub ipv4 : Option Family
  pub ipv6 : Option Family
  pub driver : String
  pub driver_options : List (String × String)
  pub ipam_driver : String
  pub host_bridge_gateway : String
  pub podman_dns : String

pub record Interface : Type 0 where
  pub role : String
  pub network : String
  pub device : String
  pub bridge : String
  pub mac : String
  pub ipv4 : String
  pub ipv6 : String
  pub gateway4 : String
  pub gateway6 : String
  pub default_route : Bool
  pub addressing : String
  pub managed_network : Bool

pub record Instance : Type 0 where
  pub index : ℕ
  pub interfaces : List Interface

pub record ReplicaDelta : Type 0 where
  pub to_add : List ℤ
  pub to_remove : List ℤ

pub record Service : Type 0 where
  pub name : String
  pub type : String
  pub replicas : ℤ
  pub image : Image
  pub depends_on : List String
  pub bridges : List BridgeSpec
  pub ports : List String
  pub volumes : List String
  pub config : String
  pub instances : List Instance
  pub previous_replica_count : ℤ
  pub delta : ReplicaDelta

pub record Deployment : Type 0 where
  pub name : String
  pub labels : List (String × String)
  pub networks : List Network
  pub services : List Service

-- Deployment.Network, the first with the role.
unfoldable pub find_network : String → List Network → Option Network
find_network role [] = none
find_network role (n ∷ networks) = if n.role == role then some n else find_network role networks

abbrev pub ifname_max : ℕ
ifname_max = 15

-- One lower-case hex digit, and the two of a byte.
unfoldable pub hex_digit : ℕ → String
hex_digit n = slice "0123456789abcdef" n (n + 1)

abbrev pub hex_byte : ℕ → String
hex_byte b = hex_digit (b / 16) <> hex_digit (b % 16)

module _ (sha1 : String → ℕ → ℕ) (itoa : ℕ → String) where
  -- CanonicalMAC, of the first five bytes of the sum.
  unfoldable pub canonical_mac : String → String → String → ℕ → String
  unfolding hex_digit
  canonical_mac deployment service role index =
      let key = deployment <> ("/" <> (service <> ("/" <> (role <> ("/" <> itoa index))))) in
      "02:"
      <> (hex_byte (sha1 key 0)
          <> (":"
              <> (hex_byte (sha1 key 1)
                  <> (":"
                      <> (hex_byte (sha1 key 2)
                          <> (":" <> (hex_byte (sha1 key 3) <> (":" <> hex_byte (sha1 key 4)))))))))

  -- DeriveBridgeName, for an ASCII name, which a slice of bytes cuts nowhere inside a character. The
  -- suffix has 4 digits, so 10 bytes of the name stay.
  unfoldable pub derive_bridge_name : String → String → String × Bool
  unfolding hex_digit
  derive_bridge_name deployment role =
      let full = deployment <> ("-" <> role) in
      if leb (len full) ifname_max
      then (full, false)
      else (slice full 0 10 <> ("-" <> (hex_byte (sha1 full 0) <> hex_byte (sha1 full 1))), true)
