-- ===== src/Net.antt =====
-- Addresses (`std::net::IpAddr`) and what the code uses of the `ipnetwork` crate.
-- An address is the list of its octets in network order. The two network types of the crate are
-- parameters, each with the documented behaviour that the code relies on.
pub mod Equality
use radixip.Base.{
  ℕ, ◌-◌, ◌*◌, ◌/◌, ◌%◌, ◌^◌, ◌≤◌, ◌<◌, ◌≡◌, ◌↔◌, Bool, true, false, Option, some, List, length,
  get_or,
}

-- `std::net::IpAddr`
pub data IpAddr : Type 0 where
  v4 : List ℕ → IpAddr
  v6 : List ℕ → IpAddr

abbrev pub octets : IpAddr → List ℕ
octets (v4 o) = o
octets (v6 o) = o

-- The arrays `[u8; 4]` and `[u8; 16]`.
abbrev pub IsAddress : IpAddr → Type 0
IsAddress (v4 o) = length o ≡ 4
IsAddress (v6 o) = length o ≡ 16

-- Bit `i` of a sequence of octets, most significant first; 0 past the end.
abbrev pub bit_at : List ℕ → ℕ → ℕ
bit_at o i = get_or o (i / 8) 0 / 2 ^ (7 - i % 8) % 2

-- `Ipv4Network` (4 octets) and `Ipv6Network` (16 octets): a network has an address and a prefix
-- length, and contains an address of its family if the first `prefix` bits agree. `new` refuses a
-- prefix length above the address size, and keeps the first bits of the address.
pub record Network (size : ℕ) (N : Type 0) : Type 0 where
  pub network : N → List ℕ
  pub prefix : N → ℕ
  pub contains : N → List ℕ → Bool
  pub new : List ℕ → ℕ → Option N
  pub length-network : (n : N) → length (network n) ≡ size
  pub prefix-le : (n : N) → prefix n ≤ 8 * size
  pub contains_iff :
      (n : N) (o : List ℕ)
      → length o ≡ size
      → (contains n o ≡ true) ↔ ((i : ℕ) → i < prefix n → bit_at o i ≡ bit_at (network n) i)
  pub new_some :
      (o : List ℕ) (len : ℕ)
      → length o ≡ size
      → len ≤ 8 * size
      → (n : N) × (new o len ≡ some n)
        × (prefix n ≡ len)
        × ((i : ℕ) → i < len → bit_at (network n) i ≡ bit_at o i)

-- `ipnetwork::IpNetwork`
pub data IpNetwork (N4 N6 : Type 0) : Type 0 where
  v4 : N4 → IpNetwork N4 N6
  v6 : N6 → IpNetwork N4 N6

module _ {N4 N6 : Type 0} ⦃a : Network 4 N4⦄ ⦃b : Network 16 N6⦄ where
  -- `IpNetwork::network` and `IpNetwork::prefix`
  abbrev pub network : IpNetwork N4 N6 → IpAddr
  network (v4 n) = IpAddr.v4 (a.network n)
  network (v6 n) = IpAddr.v6 (b.network n)

  abbrev pub prefix : IpNetwork N4 N6 → ℕ
  prefix (v4 n) = a.prefix n
  prefix (v6 n) = b.prefix n

  -- `IpNetwork::contains`: never across families.
  abbrev pub contains : IpNetwork N4 N6 → IpAddr → Bool
  contains (v4 n) (IpAddr.v4 o) = a.contains n o
  contains (v6 n) (IpAddr.v6 o) = b.contains n o
  contains (v4 n) (IpAddr.v6 o) = false
  contains (v6 n) (IpAddr.v4 o) = false
