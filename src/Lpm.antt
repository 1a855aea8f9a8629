-- ===== src/Lpm.antt =====
-- lib/rust/engine/src/lpm.rs: bits of an address, and the reference search over entries.

pub mod Best
use native.Mathlib.Nat.{zero-div}
use radixip.Base.{
  ℕ, zero, suc, ◌+◌, ◌-◌, ◌/◌, ◌%◌, ◌^◌, ◌≤◌, ◌<◌, ◌≡◌, refl, Bool, true, false, not, Option, none,
  some, List, length, get_or, fold_left, arith, ltb, leb, if◌then◌else◌,
}
use radixip.Net.{IpAddr, octets, bit_at, Network, IpNetwork, prefix}

-- `bit_pos / 8 >= len` is answered by 0, the rest by `(byte >> bit_idx) & 1`.
unfoldable pub get_bit : IpAddr → ℕ → ℕ
get_bit ip bit_pos =
    let ip_bytes = octets ip in
    let byte_idx = bit_pos / 8 in
    let bit_idx = 7 - bit_pos % 8 in
    if leb (length ip_bytes) byte_idx then 0 else get_or ip_bytes byte_idx 0 / 2 ^ bit_idx % 2

-- The item `(&IpNetwork, &Metadata)` of the iterator.
abbrev pub Entry : (N4 N6 M : Type 0) → Type 0
Entry N4 N6 M = IpNetwork N4 N6 × M

module _ {N4 N6 : Type 0} ⦃a : Network 4 N4⦄ ⦃b : Network 16 N6⦄ where
  unfoldable pub network_contains_ip : IpNetwork N4 N6 → IpAddr → Bool
  network_contains_ip (IpNetwork.v4 n) (IpAddr.v4 o) = a.contains n o
  network_contains_ip (IpNetwork.v6 n) (IpAddr.v6 o) = b.contains n o
  network_contains_ip (IpNetwork.v4 n) (IpAddr.v6 o) = false
  network_contains_ip (IpNetwork.v6 n) (IpAddr.v4 o) = false

  module _ {M : Type 0} where
    -- One round of the loop of `longest_prefix_match_entries`.
    unfoldable pub better : IpAddr → Option (Entry N4 N6 M) → Entry N4 N6 M → Option (Entry N4 N6 M)
    better ip none e = if network_contains_ip e.0 ip then some e else none
    better ip (some best) e =
        if not (network_contains_ip e.0 ip)
        then some best
        else if leb (prefix e.0) (prefix best.0)
        then some best
        else some e

    abbrev pub metadata_of : Option (Entry N4 N6 M) → Option M
    metadata_of none = none
    metadata_of (some e) = some e.1

    unfoldable pub longest_prefix_match_entries : List (Entry N4 N6 M) → IpAddr → Option M
    unfolding better
    longest_prefix_match_entries entries ip = metadata_of (fold_left (better ip) none entries)

    -- `LPM::lookup`
    pub lookup : List (Entry N4 N6 M) → IpAddr → Option M
    lookup entries ip = longest_prefix_match_entries entries ip

get_or-past {ℓ} : {A : Type ℓ} (xs : List A) (i : ℕ) (d : A) → length xs ≤ i → get_or xs i d ≡ d
get_or-past List.[] i d h = refl
get_or-past (List.◌∷◌ x xs) zero d h = elim h [ ]
get_or-past (List.◌∷◌ x xs) (suc i) d h = get_or-past xs i d (omega arith)

zero_bit : (k : ℕ) → 0 / 2 ^ k % 2 ≡ 0
zero_bit k = rw zero-div

-- The bit read by the code is the bit of the address.
pub get_bit-eq-bit_at : (ip : IpAddr) (i : ℕ) → get_bit ip i ≡ bit_at (octets ip) i
unfolding get_bit
get_bit-eq-bit_at ip i = ground (arith, zero_bit (7 - i % 8), get_or-past (octets ip) (i / 8) 0)
