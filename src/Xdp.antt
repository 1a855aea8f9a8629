-- ===== src/Xdp.antt =====
-- The XDP blocklist: what the program in the kernel (ebpf/xdp-kernel) and its loader
-- (ebpf/xdp-loader) share, and what they use of the crates `aya` and `ipnet`.
pub mod Kernel
pub mod Loader
pub mod Tracks
use radixip.Base.{
  ℕ, ◌+◌, ◌-◌, ◌*◌, ◌≤◌, ◌<◌, ◌≡◌, ◌↔◌, ◌⊎◌, Bool, true, false, Option, some, none, List, length,
}
use radixip.Net.{bit_at}

-- Two addresses have the same first bits.
abbrev pub Agree : (n : ℕ) (x y : List ℕ) → Type 0
Agree n x y = (i : ℕ) → i < n → bit_at x i ≡ bit_at y i

abbrev pub IsSameKey : (len len' : ℕ) (key key' : List ℕ) → Type 0
IsSameKey len len' key key' = (len' ≡ len) × Agree len key' key

-- `aya::maps::LpmTrie`, a map of the kernel from keys with a prefix length to bytes. `Stored` tells
-- its entries; keys are the same if their lengths and their first bits are. A lookup answers an
-- entry that covers the address, if there is one. An insertion may fail and then changes nothing;
-- a removal leaves no entry under its key, and fails if there was none.
pub record LpmTrie (T : Type 0) : Type 1 where
  pub get : T → (len : ℕ) (addr : List ℕ) → Option ℕ
  pub insert : T → (len : ℕ) (key : List ℕ) (value : ℕ) → T × Bool
  pub remove : T → (len : ℕ) (key : List ℕ) → T × Bool
  pub Stored : T → (len : ℕ) (key : List ℕ) (value : ℕ) → Type 0
  pub get_some :
      (t : T) (n : ℕ) (addr : List ℕ) (v : ℕ)
      → get t n addr ≡ some v
      → (len : ℕ) × (key : List ℕ) × Stored t len key v × (len ≤ n) × Agree len addr key
  pub get_none :
      (t : T) (n : ℕ) (addr : List ℕ) (len : ℕ) (key : List ℕ) (v : ℕ)
      → get t n addr ≡ none
      → Stored t len key v
      → len ≤ n
      → ¬ Agree len addr key
  pub insert_ok :
      (t : T) (len : ℕ) (key : List ℕ) (v len' : ℕ) (key' : List ℕ) (w : ℕ)
      → (insert t len key v).1 ≡ true
      → Stored (insert t len key v).0 len' key' w ↔ (
          (IsSameKey len len' key key' × (w ≡ v))
          ⊎ (Stored t len' key' w × ¬ IsSameKey len len' key key'))
  pub insert_err :
      (t : T) (len : ℕ) (key : List ℕ) (v : ℕ)
      → (insert t len key v).1 ≡ false
      → (insert t len key v).0 ≡ t
  pub remove_iff :
      (t : T) (len : ℕ) (key : List ℕ) (len' : ℕ) (key' : List ℕ) (w : ℕ)
      → Stored (remove t len key).0 len' key' w
        ↔ (Stored t len' key' w × ¬ IsSameKey len len' key key')

-- `ipnet::Ipv4Net` (4 octets) and `ipnet::Ipv6Net` (16 octets): an address with a prefix length.
-- `trunc` keeps the bits of the prefix and clears the others, `contains` tells whether all
-- addresses of the other network are among its own, and `new` refuses a prefix length above the
-- address size.
pub record PrefixNet (size : ℕ) (N : Type 0) : Type 0 where
  pub addr : N → List ℕ
  pub prefix_len : N → ℕ
  pub trunc : N → N
  pub contains : N → N → Bool
  pub new : List ℕ → ℕ → Option N
  pub same : N → N → Bool
  pub same_iff : (n m : N) → (same n m ≡ true) ↔ (n ≡ m)
  pub length-addr : (n : N) → length (addr n) ≡ size
  pub prefix_len-le : (n : N) → prefix_len n ≤ 8 * size
  pub prefix_len-trunc : (n : N) → prefix_len (trunc n) ≡ prefix_len n
  pub trunc_bits : (n : N) → Agree (prefix_len n) (addr (trunc n)) (addr n)
  pub trunc_clear :
      (n : N) (i : ℕ) → prefix_len n ≤ i → i < 8 * size → bit_at (addr (trunc n)) i ≡ 0
  pub trunc_fixed :
      (n : N) → ((i : ℕ) → prefix_len n ≤ i → i < 8 * size → bit_at (addr n) i ≡ 0) → trunc n ≡ n
  pub trunc_same :
      (n m : N)
      → prefix_len n ≡ prefix_len m
      → Agree (prefix_len n) (addr n) (addr m)
      → trunc n ≡ trunc m
  pub contains_iff :
      (n m : N)
      → (contains n m ≡ true)
        ↔ ((prefix_len n ≤ prefix_len m) × Agree (prefix_len n) (addr m) (addr n))
  pub new_some :
      (o : List ℕ) (len : ℕ) (n : N) → new o len ≡ some n → (addr n ≡ o) × (prefix_len n ≡ len)
