-- ===== src/Compressed.antt =====
-- The Patricia trie: `CompressedTree` of lib/rust/engine/src/tree.rs.
-- The bytes of a key or an edge, read up to a length, are the list of their bits; `true` is the bit
-- 1. Where the code passes a key, its length and a depth, the model passes the bits from the depth
-- to the length. A node has one parent, so the shared pointers are a tree of values.
pub mod Bits
pub mod Below
pub mod Insert
pub mod Remove
pub mod Map
pub mod Lookup
pub mod Longest
pub mod Routes
use Prim.Native.String.{String}
use radixip.Base.{
  ℕ, zero, suc, ◌+◌, ◌-◌, ◌/◌, ◌%◌, ◌^◌, Bool, true, false, not, ◌&&◌, Option, none, some, List, [],
  ◌∷◌, ◌++◌, length, take, drop, get_or, or_else, is_some, is_none, ltb, leb, ◌==◌, if◌then◌else◌,
  Result, ok,
}
use radixip.Net.{IpAddr, Network, IpNetwork, network, prefix}

-- Bit `pos` of some bytes, 0 past the end.
unfoldable pub get_bit_from_bytes : List ℕ → ℕ → ℕ
get_bit_from_bytes bytes pos =
    if leb (length bytes) (pos / 8) then 0 else get_or bytes (pos / 8) 0 / 2 ^ (7 - pos % 8) % 2

-- `extract_bits`: the bits from `start`, for at most 128 of them.
unfoldable pub bits_from : List ℕ → (start len : ℕ) → List Bool
bits_from bytes start zero = []
bits_from bytes start (suc len) =
    (get_bit_from_bytes bytes start == 1) ∷ bits_from bytes (suc start) len

abbrev pub zeros : ℕ → List ℕ
zeros zero = []
zeros (suc n) = 0 ∷ zeros n

-- An IPv4 address stands in the last four of sixteen bytes.
unfoldable pub ip_to_bytes : IpAddr → List ℕ
ip_to_bytes (IpAddr.v4 o) = zeros 12 ++ o
ip_to_bytes (IpAddr.v6 o) = o

abbrev pub same_bit : Bool → Bool → Bool
same_bit true b = b
same_bit false b = not b

unfoldable pub common_prefix_len : List Bool → List Bool → ℕ
common_prefix_len [] b = 0
common_prefix_len (x ∷ a) [] = 0
common_prefix_len (x ∷ a) (y ∷ b) = if same_bit x y then suc (common_prefix_len a b) else 0

-- `get_bit_from_bytes` on bits; false past the end.
abbrev pub bit : List Bool → ℕ → Bool
bit bits i = get_or bits i false

-- `Option<Arc<dyn Node>>` of a compressed variant.
pub data Node (R M : Type 0) : Type 0 where
  nil : Node R M
  node :
      (edge : List Bool) (metadata : Option M) (prefix : Option R) (left right : Node R M)
      → Node R M

module _ {R M : Type 0} where
  abbrev pub is_nil : Node R M → Bool
  is_nil nil = true
  is_nil (node _ _ _ _ _) = false

  -- A built node with edge, prefix and metadata set.
  abbrev pub leaf : List Bool → R → M → Node R M
  leaf edge p m = node edge (some m) (some p) nil nil

  -- `node` with `child` on the side of `b`; the sides set before are `l` and `r`.
  abbrev pub wire : Bool → Node R M → (l r : Node R M) → Node R M × Node R M
  wire false c l r = (c, r)
  wire true c l r = (l, c)

  -- The split of an edge at bit `shared`: `child` carries the rest of the edge, with the metadata,
  -- prefix and children of the node, which keeps its own prefix too.
  unfoldable pub split :
      (shared : ℕ) (key_rem : List Bool)
      → R
      → M
      → (edge : List Bool) (meta : Option M) (pre : Option R) (l r : Node R M) → Node R M
  split shared key_rem p m edge meta pre l r =
      let child = node (drop (suc shared) edge) meta pre l r in
      let (left, right) = wire (bit edge shared) child nil nil in
      let top = take shared edge in
      if shared == length key_rem
      then node top (some m) (some p) left right
      else (let (left, right) =
            wire (bit key_rem shared) (leaf (drop (suc shared) key_rem) p m) left right in
          node top none pre left right)

  -- `insert_inner`, with the bits of the key from the depth on; a missing child is a new leaf.
  unfoldable pub insert_inner : List Bool → R → M → Node R M → Node R M × Bool
  insert_inner key_rem p m nil = (leaf key_rem p m, true)
  insert_inner key_rem p m (node edge meta pre l r) =
      let shared = common_prefix_len edge key_rem in
      elim (length edge == 0 && is_none meta && is_nil l && is_nil r) [
        | true ↦ (node key_rem (some m) (some p) l r, true)
        | false ↦ elim (shared == length edge && shared == length key_rem) [
          | true ↦ (node edge (some m) (some p) l r, is_none meta)
          | false ↦ elim (ltb shared (length edge)) [
            | true ↦ (split shared key_rem p m edge meta pre l r, true)
            | false ↦ elim (bit key_rem shared) [
              | false ↦
                  let (child, is_new) = insert_inner (drop (suc shared) key_rem) p m l in
                  (node edge meta pre child r, is_new)
              | true ↦
                  let (child, is_new) = insert_inner (drop (suc shared) key_rem) p m r in
                  (node edge meta pre l child, is_new)
            ]
          ]
        ]
      ]

  unfoldable pub lookup_inner : List Bool → Node R M → Option M
  lookup_inner key_rem nil = none
  lookup_inner key_rem (node edge meta pre l r) =
      let shared = common_prefix_len edge key_rem in
      elim (length edge == 0 && is_none meta) [
        | true ↦ none
        | false ↦ elim (ltb shared (length edge)) [
          | true ↦ none
          | false ↦ elim (leb (length key_rem) shared) [
            | true ↦ meta
            | false ↦ elim (bit key_rem shared) [
              | false ↦ or_else (lookup_inner (drop (suc shared) key_rem) l) meta
              | true ↦ or_else (lookup_inner (drop (suc shared) key_rem) r) meta
            ]
          ]
        ]
      ]

  unfoldable pub remove_inner : List Bool → Node R M → Node R M × Option M
  remove_inner key_rem nil = (nil, none)
  remove_inner key_rem (node edge meta pre l r) =
      let shared = common_prefix_len edge key_rem in
      elim (ltb shared (length edge)) [
        | true ↦ (node edge meta pre l r, none)
        | false ↦ elim (shared == length key_rem) [
          | true ↦ (node edge none pre l r, meta)
          | false ↦ elim (bit key_rem shared) [
            | false ↦
                let (child, removed) = remove_inner (drop (suc shared) key_rem) l in
                (node edge meta pre child r, removed)
            | true ↦
                let (child, removed) = remove_inner (drop (suc shared) key_rem) r in
                (node edge meta pre l child, removed)
          ]
        ]
      ]

  unfoldable pub contains_inner : List Bool → Node R M → Bool
  contains_inner key_rem nil = false
  contains_inner key_rem (node edge meta pre l r) =
      let shared = common_prefix_len edge key_rem in
      elim (ltb shared (length edge)) [
        | true ↦ false
        | false ↦ elim (shared == length key_rem) [
          | true ↦ is_some meta
          | false ↦ elim (bit key_rem shared) [
            | false ↦ contains_inner (drop (suc shared) key_rem) l
            | true ↦ contains_inner (drop (suc shared) key_rem) r
          ]
        ]
      ]

  unfoldable pub clear_inner : Node R M → Node R M
  clear_inner nil = nil
  clear_inner (node edge meta pre l r) = node [] none pre nil nil

-- `CompressedTree`
pub record CompressedTree (R M : Type 0) : Type 0 where
  pub root : Node R M

unfoldable pub new : {R M : Type 0} → CompressedTree R M
new = record { root = node [] none none nil nil }

unfoldable pub clear : {R M : Type 0} → CompressedTree R M → CompressedTree R M
clear t = record { root = clear_inner t.root }

-- All the bits that `lookup` reads of an address.
unfoldable pub address_bits : IpAddr → List Bool
address_bits ip = bits_from (ip_to_bytes ip) 0 128

module _ {N4 N6 : Type 0} ⦃a : Network 4 N4⦄ ⦃b : Network 16 N6⦄ where
  -- The first `prefix` bits of the bytes of the network's address.
  unfoldable pub key_of : IpNetwork N4 N6 → List Bool
  key_of p = bits_from (ip_to_bytes (network p)) 0 (prefix p)

  module _ {M : Type 0} where
    unfoldable pub insert :
        CompressedTree (IpNetwork N4 N6) M
        → IpNetwork N4 N6
        → M
        → CompressedTree (IpNetwork N4 N6) M × Result Bool String
    insert t p m =
        let (root, is_new) = insert_inner (key_of p) p m t.root in
        (record { root = root }, ok is_new)

    unfoldable pub lookup : CompressedTree (IpNetwork N4 N6) M → IpAddr → Option M
    lookup t ip = lookup_inner (address_bits ip) t.root

    unfoldable pub remove :
        CompressedTree (IpNetwork N4 N6) M
        → IpNetwork N4 N6
        → CompressedTree (IpNetwork N4 N6) M × Option M
    remove t p =
        let (root, removed) = remove_inner (key_of p) t.root in (record { root = root }, removed)

    unfoldable pub contains : CompressedTree (IpNetwork N4 N6) M → IpNetwork N4 N6 → Bool
    contains t p = contains_inner (key_of p) t.root
