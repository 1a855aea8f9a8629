-- ===== src/Uncompressed.antt =====
-- The bit-by-bit trie: `UncompressedTree` of lib/rust/engine/src/tree.rs, and its search,
-- `longest_prefix_match_binary` of lib/rust/engine/src/lpm.rs.
-- A node is owned by one parent, so the shared pointers are a tree of values. The fields that the
-- tree never reads (`bit`, padding) are left out; `nil` is the `None` of a child pointer.
pub mod Fits
pub mod Search
pub mod Routes
pub mod Count
pub mod Again
pub mod Map
pub mod Lookup
use Prim.Native.String.{String}
use radixip.Base.{
  Result, ok, ℕ, zero, suc, ◌+◌, ◌≡◌, Bool, true, false, Option, none, some, List, ◌==◌, is_some,
  is_none, if◌then◌else◌,
}
use radixip.Net.{IpAddr, Network, IpNetwork, network, prefix}
use radixip.Lpm.{get_bit, network_contains_ip}

-- `Option<Arc<dyn Node>>`
pub data Node (R M : Type 0) : Type 0 where
  nil : Node R M
  node : (metadata : Option M) (prefix : Option R) (left : Node R M) (right : Node R M) → Node R M

-- The bit tested at each level: 0 goes left.
unfoldable pub goes_left : IpAddr → ℕ → Bool
goes_left ip depth = get_bit ip depth == 0

module _ {R M : Type 0} where
  abbrev pub metadata : Node R M → Option M
  metadata nil = none
  metadata (node m p l r) = m

  -- `NodeBuilder::build`
  abbrev pub build : Node R M
  build = node none none nil nil

  -- `left()` or `right()`, by the bit.
  abbrev pub child : Bool → Node R M → Node R M
  child _ nil = nil
  child true (node m p l r) = l
  child false (node m p l r) = r

  -- `set_left` or `set_right`, by the bit.
  abbrev pub set_child : Bool → Node R M → Node R M → Node R M
  set_child _ c nil = nil
  set_child true c (node m p l r) = node m p c r
  set_child false c (node m p l r) = node m p l c

  -- A missing child is built.
  abbrev pub or_build : Node R M → Node R M
  or_build nil = build
  or_build (node m p l r) = node m p l r

  -- `set_prefix` and `set_metadata`
  abbrev pub store : R → M → Node R M → Node R M
  store route meta nil = nil
  store route meta (node m p l r) = node (some meta) (some route) l r

  abbrev pub clear_metadata : Node R M → Node R M
  clear_metadata nil = nil
  clear_metadata (node m p l r) = node none p l r

  -- The loop `for depth in 0..prefix_len` of `insert`, with the rounds left; the nodes on the way
  -- are rebuilt with their new child. The flag is `is_new`.
  unfoldable pub insert_at : ℕ → ℕ → IpAddr → R → M → Node R M → Node R M × Bool
  insert_at zero depth ip route meta current =
      (store route meta current, is_none (metadata current))
  insert_at (suc rounds) depth ip route meta current =
      let left = goes_left ip depth in
      let (next, is_new) =
        insert_at rounds (suc depth) ip route meta (or_build (child left current)) in
      (set_child left next current, is_new)

  -- The loop of `remove`: `None` leaves the tree as it was.
  unfoldable pub remove_at : ℕ → ℕ → IpAddr → Node R M → Node R M × Option M
  remove_at _ depth ip nil = (nil, none)
  remove_at zero depth ip (node m p l r) = (clear_metadata (node m p l r), m)
  remove_at (suc rounds) depth ip (node m p l r) =
      let left = goes_left ip depth in
      let (next, removed) = remove_at rounds (suc depth) ip (child left (node m p l r)) in
      (set_child left next (node m p l r), removed)

  -- The loop of `contains`.
  unfoldable pub contains_at : ℕ → ℕ → IpAddr → Node R M → Bool
  contains_at _ depth ip nil = false
  contains_at zero depth ip (node m p l r) = is_some m
  contains_at (suc rounds) depth ip (node m p l r) =
      contains_at rounds (suc depth) ip (child (goes_left ip depth) (node m p l r))

-- `UncompressedTree`; `node_builder` only makes empty nodes.
pub record UncompressedTree (R M : Type 0) : Type 0 where
  pub root : Node R M

unfoldable pub new : {R M : Type 0} → UncompressedTree R M
new = record { root = build }

module _ {N4 N6 : Type 0} ⦃a : Network 4 N4⦄ ⦃b : Network 16 N6⦄ {M : Type 0} where
  -- One visited node of `longest_prefix_match_binary`.
  unfoldable pub visit : IpAddr → Option M → Option (IpNetwork N4 N6) → Option M → Option M
  visit ip meta none best = best
  visit ip none (some p) best = best
  visit ip (some m) (some p) best = if network_contains_ip p ip then some m else best

  -- The `while let` loop of `longest_prefix_match_binary`.
  unfoldable pub search_from : Node (IpNetwork N4 N6) M → IpAddr → ℕ → Option M → Option M
  search_from nil ip depth best = best
  search_from (node m p l r) ip depth best = elim (goes_left ip depth) [
    | true ↦ search_from l ip (suc depth) (visit ip m p best)
    | false ↦ search_from r ip (suc depth) (visit ip m p best)
  ]

  -- The root is visited before the loop, which starts at depth 1.
  unfoldable pub longest_prefix_match_binary : Node (IpNetwork N4 N6) M → IpAddr → Option M
  longest_prefix_match_binary nil ip = none
  longest_prefix_match_binary (node m p l r) ip =
      let best_match = visit ip m p none in
      let current = child (goes_left ip 0) (node m p l r) in search_from current ip 1 best_match

  unfoldable pub insert :
      UncompressedTree (IpNetwork N4 N6) M
      → IpNetwork N4 N6
      → M
      → UncompressedTree (IpNetwork N4 N6) M × Result Bool String
  insert t p meta =
      let (root, is_new) = insert_at (prefix p) 0 (network p) p meta t.root in
      (record { root = root }, ok is_new)

  unfoldable pub lookup : UncompressedTree (IpNetwork N4 N6) M → IpAddr → Option M
  lookup t ip = longest_prefix_match_binary t.root ip

  unfoldable pub remove :
      UncompressedTree (IpNetwork N4 N6) M
      → IpNetwork N4 N6
      → UncompressedTree (IpNetwork N4 N6) M × Option M
  remove t p =
      let (root, removed) = remove_at (prefix p) 0 (network p) t.root in
      (record { root = root }, removed)

  unfoldable pub contains : UncompressedTree (IpNetwork N4 N6) M → IpNetwork N4 N6 → Bool
  contains t p = contains_at (prefix p) 0 (network p) t.root

-- `clear` drops both children of the root, and keeps the root's own fields.
unfoldable pub clear : {R M : Type 0} → UncompressedTree R M → UncompressedTree R M
clear t = record { root = set_child false nil (set_child true nil t.root) }
