-- ===== src/Nodes/Wrapper.antt =====
-- The node of any variant and its builder, lib/rust/engine/src/node/mod.rs.
pub mod Views
use radixip.Base.{ℕ, Bool, true, false, Option, none, some, List, map_option, if◌then◌else◌}
use radixip.Nodes.{Node, Kind, trie, radix}
use radixip.Nodes.Trie.{
  NormalTrieNode, AtomicTrieNode, PaddedTrieNode, LockFreeTrieNode, normal_trie, atomic_trie,
  padded_trie, lock_free_trie, new_normal_trie, new_atomic_trie, new_padded_trie,
  new_lock_free_trie,
}
use radixip.Nodes.Radix.{
  NormalRadixNode, AtomicRadixNode, PaddedRadixNode, LockFreeRadixNode, normal_radix, atomic_radix,
  padded_radix, lock_free_radix, new_normal_radix, new_atomic_radix, new_padded_radix,
  new_lock_free_radix,
}

-- `NodeVariant`
pub data NodeVariant : Type 0 where
  normal_trie_node atomic_trie_node padded_trie_node lock_free_trie_node normal_radix_node
        atomic_radix_node padded_radix_node lock_free_radix_node :
      NodeVariant

abbrev pub is_compressed : NodeVariant → Bool
is_compressed normal_trie_node = false
is_compressed atomic_trie_node = false
is_compressed padded_trie_node = false
is_compressed lock_free_trie_node = false
is_compressed normal_radix_node = true
is_compressed atomic_radix_node = true
is_compressed padded_radix_node = true
is_compressed lock_free_radix_node = true

pub data NodeWrapper (C M N : Type 0) : Type 0 where
  normal_trie_node : NormalTrieNode C M N → NodeWrapper C M N
  atomic_trie_node : AtomicTrieNode C M N → NodeWrapper C M N
  padded_trie_node : PaddedTrieNode C M N → NodeWrapper C M N
  lock_free_trie_node : LockFreeTrieNode C M N → NodeWrapper C M N
  normal_radix_node : NormalRadixNode C M N → NodeWrapper C M N
  atomic_radix_node : AtomicRadixNode C M N → NodeWrapper C M N
  padded_radix_node : PaddedRadixNode C M N → NodeWrapper C M N
  lock_free_radix_node : LockFreeRadixNode C M N → NodeWrapper C M N

module _ {C M N : Type 0} where
  -- `dispatch!`, of a getter, of a setter, and of a setter that may panic.
  unfoldable pub dispatch :
      {A : Type 0} → ((S : Type 0) → Node C M N S → S → A) → NodeWrapper C M N → A
  dispatch f (normal_trie_node n) = f _ normal_trie n
  dispatch f (atomic_trie_node n) = f _ atomic_trie n
  dispatch f (padded_trie_node n) = f _ padded_trie n
  dispatch f (lock_free_trie_node n) = f _ lock_free_trie n
  dispatch f (normal_radix_node n) = f _ normal_radix n
  dispatch f (atomic_radix_node n) = f _ atomic_radix n
  dispatch f (padded_radix_node n) = f _ padded_radix n
  dispatch f (lock_free_radix_node n) = f _ lock_free_radix n

  unfoldable pub dispatch_set :
      ((S : Type 0) → Node C M N S → S → S) → NodeWrapper C M N → NodeWrapper C M N
  dispatch_set f (normal_trie_node n) = normal_trie_node (f _ normal_trie n)
  dispatch_set f (atomic_trie_node n) = atomic_trie_node (f _ atomic_trie n)
  dispatch_set f (padded_trie_node n) = padded_trie_node (f _ padded_trie n)
  dispatch_set f (lock_free_trie_node n) = lock_free_trie_node (f _ lock_free_trie n)
  dispatch_set f (normal_radix_node n) = normal_radix_node (f _ normal_radix n)
  dispatch_set f (atomic_radix_node n) = atomic_radix_node (f _ atomic_radix n)
  dispatch_set f (padded_radix_node n) = padded_radix_node (f _ padded_radix n)
  dispatch_set f (lock_free_radix_node n) = lock_free_radix_node (f _ lock_free_radix n)

  unfoldable pub dispatch_edge :
      ((S : Type 0) → Node C M N S → S → Option S) → NodeWrapper C M N → Option (NodeWrapper C M N)
  dispatch_edge f (normal_trie_node n) = map_option normal_trie_node (f _ normal_trie n)
  dispatch_edge f (atomic_trie_node n) = map_option atomic_trie_node (f _ atomic_trie n)
  dispatch_edge f (padded_trie_node n) = map_option padded_trie_node (f _ padded_trie n)
  dispatch_edge f (lock_free_trie_node n) = map_option lock_free_trie_node (f _ lock_free_trie n)
  dispatch_edge f (normal_radix_node n) = map_option normal_radix_node (f _ normal_radix n)
  dispatch_edge f (atomic_radix_node n) = map_option atomic_radix_node (f _ atomic_radix n)
  dispatch_edge f (padded_radix_node n) = map_option padded_radix_node (f _ padded_radix n)
  dispatch_edge f (lock_free_radix_node n) = map_option lock_free_radix_node (f _ lock_free_radix n)

  abbrev pub wrapper : Node C M N (NodeWrapper C M N)
  wrapper = record {
    bit = dispatch (λ S n s. n.bit s);
    left = dispatch (λ S n s. n.left s);
    right = dispatch (λ S n s. n.right s);
    metadata = dispatch (λ S n s. n.metadata s);
    prefix = dispatch (λ S n s. n.prefix s);
    set_left = λ c. dispatch_set (λ S n s. n.set_left c s);
    set_right = λ c. dispatch_set (λ S n s. n.set_right c s);
    set_metadata = λ m. dispatch_set (λ S n s. n.set_metadata m s);
    clear_metadata = dispatch_set (λ S n s. n.clear_metadata s);
    set_bit = λ b. dispatch_set (λ S n s. n.set_bit b s);
    set_prefix = λ p. dispatch_set (λ S n s. n.set_prefix p s);
    edge_bits = dispatch (λ S n s. n.edge_bits s);
    edge_len = dispatch (λ S n s. n.edge_len s);
    set_edge = λ bits len. dispatch_edge (λ S n s. n.set_edge bits len s);
  }

  unfoldable pub build : NodeVariant → NodeWrapper C M N
  build normal_trie_node = normal_trie_node new_normal_trie
  build atomic_trie_node = atomic_trie_node new_atomic_trie
  build padded_trie_node = padded_trie_node new_padded_trie
  build lock_free_trie_node = lock_free_trie_node new_lock_free_trie
  build normal_radix_node = normal_radix_node new_normal_radix
  build atomic_radix_node = atomic_radix_node new_atomic_radix
  build padded_radix_node = padded_radix_node new_padded_radix
  build lock_free_radix_node = lock_free_radix_node new_lock_free_radix

  unfoldable pub build_leaf : NodeVariant → N → M → NodeWrapper C M N
  build_leaf variant network metadata =
      wrapper.set_metadata metadata (wrapper.set_prefix network (build variant))

-- The kind of node that a variant is.
abbrev pub kind_of : NodeVariant → Kind
kind_of v = if is_compressed v then radix else trie
