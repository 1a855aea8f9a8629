-- ===== src/Nodes/Trie.antt =====
-- The nodes of the uncompressed tree, lib/rust/engine/src/node/uncompressed.rs.
use radixip.Base.{
  ℕ, ◌+◌, ◌-◌, ◌%◌, ◌^◌, ◌≡◌, refl, subst, Bool, true, false, Option, none, some, List, [],
  if◌then◌else◌, ◌==◌, Key, find, put, erase,
}
use radixip.Nodes.{Node}

module _ (C M N : Type 0) where
  pub record NormalTrieNode : Type 0 where
    pub bit : Option ℕ
    pub left : Option C
    pub right : Option C
    pub metadata : Option M
    pub prefix : Option N

  -- An atomic byte for the bit: 0 for none.
  pub record AtomicTrieNode : Type 0 where
    pub bit : ℕ
    pub left : Option C
    pub right : Option C
    pub metadata : Option M
    pub prefix : Option N

  pub record PaddedTrieNode : Type 0 where
    pub bit : Option ℕ
    pub left : Option C
    pub right : Option C
    pub metadata : Option M
    pub prefix : Option N

pub data ChildKey : Type 0 where
  left_key right_key : ChildKey

abbrev pub same_child : ChildKey → ChildKey → Bool
same_child left_key left_key = true
same_child left_key right_key = false
same_child right_key left_key = false
same_child right_key right_key = true

pub same_child→eq : (x y : ChildKey) → same_child x y ≡ true → x ≡ y
same_child→eq left_key left_key h = refl
same_child→eq left_key right_key h = cc
same_child→eq right_key left_key h = cc
same_child→eq right_key right_key h = refl

pub same_child_refl : (x : ChildKey) → same_child x x ≡ true
same_child_refl left_key = refl
same_child_refl right_key = refl

instance abbrev pub child_key : Key ChildKey
child_key = record {
  same = same_child;
  same_iff =
      λ x y. (same_child→eq x y, λ e. subst (λ z. same_child x z ≡ true) e (same_child_refl x));
}

-- `DashMap` of the children.
abbrev pub Children : Type 0 → Type 0
Children C = List (ChildKey × C)

abbrev pub set_child : {C : Type 0} → ChildKey → Option C → Children C → Children C
set_child k (some n) children = put k n children
set_child k none children = erase k children

-- `AtomicU8` for an optional bit.
abbrev pub decode_bit : ℕ → Option ℕ
decode_bit b = if b == 0 then none else some (b - 1)

abbrev pub encode_bit : ℕ → ℕ
encode_bit b = (b + 1) % 2 ^ 8

module _ (C M N : Type 0) where
  pub record LockFreeTrieNode : Type 0 where
    pub bit : ℕ
    pub children : Children C
    pub metadata : Option M
    pub prefix : Option N

module _ {C M N : Type 0} where
  abbrev pub new_normal_trie : NormalTrieNode C M N
  new_normal_trie = record { bit = none; left = none; right = none; metadata = none; prefix = none }

  abbrev pub normal_trie : Node C M N (NormalTrieNode C M N)
  normal_trie = record {
    bit = λ s. s.bit;
    left = λ s. s.left;
    right = λ s. s.right;
    metadata = λ s. s.metadata;
    prefix = λ s. s.prefix;
    set_left = λ c s. record s { left = c };
    set_right = λ c s. record s { right = c };
    set_metadata = λ m s. record s { metadata = some m };
    clear_metadata = λ s. record s { metadata = none };
    set_bit = λ b s. record s { bit = some b };
    set_prefix = λ n s. record s { prefix = some n };
    edge_bits = λ s. none;
    edge_len = λ s. none;
    set_edge = λ bits len s. none;
  }

  abbrev pub new_atomic_trie : AtomicTrieNode C M N
  new_atomic_trie = record { bit = 0; left = none; right = none; metadata = none; prefix = none }

  abbrev pub atomic_trie : Node C M N (AtomicTrieNode C M N)
  atomic_trie = record {
    bit = λ s. decode_bit s.bit;
    left = λ s. s.left;
    right = λ s. s.right;
    metadata = λ s. s.metadata;
    prefix = λ s. s.prefix;
    set_left = λ c s. record s { left = c };
    set_right = λ c s. record s { right = c };
    set_metadata = λ m s. record s { metadata = some m };
    clear_metadata = λ s. record s { metadata = none };
    set_bit = λ b s. record s { bit = encode_bit b };
    set_prefix = λ n s. record s { prefix = some n };
    edge_bits = λ s. none;
    edge_len = λ s. none;
    set_edge = λ bits len s. none;
  }

  abbrev pub new_padded_trie : PaddedTrieNode C M N
  new_padded_trie = record { bit = none; left = none; right = none; metadata = none; prefix = none }

  abbrev pub padded_trie : Node C M N (PaddedTrieNode C M N)
  padded_trie = record {
    bit = λ s. s.bit;
    left = λ s. s.left;
    right = λ s. s.right;
    metadata = λ s. s.metadata;
    prefix = λ s. s.prefix;
    set_left = λ c s. record s { left = c };
    set_right = λ c s. record s { right = c };
    set_metadata = λ m s. record s { metadata = some m };
    clear_metadata = λ s. record s { metadata = none };
    set_bit = λ b s. record s { bit = some b };
    set_prefix = λ n s. record s { prefix = some n };
    edge_bits = λ s. none;
    edge_len = λ s. none;
    set_edge = λ bits len s. none;
  }

  abbrev pub new_lock_free_trie : LockFreeTrieNode C M N
  new_lock_free_trie = record { bit = 0; children = []; metadata = none; prefix = none }

  abbrev pub lock_free_trie : Node C M N (LockFreeTrieNode C M N)
  lock_free_trie = record {
    bit = λ s. decode_bit s.bit;
    left = λ s. find left_key s.children;
    right = λ s. find right_key s.children;
    metadata = λ s. s.metadata;
    prefix = λ s. s.prefix;
    set_left = λ c s. record s { children = set_child left_key c s.children };
    set_right = λ c s. record s { children = set_child right_key c s.children };
    set_metadata = λ m s. record s { metadata = some m };
    clear_metadata = λ s. record s { metadata = none };
    set_bit = λ b s. record s { bit = encode_bit b };
    set_prefix = λ n s. record s { prefix = some n };
    edge_bits = λ s. none;
    edge_len = λ s. none;
    set_edge = λ bits len s. none;
  }
