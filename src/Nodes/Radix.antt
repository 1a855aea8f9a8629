-- ===== src/Nodes/Radix.antt =====
-- The nodes of the compressed tree, lib/rust/engine/src/node/compressed.rs.
use radixip.Base.{ℕ, ◌%◌, ◌^◌, Option, none, some, List, [], if◌then◌else◌, ltb, find}
use radixip.Nodes.{Node, zeros}
use radixip.Nodes.Trie.{left_key, right_key, child_key, Children, set_child}

module _ (C M N : Type 0) where
  pub record NormalRadixNode : Type 0 where
    pub edge_bits : List ℕ
    pub edge_len : ℕ
    pub metadata : Option M
    pub prefix : Option N
    pub left : Option C
    pub right : Option C

  -- A byte for the length of the edge; 255 refers to `edge_len_overflow`.
  pub record AtomicRadixNode : Type 0 where
    pub atomic_edge_len : ℕ
    pub edge_bits : List ℕ
    pub edge_len_overflow : ℕ
    pub metadata : Option M
    pub prefix : Option N
    pub left : Option C
    pub right : Option C

  pub record PaddedRadixNode : Type 0 where
    pub edge_bits : List ℕ
    pub edge_len : ℕ
    pub metadata : Option M
    pub prefix : Option N
    pub left : Option C
    pub right : Option C

  pub record LockFreeRadixNode : Type 0 where
    pub edge_bits : List ℕ
    pub edge_len : ℕ
    pub metadata : Option M
    pub prefix : Option N
    pub children : Children C

module _ {C M N : Type 0} where
  -- `AtomicRadixNode::edge_len`
  abbrev pub atomic_len : AtomicRadixNode C M N → Option ℕ
  atomic_len s =
      if ltb s.atomic_edge_len 255 then some s.atomic_edge_len else some s.edge_len_overflow

  -- `AtomicRadixNode::set_edge`, after the write of the bits.
  abbrev pub store_len : (len : ℕ) → AtomicRadixNode C M N → AtomicRadixNode C M N
  store_len len s =
      if ltb len 255
      then record s { atomic_edge_len = len % 2 ^ 8 }
      else record s { atomic_edge_len = 255; edge_len_overflow = len }

  abbrev pub new_normal_radix : NormalRadixNode C M N
  new_normal_radix = record {
    edge_bits = zeros;
    edge_len = 0;
    metadata = none;
    prefix = none;
    left = none;
    right = none;
  }

  abbrev pub normal_radix : Node C M N (NormalRadixNode C M N)
  normal_radix = record {
    bit = λ s. none;
    left = λ s. s.left;
    right = λ s. s.right;
    metadata = λ s. s.metadata;
    prefix = λ s. s.prefix;
    set_left = λ c s. record s { left = c };
    set_right = λ c s. record s { right = c };
    set_metadata = λ m s. record s { metadata = some m };
    clear_metadata = λ s. record s { metadata = none };
    set_bit = λ b s. s;
    set_prefix = λ n s. record s { prefix = some n };
    edge_bits = λ s. some s.edge_bits;
    edge_len = λ s. some s.edge_len;
    set_edge = λ bits len s. some (record s { edge_bits = bits; edge_len = len });
  }

  abbrev pub new_atomic_radix : AtomicRadixNode C M N
  new_atomic_radix = record {
    atomic_edge_len = 0;
    edge_bits = zeros;
    edge_len_overflow = 0;
    metadata = none;
    prefix = none;
    left = none;
    right = none;
  }

  abbrev pub atomic_radix : Node C M N (AtomicRadixNode C M N)
  atomic_radix = record {
    bit = λ s. none;
    left = λ s. s.left;
    right = λ s. s.right;
    metadata = λ s. s.metadata;
    prefix = λ s. s.prefix;
    set_left = λ c s. record s { left = c };
    set_right = λ c s. record s { right = c };
    set_metadata = λ m s. record s { metadata = some m };
    clear_metadata = λ s. record s { metadata = none };
    set_bit = λ b s. s;
    set_prefix = λ n s. record s { prefix = some n };
    edge_bits = λ s. some s.edge_bits;
    edge_len = atomic_len;
    set_edge = λ bits len s. some (store_len len (record s { edge_bits = bits }));
  }

  abbrev pub new_padded_radix : PaddedRadixNode C M N
  new_padded_radix = record {
    edge_bits = zeros;
    edge_len = 0;
    metadata = none;
    prefix = none;
    left = none;
    right = none;
  }

  abbrev pub padded_radix : Node C M N (PaddedRadixNode C M N)
  padded_radix = record {
    bit = λ s. none;
    left = λ s. s.left;
    right = λ s. s.right;
    metadata = λ s. s.metadata;
    prefix = λ s. s.prefix;
    set_left = λ c s. record s { left = c };
    set_right = λ c s. record s { right = c };
    set_metadata = λ m s. record s { metadata = some m };
    clear_metadata = λ s. record s { metadata = none };
    set_bit = λ b s. s;
    set_prefix = λ n s. record s { prefix = some n };
    edge_bits = λ s. some s.edge_bits;
    edge_len = λ s. some s.edge_len;
    set_edge = λ bits len s. some (record s { edge_bits = bits; edge_len = len });
  }

  abbrev pub new_lock_free_radix : LockFreeRadixNode C M N
  new_lock_free_radix = record {
    edge_bits = zeros;
    edge_len = 0;
    metadata = none;
    prefix = none;
    children = [];
  }

  abbrev pub lock_free_radix : Node C M N (LockFreeRadixNode C M N)
  lock_free_radix = record {
    bit = λ s. none;
    left = λ s. find left_key s.children;
    right = λ s. find right_key s.children;
    metadata = λ s. s.metadata;
    prefix = λ s. s.prefix;
    set_left = λ c s. record s { children = set_child left_key c s.children };
    set_right = λ c s. record s { children = set_child right_key c s.children };
    set_metadata = λ m s. record s { metadata = some m };
    clear_metadata = λ s. record s { metadata = none };
    set_bit = λ b s. s;
    set_prefix = λ n s. record s { prefix = some n };
    edge_bits = λ s. some s.edge_bits;
    edge_len = λ s. some s.edge_len;
    set_edge = λ bits len s. some (record s { edge_bits = bits; edge_len = len });
  }
