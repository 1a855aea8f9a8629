-- ===== src/Nodes.antt =====
-- The nodes of lib/rust/engine/src/node: the trait `Node` of traits.rs, its operations as data, and
-- what a node has to answer.
pub mod Trie
pub mod Radix
pub mod Steps
pub mod Wrapper
use radixip.Base.{ℕ, ◌<◌, Option, none, some, List, [], ◌∷◌, ◌>>=◌}

-- `Node`, for nodes with the state `S`. A setter of an edge answers `none` where the code panics.
pub record Node (C M N S : Type 0) : Type 0 where
  pub bit : S → Option ℕ
  pub left : S → Option C
  pub right : S → Option C
  pub metadata : S → Option M
  pub prefix : S → Option N
  pub set_left : Option C → S → S
  pub set_right : Option C → S → S
  pub set_metadata : M → S → S
  pub clear_metadata : S → S
  pub set_bit : ℕ → S → S
  pub set_prefix : N → S → S
  pub edge_bits : S → Option (List ℕ)
  pub edge_len : S → Option ℕ
  pub set_edge : (bits : List ℕ) (len : ℕ) → S → Option S

-- One call of a setter.
pub data Setter (C M N : Type 0) : Type 0 where
  left_call right_call : Option C → Setter C M N
  metadata_call : M → Setter C M N
  clear_call : Setter C M N
  bit_call : ℕ → Setter C M N
  prefix_call : N → Setter C M N
  edge_call : (bits : List ℕ) (len : ℕ) → Setter C M N

-- The arguments of the calls are in range: an atomic byte keeps a bit below 255.
abbrev pub IsSmall : {C M N : Type 0} → Setter C M N → Type 0
IsSmall (bit_call bit) = bit < 255
IsSmall _ = Unit

-- What the getters answer.
pub record View (C M N : Type 0) : Type 0 where
  pub bit : Option ℕ
  pub left : Option C
  pub right : Option C
  pub metadata : Option M
  pub prefix : Option N
  pub edge_bits : Option (List ℕ)
  pub edge_len : Option ℕ

module _ {C M N S : Type 0} (node : Node C M N S) where
  unfoldable pub call : Setter C M N → S → Option S
  call (left_call c) s = some (node.set_left c s)
  call (right_call c) s = some (node.set_right c s)
  call (metadata_call m) s = some (node.set_metadata m s)
  call clear_call s = some (node.clear_metadata s)
  call (bit_call b) s = some (node.set_bit b s)
  call (prefix_call n) s = some (node.set_prefix n s)
  call (edge_call bits len) s = node.set_edge bits len s

  unfoldable pub calls : List (Setter C M N) → S → Option S
  calls [] s = some s
  calls (c ∷ cs) s = call c s >>= calls cs

  unfoldable pub view : S → View C M N
  view s = record {
    bit = node.bit s;
    left = node.left s;
    right = node.right s;
    metadata = node.metadata s;
    prefix = node.prefix s;
    edge_bits = node.edge_bits s;
    edge_len = node.edge_len s;
  }

-- The two kinds of nodes: of the uncompressed tree, and of the compressed one.
pub data Kind : Type 0 where
  trie radix : Kind

abbrev pub zeros : List ℕ
zeros = 0 ∷ 0 ∷ 0 ∷ 0 ∷ 0 ∷ 0 ∷ 0 ∷ 0 ∷ 0 ∷ 0 ∷ 0 ∷ 0 ∷ 0 ∷ 0 ∷ 0 ∷ 0 ∷ []

module _ {C M N : Type 0} where
  -- What a new node answers.
  unfoldable pub blank : Kind → View C M N
  blank trie = record {
    bit = none;
    left = none;
    right = none;
    metadata = none;
    prefix = none;
    edge_bits = none;
    edge_len = none;
  }
  blank radix = record {
    bit = none;
    left = none;
    right = none;
    metadata = none;
    prefix = none;
    edge_bits = some zeros;
    edge_len = some 0;
  }

  -- What a call does to the answers: a trie node has no edge, and a radix node no bit.
  unfoldable pub expect : Kind → Setter C M N → View C M N → Option (View C M N)
  expect _ (left_call c) v = some (record v { left = c })
  expect _ (right_call c) v = some (record v { right = c })
  expect _ (metadata_call m) v = some (record v { metadata = some m })
  expect _ clear_call v = some (record v { metadata = none })
  expect trie (bit_call b) v = some (record v { bit = some b })
  expect radix (bit_call b) v = some v
  expect _ (prefix_call n) v = some (record v { prefix = some n })
  expect trie (edge_call bits len) v = none
  expect radix (edge_call bits len) v =
      some (record v { edge_bits = some bits; edge_len = some len })

  unfoldable pub expects : Kind → List (Setter C M N) → View C M N → Option (View C M N)
  expects k [] v = some v
  expects k (c ∷ cs) v = expect k c v >>= expects k cs
