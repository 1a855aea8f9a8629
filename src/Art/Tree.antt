-- ===== src/Art/Tree.antt =====
-- The operations of lib/rust/engine/src/art/tree.rs. A function over a key recurs on the bytes of the
-- key that are left, `ceil(prefix_len / 8)` at the root.
use radixip.Base.{
  ℕ, zero, suc, ◌+◌, ◌-◌, ◌*◌, ◌/◌, ◌%◌, ◌^◌, Bool, true, false, ◌&&◌, Option, none, some, List, [],
  ◌∷◌, length, get_or, ltb, ◌==◌, if◌then◌else◌,
}
use radixip.Art.{
  NodeBox, null, inner, leaf, Inner, n4, unused, masked, matches, is_null, find_child, add_child,
  remove_child, update_child,
}

-- `index_byte`; past the end of the key, where the code panics, 0. A prefix is never longer than its
-- key.
unfoldable pub index_byte : (key : List ℕ) (depth prefix_len : ℕ) → ℕ
index_byte key depth prefix_len =
    if depth == prefix_len / 8 && ltb 0 (prefix_len % 8)
    then masked (prefix_len % 8) (get_or key depth 0)
    else get_or key depth 0

abbrev pub zeros : ℕ → List ℕ
zeros zero = []
zeros (suc n) = 0 ∷ zeros n

-- `make_leaf`, the masked key: the first `full_bytes` bytes, the boundary byte, and zeros up to 16.
unfoldable pub mask_key : (key : List ℕ) (full_bytes remain_bits room : ℕ) → List ℕ
mask_key [] full_bytes remain_bits room = zeros room
mask_key (b ∷ key) full_bytes remain_bits zero = []
mask_key (b ∷ key) zero remain_bits (suc room) =
    (if ltb 0 remain_bits then masked remain_bits b else 0) ∷ zeros room
mask_key (b ∷ key) (suc full_bytes) remain_bits (suc room) =
    b ∷ mask_key key full_bytes remain_bits room

module _ {M : Type 0} where
  unfoldable pub make_leaf : (key : List ℕ) (prefix_len : ℕ) → M → NodeBox M
  make_leaf key prefix_len value =
      leaf value prefix_len (mask_key key (prefix_len / 8) (prefix_len % 8) 16)

  -- A leaf that stands where a longer key goes, and the new key, below a new node.
  unfoldable pub expand :
      (value : M) (len : ℕ) (masked_key : List ℕ) (depth new_b : ℕ) (new_child : NodeBox M)
      → NodeBox M
  expand value len masked_key depth new_b new_child =
      let existing_b =
        if ltb depth (len / 8)
        then index_byte masked_key depth len
        else get_or masked_key depth 0 in
      inner
        (add_child (add_child (n4 unused) existing_b (leaf value len masked_key)) new_b new_child)

  -- `insert_node`, at an inner node: `recur` inserts below the child, `fresh` is the new leaf.
  unfoldable pub insert_into :
      Inner M → (b : ℕ) (recur : NodeBox M → NodeBox M) (fresh : NodeBox M) → NodeBox M
  insert_into n b recur fresh = elim (find_child n b) [
    | some child ↦ inner (update_child n b (recur child))
    | none ↦ inner (add_child n b fresh)
  ]

  -- `insert_node`; where the key ends, a leaf that is updated in place is a new leaf.
  unfoldable pub insert_node :
      (key : List ℕ) (prefix_len : ℕ) (value : M) (left depth : ℕ) → NodeBox M → NodeBox M
  insert_node key prefix_len value zero depth node = make_leaf key prefix_len value
  insert_node key prefix_len value (suc left) depth (leaf v len masked_key) =
      expand v len masked_key depth (index_byte key depth prefix_len)
        (insert_node key prefix_len value left (suc depth) null)
  insert_node key prefix_len value (suc left) depth null =
      insert_into (n4 unused) (index_byte key depth prefix_len)
        (insert_node key prefix_len value left (suc depth)) (make_leaf key prefix_len value)
  insert_node key prefix_len value (suc left) depth (inner n) =
      insert_into n (index_byte key depth prefix_len)
        (insert_node key prefix_len value left (suc depth)) (make_leaf key prefix_len value)

  -- `search`, with the bytes of the key from the depth on.
  unfoldable pub search_node : (key rest : List ℕ) → NodeBox M → Option M
  search_node key rest null = none
  search_node key rest (leaf value len masked_key) =
      if matches len masked_key key then some value else none
  search_node key [] (inner n) = none
  search_node key (b ∷ rest) (inner n) = elim (find_child n b) [
    | some child ↦ search_node key rest child
    | none ↦ none
  ]

  -- The end of `delete_node`, after the call on the child.
  unfoldable pub deleted_below : Inner M → (b : ℕ) → NodeBox M × Bool → NodeBox M × Bool
  deleted_below n b (child, deleted) =
      if deleted
      then (if is_null child
          then (inner (remove_child n b), true)
          else (inner (update_child n b child), true))
      else (inner n, false)

  unfoldable pub delete_node :
      (key : List ℕ) (prefix_len left depth : ℕ) → NodeBox M → NodeBox M × Bool
  delete_node key prefix_len left depth null = (null, false)
  delete_node key prefix_len left depth (leaf value len masked_key) =
      if len == prefix_len && matches len masked_key key
      then (null, true)
      else (leaf value len masked_key, false)
  delete_node key prefix_len zero depth (inner n) = (inner n, false)
  delete_node key prefix_len (suc left) depth (inner n) =
      let b = index_byte key depth prefix_len in
      elim (find_child n b) [
        | none ↦ (inner n, false)
        | some child ↦ deleted_below n b (delete_node key prefix_len left (suc depth) child)
      ]

-- `Tree`
pub record Tree (M : Type 0) : Type 0 where
  pub root : NodeBox M
  pub size : ℕ

-- `ceil(prefix_len / 8)`
abbrev pub max_depth : ℕ → ℕ
max_depth prefix_len = (prefix_len + 7) / 8

module _ {M : Type 0} where
  unfoldable pub new : Tree M
  new = record { root = inner (n4 unused); size = 0 }

  unfoldable pub insert_prefix : Tree M → (ip : List ℕ) (prefix_len : ℕ) → M → Tree M
  insert_prefix t ip prefix_len value = record {
    root = insert_node ip prefix_len value (max_depth prefix_len) 0 t.root;
    size = (t.size + 1) % 2 ^ 64;
  }

  unfoldable pub insert : Tree M → (ip : List ℕ) → M → Tree M
  insert t ip value = insert_prefix t ip (length ip * 8 % 256) value

  unfoldable pub match_ip : Tree M → (ip : List ℕ) → Option M
  match_ip t ip = search_node ip ip t.root

  unfoldable pub delete_prefix : Tree M → (ip : List ℕ) (prefix_len : ℕ) → Tree M × Bool
  delete_prefix t ip prefix_len =
      let (root, deleted) = delete_node ip prefix_len (max_depth prefix_len) 0 t.root in
      (record { root = root; size = if deleted then t.size - 1 else t.size }, deleted)

  unfoldable pub delete : Tree M → (ip : List ℕ) → Tree M × Bool
  delete t ip = delete_prefix t ip (length ip * 8 % 256)
