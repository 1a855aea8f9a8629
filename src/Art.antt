-- ===== src/Art.antt =====
-- The adaptive radix tree: the nodes of lib/rust/engine/src/art/mod.rs and their search of keys in
-- art/node16_simd.rs, whose four versions all answer the first match.
-- A pointer is the node it points to, `null` the null pointer. So it is in the program as long as
-- no child is added to a `Node48` from which one was removed: the new child can then take the slot
-- of another, the growth to a `Node256` copies the shared pointer to two bytes, and removing under
-- one of them frees the node under both. Counts in a byte wrap, as in a release build.
pub mod Tree
pub mod Leaves
pub mod Matches
pub mod Sound
pub mod Layouts
pub mod Losses
pub mod Adapter
pub mod Sharded
use radixip.Base.{
  ℕ, zero, suc, ◌+◌, ◌-◌, ◌*◌, ◌/◌, ◌%◌, ◌^◌, Bool, true, false, not, ◌&&◌, Option, none, some,
  List, [], ◌∷◌, length, get_or, ltb, leb, ◌==◌, if◌then◌else◌, min,
}

mutual
  -- `NodeBox`
  pub data NodeBox (M : Type 0) : Type 0 where
    null : NodeBox M
    inner : Inner M → NodeBox M
    leaf : (value : M) (prefix_len : ℕ) (masked_key : List ℕ) → NodeBox M

  -- The variants of `NodeBox` with children. The calls on the children of a leaf, which the tree
  -- does not make, are left out.
  pub data Inner (M : Type 0) : Type 0 where
    n4 : Slots M → Inner M
    n16 : Slots M → Inner M
    n48 : (num : ℕ) (index : ℕ → ℕ) (children : ℕ → NodeBox M) → Inner M
    n256 : (num : ℕ) (children : ℕ → NodeBox M) → Inner M

  -- The keys and children of a `Node4` or `Node16` below its `num_children`, in order.
  pub data Slots (M : Type 0) : Type 0 where
    unused : Slots M
    slot : (key : ℕ) (child : NodeBox M) → Slots M → Slots M

-- `b & (0xFF << (8 - bits))`
abbrev pub masked : (bits b : ℕ) → ℕ
masked bits b = b / 2 ^ (8 - bits) * 2 ^ (8 - bits)

-- `LeafNode::matches`, first loop: bytes `i` to `i + n` agree.
unfoldable pub full_bytes_match : (n i : ℕ) (ip masked_key : List ℕ) → Bool
full_bytes_match zero i ip masked_key = true
full_bytes_match (suc n) i ip masked_key =
    (get_or ip i 0 == get_or masked_key i 0) && full_bytes_match n (suc i) ip masked_key

unfoldable pub matches : (prefix_len : ℕ) (masked_key ip : List ℕ) → Bool
matches prefix_len masked_key ip =
    let full_bytes = prefix_len / 8 in
    let remain_bits = prefix_len % 8 in
    if full_bytes_match (min full_bytes (length ip)) 0 ip masked_key
    then (if ltb 0 remain_bits && ltb full_bytes (length ip)
        then masked remain_bits (get_or ip full_bytes 0)
          == masked remain_bits (get_or masked_key full_bytes 0)
        else true)
    else false

abbrev pub put {ℓ} : {A : Type ℓ} → (ℕ → A) → (i : ℕ) (x : A) → ℕ → A
put f i x j = if j == i then x else f j

module _ {M : Type 0} where
  abbrev pub is_null : NodeBox M → Bool
  is_null null = true
  is_null (inner _) = false
  is_null (leaf _ _ _) = false

  abbrev pub count : Slots M → ℕ
  count unused = 0
  count (slot _ _ rest) = suc (count rest)

  -- The first child whose key is the byte.
  unfoldable pub find_slot : Slots M → ℕ → Option (NodeBox M)
  find_slot unused byte = none
  find_slot (slot k c rest) byte = if k == byte then some c else find_slot rest byte

  unfoldable pub find_child : Inner M → ℕ → Option (NodeBox M)
  find_child (n4 s) byte = find_slot s byte
  find_child (n16 s) byte = find_slot s byte
  find_child (n48 num index children) byte =
      if ltb (index byte) 48 then some (children (index byte)) else none
  find_child (n256 num children) byte =
      if is_null (children byte) then none else some (children byte)

  abbrev pub push : Slots M → ℕ → NodeBox M → Slots M
  push unused byte child = slot byte child unused
  push (slot k c rest) byte child = slot k c (push rest byte child)

  -- A grown node's index and children: slot `i` onwards of the smaller node.
  abbrev pub index_slots : Slots M → (i : ℕ) → (ℕ → ℕ) → ℕ → ℕ
  index_slots unused i index = index
  index_slots (slot k _ rest) i index = index_slots rest (suc i) (put index k i)

  abbrev pub child_slots : Slots M → (i : ℕ) → (ℕ → NodeBox M) → ℕ → NodeBox M
  child_slots unused i children = children
  child_slots (slot _ c rest) i children = child_slots rest (suc i) (put children i c)

  -- The children of a `Node48` by byte.
  abbrev pub spread : (ℕ → ℕ) → (ℕ → NodeBox M) → ℕ → NodeBox M
  spread index children i = if ltb (index i) 48 then children (index i) else null

  unfoldable pub add_child_256 :
      (num : ℕ) (children : ℕ → NodeBox M) (byte : ℕ) → NodeBox M → Inner M
  add_child_256 num children byte child =
      n256 (if is_null (children byte) then (num + 1) % 256 else num) (put children byte child)

  unfoldable pub add_child_48 :
      (num : ℕ) (index : ℕ → ℕ) (children : ℕ → NodeBox M) (byte : ℕ) → NodeBox M → Inner M
  add_child_48 num index children byte child =
      if leb 48 num
      then add_child_256 num (spread index children) byte child
      else (let index = put index byte num in
          let children = put children num child in
          if leb 45 (num + 1)
          then n256 (num + 1) (spread index children)
          else n48 (num + 1) index children)

  unfoldable pub add_child_16 : Slots M → (byte : ℕ) → NodeBox M → Inner M
  add_child_16 s byte child =
      if leb 16 (count s)
      then add_child_48 (count s) (index_slots s 0 (λ _. 48)) (child_slots s 0 (λ _. null)) byte
          child
      else n16 (push s byte child)

  unfoldable pub add_child : Inner M → (byte : ℕ) → NodeBox M → Inner M
  add_child (n4 s) byte child =
      if leb 4 (count s) then add_child_16 s byte child else n4 (push s byte child)
  add_child (n16 s) byte child = add_child_16 s byte child
  add_child (n48 num index children) byte child = add_child_48 num index children byte child
  add_child (n256 num children) byte child = add_child_256 num children byte child

  -- The slots without the first one whose key is the byte.
  unfoldable pub drop_slot : Slots M → ℕ → Slots M
  drop_slot unused byte = unused
  drop_slot (slot k c rest) byte = if k == byte then rest else slot k c (drop_slot rest byte)

  -- The children of a `Node48` that shrinks, for the bytes `i` to `i + n`.
  unfoldable pub gather : (n i : ℕ) (index : ℕ → ℕ) (children : ℕ → NodeBox M) → Slots M
  gather zero i index children = unused
  gather (suc n) i index children =
      let rest = gather n (suc i) index children in
      if ltb (index i) 48 && not (is_null (children (index i)))
      then slot i (children (index i)) rest
      else rest

  -- The children of a `Node256` that shrinks, for the bytes `i` to `i + n`.
  unfoldable pub occupied : (n i : ℕ) (children : ℕ → NodeBox M) → Slots M
  occupied zero i children = unused
  occupied (suc n) i children =
      let rest = occupied n (suc i) children in
      if is_null (children i) then rest else slot i (children i) rest

  unfoldable pub remove_child : Inner M → (byte : ℕ) → Inner M
  remove_child (n4 s) byte = n4 (drop_slot s byte)
  remove_child (n16 s) byte =
      let left = drop_slot s byte in
      if count left == count s then n16 s else if ltb (count left) 4 then n4 left else n16 left
  remove_child (n48 num index children) byte =
      if ltb (index byte) 48
      then (let children = put children (index byte) null in
          let index = put index byte 48 in
          let num = (num + 255) % 256 in
          if ltb num 17 then n16 (gather 256 0 index children) else n48 num index children)
      else n48 num index children
  remove_child (n256 num children) byte =
      if is_null (children byte)
      then n256 num children
      else (let children = put children byte null in
          let num = (num + 255) % 256 in
          let kept = occupied 256 0 children in
          if ltb num 49
          then n48 (count kept) (index_slots kept 0 (λ _. 48)) (child_slots kept 0 (λ _. null))
          else n256 num children)

  abbrev pub update_slot : Slots M → ℕ → NodeBox M → Slots M
  update_slot unused byte child = unused
  update_slot (slot k c rest) byte child =
      if k == byte then slot k child rest else slot k c (update_slot rest byte child)

  -- `update_child` of art/tree.rs
  unfoldable pub update_child : Inner M → (byte : ℕ) → NodeBox M → Inner M
  update_child (n4 s) byte child = n4 (update_slot s byte child)
  update_child (n16 s) byte child = n16 (update_slot s byte child)
  update_child (n48 num index children) byte child =
      if ltb (index byte) 48
      then n48 num index (put children (index byte) child)
      else n48 num index children
  update_child (n256 num children) byte child = n256 num (put children byte child)
