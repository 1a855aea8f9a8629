-- ===== src/Art/Losses.antt =====
-- Single insertions into the tree of lib/rust/engine/src/art/tree.rs, and what they lose.
use radixip.Base.{
  ℕ, suc, ◌-◌, ◌*◌, ◌/◌, ◌%◌, ◌≤◌, ◌<◌, ◌≡◌, ◌↔◌, refl, sym, ap, ◌∙◌, true, false, Bool-cases, none,
  some, List, [], ◌∷◌, length, get_or, ltb, ◌==◌, if◌then◌else◌, arith, inl, inr, min,
}
use radixip.Net.{bit_at}
use radixip.Art.{
  NodeBox, null, inner, leaf, n4, Slots, unused, slot, matches, full_bytes_match, find_child,
  find_slot, add_child, update_child,
}
use radixip.Art.Tree.{
  Tree, new, insert_prefix, match_ip, insert_node, insert_into, search_node, expand, make_leaf,
  mask_key, index_byte, max_depth,
}
use radixip.Art.Matches.{AreBytes, matches_iff, mask_key_byte}

pub aligned_byte :
    (key : List ℕ) (depth len : ℕ)
    → 8 * suc depth ≤ len
    → index_byte key depth len ≡ get_or key depth 0
unfolding index_byte
aligned_byte key depth len h =
    let other : depth == len / 8 ≡ false = ground arith in ground (arith, other)

-- A first octet that differs is no match.
matches_first :
    (a x : ℕ) (key ip : List ℕ) (len : ℕ)
    → 8 ≤ len
    → a == x ≡ false
    → matches len (mask_key (a ∷ key) (len / 8) (len % 8) 16) (x ∷ ip) ≡ false
unfolding matches full_bytes_match mask_key
matches_first a x key ip len h other =
    let full : len / 8 ≡ suc (len / 8 - 1) = omega arith in
    let bound : min (suc (len / 8 - 1)) (suc (length ip)) ≡ suc (min (len / 8 - 1) (length ip)) =
      omega arith in
    rw (full, bound) (ground (arith, other))

-- Nor is a second octet that differs.
matches_second :
    (a b x y : ℕ) (key ip : List ℕ) (len : ℕ)
    → 16 ≤ len
    → b == y ≡ false
    → matches len (mask_key (a ∷ b ∷ key) (len / 8) (len % 8) 16) (x ∷ y ∷ ip) ≡ false
unfolding matches full_bytes_match mask_key
matches_second a b x y key ip len h other =
    let n = len / 8 - 2 in
    let full : len / 8 ≡ suc (suc n) = omega arith in
    let bound : min (suc (suc n)) (suc (suc (length ip))) ≡ suc (suc (min n (length ip))) =
      omega arith in
    rw (full, bound) (ground (arith, other))

module _ {M : Type 0} where
  -- A network of length 0 that is inserted into any tree is answered for every address: the tree
  -- is gone.
  pub default_route_discards :
      (t : Tree M) (key ip : List ℕ) (v : M) → match_ip (insert_prefix t key 0 v) ip ≡ some v
  unfolding match_ip insert_prefix insert_node search_node make_leaf matches full_bytes_match
  default_route_discards t key ip v = ground arith

  abbrev pub leaf_of : List ℕ → ℕ → M → NodeBox M
  leaf_of key len v = leaf v len (mask_key key (len / 8) (len % 8) 16)

  pub root-alone :
      (a : ℕ) (key : List ℕ) (len : ℕ) (v : M)
      → 8 ≤ len
      → (insert_prefix new (a ∷ key) len v).root
        ≡ inner (n4 (slot a (leaf_of (a ∷ key) len v) unused))
  unfolding insert_prefix new insert_node insert_into add_child make_leaf find_child find_slot
  root-alone a key len v h =
      let left : max_depth len ≡ suc (max_depth len - 1) = omega arith in
      rw (left, aligned_byte (a ∷ key) 0 len h) refl

  pub search-alone :
      (a x : ℕ) (key ip : List ℕ) (len : ℕ) (v : M)
      → 8 ≤ len
      → match_ip (insert_prefix new (a ∷ key) len v) (x ∷ ip) ≡ (
          if matches len (mask_key (a ∷ key) (len / 8) (len % 8) 16) (x ∷ ip) then some v else none)
  unfolding match_ip search_node find_child find_slot
  search-alone a x key ip len v h =
      ap (search_node (x ∷ ip) (x ∷ ip)) (root-alone a key len v h) ∙ (elim (Bool-cases (a == x)) [
        | inl same ↦ rw (search_node, same) refl
        | inr other ↦ rw (search_node, other, matches_first a x key ip len h other) refl
      ])

  -- A network of at least 8 bits, alone in a tree, answers exactly the addresses of its family that
  -- it covers.
  pub insert_prefix-match_ip :
      (key ip : List ℕ) (len : ℕ) (v : M)
      → AreBytes key
      → AreBytes ip
      → length ip ≡ length key
      → length key ≤ 16
      → len ≤ 8 * length key
      → 8 ≤ len
      → (match_ip (insert_prefix new key len v) ip ≡ some v)
        ↔ ((i : ℕ) → i < len → bit_at ip i ≡ bit_at key i)
  insert_prefix-match_ip [] ip len v kb ib same fits le h = absurd (omega arith)
  insert_prefix-match_ip (a ∷ key) [] len v kb ib same fits le h = absurd (omega arith)
  insert_prefix-match_ip (a ∷ key) (x ∷ ip) len v kb ib same fits le h =
      let found = search-alone a x key ip len v h in
      let (sound, complete) = matches_iff (a ∷ key) (x ∷ ip) len kb ib same fits le in
      (
        λ e. elim (Bool-cases (matches len (mask_key (a ∷ key) (len / 8) (len % 8) 16) (x ∷ ip))) [
          | inl m ↦ sound m
          | inr differs ↦ absurd (ground (arith, found, e, differs))
        ],
        λ bits. let m = complete bits in found ∙ ground (arith, m),
      )

  search-slot :
      (ip : List ℕ) (a x : ℕ) (rest : List ℕ) (c : NodeBox M) (tail : Slots M)
      → search_node ip (x ∷ rest) (inner (n4 (slot a c tail)))
        ≡ (if a == x then search_node ip rest c else search_node ip (x ∷ rest) (inner (n4 tail)))
  unfolding search_node find_child find_slot
  search-slot ip a x rest c tail = elim (Bool-cases (a == x)) [
    | inl same ↦ rw (search_node, same) refl
    | inr other ↦ rw (search_node, other) refl
  ]

  skip-slot :
      (ip : List ℕ) (a x : ℕ) (rest : List ℕ) (c : NodeBox M) (tail : Slots M)
      → a == x ≡ false
      → search_node ip (x ∷ rest) (inner (n4 (slot a c tail)))
        ≡ search_node ip (x ∷ rest) (inner (n4 tail))
  skip-slot ip a x rest c tail other = search-slot ip a x rest c tail ∙ (rw other refl)

  search-unused :
      (ip : List ℕ) (x : ℕ) (rest : List ℕ)
      → (let nothing : NodeBox M = inner (n4 unused) in search_node ip (x ∷ rest) nothing ≡ none)
  unfolding search_node find_child find_slot
  search-unused ip x rest = refl

  insert_into-found :
      (a : ℕ) (c : NodeBox M) (recur : NodeBox M → NodeBox M) (fresh : NodeBox M)
      → insert_into (n4 (slot a c unused)) a recur fresh ≡ inner (n4 (slot a (recur c) unused))
  unfolding insert_into find_child find_slot update_child
  insert_into-found a c recur fresh =
      let itself : a == a ≡ true = ground arith in rw (insert_into, itself, itself) refl

  expand-twin :
      (a b : ℕ) (r : List ℕ) (len : ℕ) (v : M) (c : NodeBox M)
      → 16 ≤ len
      → (let key = a ∷ b ∷ r in
          expand v len (mask_key key (len / 8) (len % 8) 16) 1 b c
          ≡ inner (n4 (slot b (leaf_of key len v) (slot b c unused))))
  unfolding expand add_child
  expand-twin a b r len v c h =
      let key = a ∷ b ∷ r in
      let k1 = mask_key key (len / 8) (len % 8) 16 in
      let inside : ltb 1 (len / 8) ≡ true = ground arith in
      let byte : index_byte k1 1 len ≡ b =
        aligned_byte k1 1 len h
        ∙ mask_key_byte key (len / 8) (len % 8) 16 1 (omega arith) (omega arith) in
      rw (expand, inside, byte) refl

  -- What the second of two insertions that share two octets leaves.
  root-twins :
      (a b : ℕ) (r s : List ℕ) (l1 l2 : ℕ) (v w : M) (m : ℕ)
      → 16 ≤ l1
      → 16 ≤ l2
      → max_depth l2 ≡ suc (suc m)
      → (insert_prefix (insert_prefix new (a ∷ b ∷ r) l1 v) (a ∷ b ∷ s) l2 w).root
        ≡ inner (
            n4 (
              slot a
                (inner (
                  n4 (
                    slot b
                      (leaf_of (a ∷ b ∷ r) l1 v)
                      (slot b (insert_node (a ∷ b ∷ s) l2 w m 2 null) unused))))
                unused))
  unfolding insert_prefix insert_node
  root-twins a b r s l1 l2 v w m h k left =
      let key1 = a ∷ b ∷ r in
      let key2 = a ∷ b ∷ s in
      let c = insert_node key2 l2 w m 2 null in
      let first = leaf_of key1 l1 v in
      ap (insert_node key2 l2 w (max_depth l2) 0) (root-alone a (b ∷ r) l1 v (omega arith))
      ∙ ap (λ d. insert_node key2 l2 w d 0 (inner (n4 (slot a first unused)))) left
      ∙ ap
          (λ i.
            insert_into (n4 (slot a first unused)) i (insert_node key2 l2 w (suc m) 1)
              (make_leaf key2 l2 w))
          (aligned_byte key2 0 l2 (omega arith))
      ∙ insert_into-found a first (insert_node key2 l2 w (suc m) 1) (make_leaf key2 l2 w)
      ∙ ap
          (λ i. inner (n4 (slot a (expand v l1 (mask_key key1 (l1 / 8) (l1 % 8) 16) 1 i c) unused)))
          (aligned_byte key2 1 l2 k)
      ∙ ap (λ e. inner (n4 (slot a e unused))) (expand-twin a b r l1 v c h)

  -- The search of the two twins finds the first.
  twin-answer :
      (a b x y : ℕ) (r rest : List ℕ) (len : ℕ) (v : M) (c : NodeBox M)
      → 16 ≤ len
      → (let ip = x ∷ y ∷ rest in
          let key = a ∷ b ∷ r in
          (if a == x
            then search_node ip
                (y ∷ rest)
                (inner (n4 (slot b (leaf_of key len v) (slot b c unused))))
            else search_node ip ip (inner (n4 unused)))
          ≡ (if matches len (mask_key key (len / 8) (len % 8) 16) ip then some v else none))
  unfolding search_node
  twin-answer a b x y r rest len v c h =
      let ip = x ∷ y ∷ rest in
      let key = a ∷ b ∷ r in
      let first = leaf_of key len v in
      elim (Bool-cases (a == x)) [
        | inr other ↦
            rw (other, matches_first a x (b ∷ r) (y ∷ rest) len (omega arith) other)
              (search-unused ip x (y ∷ rest))
        | inl same ↦ elim (Bool-cases (b == y)) [
          | inl also ↦ rw same (search-slot ip b y rest first (slot b c unused) ∙ rw also refl)
          | inr differs ↦
              rw (same, matches_second a b x y r rest len h differs)
                (skip-slot ip b y rest first (slot b c unused) differs
                  ∙ skip-slot ip b y rest c unused differs
                  ∙ search-unused ip y rest)
        ]
      ]

  -- Two networks of at least 16 bits whose first two octets are the same, inserted into a new tree:
  -- every address of two octets or more is answered as after the first insertion alone.
  pub shared_octets_hide :
      (a b : ℕ) (r s : List ℕ) (l1 l2 : ℕ) (v w : M) (x y : ℕ) (rest : List ℕ)
      → 16 ≤ l1
      → 16 ≤ l2
      → match_ip
          (insert_prefix (insert_prefix new (a ∷ b ∷ r) l1 v) (a ∷ b ∷ s) l2 w)
          (x ∷ y ∷ rest)
        ≡ match_ip (insert_prefix new (a ∷ b ∷ r) l1 v) (x ∷ y ∷ rest)
  unfolding match_ip
  shared_octets_hide a b r s l1 l2 v w x y rest h k =
      let m = max_depth l2 - 2 in
      let ip = x ∷ y ∷ rest in
      let key1 = a ∷ b ∷ r in
      let c = insert_node (a ∷ b ∷ s) l2 w m 2 null in
      let first = leaf_of key1 l1 v in
      let pair = slot b first (slot b c unused) in
      let after =
        ap (search_node ip ip) (root-twins a b r s l1 l2 v w m h k (omega arith))
        ∙ search-slot ip a x (y ∷ rest) (inner (n4 pair)) unused in
      after
      ∙ twin-answer a b x y r rest l1 v c h
      ∙ sym (search-alone a x (b ∷ r) (y ∷ rest) l1 v (omega arith))
