-- ===== src/Art/Leaves.antt =====
-- What holds of every leaf of a tree of lib/rust/engine/src/art: the calls on a node keep it.
use radixip.Base.{
  ℕ, zero, suc, ◌+◌, ◌%◌, ◌/◌, arith, ◌≡◌, subst, Bool, true, false, Bool-cases, ◌&&◌, not, some,
  Option-cases, List, [], ◌∷◌, ltb, leb, ◌==◌, either_way, inl, inr,
}
use radixip.Art.{
  NodeBox, null, inner, leaf, Inner, n4, n16, n48, n256, Slots, unused, slot, matches, is_null,
  count, find_slot, find_child, push, put, index_slots, child_slots, spread, add_child_256,
  add_child_48, add_child_16, add_child, drop_slot, gather, occupied, remove_child, update_slot,
  update_child,
}
use radixip.Art.Tree.{
  mask_key, make_leaf, expand, insert_into, insert_node, search_node, deleted_below, delete_node,
  index_byte,
}

module _ {M : Type 0} (P : M → ℕ → List ℕ → Type 0) where
  unfoldable mutual
    pub Leaves : NodeBox M → Type 0
    Leaves null = Unit
    Leaves (inner n) = LeavesIn n
    Leaves (leaf v len masked_key) = P v len masked_key

    pub LeavesIn : Inner M → Type 0
    LeavesIn (n4 s) = LeavesOf s
    LeavesIn (n16 s) = LeavesOf s
    LeavesIn (n48 num index children) = (i : ℕ) → Leaves (children i)
    LeavesIn (n256 num children) = (i : ℕ) → Leaves (children i)

    pub LeavesOf : Slots M → Type 0
    LeavesOf unused = Unit
    LeavesOf (slot k c rest) = Leaves c × LeavesOf rest

  find_slot-Leaves :
      (s : Slots M) (b : ℕ) (c : NodeBox M) → LeavesOf s → find_slot s b ≡ some c → Leaves c
  unfolding find_slot LeavesOf Leaves LeavesIn
  find_slot-Leaves unused b c h e = absurd (cc)
  find_slot-Leaves (slot k d rest) b c (hd, hr) e = elim (Bool-cases (k == b)) [
    | inl t ↦ subst Leaves (the_child t) hd
    | inr f ↦ find_slot-Leaves rest b c hr (the_rest f)
  ]
    where
      the_child : k == b ≡ true → d ≡ c
      the_child t = ground (arith, e, t)

      the_rest : k == b ≡ false → find_slot rest b ≡ some c
      the_rest f = ground (arith, e, f)

  find_child-Leaves :
      (n : Inner M) (b : ℕ) (c : NodeBox M) → LeavesIn n → find_child n b ≡ some c → Leaves c
  unfolding find_child LeavesIn
  find_child-Leaves (n4 s) b c h e = find_slot-Leaves s b c h e
  find_child-Leaves (n16 s) b c h e = find_slot-Leaves s b c h e
  find_child-Leaves (n48 num index children) b c h e =
      subst Leaves (ground (arith, e)) (h (index b))
  find_child-Leaves (n256 num children) b c h e = subst Leaves (ground (arith, e)) (h b)

  push-Leaves :
      (s : Slots M) (b : ℕ) (c : NodeBox M) → LeavesOf s → Leaves c → LeavesOf (push s b c)
  unfolding LeavesOf
  push-Leaves unused b c h hc = (hc, tt)
  push-Leaves (slot k d rest) b c (hd, hr) hc = (hd, push-Leaves rest b c hr hc)

  put-Leaves :
      (f : ℕ → NodeBox M) (i : ℕ) (c : NodeBox M)
      → ((j : ℕ) → Leaves (f j))
      → Leaves c
      → (j : ℕ) → Leaves (put f i c j)
  put-Leaves f i c h hc j = either_way Leaves (j == i) hc (h j)

  child_slots-Leaves :
      (s : Slots M) (i : ℕ) (f : ℕ → NodeBox M)
      → LeavesOf s
      → ((j : ℕ) → Leaves (f j))
      → (j : ℕ) → Leaves (child_slots s i f j)
  unfolding LeavesOf
  child_slots-Leaves unused i f h hf = hf
  child_slots-Leaves (slot k c rest) i f (hc, hr) hf =
      child_slots-Leaves rest (suc i) (put f i c) hr (put-Leaves f i c hf hc)

  nulls-Leaves : (s : Slots M) → LeavesOf s → (j : ℕ) → Leaves (child_slots s 0 (λ _. null) j)
  unfolding Leaves
  nulls-Leaves s h = child_slots-Leaves s 0 (λ _. null) h (λ _. tt)

  spread-Leaves :
      (index : ℕ → ℕ) (children : ℕ → NodeBox M)
      → ((j : ℕ) → Leaves (children j))
      → (j : ℕ) → Leaves (spread index children j)
  unfolding Leaves
  spread-Leaves index children h j = either_way Leaves (ltb (index j) 48) (h (index j)) tt

  add_child_256-Leaves :
      (num : ℕ) (children : ℕ → NodeBox M) (b : ℕ) (c : NodeBox M)
      → ((j : ℕ) → Leaves (children j))
      → Leaves c
      → LeavesIn (add_child_256 num children b c)
  unfolding add_child_256 LeavesIn
  add_child_256-Leaves num children b c h hc = put-Leaves children b c h hc

  add_child_48-Leaves :
      (num : ℕ) (index : ℕ → ℕ) (children : ℕ → NodeBox M) (b : ℕ) (c : NodeBox M)
      → ((j : ℕ) → Leaves (children j))
      → Leaves c
      → LeavesIn (add_child_48 num index children b c)
  unfolding add_child_48 LeavesIn
  add_child_48-Leaves num index children b c h hc =
      let put_in = put-Leaves children num c h hc in
      either_way LeavesIn (leb 48 num)
        (add_child_256-Leaves num (spread index children) b c (spread-Leaves index children h) hc)
        (either_way LeavesIn (leb 45 (num + 1))
          (spread-Leaves (put index b num) (put children num c) put_in) put_in)

  add_child_16-Leaves :
      (s : Slots M) (b : ℕ) (c : NodeBox M) → LeavesOf s → Leaves c → LeavesIn (add_child_16 s b c)
  unfolding add_child_16 LeavesIn
  add_child_16-Leaves s b c h hc =
      either_way LeavesIn (leb 16 (count s))
        (add_child_48-Leaves (count s) (index_slots s 0 (λ _. 48)) (child_slots s 0 (λ _. null)) b c
          (nulls-Leaves s h) hc)
        (push-Leaves s b c h hc)

  pub add_child-Leaves :
      (n : Inner M) (b : ℕ) (c : NodeBox M) → LeavesIn n → Leaves c → LeavesIn (add_child n b c)
  unfolding add_child LeavesIn
  add_child-Leaves (n4 s) b c h hc =
      either_way LeavesIn (leb 4 (count s)) (add_child_16-Leaves s b c h hc)
        (push-Leaves s b c h hc)
  add_child-Leaves (n16 s) b c h hc = add_child_16-Leaves s b c h hc
  add_child-Leaves (n48 num index children) b c h hc =
      add_child_48-Leaves num index children b c h hc
  add_child-Leaves (n256 num children) b c h hc = add_child_256-Leaves num children b c h hc

  drop_slot-Leaves : (s : Slots M) (b : ℕ) → LeavesOf s → LeavesOf (drop_slot s b)
  unfolding drop_slot LeavesOf
  drop_slot-Leaves unused b h = tt
  drop_slot-Leaves (slot k c rest) b (hc, hr) =
      either_way LeavesOf (k == b) hr (hc, drop_slot-Leaves rest b hr)

  gather-Leaves :
      (n i : ℕ) (index : ℕ → ℕ) (children : ℕ → NodeBox M)
      → ((j : ℕ) → Leaves (children j))
      → LeavesOf (gather n i index children)
  unfolding gather LeavesOf
  gather-Leaves zero i index children h = tt
  gather-Leaves (suc n) i index children h =
      let rest = gather-Leaves n (suc i) index children h in
      either_way LeavesOf (ltb (index i) 48 && not (is_null (children (index i))))
        (h (index i), rest) rest

  occupied-Leaves :
      (n i : ℕ) (children : ℕ → NodeBox M)
      → ((j : ℕ) → Leaves (children j))
      → LeavesOf (occupied n i children)
  unfolding occupied LeavesOf
  occupied-Leaves zero i children h = tt
  occupied-Leaves (suc n) i children h =
      let rest = occupied-Leaves n (suc i) children h in
      either_way LeavesOf (is_null (children i)) rest (h i, rest)

  remove_child-Leaves : (n : Inner M) (b : ℕ) → LeavesIn n → LeavesIn (remove_child n b)
  unfolding remove_child LeavesIn Leaves
  remove_child-Leaves (n4 s) b h = drop_slot-Leaves s b h
  remove_child-Leaves (n16 s) b h =
      let left = drop_slot-Leaves s b h in
      either_way LeavesIn (count (drop_slot s b) == count s) h
        (either_way LeavesIn (ltb (count (drop_slot s b)) 4) left left)
  remove_child-Leaves (n48 num index children) b h =
      let emptied = put-Leaves children (index b) null h tt in
      either_way LeavesIn (ltb (index b) 48)
        (either_way LeavesIn (ltb ((num + 255) % 256) 17)
          (gather-Leaves 256 0 (put index b 48) (put children (index b) null) emptied) emptied)
        h
  remove_child-Leaves (n256 num children) b h =
      let emptied = put-Leaves children b null h tt in
      either_way LeavesIn (is_null (children b)) h (
        either_way LeavesIn (ltb ((num + 255) % 256) 49)
          (nulls-Leaves (occupied 256 0 (put children b null))
            (occupied-Leaves 256 0 (put children b null) emptied))
          emptied)

  update_slot-Leaves :
      (s : Slots M) (b : ℕ) (c : NodeBox M) → LeavesOf s → Leaves c → LeavesOf (update_slot s b c)
  unfolding LeavesOf
  update_slot-Leaves unused b c h hc = tt
  update_slot-Leaves (slot k d rest) b c (hd, hr) hc =
      either_way LeavesOf (k == b) (hc, hr) (hd, update_slot-Leaves rest b c hr hc)

  update_child-Leaves :
      (n : Inner M) (b : ℕ) (c : NodeBox M) → LeavesIn n → Leaves c → LeavesIn (update_child n b c)
  unfolding update_child LeavesIn
  update_child-Leaves (n4 s) b c h hc = update_slot-Leaves s b c h hc
  update_child-Leaves (n16 s) b c h hc = update_slot-Leaves s b c h hc
  update_child-Leaves (n48 num index children) b c h hc =
      either_way LeavesIn (ltb (index b) 48) (put-Leaves children (index b) c h hc) h
  update_child-Leaves (n256 num children) b c h hc = put-Leaves children b c h hc

  insert_into-Leaves :
      (n : Inner M) (b : ℕ) (recur : NodeBox M → NodeBox M) (fresh : NodeBox M)
      → LeavesIn n
      → ((c : NodeBox M) → Leaves c → Leaves (recur c))
      → Leaves fresh
      → Leaves (insert_into n b recur fresh)
  unfolding insert_into Leaves
  insert_into-Leaves n b recur fresh h hr hf = elim (Option-cases (find_child n b)) [
    | inl e ↦ rw (insert_into, e) (add_child-Leaves n b fresh h hf)
    | inr (c, e) ↦
        rw (insert_into, e)
          (update_child-Leaves n b (recur c) h (hr c (find_child-Leaves n b c h e)))
  ]

  -- An insertion, if its own leaf has the property.
  pub insert_node-Leaves :
      (key : List ℕ) (len : ℕ) (value : M) (left depth : ℕ) (n : NodeBox M)
      → P value len (mask_key key (len / 8) (len % 8) 16)
      → Leaves n
      → Leaves (insert_node key len value left depth n)
  unfolding insert_node make_leaf expand Leaves LeavesIn LeavesOf
  insert_node-Leaves key len value zero depth n p h = p
  insert_node-Leaves key len value (suc left) depth (leaf v l masked_key) p h =
      add_child-Leaves (add_child (n4 unused) _ (leaf v l masked_key)) (index_byte key depth len)
        (insert_node key len value left (suc depth) null)
        (add_child-Leaves (n4 unused) _ (leaf v l masked_key) tt h)
        (insert_node-Leaves key len value left (suc depth) null p tt)
  insert_node-Leaves key len value (suc left) depth null p h =
      insert_into-Leaves (n4 unused) (index_byte key depth len) _ _ tt
        (λ c hc. insert_node-Leaves key len value left (suc depth) c p hc) p
  insert_node-Leaves key len value (suc left) depth (inner n) p h =
      insert_into-Leaves n (index_byte key depth len) _ _ h
        (λ c hc. insert_node-Leaves key len value left (suc depth) c p hc) p

  deleted_below-Leaves :
      (n : Inner M) (b : ℕ) (r : NodeBox M × Bool)
      → LeavesIn n
      → Leaves r.0
      → Leaves (deleted_below n b r).0
  unfolding deleted_below Leaves
  deleted_below-Leaves n b (child, false) h hc = h
  deleted_below-Leaves n b (null, true) h hc = remove_child-Leaves n b h
  deleted_below-Leaves n b (inner m, true) h hc = update_child-Leaves n b (inner m) h hc
  deleted_below-Leaves n b (leaf v l k, true) h hc = update_child-Leaves n b (leaf v l k) h hc

  pub delete_node-Leaves :
      (key : List ℕ) (len left depth : ℕ) (n : NodeBox M)
      → Leaves n
      → Leaves (delete_node key len left depth n).0
  unfolding delete_node Leaves
  delete_node-Leaves key len left depth null h = h
  delete_node-Leaves key len left depth (leaf v l masked_key) h =
      either_way (λ (r : NodeBox M × Bool). Leaves r.0) (l == len && matches l masked_key key) tt h
  delete_node-Leaves key len zero depth (inner n) h = h
  delete_node-Leaves key len (suc left) depth (inner n) h =
      elim (Option-cases (find_child n (index_byte key depth len))) [
        | inl e ↦ rw (delete_node, e) h
        | inr (c, e) ↦
            rw (delete_node, e)
              (deleted_below-Leaves n (index_byte key depth len)
                (delete_node key len left (suc depth) c) h
                (delete_node-Leaves key len left (suc depth) c
                  (find_child-Leaves n (index_byte key depth len) c h e)))
      ]

  -- What a search answers is the value of a leaf that the key matches.
  pub search_node-Leaves :
      (key rest : List ℕ) (n : NodeBox M) (v : M)
      → Leaves n
      → search_node key rest n ≡ some v
      → (len : ℕ) × (masked_key : List ℕ) × P v len masked_key × (matches len masked_key key ≡ true)
  unfolding search_node Leaves
  search_node-Leaves key rest null v h e = absurd (cc)
  search_node-Leaves key rest (leaf w len masked_key) v h e =
      elim (Bool-cases (matches len masked_key key)) [
        | inl t ↦ (len, masked_key, subst (λ x. P x len masked_key) (ground (arith, e, t)) h, t)
        | inr f ↦ absurd (ground (arith, e, f))
      ]
  search_node-Leaves key [] (inner n) v h e = absurd (cc)
  search_node-Leaves key (b ∷ rest) (inner n) v h e = elim (Option-cases (find_child n b)) [
    | inl none_there ↦ absurd (ground (arith, e, none_there))
    | inr (c, found) ↦
        search_node-Leaves key rest c v (find_child-Leaves n b c h found) (below c found)
  ]
    where
      below : (c : NodeBox M) → find_child n b ≡ some c → search_node key rest c ≡ some v
      below c found = ground (arith, e, found)

module _ {M : Type 0} (P Q : M → ℕ → List ℕ → Type 0)
    (f : (v : M) (len : ℕ) (masked_key : List ℕ) → P v len masked_key → Q v len masked_key) where
  -- What follows from a property of the leaves holds of the leaves.
  mutual
    unfolding Leaves LeavesIn LeavesOf

    pub weaken-Leaves : (n : NodeBox M) → Leaves P n → Leaves Q n
    weaken-Leaves null h = tt
    weaken-Leaves (inner n) h = weaken-LeavesIn n h
    weaken-Leaves (leaf v len masked_key) h = f v len masked_key h

    weaken-LeavesIn : (n : Inner M) → LeavesIn P n → LeavesIn Q n
    weaken-LeavesIn (n4 s) h = weaken-LeavesOf s h
    weaken-LeavesIn (n16 s) h = weaken-LeavesOf s h
    weaken-LeavesIn (n48 num index children) h = λ i. weaken-Leaves (children i) (h i)
    weaken-LeavesIn (n256 num children) h = λ i. weaken-Leaves (children i) (h i)

    weaken-LeavesOf : (s : Slots M) → LeavesOf P s → LeavesOf Q s
    weaken-LeavesOf unused h = tt
    weaken-LeavesOf (slot k c rest) (hc, hr) = (weaken-Leaves c hc, weaken-LeavesOf rest hr)
