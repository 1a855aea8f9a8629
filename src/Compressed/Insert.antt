-- ===== src/Compressed/Insert.antt =====
-- What `insert_inner` of lib/rust/engine/src/tree.rs makes of a node, by how the edge meets the key.
use radixip.Base.{
  ◌≡◌, refl, Bool, true, false, not, ◌&&◌, Option, none, some, List, ◌∷◌, ◌++◌, length,
  length-append, is_none, ltb, ◌==◌, arith,
}
use radixip.Compressed.{Node, nil, node, is_nil, leaf, wire, split, insert_inner}
use radixip.Compressed.Bits.{
  common-exact, common-longer, common-ends, common-parts, bit-append, drop-append, take-append,
}

pub descends :
    (edge : List Bool) (b : Bool) (rest : List Bool)
    → ((length edge == length edge) ≡ true)
      × ((length edge == length (edge ++ (b ∷ rest))) ≡ false)
      × (ltb (length edge) (length edge) ≡ false)
descends edge b rest =
    let long = length-append edge (b ∷ rest) in (ground arith, ground (arith, long), ground arith)

module _ {R M : Type 0} where
  abbrev pub empty_test : List Bool → Option M → (l r : Node R M) → Bool
  empty_test edge meta l r = length edge == 0 && is_none meta && is_nil l && is_nil r

  pub insert-exact :
      (edge : List Bool) (p : R) (m : M) (meta : Option M) (pre : Option R) (l r : Node R M)
      → empty_test edge meta l r ≡ false
      → insert_inner edge p m (node edge meta pre l r)
        ≡ (node edge (some m) (some p) l r, is_none meta)
  unfolding insert_inner
  insert-exact edge p m meta pre l r h =
      let same : (length edge == length edge) ≡ true = ground arith in
      rw (h, common-exact edge, same, insert_inner) refl

  pub insert-ends :
      (key : List Bool) (b : Bool) (rest : List Bool) (p : R) (m : M) (meta : Option M)
      (pre : Option R) (l r : Node R M)
      → insert_inner key p m (node (key ++ (b ∷ rest)) meta pre l r) ≡ (
        node key
            (some m)
            (some p)
            (wire b (node rest meta pre l r) nil nil).0
            (wire b (node rest meta pre l r) nil nil).1,
        true,
      )
  unfolding insert_inner split
  insert-ends key b rest p m meta pre l r =
      let len = length-append key (b ∷ rest) in
      let h : (length (key ++ (b ∷ rest)) == 0) ≡ false = ground (arith, len) in
      let q : (length key == length (key ++ (b ∷ rest))) ≡ false = ground (arith, len) in
      let s : ltb (length key) (length (key ++ (b ∷ rest))) ≡ true = ground (arith, len) in
      let same : (length key == length key) ≡ true = ground arith in
      rw
        (
          h,
          common-ends key b rest,
          q,
          common-ends key b rest,
          s,
          common-ends key b rest,
          same,
          take-append key (b ∷ rest),
          drop-append key b rest,
          bit-append key b rest,
          insert_inner,
          split,
        )
        refl

  pub insert-parts :
      (shared : List Bool) (b : Bool) (edge key : List Bool) (p : R) (m : M) (meta : Option M)
      (pre : Option R) (l r : Node R M)
      → insert_inner (shared ++ (not b ∷ key)) p m (node (shared ++ (b ∷ edge)) meta pre l r) ≡ (
          let (left, right) = wire b (node edge meta pre l r) nil nil in
          let (left, right) = wire (not b) (leaf key p m) left right in
          (node shared none pre left right, true))
  unfolding insert_inner split
  insert-parts shared b edge key p m meta pre l r =
      let len = length-append shared (b ∷ edge) in
      let long = length-append shared (not b ∷ key) in
      let common = common-parts shared b edge key in
      let h : (length (shared ++ (b ∷ edge)) == 0) ≡ false = ground (arith, len) in
      let q : (length shared == length (shared ++ (b ∷ edge))) ≡ false = ground (arith, len) in
      let s : ltb (length shared) (length (shared ++ (b ∷ edge))) ≡ true = ground (arith, len) in
      let u : (length shared == length (shared ++ (not b ∷ key))) ≡ false = ground (arith, long) in
      rw
        (
          h,
          common,
          q,
          common,
          s,
          common,
          u,
          take-append shared (b ∷ edge),
          drop-append shared b edge,
          bit-append shared b edge,
          drop-append shared (not b) key,
          bit-append shared (not b) key,
          insert_inner,
          split,
        )
        refl

  -- The node with the insertion made below the side `b`.
  abbrev pub descended :
      Bool
      → (key : List Bool) (p : R) (m : M) (edge : List Bool) (meta : Option M) (pre : Option R)
        (l r : Node R M)
      → Node R M × Bool
  descended false key p m edge meta pre l r =
      let (child, is_new) = insert_inner key p m l in (node edge meta pre child r, is_new)
  descended true key p m edge meta pre l r =
      let (child, is_new) = insert_inner key p m r in (node edge meta pre l child, is_new)

  pub insert-longer :
      (edge : List Bool) (b : Bool) (rest : List Bool) (p : R) (m : M) (meta : Option M)
      (pre : Option R) (l r : Node R M)
      → empty_test edge meta l r ≡ false
      → insert_inner (edge ++ (b ∷ rest)) p m (node edge meta pre l r)
        ≡ descended b rest p m edge meta pre l r
  unfolding insert_inner
  insert-longer edge false rest p m meta pre l r h =
      let common = common-longer edge (false ∷ rest) in
      let (same, u, s) = descends edge false rest in
      rw
        (
          h,
          common,
          same,
          u,
          common,
          s,
          common,
          bit-append edge false rest,
          common,
          drop-append edge false rest,
          insert_inner,
        )
        refl
  insert-longer edge true rest p m meta pre l r h =
      let common = common-longer edge (true ∷ rest) in
      let (same, u, s) = descends edge true rest in
      rw
        (
          h,
          common,
          same,
          u,
          common,
          s,
          common,
          bit-append edge true rest,
          common,
          drop-append edge true rest,
          insert_inner,
        )
        refl
