-- ===== src/Compressed/Lookup.antt =====
-- What `lookup_inner` of lib/rust/engine/src/tree.rs answers at a node, by how the edge meets the key.
use radixip.Base.{
  ◌≡◌, refl, Bool, true, false, not, ◌&&◌, Option, none, List, [], ◌∷◌, ◌++◌, length, length-append,
  is_none, or_else, leb, ◌==◌, arith,
}
use radixip.Compressed.{Node, node, lookup_inner}
use radixip.Compressed.Bits.{
  common-exact, common-longer, common-ends, common-parts, bit-append, drop-append,
}
use radixip.Compressed.Insert.{descends}
use radixip.Compressed.Remove.{short-ends, side}

module _ {M : Type 0} where
  -- The test at the head of `lookup_inner`.
  abbrev pub bare : List Bool → Option M → Bool
  bare edge meta = length edge == 0 && is_none meta

module _ {R M : Type 0} where
  pub lookup-bare :
      (key edge : List Bool) (meta : Option M) (pre : Option R) (l r : Node R M)
      → bare edge meta ≡ true
      → lookup_inner key (node edge meta pre l r) ≡ none
  unfolding lookup_inner
  lookup-bare key edge meta pre l r h = rw (h, lookup_inner) refl

  pub lookup-ends :
      (key : List Bool) (b : Bool) (rest : List Bool) (meta : Option M) (pre : Option R)
      (l r : Node R M)
      → bare (key ++ (b ∷ rest)) meta ≡ false
      → lookup_inner key (node (key ++ (b ∷ rest)) meta pre l r) ≡ none
  unfolding lookup_inner
  lookup-ends key b rest meta pre l r h =
      rw (h, common-ends key b rest, short-ends key b rest, lookup_inner) refl

  pub lookup-parts :
      (shared : List Bool) (b : Bool) (edge key : List Bool) (meta : Option M) (pre : Option R)
      (l r : Node R M)
      → bare (shared ++ (b ∷ edge)) meta ≡ false
      → lookup_inner (shared ++ (not b ∷ key)) (node (shared ++ (b ∷ edge)) meta pre l r) ≡ none
  unfolding lookup_inner
  lookup-parts shared b edge key meta pre l r h =
      rw (h, common-parts shared b edge key, short-ends shared b edge, lookup_inner) refl

  pub lookup-exact :
      (edge : List Bool) (meta : Option M) (pre : Option R) (l r : Node R M)
      → bare edge meta ≡ false
      → lookup_inner edge (node edge meta pre l r) ≡ meta
  unfolding lookup_inner
  lookup-exact edge meta pre l r h =
      let (_, _, s) = descends edge true [] in
      let done : leb (length edge) (length edge) ≡ true = ground arith in
      rw (h, common-exact edge, s, common-exact edge, done, lookup_inner) refl

  pub lookup-longer :
      (edge : List Bool) (b : Bool) (rest : List Bool) (meta : Option M) (pre : Option R)
      (l r : Node R M)
      → bare edge meta ≡ false
      → lookup_inner (edge ++ (b ∷ rest)) (node edge meta pre l r)
        ≡ or_else (lookup_inner rest (side b l r)) meta
  unfolding lookup_inner
  lookup-longer edge false rest meta pre l r h =
      let common = common-longer edge (false ∷ rest) in
      let (_, _, s) = descends edge false rest in
      let more : leb (length (edge ++ (false ∷ rest))) (length edge) ≡ false =
        ground (arith, length-append edge (false ∷ rest)) in
      rw
        (
          h,
          common,
          s,
          common,
          more,
          common,
          bit-append edge false rest,
          common,
          drop-append edge false rest,
          lookup_inner,
        )
        refl
  lookup-longer edge true rest meta pre l r h =
      let common = common-longer edge (true ∷ rest) in
      let (_, _, s) = descends edge true rest in
      let more : leb (length (edge ++ (true ∷ rest))) (length edge) ≡ false =
        ground (arith, length-append edge (true ∷ rest)) in
      rw
        (
          h,
          common,
          s,
          common,
          more,
          common,
          bit-append edge true rest,
          common,
          drop-append edge true rest,
          lookup_inner,
        )
        refl
