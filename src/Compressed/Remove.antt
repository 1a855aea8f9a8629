-- ===== src/Compressed/Remove.antt =====
-- `remove_inner` and `contains_inner` of lib/rust/engine/src/tree.rs, on the map that a tree stores.
use radixip.Base.{
  ◌≡◌, refl, sym, ap, ◌∙◌, Bool, true, false, Bool-cases, not, Option, none, List, [], ◌∷◌, ◌++◌,
  length, length-append, is_some, ltb, arith, if◌then◌else◌, inl, inr,
}
use radixip.Compressed.{Node, nil, node, remove_inner, contains_inner}
use radixip.Compressed.Bits.{
  same_bits, same_bits→eq, Meets, exact, longer, ends, parts, meets, common-exact, common-longer,
  common-ends, common-parts, bit-append, drop-append, strip-append, strip_self, strip-ends,
  strip-parts,
}
use radixip.Compressed.Below.{at, below, below-exact, below-side}
use radixip.Compressed.Insert.{descends}

pub short-ends :
    (key : List Bool) (b : Bool) (rest : List Bool)
    → ltb (length key) (length (key ++ (b ∷ rest))) ≡ true
short-ends key b rest = ground (arith, length-append key (b ∷ rest))

-- A function that is `none` at a key is what it is with the key emptied.
kept {ℓ} :
    {A : Type ℓ} (f : List Bool → Option A) (key bits : List Bool)
    → f key ≡ none
    → f bits ≡ (if same_bits key bits then none else f bits)
kept f key bits h = elim (Bool-cases (same_bits key bits)) [
  | inl e ↦ rw e (ap f (sym (same_bits→eq key bits e)) ∙ h)
  | inr e ↦ rw e refl
]

module _ {R M : Type 0} where
  -- The answers where the edge goes on after the shared bits.
  outside-ends :
      (key : List Bool) (b : Bool) (rest : List Bool) (meta : Option M) (pre : Option R)
      (l r : Node R M)
      → (remove_inner key (node (key ++ (b ∷ rest)) meta pre l r)
          ≡ (node (key ++ (b ∷ rest)) meta pre l r, none))
        × (contains_inner key (node (key ++ (b ∷ rest)) meta pre l r) ≡ false)
  unfolding remove_inner contains_inner
  outside-ends key b rest meta pre l r = (
    rw (common-ends key b rest, short-ends key b rest, remove_inner) refl,
    rw (common-ends key b rest, short-ends key b rest, contains_inner) refl,
  )

  outside-parts :
      (shared : List Bool) (b : Bool) (edge key : List Bool) (meta : Option M) (pre : Option R)
      (l r : Node R M)
      → (remove_inner (shared ++ (not b ∷ key)) (node (shared ++ (b ∷ edge)) meta pre l r)
          ≡ (node (shared ++ (b ∷ edge)) meta pre l r, none))
        × (contains_inner (shared ++ (not b ∷ key)) (node (shared ++ (b ∷ edge)) meta pre l r)
            ≡ false)
  unfolding remove_inner contains_inner
  outside-parts shared b edge key meta pre l r = (
    rw (common-parts shared b edge key, short-ends shared b edge, remove_inner) refl,
    rw (common-parts shared b edge key, short-ends shared b edge, contains_inner) refl,
  )

  reached-exact :
      (edge : List Bool) (meta : Option M) (pre : Option R) (l r : Node R M)
      → (remove_inner edge (node edge meta pre l r) ≡ (node edge none pre l r, meta))
        × (contains_inner edge (node edge meta pre l r) ≡ is_some meta)
  unfolding remove_inner contains_inner
  reached-exact edge meta pre l r =
      let (same, _, s) = descends edge true [] in
      (
        rw (common-exact edge, s, common-exact edge, same, remove_inner) refl,
        rw (common-exact edge, s, common-exact edge, same, contains_inner) refl,
      )

  -- The child on a side, and the node with another child there.
  abbrev pub side : Bool → (l r : Node R M) → Node R M
  side false l r = l
  side true l r = r

  abbrev with_side :
      Bool → (edge : List Bool) (meta : Option M) (pre : Option R) (l r child : Node R M) → Node R M
  with_side false edge meta pre l r child = node edge meta pre child r
  with_side true edge meta pre l r child = node edge meta pre l child

  passed-longer :
      (edge : List Bool) (b : Bool) (rest : List Bool) (meta : Option M) (pre : Option R)
      (l r : Node R M)
      → (remove_inner (edge ++ (b ∷ rest)) (node edge meta pre l r) ≡ (
        with_side b edge meta pre l r (remove_inner rest (side b l r)).0,
        (remove_inner rest (side b l r)).1,
      ))
        × (contains_inner (edge ++ (b ∷ rest)) (node edge meta pre l r)
            ≡ contains_inner rest (side b l r))
  unfolding remove_inner contains_inner
  passed-longer edge false rest meta pre l r =
      let common = common-longer edge (false ∷ rest) in
      let (_, u, s) = descends edge false rest in
      (
        rw
            (
              common,
              s,
              common,
              u,
              common,
              bit-append edge false rest,
              common,
              drop-append edge false rest,
              remove_inner,
            )
            refl,
        rw
            (
              common,
              s,
              common,
              u,
              common,
              bit-append edge false rest,
              common,
              drop-append edge false rest,
              contains_inner,
            )
            refl,
      )
  passed-longer edge true rest meta pre l r =
      let common = common-longer edge (true ∷ rest) in
      let (_, u, s) = descends edge true rest in
      (
        rw
            (
              common,
              s,
              common,
              u,
              common,
              bit-append edge true rest,
              common,
              drop-append edge true rest,
              remove_inner,
            )
            refl,
        rw
            (
              common,
              s,
              common,
              u,
              common,
              bit-append edge true rest,
              common,
              drop-append edge true rest,
              contains_inner,
            )
            refl,
      )

  abbrev pub IsRemoved : List Bool → Node R M → Type 0
  IsRemoved key n =
      ((bits : List Bool)
        → at (remove_inner key n).0 bits ≡ (if same_bits key bits then none else at n bits))
      × ((remove_inner key n).1 ≡ at n key)
      × (contains_inner key n ≡ is_some (at n key))

  IsRemoved-node :
      (edge key : List Bool) (meta : Option M) (pre : Option R) (l r : Node R M)
      → Meets edge key
      → ((k : List Bool) → IsRemoved k l)
      → ((k : List Bool) → IsRemoved k r)
      → IsRemoved key (node edge meta pre l r)
  unfolding at
  IsRemoved-node _ _ meta pre l r (exact edge) hl hr =
      let (er, ec) = reached-exact edge meta pre l r in
      let here = ap (below meta (at l) (at r)) (strip_self edge) in
      (
        λ bits. ap (λ q. at q.0 bits) er ∙ below-exact edge bits meta none (at l) (at r),
        ap (λ q. q.1) er ∙ sym here,
        ec ∙ ap is_some (sym here),
      )
  IsRemoved-node _ _ meta pre l r (ends key b rest) hl hr =
      let (er, ec) = outside-ends key b rest meta pre l r in
      let here = ap (below meta (at l) (at r)) (strip-ends key b rest) in
      (
        λ bits.
            ap (λ q. at q.0 bits) er
            ∙ kept (at (node (key ++ (b ∷ rest)) meta pre l r)) key bits here,
        ap (λ q. q.1) er ∙ sym here,
        ec ∙ ap is_some (sym here),
      )
  IsRemoved-node _ _ meta pre l r (parts shared b edge key) hl hr =
      let (er, ec) = outside-parts shared b edge key meta pre l r in
      let here = ap (below meta (at l) (at r)) (strip-parts shared b edge key) in
      (
        λ bits.
            ap (λ q. at q.0 bits) er
            ∙ kept (at (node (shared ++ (b ∷ edge)) meta pre l r)) (shared ++ (not b ∷ key)) bits
                here,
        ap (λ q. q.1) er ∙ sym here,
        ec ∙ ap is_some (sym here),
      )
  IsRemoved-node _ _ meta pre l r (longer edge false rest) hl hr =
      let (er, ec) = passed-longer edge false rest meta pre l r in
      let (changed, answer, held) = hl rest in
      let here = ap (below meta (at l) (at r)) (strip-append edge (false ∷ rest)) in
      (
        λ bits.
            ap (λ q. at q.0 bits) er
            ∙ below-side edge false rest bits meta none (at l) (at r) (at (remove_inner rest l).0)
                (at r) changed (λ _. refl),
        ap (λ q. q.1) er ∙ answer ∙ sym here,
        ec ∙ held ∙ ap is_some (sym here),
      )
  IsRemoved-node _ _ meta pre l r (longer edge true rest) hl hr =
      let (er, ec) = passed-longer edge true rest meta pre l r in
      let (changed, answer, held) = hr rest in
      let here = ap (below meta (at l) (at r)) (strip-append edge (true ∷ rest)) in
      (
        λ bits.
            ap (λ q. at q.0 bits) er
            ∙ below-side edge true rest bits meta none (at l) (at r) (at l)
                (at (remove_inner rest r).0) changed (λ _. refl),
        ap (λ q. q.1) er ∙ answer ∙ sym here,
        ec ∙ held ∙ ap is_some (sym here),
      )

  -- After a removal the tree stores nothing at the key and what it stored elsewhere; the answer is
  -- what it stored there, and contains_inner tells whether that is something.
  pub at-remove_inner : (n : Node R M) (key : List Bool) → IsRemoved key n
  unfolding at remove_inner contains_inner
  at-remove_inner nil key = (λ bits. kept (λ _. none) key bits refl, refl, refl)
  at-remove_inner (node edge meta pre l r) key =
      IsRemoved-node edge key meta pre l r (meets edge key) (at-remove_inner l) (at-remove_inner r)
