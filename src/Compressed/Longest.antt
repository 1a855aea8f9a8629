-- ===== src/Compressed/Longest.antt =====
-- The lookup of `CompressedTree` (lib/rust/engine/src/tree.rs) against the longest stored prefix.
use radixip.Base.{
  ◌≡◌, refl, sym, ap, ◌∙◌, Bool, true, false, Bool-cases, not, Option, Option-cases, none, some,
  List, [], ◌∷◌, ◌++◌, length, append_nil, append_assoc, or_else, ◌==◌, arith, inl, inr,
}
use radixip.Compressed.{Node, nil, node, lookup_inner}
use radixip.Compressed.Bits.{
  strip, Meets, exact, longer, ends, parts, meets, strip-append, strip_self,
}
use radixip.Compressed.Below.{at, below}
use radixip.Compressed.Insert.{empty_test}
use radixip.Compressed.Remove.{side}
use radixip.Compressed.Map.{empty-nil}
use radixip.Compressed.Lookup.{
  bare, lookup-bare, lookup-ends, lookup-parts, lookup-exact, lookup-longer,
}

module _ {M : Type 0} where
  -- The value at the longest prefix of a bit string that has one.
  unfoldable pub longest : (List Bool → Option M) → List Bool → Option M
  longest f [] = f []
  longest f (b ∷ bits) = or_else (longest (λ x. f (b ∷ x)) bits) (f [])

  or_else-none : (o : Option M) → or_else o none ≡ o
  or_else-none none = refl
  or_else-none (some m) = refl

  longest_nothing :
      (f : List Bool → Option M) (bits : List Bool)
      → ((x : List Bool) → f x ≡ none)
      → longest f bits ≡ none
  unfolding longest
  longest_nothing f [] h = h []
  longest_nothing f (b ∷ bits) h =
      rw (longest_nothing (λ x. f (b ∷ x)) bits (λ x. h (b ∷ x)), h []) refl

  module _ (meta : Option M) (l r : List Bool → Option M) where
    longest-exact : (edge : List Bool) → longest (λ x. below meta l r (strip edge x)) edge ≡ meta
    unfolding longest strip
    longest-exact [] = refl
    longest-exact (true ∷ edge) = or_else-none _ ∙ longest-exact edge
    longest-exact (false ∷ edge) = or_else-none _ ∙ longest-exact edge

    longest-ends :
        (key : List Bool) (b : Bool) (rest : List Bool)
        → longest (λ x. below meta l r (strip (key ++ (b ∷ rest)) x)) key ≡ none
    unfolding longest strip
    longest-ends [] b rest = refl
    longest-ends (true ∷ key) b rest = or_else-none _ ∙ longest-ends key b rest
    longest-ends (false ∷ key) b rest = or_else-none _ ∙ longest-ends key b rest

    longest-parts :
        (shared : List Bool) (b : Bool) (edge key : List Bool)
        → longest (λ x. below meta l r (strip (shared ++ (b ∷ edge)) x)) (shared ++ (not b ∷ key))
          ≡ none
    unfolding longest strip
    longest-parts [] true edge key = or_else-none _ ∙ longest_nothing (λ _. none) key (λ _. refl)
    longest-parts [] false edge key = or_else-none _ ∙ longest_nothing (λ _. none) key (λ _. refl)
    longest-parts (true ∷ shared) b edge key = or_else-none _ ∙ longest-parts shared b edge key
    longest-parts (false ∷ shared) b edge key = or_else-none _ ∙ longest-parts shared b edge key

    longest-longer :
        (edge : List Bool) (b : Bool) (rest : List Bool)
        → longest (λ x. below meta l r (strip edge x)) (edge ++ (b ∷ rest))
          ≡ or_else (longest (λ x. below meta l r (some (b ∷ x))) rest) meta
    unfolding longest strip
    longest-longer [] b rest = refl
    longest-longer (true ∷ edge) b rest = or_else-none _ ∙ longest-longer edge b rest
    longest-longer (false ∷ edge) b rest = or_else-none _ ∙ longest-longer edge b rest

module _ {R M : Type 0} where
  -- No node without edge and metadata has children.
  unfoldable pub IsJoined : Node R M → Type 0
  IsJoined nil = Unit
  IsJoined (node edge meta pre l r) =
      (bare edge meta ≡ true → (l ≡ nil) × (r ≡ nil)) × IsJoined l × IsJoined r

  found-node :
      (edge key : List Bool) (meta : Option M) (pre : Option R) (l r : Node R M)
      → Meets edge key
      → bare edge meta ≡ false
      → ((k : List Bool) → lookup_inner k l ≡ longest (at l) k)
      → ((k : List Bool) → lookup_inner k r ≡ longest (at r) k)
      → lookup_inner key (node edge meta pre l r) ≡ longest (at (node edge meta pre l r)) key
  unfolding at
  found-node _ _ meta pre l r (exact edge) h hl hr =
      lookup-exact edge meta pre l r h ∙ sym (longest-exact meta (at l) (at r) edge)
  found-node _ _ meta pre l r (ends key b rest) h hl hr =
      lookup-ends key b rest meta pre l r h ∙ sym (longest-ends meta (at l) (at r) key b rest)
  found-node _ _ meta pre l r (parts shared b edge key) h hl hr =
      lookup-parts shared b edge key meta pre l r h
      ∙ sym (longest-parts meta (at l) (at r) shared b edge key)
  found-node _ _ meta pre l r (longer edge true rest) h hl hr =
      lookup-longer edge true rest meta pre l r h
      ∙ ap (λ o. or_else o meta) (hr rest)
      ∙ sym (longest-longer meta (at l) (at r) edge true rest)
  found-node _ _ meta pre l r (longer edge false rest) h hl hr =
      lookup-longer edge false rest meta pre l r h
      ∙ ap (λ o. or_else o meta) (hl rest)
      ∙ sym (longest-longer meta (at l) (at r) edge false rest)

  bare-empty :
      (edge : List Bool) (meta : Option M) (l r : Node R M)
      → bare edge meta ≡ true
      → l ≡ nil
      → r ≡ nil
      → empty_test edge meta l r ≡ true
  bare-empty [] none l r h el er = rw (el, er) refl
  bare-empty [] (some m) l r h el er = cc
  bare-empty (x ∷ edge) meta l r h el er =
      let long : (length (x ∷ edge) == 0) ≡ false = ground arith in
      let no : false ≡ true = rw long at h in absurd (cc)

  -- In a tree where no node without edge and metadata has children, the lookup of a bit string finds
  -- what is stored at its longest stored prefix.
  pub lookup_inner-longest :
      (n : Node R M) (key : List Bool) → IsJoined n → lookup_inner key n ≡ longest (at n) key
  unfolding IsJoined at lookup_inner
  lookup_inner-longest nil key h = sym (longest_nothing (λ _. none) key (λ _. refl))
  lookup_inner-longest (node edge meta pre l r) key (joined, hl, hr) =
      elim (Bool-cases (bare edge meta)) [
        | inl b ↦
            lookup-bare key edge meta pre l r b
            ∙ sym (
                longest_nothing (at (node edge meta pre l r)) key
                  (empty-nil edge meta pre l r
                    (bare-empty edge meta l r b (joined b).0 (joined b).1)).2)
        | inr b ↦
            found-node edge key meta pre l r (meets edge key) b (λ k. lookup_inner-longest l k hl)
              (λ k. lookup_inner-longest r k hr)
      ]

  IsFound : List Bool → Node R M → M → Type 0
  IsFound key n m = (p rest : List Bool) × (key ≡ p ++ rest) × (at n p ≡ some m)

  sound-side :
      (edge : List Bool) (b : Bool) (rest : List Bool) (meta : Option M) (pre : Option R)
      (l r : Node R M) (m : M)
      → ((k : List Bool) → lookup_inner k l ≡ some m → IsFound k l m)
      → ((k : List Bool) → lookup_inner k r ≡ some m → IsFound k r m)
      → lookup_inner rest (side b l r) ≡ some m
      → IsFound (edge ++ (b ∷ rest)) (node edge meta pre l r) m
  unfolding at IsFound
  sound-side edge true rest meta pre l r m hl hr h =
      let (p, more, e, stored) = hr rest h in
      (
        edge ++ (true ∷ p),
        more,
        ap (λ x. edge ++ (true ∷ x)) e ∙ sym (append_assoc edge (true ∷ p) more),
        rw (strip-append edge (true ∷ p)) stored,
      )
  sound-side edge false rest meta pre l r m hl hr h =
      let (p, more, e, stored) = hl rest h in
      (
        edge ++ (false ∷ p),
        more,
        ap (λ x. edge ++ (false ∷ x)) e ∙ sym (append_assoc edge (false ∷ p) more),
        rw (strip-append edge (false ∷ p)) stored,
      )

  sound-node :
      (edge key : List Bool) (meta : Option M) (pre : Option R) (l r : Node R M) (m : M)
      → Meets edge key
      → bare edge meta ≡ false
      → ((k : List Bool) → lookup_inner k l ≡ some m → IsFound k l m)
      → ((k : List Bool) → lookup_inner k r ≡ some m → IsFound k r m)
      → lookup_inner key (node edge meta pre l r) ≡ some m
      → IsFound key (node edge meta pre l r) m
  unfolding at IsFound
  sound-node _ _ meta pre l r m (exact edge) h hl hr f = (
    edge,
    [],
    sym (append_nil edge),
    rw (strip_self edge) (sym (lookup-exact edge meta pre l r h) ∙ f),
  )
  sound-node _ _ meta pre l r m (ends key b rest) h hl hr f =
      let no : none ≡ some m = sym (lookup-ends key b rest meta pre l r h) ∙ f in absurd (cc)
  sound-node _ _ meta pre l r m (parts shared b edge key) h hl hr f =
      let no : none ≡ some m = sym (lookup-parts shared b edge key meta pre l r h) ∙ f in
      absurd (cc)
  sound-node _ _ meta pre l r m (longer edge b rest) h hl hr f =
      let e = sym (lookup-longer edge b rest meta pre l r h) ∙ f in
      elim (Option-cases (lookup_inner rest (side b l r))) [
        | inl miss ↦ (edge, b ∷ rest, refl, rw (strip_self edge) (rw miss at e))
        | inr (v, hit) ↦
            let same : lookup_inner rest (side b l r) ≡ some m = hit ∙ (rw hit at e) in
            sound-side edge b rest meta pre l r m hl hr same
      ]

  -- In any tree, what a lookup answers is stored at a prefix of the key.
  pub lookup_inner_sound :
      (n : Node R M) (key : List Bool) (m : M)
      → lookup_inner key n ≡ some m
      → (p rest : List Bool) × (key ≡ p ++ rest) × (at n p ≡ some m)
  unfolding lookup_inner IsFound
  lookup_inner_sound nil key m h = absurd (cc)
  lookup_inner_sound (node edge meta pre l r) key m h = elim (Bool-cases (bare edge meta)) [
    | inl b ↦ let no : none ≡ some m = sym (lookup-bare key edge meta pre l r b) ∙ h in absurd (cc)
    | inr b ↦
        sound-node edge key meta pre l r m (meets edge key) b (λ k f. lookup_inner_sound l k m f)
          (λ k f. lookup_inner_sound r k m f) h
  ]
