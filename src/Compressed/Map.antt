-- ===== src/Compressed/Map.antt =====
-- `CompressedTree` of lib/rust/engine/src/tree.rs as a map from bit strings to metadata.
use radixip.Base.{
  ◌≡◌, refl, sym, ap, ◌∙◌, Bool, true, false, Bool-cases, not, Option, none, some, List, [], ◌∷◌,
  length, is_none, ◌==◌, arith, if◌then◌else◌, inl, inr,
}
use radixip.Compressed.{Node, nil, node, leaf, wire, insert_inner}
use radixip.Compressed.Bits.{
  strip, same_bits, Meets, exact, longer, ends, parts, meets, strip-append, strip_self, strip-ends,
  strip-parts,
}
use radixip.Compressed.Below.{at, below, below-leaf, below-exact, below-side, below-cut, below-fork}
use radixip.Compressed.Insert.{empty_test, insert-exact, insert-ends, insert-parts, insert-longer}

module _ {M : Type 0} where
  pub below_nothing :
      (bits : List Bool) → below {M = M} none (λ _. none) (λ _. none) (some bits) ≡ none
  below_nothing [] = refl
  below_nothing (true ∷ bits) = refl
  below_nothing (false ∷ bits) = refl

module _ {R M : Type 0} where
  -- The tree with an insertion made stores the metadata at the key, what it stored elsewhere, and
  -- the flag tells whether nothing was stored at the key.
  abbrev pub IsInserted : List Bool → R → M → Node R M → Type 0
  IsInserted key p m n =
      ((bits : List Bool)
        → at (insert_inner key p m n).0 bits ≡ (if same_bits key bits then some m else at n bits))
      × ((insert_inner key p m n).1 ≡ is_none (at n key))

  pub empty-nil :
      (edge : List Bool) (meta : Option M) (pre : Option R) (l r : Node R M)
      → empty_test edge meta l r ≡ true
      → (l ≡ nil) × (r ≡ nil) × ((bits : List Bool) → at (node edge meta pre l r) bits ≡ none)
  unfolding at strip
  empty-nil [] none pre nil nil h = (refl, refl, below_nothing)
  empty-nil (x ∷ edge) meta pre l r h =
      let long : (length (x ∷ edge) == 0) ≡ false = ground arith in
      let no : false ≡ true = rw long at h in absurd (cc)
  empty-nil [] (some m) pre l r h = cc
  empty-nil [] none pre (node _ _ _ _ _) r h = cc
  empty-nil [] none pre nil (node _ _ _ _ _) h = cc

  insert-empty :
      (key edge : List Bool) (p : R) (m : M) (meta : Option M) (pre : Option R) (l r : Node R M)
      → empty_test edge meta l r ≡ true
      → insert_inner key p m (node edge meta pre l r) ≡ (node key (some m) (some p) l r, true)
  unfolding insert_inner
  insert-empty key edge p m meta pre l r h = rw (h, insert_inner) refl

  wire_here :
      (b : Bool) (c l r : Node R M) (meta : Option M) (bits : List Bool)
      → below meta (at (wire b c l r).0) (at (wire b c l r).1) (some (b ∷ bits)) ≡ at c bits
  wire_here true c l r meta bits = refl
  wire_here false c l r meta bits = refl

  nothing_there :
      (b : Bool) (c : Node R M) (meta : Option M) (bits : List Bool)
      → below meta (at (wire b c nil nil).0) (at (wire b c nil nil).1) (some (not b ∷ bits)) ≡ none
  unfolding at
  nothing_there true c meta bits = refl
  nothing_there false c meta bits = refl

  fork_here :
      (b : Bool) (c other : Node R M) (bits : List Bool)
      → let (l, r) = wire b c nil nil in
        let (l, r) = wire (not b) other l r in
        below none (at l) (at r) (some (b ∷ bits)) ≡ at c bits
  fork_here true c other bits = refl
  fork_here false c other bits = refl

  fork_there :
      (b : Bool) (c other : Node R M) (bits : List Bool)
      → let (l, r) = wire b c nil nil in
        let (l, r) = wire (not b) other l r in
        below none (at l) (at r) (some (not b ∷ bits)) ≡ at other bits
  fork_there true c other bits = refl
  fork_there false c other bits = refl

  module _ (p : R) (m : M) where
    IsInserted-node :
        (edge key : List Bool) (meta : Option M) (pre : Option R) (l r : Node R M)
        → Meets edge key
        → empty_test edge meta l r ≡ false
        → ((k : List Bool) → IsInserted k p m l)
        → ((k : List Bool) → IsInserted k p m r)
        → IsInserted key p m (node edge meta pre l r)
    unfolding at
    IsInserted-node _ _ meta pre l r (exact edge) h hl hr =
        let e = insert-exact edge p m meta pre l r h in
        (
          λ bits. ap (λ q. at q.0 bits) e ∙ below-exact edge bits meta (some m) (at l) (at r),
          ap (λ q. q.1) e ∙ ap (λ o. is_none (below meta (at l) (at r) o)) (sym (strip_self edge)),
        )
    IsInserted-node _ _ meta pre l r (ends key b rest) h hl hr =
        let e = insert-ends key b rest p m meta pre l r in
        let child : Node R M = node rest meta pre l r in
        (
          λ bits.
              ap (λ q. at q.0 bits) e
              ∙ below-cut key b rest bits meta (some m) (at l) (at r) _ _
                  (λ bits. wire_here b child nil nil (some m) bits)
                  (λ bits. nothing_there b child (some m) bits),
          ap (λ q. q.1) e
              ∙ ap (λ o. is_none (below meta (at l) (at r) o)) (sym (strip-ends key b rest)),
        )
    IsInserted-node _ _ meta pre l r (parts shared b edge key) h hl hr =
        let e = insert-parts shared b edge key p m meta pre l r in
        let child : Node R M = node edge meta pre l r in
        (
          λ bits.
              ap (λ q. at q.0 bits) e
              ∙ below-fork shared b edge key bits meta m (at l) (at r) _ _
                  (λ bits. fork_here b child (leaf key p m) bits)
                  (λ bits. fork_there b child (leaf key p m) bits ∙ below-leaf key bits m),
          ap (λ q. q.1) e
              ∙ ap (λ o. is_none (below meta (at l) (at r) o))
                  (sym (strip-parts shared b edge key)),
        )
    IsInserted-node _ _ meta pre l r (longer edge false rest) h hl hr =
        let e = insert-longer edge false rest p m meta pre l r h in
        (
          λ bits.
              ap (λ q. at q.0 bits) e
              ∙ below-side edge false rest bits meta (some m) (at l) (at r)
                  (at (insert_inner rest p m l).0) (at r) (hl rest).0 (λ _. refl),
          ap (λ q. q.1) e
              ∙ (hl rest).1
              ∙ ap (λ o. is_none (below meta (at l) (at r) o))
                  (sym (strip-append edge (false ∷ rest))),
        )
    IsInserted-node _ _ meta pre l r (longer edge true rest) h hl hr =
        let e = insert-longer edge true rest p m meta pre l r h in
        (
          λ bits.
              ap (λ q. at q.0 bits) e
              ∙ below-side edge true rest bits meta (some m) (at l) (at r) (at l)
                  (at (insert_inner rest p m r).0) (hr rest).0 (λ _. refl),
          ap (λ q. q.1) e
              ∙ (hr rest).1
              ∙ ap (λ o. is_none (below meta (at l) (at r) o))
                  (sym (strip-append edge (true ∷ rest))),
        )

    -- After an insertion the tree stores the metadata at the key and what it stored elsewhere, and
    -- the answer tells whether nothing was stored at the key.
    pub at-insert_inner : (n : Node R M) (key : List Bool) → IsInserted key p m n
    unfolding at insert_inner
    at-insert_inner nil key = (λ bits. below-leaf key bits m, refl)
    at-insert_inner (node edge meta pre l r) key = elim (Bool-cases (empty_test edge meta l r)) [
      | inl h ↦
          let e = insert-empty key edge p m meta pre l r h in
          let (el, er, absent) = empty-nil edge meta pre l r h in
          (
            λ bits.
                ap (λ q. at q.0 bits) e
                ∙ ap (λ n. below (some m) (at n) (at r) (strip key bits)) el
                ∙ ap (λ n. below (some m) (λ _. none) (at n) (strip key bits)) er
                ∙ below-leaf key bits m
                ∙ ap (λ o. if same_bits key bits then some m else o) (sym (absent bits)),
            ap (λ q. q.1) e ∙ ap is_none (sym (absent key)),
          )
      | inr h ↦
          IsInserted-node edge key meta pre l r (meets edge key) h (at-insert_inner l)
            (at-insert_inner r)
    ]
