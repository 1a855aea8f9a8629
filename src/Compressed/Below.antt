-- ===== src/Compressed/Below.antt =====
-- What a tree of lib/rust/engine/src/tree.rs (`CompressedTree`) stores at a bit string, and how that
-- changes with an edge.
use radixip.Base.{
  ◌≡◌, refl, Bool, true, false, not, Option, none, some, List, [], ◌∷◌, ◌++◌, if◌then◌else◌,
}
use radixip.Compressed.{Node, nil, node}
use radixip.Compressed.Bits.{strip, same_bits}

module _ {M : Type 0} where
  -- What the rest of a string finds below an edge.
  abbrev pub below : Option M → (l r : List Bool → Option M) → Option (List Bool) → Option M
  below meta l r none = none
  below meta l r (some []) = meta
  below meta l r (some (false ∷ bits)) = l bits
  below meta l r (some (true ∷ bits)) = r bits

  pub below-leaf :
      (key bits : List Bool) (m : M)
      → below (some m) (λ _. none) (λ _. none) (strip key bits)
        ≡ (if same_bits key bits then some m else none)
  unfolding strip
  below-leaf [] [] m = refl
  below-leaf [] (true ∷ bits) m = refl
  below-leaf [] (false ∷ bits) m = refl
  below-leaf (x ∷ key) [] m = refl
  below-leaf (true ∷ key) (true ∷ bits) m = below-leaf key bits m
  below-leaf (false ∷ key) (false ∷ bits) m = below-leaf key bits m
  below-leaf (true ∷ key) (false ∷ bits) m = refl
  below-leaf (false ∷ key) (true ∷ bits) m = refl

  pub below-exact :
      (edge bits : List Bool) (old new : Option M) (l r : List Bool → Option M)
      → below new l r (strip edge bits)
        ≡ (if same_bits edge bits then new else below old l r (strip edge bits))
  unfolding strip
  below-exact [] [] old new l r = refl
  below-exact [] (true ∷ bits) old new l r = refl
  below-exact [] (false ∷ bits) old new l r = refl
  below-exact (x ∷ edge) [] old new l r = refl
  below-exact (true ∷ edge) (true ∷ bits) old new l r = below-exact edge bits old new l r
  below-exact (false ∷ edge) (false ∷ bits) old new l r = below-exact edge bits old new l r
  below-exact (true ∷ edge) (false ∷ bits) old new l r = refl
  below-exact (false ∷ edge) (true ∷ bits) old new l r = refl

  -- A new function below the side `b` of an edge.
  pub below-side :
      (edge : List Bool) (b : Bool) (rest bits : List Bool) (meta new : Option M)
      (l r l' r' : List Bool → Option M)
      → ((bits : List Bool)
          → below meta l' r' (some (b ∷ bits))
            ≡ (if same_bits rest bits then new else below meta l r (some (b ∷ bits))))
      → ((bits : List Bool)
          → below meta l' r' (some (not b ∷ bits)) ≡ below meta l r (some (not b ∷ bits)))
      → below meta l' r' (strip edge bits)
        ≡ (if same_bits (edge ++ (b ∷ rest)) bits then new else below meta l r (strip edge bits))
  unfolding strip
  below-side [] b rest [] meta new l r l' r' h k = refl
  below-side [] true rest (true ∷ bits) meta new l r l' r' h k = h bits
  below-side [] true rest (false ∷ bits) meta new l r l' r' h k = k bits
  below-side [] false rest (true ∷ bits) meta new l r l' r' h k = k bits
  below-side [] false rest (false ∷ bits) meta new l r l' r' h k = h bits
  below-side (x ∷ edge) b rest [] meta new l r l' r' h k = refl
  below-side (true ∷ edge) b rest (true ∷ bits) meta new l r l' r' h k =
      below-side edge b rest bits meta new l r l' r' h k
  below-side (false ∷ edge) b rest (false ∷ bits) meta new l r l' r' h k =
      below-side edge b rest bits meta new l r l' r' h k
  below-side (true ∷ edge) b rest (false ∷ bits) meta new l r l' r' h k = refl
  below-side (false ∷ edge) b rest (true ∷ bits) meta new l r l' r' h k = refl

  -- An edge cut at a bit: what stood below it stands below its rest.
  pub below-cut :
      (edge : List Bool) (b : Bool) (rest bits : List Bool) (meta new : Option M)
      (l r l' r' : List Bool → Option M)
      → ((bits : List Bool) → below new l' r' (some (b ∷ bits)) ≡ below meta l r (strip rest bits))
      → ((bits : List Bool) → below new l' r' (some (not b ∷ bits)) ≡ none)
      → below new l' r' (strip edge bits)
        ≡ (if same_bits edge bits then new else below meta l r (strip (edge ++ (b ∷ rest)) bits))
  unfolding strip
  below-cut [] b rest [] meta new l r l' r' h k = refl
  below-cut [] true rest (true ∷ bits) meta new l r l' r' h k = h bits
  below-cut [] true rest (false ∷ bits) meta new l r l' r' h k = k bits
  below-cut [] false rest (true ∷ bits) meta new l r l' r' h k = k bits
  below-cut [] false rest (false ∷ bits) meta new l r l' r' h k = h bits
  below-cut (x ∷ edge) b rest [] meta new l r l' r' h k = refl
  below-cut (true ∷ edge) b rest (true ∷ bits) meta new l r l' r' h k =
      below-cut edge b rest bits meta new l r l' r' h k
  below-cut (false ∷ edge) b rest (false ∷ bits) meta new l r l' r' h k =
      below-cut edge b rest bits meta new l r l' r' h k
  below-cut (true ∷ edge) b rest (false ∷ bits) meta new l r l' r' h k = refl
  below-cut (false ∷ edge) b rest (true ∷ bits) meta new l r l' r' h k = refl

  -- An edge cut at a bit, and a leaf on the other side.
  pub below-fork :
      (edge : List Bool) (b : Bool) (rest key bits : List Bool) (meta : Option M) (m : M)
      (l r l' r' : List Bool → Option M)
      → ((bits : List Bool) → below none l' r' (some (b ∷ bits)) ≡ below meta l r (strip rest bits))
      → ((bits : List Bool)
          → below none l' r' (some (not b ∷ bits)) ≡ (if same_bits key bits then some m else none))
      → below none l' r' (strip edge bits) ≡ (
          if same_bits (edge ++ (not b ∷ key)) bits
          then some m
          else below meta l r (strip (edge ++ (b ∷ rest)) bits))
  unfolding strip
  below-fork [] b rest key [] meta m l r l' r' h k = refl
  below-fork [] true rest key (true ∷ bits) meta m l r l' r' h k = h bits
  below-fork [] true rest key (false ∷ bits) meta m l r l' r' h k = k bits
  below-fork [] false rest key (true ∷ bits) meta m l r l' r' h k = k bits
  below-fork [] false rest key (false ∷ bits) meta m l r l' r' h k = h bits
  below-fork (x ∷ edge) b rest key [] meta m l r l' r' h k = refl
  below-fork (true ∷ edge) b rest key (true ∷ bits) meta m l r l' r' h k =
      below-fork edge b rest key bits meta m l r l' r' h k
  below-fork (false ∷ edge) b rest key (false ∷ bits) meta m l r l' r' h k =
      below-fork edge b rest key bits meta m l r l' r' h k
  below-fork (true ∷ edge) b rest key (false ∷ bits) meta m l r l' r' h k = refl
  below-fork (false ∷ edge) b rest key (true ∷ bits) meta m l r l' r' h k = refl

module _ {R M : Type 0} where
  -- What the tree stores at a bit string.
  unfoldable pub at : Node R M → List Bool → Option M
  at nil bits = none
  at (node edge meta pre l r) bits = below meta (at l) (at r) (strip edge bits)
