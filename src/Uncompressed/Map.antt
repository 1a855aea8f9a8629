-- ===== src/Uncompressed/Map.antt =====
-- `UncompressedTree` of lib/rust/engine/src/tree.rs as a map: what its operations return, and
-- what any sequence of them leaves stored.
use radixip.Base.{
  ◌≡◌, ◌≢◌, refl, ap, ◌∙◌, inl, inr, Bool, true, false, ◌&&◌, Option, none, some, List, [], ◌∷◌,
  arith, is_some, is_none, if◌then◌else◌, Bool-cases, ok,
}
use radixip.Net.{Network, IpNetwork, network, prefix}
use radixip.Uncompressed.{nil, set_child, UncompressedTree, new, insert, remove, contains, clear}
use radixip.Uncompressed.Routes.{
  route_from, stored, IsNode, insert_at-is_new, insert_at_self, insert_at-other, insert_at-IsNode,
  set_child-IsNode, remove_at-removed, remove_at_self, remove_at-other, remove_at-IsNode,
  contains_at-stored, stored-clear,
}

-- Equality of bit strings.
abbrev pub same_bit : Bool → Bool → Bool
same_bit true b = b
same_bit false true = false
same_bit false false = true

unfoldable pub same_bits : List Bool → List Bool → Bool
same_bits [] [] = true
same_bits [] (_ ∷ _) = false
same_bits (_ ∷ _) [] = false
same_bits (x ∷ xs) (y ∷ ys) = same_bit x y && same_bits xs ys

eq_of_same_bit : (x y : Bool) → same_bit x y ≡ true → x ≡ y
eq_of_same_bit x y h = ground arith

pub eq_of_same_bits : (xs ys : List Bool) → same_bits xs ys ≡ true → xs ≡ ys
unfolding same_bits
eq_of_same_bits [] [] h = refl
eq_of_same_bits [] (y ∷ ys) h = cc
eq_of_same_bits (x ∷ xs) [] h = cc
eq_of_same_bits (x ∷ xs) (y ∷ ys) h = ground (arith, eq_of_same_bit x y, eq_of_same_bits xs ys)

same_bits_refl : (xs : List Bool) → same_bits xs xs ≡ true
unfolding same_bits
same_bits_refl [] = refl
same_bits_refl (true ∷ xs) = same_bits_refl xs
same_bits_refl (false ∷ xs) = same_bits_refl xs

ne_of_same_bits : (xs ys : List Bool) → same_bits xs ys ≡ false → xs ≢ ys
ne_of_same_bits xs ys h e = ground (arith, same_bits_refl xs, ap (same_bits xs) e)

-- A map from bit strings, changed at one of them.
abbrev pub update {ℓ} :
    {A : Type ℓ} → (List Bool → Option A) → List Bool → Option A → List Bool → Option A
update f q v x = if same_bits x q then v else f x

-- A map that keeps only what stands at the empty bit string.
abbrev pub only_root {ℓ} : {A : Type ℓ} → (List Bool → Option A) → List Bool → Option A
only_root f [] = f []
only_root f (_ ∷ _) = none

module _ {R M : Type 0} where
  -- What the tree stores at a bit string.
  unfoldable pub at : UncompressedTree R M → List Bool → Option M
  unfolding stored
  at t q = stored t.root q

  -- The root is a node.
  unfoldable pub IsRooted : UncompressedTree R M → Type 0
  unfolding IsNode
  IsRooted t = IsNode t.root

pub new-IsRooted : (R M : Type 0) → IsRooted (new {R = R} {M = M})
unfolding new IsRooted
new-IsRooted R M = tt

pub at-new : (R M : Type 0) (q : List Bool) → at (new {R = R} {M = M}) q ≡ none
unfolding new at
at-new R M [] = refl
at-new R M (true ∷ q) = refl
at-new R M (false ∷ q) = refl

module _ {N4 N6 : Type 0} ⦃a : Network 4 N4⦄ ⦃b : Network 16 N6⦄ where
  -- The bits of a network: those of its address, as many as its prefix length.
  unfoldable pub route : IpNetwork N4 N6 → List Bool
  unfolding route_from
  route p = route_from (prefix p) 0 (network p)

  module _ {M : Type 0} where
    -- `insert` stores its metadata at the bits of its network and nowhere else, and answers
    -- whether nothing was stored there.
    pub at-insert :
        (t : UncompressedTree (IpNetwork N4 N6) M) (p : IpNetwork N4 N6) (meta : M)
        → IsRooted t
        → ((insert t p meta).1 ≡ ok (is_none (at t (route p))))
          × ((q : List Bool) → at (insert t p meta).0 q ≡ update (at t) (route p) (some meta) q)
    unfolding insert at IsRooted route
    at-insert t p meta h = (
      ap (λ c. ok c) (insert_at-is_new (prefix p) 0 (network p) p meta t.root),
      λ q. elim (Bool-cases (same_bits q (route p))) [
        | inl same ↦ rw same (
            ap (stored (insert t p meta).0.root) (eq_of_same_bits q (route p) same)
            ∙ insert_at_self (prefix p) 0 (network p) p meta t.root h)
        | inr other ↦ rw other (
            insert_at-other (prefix p) 0 (network p) p meta t.root q
              (ne_of_same_bits q (route p) other))
      ],
    )

    -- `remove` answers what was stored at the bits of its network, and empties that place alone.
    pub at-remove :
        (t : UncompressedTree (IpNetwork N4 N6) M) (p : IpNetwork N4 N6)
        → ((remove t p).1 ≡ at t (route p))
          × ((q : List Bool) → at (remove t p).0 q ≡ update (at t) (route p) none q)
    unfolding remove at route
    at-remove t p = (
      remove_at-removed (prefix p) 0 (network p) t.root,
      λ q. elim (Bool-cases (same_bits q (route p))) [
        | inl same ↦ rw same (
            ap (stored (remove t p).0.root) (eq_of_same_bits q (route p) same)
            ∙ remove_at_self (prefix p) 0 (network p) t.root)
        | inr other ↦
            rw other (
              remove_at-other (prefix p) 0 (network p) t.root q (ne_of_same_bits q (route p) other))
      ],
    )

    -- `contains` answers whether metadata is stored at the bits of the network.
    pub contains-at :
        (t : UncompressedTree (IpNetwork N4 N6) M) (p : IpNetwork N4 N6)
        → contains t p ≡ is_some (at t (route p))
    unfolding contains at route
    contains-at t p = contains_at-stored (prefix p) 0 (network p) t.root

    -- `clear` empties every place but the root's.
    pub at-clear :
        (t : UncompressedTree (IpNetwork N4 N6) M) (q : List Bool)
        → at (clear t) q ≡ only_root (at t) q
    unfolding clear at
    at-clear t q = stored-clear t.root q

    pub insert-IsRooted :
        (t : UncompressedTree (IpNetwork N4 N6) M) (p : IpNetwork N4 N6) (meta : M)
        → IsRooted t
        → IsRooted (insert t p meta).0
    unfolding insert IsRooted
    insert-IsRooted t p meta h = insert_at-IsNode (prefix p) 0 (network p) p meta t.root h

    pub remove-IsRooted :
        (t : UncompressedTree (IpNetwork N4 N6) M) (p : IpNetwork N4 N6)
        → IsRooted t
        → IsRooted (remove t p).0
    unfolding remove IsRooted
    remove-IsRooted t p h = remove_at-IsNode (prefix p) 0 (network p) t.root h

    pub clear-IsRooted :
        (t : UncompressedTree (IpNetwork N4 N6) M) → IsRooted t → IsRooted (clear t)
    unfolding clear IsRooted
    clear-IsRooted t h =
        set_child-IsNode false nil (set_child true nil t.root) (set_child-IsNode true nil t.root h)
