-- ===== src/Uncompressed/Count.antt =====
-- The number of stored prefixes of the bit trie of lib/rust/engine/src/tree.rs.
use radixip.Base.{ℕ, zero, suc, ◌+◌, ◌≡◌, refl, Bool, true, false, none, some, arith, is_some}
use radixip.Net.{IpAddr}
use radixip.Uncompressed.{
  Node, nil, node, goes_left, child, set_child, or_build, insert_at, remove_at,
}
use radixip.Uncompressed.Routes.{IsNode, or_build-IsNode}

abbrev pub one_if : Bool → ℕ
one_if true = 1
one_if false = 0

module _ {R M : Type 0} where
  unfoldable pub count : Node R M → ℕ
  count nil = 0
  count (node m p l r) = one_if (is_some m) + count l + count r

  count-or_build : (t : Node R M) → count (or_build t) ≡ count t
  unfolding count
  count-or_build nil = refl
  count-or_build (node m p l r) = refl

  -- A new child changes the count by what it differs from the old one.
  count-set_child :
      (left : Bool) (c t : Node R M)
      → IsNode t
      → count (set_child left c t) + count (child left t) ≡ count t + count c
  unfolding count IsNode
  count-set_child left c nil h = elim h [ ]
  count-set_child true c (node m p l r) h = omega arith
  count-set_child false c (node m p l r) h = omega arith

  pub insert_at-count :
      (rounds depth : ℕ) (ip : IpAddr) (route : R) (meta : M) (t : Node R M)
      → IsNode t
      → count (insert_at rounds depth ip route meta t).0
        ≡ count t + one_if (insert_at rounds depth ip route meta t).1
  unfolding insert_at
  insert_at-count zero depth ip route meta nil h = unfold IsNode in elim h [ ]
  insert_at-count zero depth ip route meta (node none p l r) h = unfold count in omega arith
  insert_at-count zero depth ip route meta (node (some m) p l r) h = unfold count in omega arith
  insert_at-count (suc rounds) depth ip route meta t h =
      let left = goes_left ip depth in
      let next = insert_at rounds (suc depth) ip route meta (or_build (child left t)) in
      omega (
        arith,
        count-set_child left next.0 t h,
        count-or_build (child left t),
        insert_at-count rounds (suc depth) ip route meta (or_build (child left t))
            (or_build-IsNode (child left t)),
      )

  pub remove_at-count :
      (rounds depth : ℕ) (ip : IpAddr) (t : Node R M)
      → count (remove_at rounds depth ip t).0 + one_if (is_some (remove_at rounds depth ip t).1)
        ≡ count t
  unfolding remove_at
  remove_at-count rounds depth ip nil = unfold count in refl
  remove_at-count zero depth ip (node none p l r) = unfold count in omega arith
  remove_at-count zero depth ip (node (some m) p l r) = unfold count in omega arith
  remove_at-count (suc rounds) depth ip (node m p l r) =
      let left = goes_left ip depth in
      let t = node m p l r in
      let next = remove_at rounds (suc depth) ip (child left t) in
      omega (
        arith,
        count-set_child left next.0 t (unfold IsNode in tt),
        remove_at-count rounds (suc depth) ip (child left t),
      )
