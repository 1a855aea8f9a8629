-- ===== src/Uncompressed/Again.antt =====
-- A call made twice on the bit trie of lib/rust/engine/src/tree.rs changes nothing the second
-- time.
use radixip.Base.{ℕ, zero, suc, ◌≡◌, refl, ap, ◌∙◌, Bool, true, false, Option, none}
use radixip.Net.{IpAddr}
use radixip.Uncompressed.{
  Node, nil, node, goes_left, child, set_child, or_build, insert_at, remove_at,
}
use radixip.Uncompressed.Routes.{IsNode, or_build-IsNode, insert_at-IsNode, set_child-IsNode}

module _ {R M : Type 0} where
  child-set_child : (left : Bool) (c t : Node R M) → IsNode t → child left (set_child left c t) ≡ c
  unfolding IsNode
  child-set_child left c nil h = elim h [ ]
  child-set_child true c (node m p l r) h = refl
  child-set_child false c (node m p l r) h = refl

  set_child_again :
      (left : Bool) (c t : Node R M) → set_child left c (set_child left c t) ≡ set_child left c t
  set_child_again left c nil = refl
  set_child_again true c (node m p l r) = refl
  set_child_again false c (node m p l r) = refl

  or_build-node : (t : Node R M) → IsNode t → or_build t ≡ t
  unfolding IsNode
  or_build-node nil h = elim h [ ]
  or_build-node (node m p l r) h = refl

  pub insert_at_again :
      (rounds depth : ℕ) (ip : IpAddr) (route : R) (meta : M) (t : Node R M)
      → IsNode t
      → insert_at rounds depth ip route meta (insert_at rounds depth ip route meta t).0
        ≡ ((insert_at rounds depth ip route meta t).0, false)
  unfolding insert_at
  insert_at_again zero depth ip route meta nil h = unfold IsNode in elim h [ ]
  insert_at_again zero depth ip route meta (node m p l r) h = refl
  insert_at_again (suc rounds) depth ip route meta t h =
      let left = goes_left ip depth in
      let below = or_build (child left t) in
      let next = (insert_at rounds (suc depth) ip route meta below).0 in
      let built = or_build-IsNode (child left t) in
      let same : or_build (child left (set_child left next t)) ≡ next =
        ap or_build (child-set_child left next t h)
        ∙ or_build-node next (insert_at-IsNode rounds (suc depth) ip route meta below built) in
      let again =
        ap (insert_at rounds (suc depth) ip route meta) same
        ∙ insert_at_again rounds (suc depth) ip route meta below built in
      ap (λ (r : Node R M × Bool). (set_child left r.0 (set_child left next t), r.1)) again
      ∙ ap (λ (u : Node R M). (u, false)) (set_child_again left next t)

  -- One round of `remove` on a node.
  remove_at_step :
      (rounds depth : ℕ) (ip : IpAddr) (t : Node R M)
      → IsNode t
      → let left = goes_left ip depth in
        let next = remove_at rounds (suc depth) ip (child left t) in
        remove_at (suc rounds) depth ip t ≡ (set_child left next.0 t, next.1)
  unfolding remove_at IsNode
  remove_at_step rounds depth ip nil h = elim h [ ]
  remove_at_step rounds depth ip (node m p l r) h = refl

  pub remove_at_again :
      (rounds depth : ℕ) (ip : IpAddr) (t : Node R M)
      → remove_at rounds depth ip (remove_at rounds depth ip t).0
        ≡ ((remove_at rounds depth ip t).0, none)
  unfolding remove_at
  remove_at_again rounds depth ip nil = refl
  remove_at_again zero depth ip (node m p l r) = refl
  remove_at_again (suc rounds) depth ip (node m p l r) =
      let left = goes_left ip depth in
      let t : Node R M = node m p l r in
      let is_node : IsNode t = unfold IsNode in tt in
      let next = (remove_at rounds (suc depth) ip (child left t)).0 in
      let nothing : Option M = none in
      let again =
        ap (remove_at rounds (suc depth) ip) (child-set_child left next t is_node)
        ∙ remove_at_again rounds (suc depth) ip (child left t) in
      remove_at_step rounds depth ip (set_child left next t) (set_child-IsNode left next t is_node)
      ∙ ap (λ (r : Node R M × Option M). (set_child left r.0 (set_child left next t), r.1)) again
      ∙ ap (λ (u : Node R M). (u, nothing)) (set_child_again left next t)
