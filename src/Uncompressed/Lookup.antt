-- ===== src/Uncompressed/Lookup.antt =====
-- `UncompressedTree` of lib/rust/engine/src/tree.rs over any sequence of its operations: `lookup`
-- is the reference search of lib/rust/engine/src/lpm.rs, and the contents are those of a map.
use mathlib.Core.Path.{fun_ext}
use radixip.Base.{◌≡◌, refl, sym, ap, ◌∙◌, Bool, true, Option, none, some, List, [], ◌∷◌, arith}
use radixip.Net.{IpAddr, IsAddress, Network, IpNetwork}
use radixip.Lpm.{longest_prefix_match_entries}
use radixip.Uncompressed.{
  Node, nil, node, search_from, longest_prefix_match_binary, UncompressedTree, new, insert, remove,
  clear, lookup,
}
use radixip.Uncompressed.Fits.{IsTrie, new-IsTrie, insert-IsTrie, remove-IsTrie, clear-IsTrie}
use radixip.Uncompressed.Search.{entries, scan, Agrees, Agrees-on}
use radixip.Uncompressed.Map.{
  update, only_root, route, at, IsRooted, at-insert, at-remove, at-clear, insert-IsRooted,
  remove-IsRooted, clear-IsRooted, new-IsRooted, at-new,
}

-- A call that changes the tree.
pub data Op (R M : Type 0) : Type 0 where
  inserts : R → M → Op R M
  removes : R → Op R M
  clears : Op R M

module _ {N4 N6 : Type 0} ⦃a : Network 4 N4⦄ ⦃b : Network 16 N6⦄ {M : Type 0} where
  unfoldable pub run :
      List (Op (IpNetwork N4 N6) M)
      → UncompressedTree (IpNetwork N4 N6) M
      → UncompressedTree (IpNetwork N4 N6) M
  run [] t = t
  run (inserts p meta ∷ ops) t = run ops (insert t p meta).0
  run (removes p ∷ ops) t = run ops (remove t p).0
  run (clears ∷ ops) t = run ops (clear t)

  -- The same calls on a map from bit strings.
  unfoldable pub replay :
      List (Op (IpNetwork N4 N6) M) → (List Bool → Option M) → List Bool → Option M
  replay [] f = f
  replay (inserts p meta ∷ ops) f = replay ops (update f (route p) (some meta))
  replay (removes p ∷ ops) f = replay ops (update f (route p) none)
  replay (clears ∷ ops) f = replay ops (only_root f)

  run-IsTrie :
      (ops : List (Op (IpNetwork N4 N6) M)) (t : UncompressedTree (IpNetwork N4 N6) M)
      → IsTrie t
      → IsTrie (run ops t)
  unfolding run
  run-IsTrie [] t h = h
  run-IsTrie (inserts p meta ∷ ops) t h = run-IsTrie ops _ (insert-IsTrie t p meta h)
  run-IsTrie (removes p ∷ ops) t h = run-IsTrie ops _ (remove-IsTrie t p h)
  run-IsTrie (clears ∷ ops) t h = run-IsTrie ops _ (clear-IsTrie t h)

  -- The walk from the root, its first visit and first step taken before the loop.
  pub binary-eq-search :
      (t : Node (IpNetwork N4 N6) M) (ip : IpAddr)
      → longest_prefix_match_binary t ip ≡ search_from t ip 0 none
  unfolding longest_prefix_match_binary search_from
  binary-eq-search nil ip = refl
  binary-eq-search (node m p l r) ip = ground arith

  -- On a trie that fits, `lookup` finds what the reference search finds among its entries.
  pub lookup-eq-longest_prefix_match_entries :
      (t : UncompressedTree (IpNetwork N4 N6) M) (ip : IpAddr)
      → IsTrie t
      → IsAddress ip
      → lookup t ip ≡ longest_prefix_match_entries (entries t.root) ip
  unfolding lookup longest_prefix_match_entries
  lookup-eq-longest_prefix_match_entries t ip h w =
      binary-eq-search t.root ip
      ∙ sym (
          unfold Agrees scan in Agrees-on ip w (λ _. true) 0 t.root none h (λ i lt. elim lt [ ]) tt)

  -- After any calls on an empty tree, `lookup` finds what the reference search finds among the
  -- entries that the tree holds.
  pub run-lookup :
      (ops : List (Op (IpNetwork N4 N6) M)) (ip : IpAddr)
      → IsAddress ip
      → lookup (run ops new) ip ≡ longest_prefix_match_entries (entries (run ops new).root) ip
  run-lookup ops ip w =
      lookup-eq-longest_prefix_match_entries (run ops new) ip
        (run-IsTrie ops new (new-IsTrie N4 N6 M)) w

  run-replay :
      (ops : List (Op (IpNetwork N4 N6) M)) (t : UncompressedTree (IpNetwork N4 N6) M)
      → IsRooted t
      → at (run ops t) ≡ replay ops (at t)
  unfolding run replay
  run-replay [] t h = refl
  run-replay (inserts p meta ∷ ops) t h =
      run-replay ops _ (insert-IsRooted t p meta h)
      ∙ ap (replay ops) (fun_ext (at-insert t p meta h).1)
  run-replay (removes p ∷ ops) t h =
      run-replay ops _ (remove-IsRooted t p h) ∙ ap (replay ops) (fun_ext (at-remove t p).1)
  run-replay (clears ∷ ops) t h =
      run-replay ops _ (clear-IsRooted t h) ∙ ap (replay ops) (fun_ext (at-clear t))

  -- After any calls on an empty tree, it stores at each bit string what the same calls leave in a
  -- map that starts empty; a `clear` keeps what stands at the empty bit string.
  pub run-at :
      (ops : List (Op (IpNetwork N4 N6) M)) (q : List Bool)
      → at (run ops new) q ≡ replay ops (λ _. none) q
  run-at ops q =
      ap (λ f. f q) (run-replay ops new (new-IsRooted _ _) ∙ ap (replay ops) (fun_ext (at-new _ _)))
