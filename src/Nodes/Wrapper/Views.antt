-- ===== src/Nodes/Wrapper/Views.antt =====
-- Every variant of a node, behind the wrapper, answers alike.
use radixip.Base.{
  ◌≡◌, refl, ap, sym, ◌∙◌, none, some, List, [], ◌∷◌, All, map_option, Option-cases, inl, inr,
}
use radixip.Nodes.{
  Node, Setter, left_call, right_call, metadata_call, clear_call, bit_call, prefix_call, edge_call,
  IsSmall, call, calls, view, Kind, trie, radix, blank, expect, expects,
}
use radixip.Nodes.Trie.{
  child_key, NormalTrieNode, AtomicTrieNode, PaddedTrieNode, LockFreeTrieNode, normal_trie,
  atomic_trie, padded_trie, lock_free_trie, new_normal_trie, new_atomic_trie, new_padded_trie,
  new_lock_free_trie,
}
use radixip.Nodes.Radix.{
  NormalRadixNode, AtomicRadixNode, PaddedRadixNode, LockFreeRadixNode, normal_radix, atomic_radix,
  padded_radix, lock_free_radix, new_normal_radix, new_atomic_radix, new_padded_radix,
  new_lock_free_radix,
}
use radixip.Nodes.Wrapper.{
  NodeVariant, NodeWrapper, wrapper, dispatch, dispatch_set, dispatch_edge, build, kind_of,
  normal_trie_node, atomic_trie_node, padded_trie_node, lock_free_trie_node, normal_radix_node,
  atomic_radix_node, padded_radix_node, lock_free_radix_node, normal_trie_node, atomic_trie_node,
  padded_trie_node, lock_free_trie_node, normal_radix_node, atomic_radix_node, padded_radix_node,
  lock_free_radix_node,
}
use radixip.Nodes.Steps.{
  Steps, normal_trie-Steps, atomic_trie-Steps, padded_trie-Steps, lock_free_trie-Steps,
  normal_radix-Steps, atomic_radix-Steps, padded_radix-Steps, lock_free_radix-Steps,
}

module _ {C M N : Type 0} where
  -- A variant of the wrapper whose node steps as expected answers any calls as expected.
  calls_variant :
      {S : Type 0} (node : Node C M N S) (k : Kind) (wrap : S → NodeWrapper C M N)
      → Steps node k
      → ((c : Setter C M N) (s : S) → call wrapper c (wrap s) ≡ map_option wrap (call node c s))
      → ((s : S) → view wrapper (wrap s) ≡ view node s)
      → (cs : List (Setter C M N)) (s : S) → All IsSmall cs
      → map_option (view wrapper) (calls wrapper cs (wrap s)) ≡ expects k cs (view node s)
  unfolding calls expects
  calls_variant node k wrap step wrapped same [] s h = ap some (same s)
  calls_variant node k wrap step wrapped same (c ∷ cs) s (h, hs) =
      elim (Option-cases (call node c s)) [
        | inl p ↦
            (let none_left : expect k c (view node s) ≡ none =
                sym (step c s h) ∙ ap (map_option (view node)) p in
              rw (wrapped c s, p, none_left) refl)
        | inr (s2, p) ↦
            (let view_left : expect k c (view node s) ≡ some (view node s2) =
                sym (step c s h) ∙ ap (map_option (view node)) p in
              rw (wrapped c s, p, view_left) (calls_variant node k wrap step wrapped same cs s2 hs))
      ]

-- How the wrapper passes a call on.
module _ {C M N : Type 0} where
  normal_trie_passes :
      (c : Setter C M N) (s : NormalTrieNode C M N)
      → call wrapper c (normal_trie_node s) ≡ map_option normal_trie_node (call normal_trie c s)
  unfolding call dispatch_set dispatch_edge
  normal_trie_passes (left_call c) s = refl
  normal_trie_passes (right_call c) s = refl
  normal_trie_passes (metadata_call m) s = refl
  normal_trie_passes clear_call s = refl
  normal_trie_passes (bit_call b) s = refl
  normal_trie_passes (prefix_call n) s = refl
  normal_trie_passes (edge_call bits len) s = refl

  atomic_trie_passes :
      (c : Setter C M N) (s : AtomicTrieNode C M N)
      → call wrapper c (atomic_trie_node s) ≡ map_option atomic_trie_node (call atomic_trie c s)
  unfolding call dispatch_set dispatch_edge
  atomic_trie_passes (left_call c) s = refl
  atomic_trie_passes (right_call c) s = refl
  atomic_trie_passes (metadata_call m) s = refl
  atomic_trie_passes clear_call s = refl
  atomic_trie_passes (bit_call b) s = refl
  atomic_trie_passes (prefix_call n) s = refl
  atomic_trie_passes (edge_call bits len) s = refl

  padded_trie_passes :
      (c : Setter C M N) (s : PaddedTrieNode C M N)
      → call wrapper c (padded_trie_node s) ≡ map_option padded_trie_node (call padded_trie c s)
  unfolding call dispatch_set dispatch_edge
  padded_trie_passes (left_call c) s = refl
  padded_trie_passes (right_call c) s = refl
  padded_trie_passes (metadata_call m) s = refl
  padded_trie_passes clear_call s = refl
  padded_trie_passes (bit_call b) s = refl
  padded_trie_passes (prefix_call n) s = refl
  padded_trie_passes (edge_call bits len) s = refl

  lock_free_trie_passes :
      (c : Setter C M N) (s : LockFreeTrieNode C M N)
      → call wrapper c (lock_free_trie_node s)
        ≡ map_option lock_free_trie_node (call lock_free_trie c s)
  unfolding call dispatch_set dispatch_edge
  lock_free_trie_passes (left_call c) s = refl
  lock_free_trie_passes (right_call c) s = refl
  lock_free_trie_passes (metadata_call m) s = refl
  lock_free_trie_passes clear_call s = refl
  lock_free_trie_passes (bit_call b) s = refl
  lock_free_trie_passes (prefix_call n) s = refl
  lock_free_trie_passes (edge_call bits len) s = refl

  normal_radix_passes :
      (c : Setter C M N) (s : NormalRadixNode C M N)
      → call wrapper c (normal_radix_node s) ≡ map_option normal_radix_node (call normal_radix c s)
  unfolding call dispatch_set dispatch_edge
  normal_radix_passes (left_call c) s = refl
  normal_radix_passes (right_call c) s = refl
  normal_radix_passes (metadata_call m) s = refl
  normal_radix_passes clear_call s = refl
  normal_radix_passes (bit_call b) s = refl
  normal_radix_passes (prefix_call n) s = refl
  normal_radix_passes (edge_call bits len) s = refl

  atomic_radix_passes :
      (c : Setter C M N) (s : AtomicRadixNode C M N)
      → call wrapper c (atomic_radix_node s) ≡ map_option atomic_radix_node (call atomic_radix c s)
  unfolding call dispatch_set dispatch_edge
  atomic_radix_passes (left_call c) s = refl
  atomic_radix_passes (right_call c) s = refl
  atomic_radix_passes (metadata_call m) s = refl
  atomic_radix_passes clear_call s = refl
  atomic_radix_passes (bit_call b) s = refl
  atomic_radix_passes (prefix_call n) s = refl
  atomic_radix_passes (edge_call bits len) s = refl

  padded_radix_passes :
      (c : Setter C M N) (s : PaddedRadixNode C M N)
      → call wrapper c (padded_radix_node s) ≡ map_option padded_radix_node (call padded_radix c s)
  unfolding call dispatch_set dispatch_edge
  padded_radix_passes (left_call c) s = refl
  padded_radix_passes (right_call c) s = refl
  padded_radix_passes (metadata_call m) s = refl
  padded_radix_passes clear_call s = refl
  padded_radix_passes (bit_call b) s = refl
  padded_radix_passes (prefix_call n) s = refl
  padded_radix_passes (edge_call bits len) s = refl

  lock_free_radix_passes :
      (c : Setter C M N) (s : LockFreeRadixNode C M N)
      → call wrapper c (lock_free_radix_node s)
        ≡ map_option lock_free_radix_node (call lock_free_radix c s)
  unfolding call dispatch_set dispatch_edge
  lock_free_radix_passes (left_call c) s = refl
  lock_free_radix_passes (right_call c) s = refl
  lock_free_radix_passes (metadata_call m) s = refl
  lock_free_radix_passes clear_call s = refl
  lock_free_radix_passes (bit_call b) s = refl
  lock_free_radix_passes (prefix_call n) s = refl
  lock_free_radix_passes (edge_call bits len) s = refl

  -- A new node of any variant, after any calls of its setters with bits below 255, answers in all
  -- its getters as the plain view of its kind: the last values that were set, except that a radix
  -- node ignores a bit and shows none, and a trie node has no edge and panics where it is given one.
  pub calls-build :
      (variant : NodeVariant) (cs : List (Setter C M N))
      → All IsSmall cs
      → map_option (view wrapper) (calls wrapper cs (build variant))
        ≡ expects (kind_of variant) cs (blank (kind_of variant))
  unfolding build blank view dispatch
  calls-build normal_trie_node cs h =
      calls_variant normal_trie trie normal_trie_node normal_trie-Steps normal_trie_passes
        (λ s. refl) cs new_normal_trie h
  calls-build atomic_trie_node cs h =
      calls_variant atomic_trie trie atomic_trie_node atomic_trie-Steps atomic_trie_passes
        (λ s. refl) cs new_atomic_trie h
  calls-build padded_trie_node cs h =
      calls_variant padded_trie trie padded_trie_node padded_trie-Steps padded_trie_passes
        (λ s. refl) cs new_padded_trie h
  calls-build lock_free_trie_node cs h =
      calls_variant lock_free_trie trie lock_free_trie_node lock_free_trie-Steps
        lock_free_trie_passes (λ s. refl) cs new_lock_free_trie h
  calls-build normal_radix_node cs h =
      calls_variant normal_radix radix normal_radix_node normal_radix-Steps normal_radix_passes
        (λ s. refl) cs new_normal_radix h
  calls-build atomic_radix_node cs h =
      calls_variant atomic_radix radix atomic_radix_node atomic_radix-Steps atomic_radix_passes
        (λ s. refl) cs new_atomic_radix h
  calls-build padded_radix_node cs h =
      calls_variant padded_radix radix padded_radix_node padded_radix-Steps padded_radix_passes
        (λ s. refl) cs new_padded_radix h
  calls-build lock_free_radix_node cs h =
      calls_variant lock_free_radix radix lock_free_radix_node lock_free_radix-Steps
        lock_free_radix_passes (λ s. refl) cs new_lock_free_radix h
