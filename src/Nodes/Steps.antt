-- ===== src/Nodes/Steps.antt =====
-- Each variant of a node steps as its kind is expected to.
use radixip.Base.{
  ℕ, ◌+◌, ◌-◌, ◌%◌, ◌^◌, ◌<◌, ◌≡◌, ◌≢◌, refl, sym, false, Option, none, some, List, map_option, ltb,
  ◌==◌, Bool-cases, inl, inr, find, find-put_self, find-put_other, find-erase_self,
  find-erase_other, arith,
}
use radixip.Nodes.{
  Node, Setter, left_call, right_call, metadata_call, clear_call, bit_call, prefix_call, edge_call,
  IsSmall, call, view, Kind, trie, radix, expect,
}
use radixip.Nodes.Trie.{
  ChildKey, left_key, right_key, child_key, Children, set_child, decode_bit, encode_bit,
  normal_trie, atomic_trie, padded_trie, lock_free_trie,
}
use radixip.Nodes.Radix.{AtomicRadixNode, normal_radix, atomic_radix, padded_radix, lock_free_radix}

decode-encode : (b : ℕ) → b < 255 → decode_bit (encode_bit b) ≡ some b
decode-encode b h =
    let small : encode_bit b ≡ b + 1 = omega arith in
    let same : b + 1 - 1 ≡ b = omega arith in
    let nonzero : (b + 1 == 0) ≡ false = ground arith in rw (small, nonzero, same) refl

apart : ◌≢◌ {A = ChildKey} left_key right_key
apart h = cc

module _ {C : Type 0} where
  set-left_left : (c : Option C) (m : Children C) → find left_key (set_child left_key c m) ≡ c
  set-left_left (some n) m = find-put_self left_key n m
  set-left_left none m = find-erase_self left_key m

  set-left_right :
      (c : Option C) (m : Children C) → find right_key (set_child left_key c m) ≡ find right_key m
  set-left_right (some n) m = find-put_other right_key left_key n m (λ e. apart (sym e))
  set-left_right none m = find-erase_other right_key left_key m (λ e. apart (sym e))

  set-right_right : (c : Option C) (m : Children C) → find right_key (set_child right_key c m) ≡ c
  set-right_right (some n) m = find-put_self right_key n m
  set-right_right none m = find-erase_self right_key m

  set-right_left :
      (c : Option C) (m : Children C) → find left_key (set_child right_key c m) ≡ find left_key m
  set-right_left (some n) m = find-put_other left_key right_key n m apart
  set-right_left none m = find-erase_other left_key right_key m apart

module _ {C M N : Type 0} where
  -- The step of one node: the answers after a call are the expected ones.
  abbrev pub Steps : {S : Type 0} → Node C M N S → Kind → Type 0
  Steps {S = S} node k =
      (c : Setter C M N) (s : S)
      → IsSmall c
      → map_option (view node) (call node c s) ≡ expect k c (view node s)

  pub normal_trie-Steps : Steps normal_trie trie
  unfolding view call expect
  normal_trie-Steps (left_call c) s h = refl
  normal_trie-Steps (right_call c) s h = refl
  normal_trie-Steps (metadata_call m) s h = refl
  normal_trie-Steps clear_call s h = refl
  normal_trie-Steps (bit_call b) s h = refl
  normal_trie-Steps (prefix_call n) s h = refl
  normal_trie-Steps (edge_call bits len) s h = refl

  pub atomic_trie-Steps : Steps atomic_trie trie
  unfolding view call expect
  atomic_trie-Steps (left_call c) s h = refl
  atomic_trie-Steps (right_call c) s h = refl
  atomic_trie-Steps (metadata_call m) s h = refl
  atomic_trie-Steps clear_call s h = refl
  atomic_trie-Steps (bit_call b) s h = rw (decode-encode b h) refl
  atomic_trie-Steps (prefix_call n) s h = refl
  atomic_trie-Steps (edge_call bits len) s h = refl

  pub padded_trie-Steps : Steps padded_trie trie
  unfolding view call expect
  padded_trie-Steps (left_call c) s h = refl
  padded_trie-Steps (right_call c) s h = refl
  padded_trie-Steps (metadata_call m) s h = refl
  padded_trie-Steps clear_call s h = refl
  padded_trie-Steps (bit_call b) s h = refl
  padded_trie-Steps (prefix_call n) s h = refl
  padded_trie-Steps (edge_call bits len) s h = refl

  pub lock_free_trie-Steps : Steps lock_free_trie trie
  unfolding view call expect
  lock_free_trie-Steps (left_call c) s h =
      rw (set-left_left c s.children, set-left_right c s.children) refl
  lock_free_trie-Steps (right_call c) s h =
      rw (set-right_left c s.children, set-right_right c s.children) refl
  lock_free_trie-Steps (metadata_call m) s h = refl
  lock_free_trie-Steps clear_call s h = refl
  lock_free_trie-Steps (bit_call b) s h = rw (decode-encode b h) refl
  lock_free_trie-Steps (prefix_call n) s h = refl
  lock_free_trie-Steps (edge_call bits len) s h = refl

  atomic_edge :
      (bits : List ℕ) (len : ℕ) (s : AtomicRadixNode C M N)
      → map_option (view atomic_radix) (call atomic_radix (edge_call bits len) s)
        ≡ expect radix (edge_call bits len) (view atomic_radix s)
  unfolding view call expect
  atomic_edge bits len s = elim (Bool-cases (ltb len 255)) [
    | inl p ↦ (let small : len % 2 ^ 8 ≡ len = ground (arith, p) in rw (p, small, p) refl)
    | inr p ↦ rw p refl
  ]

  pub normal_radix-Steps : Steps normal_radix radix
  unfolding view call expect
  normal_radix-Steps (left_call c) s h = refl
  normal_radix-Steps (right_call c) s h = refl
  normal_radix-Steps (metadata_call m) s h = refl
  normal_radix-Steps clear_call s h = refl
  normal_radix-Steps (bit_call b) s h = refl
  normal_radix-Steps (prefix_call n) s h = refl
  normal_radix-Steps (edge_call bits len) s h = refl

  pub atomic_radix-Steps : Steps atomic_radix radix
  unfolding view call expect
  atomic_radix-Steps (left_call c) s h = refl
  atomic_radix-Steps (right_call c) s h = refl
  atomic_radix-Steps (metadata_call m) s h = refl
  atomic_radix-Steps clear_call s h = refl
  atomic_radix-Steps (bit_call b) s h = refl
  atomic_radix-Steps (prefix_call n) s h = refl
  atomic_radix-Steps (edge_call bits len) s h = atomic_edge bits len s

  pub padded_radix-Steps : Steps padded_radix radix
  unfolding view call expect
  padded_radix-Steps (left_call c) s h = refl
  padded_radix-Steps (right_call c) s h = refl
  padded_radix-Steps (metadata_call m) s h = refl
  padded_radix-Steps clear_call s h = refl
  padded_radix-Steps (bit_call b) s h = refl
  padded_radix-Steps (prefix_call n) s h = refl
  padded_radix-Steps (edge_call bits len) s h = refl

  pub lock_free_radix-Steps : Steps lock_free_radix radix
  unfolding view call expect
  lock_free_radix-Steps (left_call c) s h =
      rw (set-left_left c s.children, set-left_right c s.children) refl
  lock_free_radix-Steps (right_call c) s h =
      rw (set-right_left c s.children, set-right_right c s.children) refl
  lock_free_radix-Steps (metadata_call m) s h = refl
  lock_free_radix-Steps clear_call s h = refl
  lock_free_radix-Steps (bit_call b) s h = refl
  lock_free_radix-Steps (prefix_call n) s h = refl
  lock_free_radix-Steps (edge_call bits len) s h = refl
