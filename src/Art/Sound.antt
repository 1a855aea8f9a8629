-- ===== src/Art/Sound.antt =====
-- Sequences of calls on the tree of lib/rust/engine/src/art/tree.rs: what a lookup answers.
use radixip.Base.{
  ℕ, ◌*◌, ◌/◌, ◌%◌, ◌≤◌, ◌<◌, ◌≡◌, refl, sym, subst, ◌∙◌, true, some, List, [], ◌∷◌, ◌++◌, length,
  All, append_assoc, arith,
}
use radixip.Net.{bit_at}
use radixip.Art.{matches}
use radixip.Art.Tree
use radixip.Art.Tree.{Tree, insert_node, mask_key, max_depth}
use radixip.Art.Leaves.{
  Leaves, LeavesIn, LeavesOf, insert_node-Leaves, delete_node-Leaves, search_node-Leaves,
}
use radixip.Art.Matches.{AreBytes, matches_iff}

pub data Op (M : Type 0) : Type 0 where
  inserts : (key : List ℕ) (len : ℕ) → M → Op M
  deletes : (key : List ℕ) (len : ℕ) → Op M

-- Keys of `n` octets, with a prefix length in range.
abbrev pub IsCall : {M : Type 0} → ℕ → Op M → Type 0
IsCall n (inserts key len m) = (length key ≡ n) × AreBytes key × (len ≤ 8 * n)
IsCall n (deletes key len) = (length key ≡ n) × AreBytes key × (len ≤ 8 * n)

-- Deletions, and insertions only before the first of them.
abbrev pub IsDeletion : {M : Type 0} → Op M → Type 0
IsDeletion (inserts _ _ _) = ⊥
IsDeletion (deletes _ _) = Unit

abbrev pub IsPhased : {M : Type 0} → List (Op M) → Type 0
IsPhased [] = Unit
IsPhased (inserts _ _ _ ∷ ops) = IsPhased ops
IsPhased (deletes _ _ ∷ ops) = All IsDeletion ops

module _ {M : Type 0} where
  unfoldable pub run : List (Op M) → Tree M → Tree M
  run [] t = t
  run (inserts key len m ∷ ops) t = run ops (Tree.insert_prefix t key len m)
  run (deletes key len ∷ ops) t = run ops (Tree.delete_prefix t key len).0

  -- The leaf that an insertion makes, a valid call among `calls`.
  IsInserted : (n : ℕ) (calls : List (Op M)) → M → ℕ → List ℕ → Type 0
  IsInserted n calls v len masked_key =
      (key : List ℕ) × (before after : List (Op M)) × (calls
        ≡ before ++ (inserts key len v ∷ after))
      × IsCall n (inserts key len v)
      × (masked_key ≡ mask_key key (len / 8) (len % 8) 16)

  run-Leaves :
      (n : ℕ) (calls before ops : List (Op M)) (t : Tree M)
      → calls ≡ before ++ ops
      → All (IsCall n) ops
      → Leaves (IsInserted n calls) t.root
      → Leaves (IsInserted n calls) (run ops t).root
  unfolding run Tree.insert_prefix Tree.delete_prefix IsInserted
  run-Leaves n calls before [] t e h leaves = leaves
  run-Leaves n calls before (inserts key len m ∷ ops) t e (h, hs) leaves =
      run-Leaves n calls (before ++ (inserts key len m ∷ [])) ops (Tree.insert_prefix t key len m)
        (e ∙ sym (append_assoc before (inserts key len m ∷ []) ops)) hs
        (insert_node-Leaves (IsInserted n calls) key len m (max_depth len) 0 t.root
          (key, before, ops, e, h, refl) leaves)
  run-Leaves n calls before (deletes key len ∷ ops) t e (h, hs) leaves =
      run-Leaves n calls (before ++ (deletes key len ∷ [])) ops (Tree.delete_prefix t key len).0
        (e ∙ sym (append_assoc before (deletes key len ∷ []) ops)) hs
        (delete_node-Leaves (IsInserted n calls) key len (max_depth len) 0 t.root leaves)

  -- A lookup in the tree of values.
  run-match_ip_sound_of_values :
      (n : ℕ) (calls : List (Op M)) (ip : List ℕ) (v : M)
      → n ≤ 16
      → All (IsCall n) calls
      → length ip ≡ n
      → AreBytes ip
      → Tree.match_ip (run calls Tree.new) ip ≡ some v
      → (key : List ℕ) × (len : ℕ) × (before after : List (Op M)) × (calls
          ≡ before ++ (inserts key len v ∷ after))
        × ((i : ℕ) → i < len → bit_at ip i ≡ bit_at key i)
  unfolding Tree.match_ip Tree.new IsInserted Leaves LeavesIn LeavesOf
  run-match_ip_sound_of_values n calls ip v fits valid size bytes found =
      let leaves = run-Leaves n calls [] calls Tree.new refl valid tt in
      let (len, k, (key, before, after, e, (family, key_bytes, le), ek), m) =
        search_node-Leaves (IsInserted n calls) ip ip (run calls Tree.new).root v leaves found in
      let same : length ip ≡ length key = omega (arith, size, family) in
      let covers =
        (matches_iff key ip len key_bytes bytes same (omega arith) (omega arith)).0
          (subst (λ (x : List ℕ). matches len x ip ≡ true) ek m) in
      (key, len, before, after, e, covers)

  -- After any insertions of keys of one length on a new tree and then any deletions, so that no
  -- node is shared or freed while it is in use, a lookup answers only values that were inserted, for
  -- a network that covers the address.
  pub run-match_ip_sound :
      (n : ℕ) (calls : List (Op M)) (ip : List ℕ) (v : M)
      → n ≤ 16
      → All (IsCall n) calls
      → IsPhased calls
      → length ip ≡ n
      → AreBytes ip
      → Tree.match_ip (run calls Tree.new) ip ≡ some v
      → (key : List ℕ) × (len : ℕ) × (before after : List (Op M)) × (calls
          ≡ before ++ (inserts key len v ∷ after))
        × ((i : ℕ) → i < len → bit_at ip i ≡ bit_at key i)
  run-match_ip_sound n calls ip v fits valid phased =
      run-match_ip_sound_of_values n calls ip v fits valid
