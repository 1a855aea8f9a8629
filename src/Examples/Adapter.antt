-- ===== src/Examples/Adapter.antt =====
-- The engine of lib/rust/engine/src/engine_art.rs at concrete inputs.
use radixip.Base.{ℕ, ◌≡◌, refl, true, Option, none, some, is_some, List, [], ◌∷◌, arith}
use radixip.Art.{find_child, find_slot, add_child, matches, full_bytes_match}
use radixip.Art.Tree
use radixip.Art.Tree.{
  insert_prefix, match_ip, insert_node, insert_into, search_node, make_leaf, mask_key, index_byte,
}
use radixip.Art.Adapter.{
  ArtEngineAdapter, new, insert, lookup, remove, contains, Call, inserts, run, run-lookup_safe,
  remove_frees_other,
}

-- 10.0.0.0/8 and 10.1.0.0/16
abbrev calls : List (Call ℕ)
calls = inserts (10 ∷ 0 ∷ 0 ∷ 0 ∷ []) 8 7 ∷ []

abbrev other : List ℕ
other = 10 ∷ 1 ∷ 0 ∷ 0 ∷ []

run-lookup_safe_example :
    (answer : Option ℕ) × (lookup (run calls new) other ≡ some answer)
    × (contains (run calls new) other ≡ is_some answer)
run-lookup_safe_example = run-lookup_safe calls other

abbrev stored : ArtEngineAdapter ℕ
stored = (insert new (10 ∷ 0 ∷ 0 ∷ 0 ∷ []) 8 7).0

other_contained : contains stored other ≡ true
unfolding contains insert new Tree.new match_ip insert_prefix insert_node insert_into search_node
    make_leaf mask_key index_byte find_child find_slot add_child matches full_bytes_match
other_contained = refl

remove_frees_other_example :
    (after : ArtEngineAdapter ℕ) × (remove stored other 16 ≡ some (after, some 7))
    × (lookup after other ≡ none)
remove_frees_other_example =
    remove_frees_other 10 (0 ∷ 0 ∷ 0 ∷ []) (1 ∷ 0 ∷ 0 ∷ []) 8 16 7 (omega arith) (omega arith) refl
      other_contained
