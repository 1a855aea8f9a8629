-- ===== src/Examples/Shards.antt =====
-- A sharded adapter of the adaptive radix tree, with three shards.
use radixip.Base.{ℕ, ◌≡◌, refl, some, List, [], ◌∷◌}
use radixip.Net.{IpAddr, octets}
use radixip.Art.{find_child, find_slot}
use radixip.Art.Tree
use radixip.Art.Tree.{match_ip}
use radixip.Art.Adapter
use radixip.Art.Adapter.{ArtEngineAdapter}
use radixip.Art.Sharded.{ShardedArtEngineAdapter, new, lookup, contains, size}
use radixip.Art.Sharded.Alike.{
  Change, inserts, removes, changes, change, changes_all, changes_all-alike,
}

-- 10.0.0.0/8 twice, and the removal of a network that nothing matches.
abbrev shard_changes : List (Change ℕ)
shard_changes =
    removes (11 ∷ 0 ∷ 0 ∷ 0 ∷ []) 8
    ∷ inserts (10 ∷ 0 ∷ 0 ∷ 0 ∷ []) 8 7
    ∷ inserts (10 ∷ 0 ∷ 0 ∷ 0 ∷ []) 8 9
    ∷ []

abbrev one_adapter : ArtEngineAdapter ℕ
one_adapter =
    (Adapter.insert
      (Adapter.insert
        (record Adapter.new { tree = (Tree.delete_prefix Tree.new (11 ∷ 0 ∷ 0 ∷ 0 ∷ []) 8).0 })
        (10 ∷ 0 ∷ 0 ∷ 0 ∷ []) 8 7).0
      (10 ∷ 0 ∷ 0 ∷ 0 ∷ []) 8 9).0

no_freed_pointer : changes shard_changes Adapter.new ≡ some one_adapter
unfolding changes change Adapter.remove Adapter.new match_ip Tree.new Tree.search_node find_child
    find_slot
no_freed_pointer = refl

changes_all-alike_example :
    (s : ShardedArtEngineAdapter ℕ) × (changes_all shard_changes (new 3 32 32) ≡ some s)
    × ((ip : IpAddr) → lookup s ip ≡ Adapter.lookup one_adapter (octets ip))
    × ((ip : List ℕ) → contains s ip ≡ Adapter.contains one_adapter ip)
    × (size s ≡ Adapter.size one_adapter)
changes_all-alike_example = changes_all-alike 2 32 32 shard_changes one_adapter no_freed_pointer
