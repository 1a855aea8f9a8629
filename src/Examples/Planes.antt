-- ===== src/Examples/Planes.antt =====
-- A hybrid engine over two uncompressed trees.
use radixip.Base.{ℕ, ◌*◌, ◌^◌, none, ◌≡◌, refl, true, false, List, [], ◌∷◌, All}
use radixip.Net.{IpAddr}
use radixip.Uncompressed
use radixip.Uncompressed.{UncompressedTree}
use radixip.RouteTree.{RouteTree}
use radixip.Engine
use radixip.Engine.{StandardEngine}
use radixip.Engine.Trie.{uncompressed}
use radixip.RadixEngine.{standard}
use radixip.Hybrid.{HybridEngine, lookup, contains}
use radixip.Hybrid.Planes.{
  Call, insert_call, lookup_call, remove_call, after_all, KeepsOnError, lookup-control, lookup-cut,
  IsInsertion,
}
use radixip.Nodes.Wrapper.{NodeVariant}
use radixip.EngineWrapper.{EngineVariant, new}
use radixip.EngineWrapper.Choice.{IsSuited, new-IsSuited}
use radixip.Examples.Networks.{Net, Cidr, cidr_v4, cidr_v6, ten, ten_one, client}

abbrev tree : RouteTree (UncompressedTree Net ℕ) Net IpAddr ℕ
tree = uncompressed Cidr Cidr ℕ

abbrev hybrid : HybridEngine (StandardEngine (UncompressedTree Net ℕ)) Net ℕ
hybrid = record {
  control_plane = Engine.new Uncompressed.new;
  data_plane = Engine.new Uncompressed.new;
  has_client = false;
  spawned = [];
}

abbrev connected : HybridEngine (StandardEngine (UncompressedTree Net ℕ)) Net ℕ
connected = record hybrid { has_client = true }

abbrev hybrid_calls : List (Call Net IpAddr ℕ)
hybrid_calls =
    insert_call ten 8 ∷ insert_call ten_one 16 ∷ lookup_call client ∷ remove_call ten ∷ []

tree-KeepsOnError : KeepsOnError tree
unfolding uncompressed Uncompressed.insert
tree-KeepsOnError x p m s h = absurd (cc)

lookup-control_example :
    ((lookup (standard tree) true (after_all tree true hybrid_calls hybrid) client).1
      ≡ (Engine.lookup tree (after_all tree true hybrid_calls hybrid).control_plane client).1)
    × (contains (standard tree) true (after_all tree true hybrid_calls hybrid) ten
        ≡ Engine.contains tree (after_all tree true hybrid_calls hybrid).control_plane ten)
lookup-control_example =
    lookup-control tree hybrid_calls hybrid client ten tree-KeepsOnError (refl, refl)

lookup-cut_example :
    ((lookup (standard tree) true (after_all tree true hybrid_calls connected) client).1
      ≡ (lookup (standard tree) true connected client).1)
    × (contains (standard tree) true (after_all tree true hybrid_calls connected) ten
        ≡ contains (standard tree) true connected ten)
    × All (IsInsertion tree) (after_all tree true hybrid_calls connected).spawned
lookup-cut_example = lookup-cut tree true hybrid_calls connected client ten refl refl

new-IsSuited_example :
    IsSuited EngineVariant.concurrent true
      (new EngineVariant.concurrent NodeVariant.atomic_trie_node true none 12 (3 * 2 ^ 30))
new-IsSuited_example =
    new-IsSuited EngineVariant.concurrent NodeVariant.atomic_trie_node true none 12 (3 * 2 ^ 30)
