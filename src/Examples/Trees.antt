-- ===== src/Examples/Trees.antt =====
-- The bit trie of lib/rust/engine/src/tree.rs and its engine at concrete inputs.
use radixip.Base.{ℕ, ◌≡◌, refl, none, some, List, [], ◌∷◌, All, ◌⊎◌}
use radixip.Net.{IpAddr}
use radixip.Lpm.{Entry, get_bit, network_contains_ip, longest_prefix_match_entries}
use radixip.Lpm.Best.{Misses, Selects, longest_prefix_match_entries-Selects}
use radixip.Uncompressed
use radixip.Uncompressed.{
  UncompressedTree, Node, goes_left, visit, search_from, insert_at, remove_at,
}
use radixip.Uncompressed.Search.{entries}
use radixip.Uncompressed.Count.{count}
use radixip.Uncompressed.Map.{at, route, IsRooted, new-IsRooted, insert-IsRooted}
use radixip.Uncompressed.Lookup.{Op, run, replay, run-lookup, run-at}
use radixip.RouteTree.{RouteTree}
use radixip.Engine
use radixip.Engine.{StandardEngine}
use radixip.Engine.Counters
use radixip.Engine.Counters.{Tallies, run-Tallies}
use radixip.Engine.Trie.{uncompressed, size_of, uncompressed-IsCounted}
use radixip.Engine.Sharded
use radixip.Engine.Sharded.{Shard, ShardedEngine, engine_of}
use radixip.Engine.Sharded.Single.{calls-one_engine}
use radixip.Examples.Networks.{
  Net, Cidr, cidr_v4, cidr_v6, pad, agree, ten, ten_one, default_route, client,
}

abbrev calls : List (Op Net ℕ)
calls = Op.inserts ten 8 ∷ Op.inserts ten_one 16 ∷ Op.inserts default_route 0 ∷ Op.removes ten ∷ []

-- 10.1.2.3 is in 10.1.0.0/16; without it the default route is left.
lookup_test : Uncompressed.lookup (run calls Uncompressed.new) client ≡ some 16
unfolding run Uncompressed.new Uncompressed.insert Uncompressed.remove Uncompressed.lookup
    Uncompressed.longest_prefix_match_binary insert_at remove_at search_from visit goes_left get_bit
    network_contains_ip pad agree
lookup_test = refl

run-lookup_example :
    Uncompressed.lookup (run calls Uncompressed.new) client
    ≡ longest_prefix_match_entries (entries (run calls Uncompressed.new).root) client
run-lookup_example = run-lookup calls client refl

run-at_example : at (run calls Uncompressed.new) (route ten) ≡ replay calls (λ _. none) (route ten)
run-at_example = run-at calls (route ten)

abbrev empty : UncompressedTree Net ℕ
empty = Uncompressed.new

abbrev two_entries : List (Entry Cidr Cidr ℕ)
two_entries = (ten, 8) ∷ (ten_one, 16) ∷ []

longest_prefix_match_entries-Selects_example :
    ((longest_prefix_match_entries two_entries client ≡ none) × All (Misses client) two_entries)
    ⊎ ((e : Entry Cidr Cidr ℕ) × (longest_prefix_match_entries two_entries client ≡ some e.1)
        × Selects client two_entries e)
longest_prefix_match_entries-Selects_example =
    longest_prefix_match_entries-Selects client two_entries

abbrev idle : Shard
idle = record { size = 0; stats = Engine.default_stats }

count_empty : size_of Cidr Cidr ℕ empty ≡ 0
unfolding count Uncompressed.new
count_empty = refl

abbrev trie : RouteTree (UncompressedTree Net ℕ) Net IpAddr ℕ
trie = uncompressed Cidr Cidr ℕ

abbrev engine_calls : List (Counters.Op Net IpAddr ℕ)
engine_calls =
    Counters.Op.inserts ten 8
    ∷ Counters.Op.inserts ten 9
    ∷ Counters.Op.lookups client
    ∷ Counters.Op.removes ten
    ∷ []

run-Tallies_example :
    Tallies (size_of Cidr Cidr ℕ) (Counters.run trie engine_calls (Engine.new empty))
run-Tallies_example =
    run-Tallies trie (size_of Cidr Cidr ℕ) IsRooted (uncompressed-IsCounted Cidr Cidr ℕ)
      engine_calls empty (new-IsRooted Net ℕ) count_empty

abbrev two : ShardedEngine (UncompressedTree Net ℕ)
two = record {
  tree = (Uncompressed.insert empty default_route 7).0;
  shards = idle ∷ idle ∷ [];
  num_shards = 2;
  mask_bits = 32;
}

calls-one_engine_example :
    (((Sharded.insert trie two ten 8).0.tree
        ≡ (Engine.insert trie (engine_of two.tree idle) ten 8).0.tree)
      × ((Sharded.insert trie two ten 8).1
          ≡ (Engine.insert trie (engine_of two.tree idle) ten 8).1))
    × (((Sharded.remove trie two ten).0.tree
          ≡ (Engine.remove trie (engine_of two.tree idle) ten).0.tree)
        × ((Sharded.remove trie two ten).1 ≡ (Engine.remove trie (engine_of two.tree idle) ten).1))
    × ((after : ShardedEngine (UncompressedTree Net ℕ)) × (Sharded.lookup trie two client
          ≡ some (after, (Engine.lookup trie (engine_of two.tree idle) client).1))
        × (after.tree ≡ two.tree))
calls-one_engine_example =
    calls-one_engine trie (size_of Cidr Cidr ℕ) IsRooted (uncompressed-IsCounted Cidr Cidr ℕ) two
      idle (idle ∷ []) ten 8 client refl refl
      (insert-IsRooted empty default_route 7 (new-IsRooted Net ℕ))
