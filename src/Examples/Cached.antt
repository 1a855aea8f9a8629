-- ===== src/Examples/Cached.antt =====
-- The cached engine of lib/rust/engine/src/cache.rs over a standard engine.
use radixip.Base.{ℕ, ◌≡◌, refl, Option, none, some, List, [], ◌∷◌}
use radixip.Net.{IpAddr}
use radixip.Net.Equality.{ip_key}
use radixip.Engine
use radixip.Engine.{StandardEngine}
use radixip.Engine.Trie.{uncompressed}
use radixip.Uncompressed
use radixip.Uncompressed.{
  UncompressedTree, goes_left, visit, search_from, insert_at, longest_prefix_match_binary,
}
use radixip.Lpm.{get_bit, network_contains_ip}
use radixip.Net.{IpNetwork}
use radixip.RadixEngine.{RadixEngine, standard}
use radixip.CachedEngine
use radixip.CachedEngine.{Entries, fetch, inserted, evict, invalidate}
use radixip.CachedEngine.Coherence.{Op, inserts, lookups, removes, answer, run, step}
use radixip.Examples.Networks.{Cidr, Net, agree, pad, cidr_v4, cidr_v6, client, ten, ten_one}

abbrev E : Type 0
E = StandardEngine (UncompressedTree Net ℕ)

abbrev engine : RadixEngine E Net IpAddr ℕ
engine = standard (uncompressed Cidr Cidr ℕ)

abbrev fresh : E
fresh = Engine.new Uncompressed.new

abbrev first_key : Entries ℕ → Option IpAddr
first_key [] = none
first_key (e ∷ cache) = some e.0

abbrev calls : List (Op engine)
calls = inserts ten 1 ∷ lookups client ∷ inserts ten_one 2 ∷ lookups client ∷ removes ten ∷ []

-- a00::/8, which has the first bits of 10.0.0.0/8.
abbrev ten_v6 : Net
ten_v6 = IpNetwork.v6 (record { octets = 10 ∷ []; len = 8 })

abbrev across : List (Op engine)
across = inserts ten 1 ∷ lookups client ∷ inserts ten_v6 2 ∷ []

-- Across families the cache is stale: the network of the other family takes the place of the first
-- one in the tree, and the entry stays.
stale :
    let s = run engine first_key 8 across (CachedEngine.new fresh) in
    ((CachedEngine.lookup engine first_key 8 s client).1 ≡ some 1)
    × (answer engine s.inner client ≡ none)
unfolding run step CachedEngine.new CachedEngine.lookup CachedEngine.insert fetch inserted evict
    invalidate uncompressed Engine.lookup Engine.insert Engine.new Uncompressed.insert
    Uncompressed.lookup insert_at longest_prefix_match_binary search_from visit goes_left get_bit
    network_contains_ip Uncompressed.new agree pad
stale = (refl, refl)
