-- ===== src/Examples/Policies.antt =====
-- The limiter, the policy engine and the packed addresses (lib/rust/policy/src/limiter.rs, lib.rs,
-- handle.rs) at concrete inputs.
use radixip.Base.{ℕ, ◌+◌, ◌-◌, ◌*◌, ◌≤◌, ◌≡◌, refl, Bool, true, none, some, List, [], ◌∷◌, arith}
use radixip.Net.{IpAddr}
use radixip.Net.Equality.{ip_key}
use radixip.RadixEngine.{RadixEngine, Metadata, standard}
use radixip.Engine
use radixip.Engine.{StandardEngine}
use radixip.Engine.Trie.{uncompressed}
use radixip.Uncompressed
use radixip.Uncompressed.{
  UncompressedTree, goes_left, visit, search_from, insert_at, longest_prefix_match_binary,
}
use radixip.Policy.Limiter.{BucketKeyMode, RateLimitConfig, BucketKey, Cache}
use radixip.Policy.Limiter.Rate.{allow_each, allow_each_bound}
use radixip.Policy.PolicyEngine.{PolicyEngine, PolicyConfig}
use radixip.Examples.Networks.{Cidr, Net, cidr_v4, cidr_v6, client}
use radixip.Examples.Caches.{list_cache, bucket_key}

abbrev pub E : Type 0
E = StandardEngine (UncompressedTree Net Metadata)

abbrev pub engine : RadixEngine E Net IpAddr Metadata
engine = standard (uncompressed Cidr Cidr Metadata)

abbrev pub C : Type 0
C = List (BucketKey Cidr Cidr × ℕ)

abbrev pub cache : Cache C (BucketKey Cidr Cidr)
cache = list_cache

abbrev pub idle : E
idle = Engine.new Uncompressed.new

abbrev pub limits : Bool → BucketKeyMode → (capacity : ℕ) → RateLimitConfig
limits enabled mode capacity = record {
  enabled = enabled;
  bucket_mode = mode;
  capacity = capacity;
  refill_rate = 1;
}

allow_each_bound_example :
    (after : C) × (granted : ℕ) × (allow_each engine cache
        (limits true BucketKeyMode.ip 2)
        []
        idle
        client
        (100 ∷ 100 ∷ 100 ∷ 103 ∷ [])
      ≡ some (after, idle, granted))
    × (granted ≤ 2 + (103 - 100) * 1)
unfolding list_cache
allow_each_bound_example =
    allow_each_bound engine cache (limits true BucketKeyMode.ip 2) [] idle client 100 103
      (100 ∷ 100 ∷ 103 ∷ []) refl refl (omega arith)
      (omega arith, (omega arith, (omega arith, omega arith)))

abbrev pub policy : Bool → PolicyConfig Cidr Cidr
policy enabled = record {
  trusted_proxies = [];
  rate_limit = limits enabled BucketKeyMode.ip 1;
  auto_ban = record { threshold_violations = 3; window_seconds = 60; ban_duration_seconds = 600 };
  blocklist_enabled = true;
}

abbrev pub running : E → PolicyEngine E C
running e = record { engine = e; limiter = []; auto_ban = none }
