-- ===== src/Examples/Banning.antt =====
-- A client that is banned by `check_ip` of lib/rust/policy/src/lib.rs.
use radixip.Base.{ℕ, ◌*◌, ◌^◌, ◌≡◌, refl, true, some, [], ◌∷◌}
use radixip.Net.Equality.{ip_key}
use radixip.Engine
use radixip.Engine.Trie.{uncompressed}
use radixip.Uncompressed
use radixip.Uncompressed.{goes_left, visit, search_from, insert_at, longest_prefix_match_binary}
use radixip.Lpm.{get_bit}
use radixip.Policy.AutoBan
use radixip.Policy.AutoBan.{checked_add, host_prefix, insert_ban, record_violation}
use radixip.Policy.Limiter
use radixip.Policy.Limiter.{exact, allow_in, ip_to_key, consume}
use radixip.Policy.TokenBucket
use radixip.Policy.PolicyEngine.{
  PolicyEngine, Clock, auto_banned, blocked, blocked_if, settle, violate, check_ip_from, check_ip,
}
use radixip.Examples.Networks.{Net, cidr_v4, cidr_v6, client}
use radixip.Examples.Caches.{list_cache}
use radixip.Examples.Policies.{E, engine, C, cache, idle, policy}

abbrev clock : (seconds : ℕ) → Clock
clock seconds = record { seconds = seconds; instant = seconds * 10 ^ 9 }

-- The client has no token left, and two violations out of three.
abbrev spent : PolicyEngine E C
spent = record {
  engine = idle;
  limiter = (exact client, TokenBucket.pack 100 0) ∷ [];
  auto_ban =
      some (record { violations = (client, 98 * 10 ^ 9 ∷ 99 * 10 ^ 9 ∷ []) ∷ []; banned = [] });
}

-- The third violation bans it.
banned :
    (after : PolicyEngine E C) × (check_ip engine cache (policy true) spent client (clock 100)
      ≡ some (after, auto_banned))
unfolding check_ip check_ip_from blocked blocked_if settle violate Limiter.allow allow_in ip_to_key
    consume uncompressed Engine.lookup Engine.new Engine.insert Uncompressed.insert insert_at
    Uncompressed.lookup Uncompressed.new longest_prefix_match_binary search_from visit goes_left
    get_bit TokenBucket.allow TokenBucket.attempt TokenBucket.refilled TokenBucket.unpack
    TokenBucket.new TokenBucket.pack TokenBucket.cap_fp list_cache record_violation AutoBan.settle
    checked_add host_prefix insert_ban
banned = (_, refl)
