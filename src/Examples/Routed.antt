-- ===== src/Examples/Routed.antt =====
-- A request with a route through `PolicyHandle` of lib/rust/policy/src/handle.rs.
use radixip.Base.{ℕ, ◌*◌, ◌^◌, ◌≡◌, refl, true, Option, some, []}
use radixip.Net.Equality.{ip_key}
use radixip.Engine
use radixip.Engine.Trie.{uncompressed}
use radixip.Uncompressed
use radixip.Uncompressed.{goes_left, visit, search_from, insert_at, longest_prefix_match_binary}
use radixip.Lpm.{get_bit}
use radixip.Policy.Limiter
use radixip.Policy.Limiter.{BucketKeyMode, RateLimitConfig, allow_in, ip_to_key, consume}
use radixip.Policy.TokenBucket
use radixip.Policy.PolicyEngine.{PolicyDecision, Clock, blocked, blocked_if, settle, violate}
use radixip.Policy.RouteTrie
use radixip.Policy.RouteTrie.{RouteTrie, match_route, match_from, store, put_methods}
use radixip.Policy.Handle.{
  PolicyResult, into_ip_addr, into_ip_addr-from, from, from_decision, decision_code,
}
use radixip.Policy.Routed.{
  PolicyHandle, check_request, check_unpacked, check_address, check_ip_with_limiter, check_routed,
  route_of, IsCharged, check_request-only_route,
}
use radixip.Examples.Networks.{cidr_v4, cidr_v6, client}
use radixip.Examples.Caches.{list_cache}
use radixip.Examples.Policies.{E, engine, C, cache, idle, limits, policy, running}
use radixip.Examples.Routes.{same_case, two_routes}

abbrev handle : PolicyHandle E C
handle = record { policy = running idle; route_trie = some two_routes; routes = λ _. [] }

-- One token for each address on every route.
abbrev route_limits : ℕ → RateLimitConfig
route_limits i = limits true BucketKeyMode.ip 1

abbrev at_100 : Clock
at_100 = record { seconds = 100; instant = 100 * 10 ^ 9 }

client_route : route_of same_case handle "GET" "/a/x/c" ≡ some 1
unfolding route_of match_route match_from RouteTrie.lookup RouteTrie.insert RouteTrie.insert_at
    store put_methods RouteTrie.new
client_route = refl

-- The first request of the client on the route is allowed and takes the token.
outcome :
    (after : PolicyHandle E C) × (result : Option PolicyResult) × (check_request engine cache
        (policy true)
        same_case
        route_limits
        handle
        (from client)
        "GET"
        "/a/x/c"
        at_100
      ≡ some (after, result))
unfolding check_request check_unpacked check_address check_ip_with_limiter check_routed route_of
    match_route match_from RouteTrie.lookup RouteTrie.insert RouteTrie.insert_at store put_methods
    RouteTrie.new blocked blocked_if settle violate Limiter.allow allow_in ip_to_key consume
    into_ip_addr from from_decision decision_code uncompressed Engine.lookup Engine.new
    Uncompressed.lookup Uncompressed.new longest_prefix_match_binary search_from visit goes_left
    get_bit TokenBucket.allow TokenBucket.attempt TokenBucket.refilled TokenBucket.unpack
    TokenBucket.new TokenBucket.pack TokenBucket.cap_fp list_cache
outcome = (_, _, refl)

check_request-only_route_example :
    (d : PolicyDecision) × (outcome.1 ≡ some (from_decision d))
    × IsCharged engine cache (policy true) (route_limits 1) handle 1 client at_100 outcome.0 d
check_request-only_route_example =
    check_request-only_route engine cache (policy true) same_case route_limits handle outcome.0
      (from client) client "GET" "/a/x/c" at_100 1 outcome.1 (into_ip_addr-from client refl)
      client_route outcome.2
