-- ===== src/Lib.antt =====
-- RadixIP: longest-prefix matching of IP addresses and the rate limiting built on it.
--
-- The engine crate (lib/rust/engine) keeps route trees from networks to metadata and wraps them in
-- engines with counters and shards; the policy crate (lib/rust/policy) asks an engine whether an
-- address is blocked, charges token buckets and bans repeated offenders. The files model the
-- library written in Rust.
--
-- - Net: `std::net::IpAddr` as lists of octets, and the `ipnetwork` crate as a parameter, with the
--   documented behaviour of `network`, `prefix`, `contains` and `new` as its laws.
-- - Lpm: lib/rust/engine/src/lpm.rs, the bits of an address and the search over entries.
-- - Uncompressed: `UncompressedTree` of lib/rust/engine/src/tree.rs. The nodes are values: each
--   node has one parent. Loops over a prefix recur on the rounds left; the search recurs on the
--   tree.
-- - Compressed: `CompressedTree` of lib/rust/engine/src/tree.rs. An edge or a key is the list of its
--   bits, where the code keeps bytes, a length and a depth.
-- - RouteTree: the trait of lib/rust/engine/src/traits.rs, with the laws that the engines rely on.
-- - Engine: `StandardEngine` and `ShardedEngine` of lib/rust/engine/src/engine.rs over any route
--   tree. The shards of a `ShardedEngine` hold clones of one tree, which share its root, so the
--   model has one tree and the shards' counters. Counters wrap at 2 ^ 64.
-- - Policy.TokenBucket: lib/rust/policy/src/token_bucket.rs, the packed word, one call, sequences
--   of calls, and threads that interleave at each access to the word, with their progress. The
--   clock is an argument.
-- - Art: lib/rust/engine/src/art, the adaptive radix tree. A pointer is the node it points to, an
--   array of children a function of the index. Loops over a key recur on the bytes left. So pointers
--   are in the program as long as no child is added to a Node48 from which one was removed.
--   Art.Adapter: lib/rust/engine/src/engine_art.rs, with a heap that gives no pointer twice;
--   Art.Sharded: the sharded adapter over it.
-- - RadixEngine: the trait of lib/rust/engine/src/traits.rs, and the metadata of types.rs.
-- - CachedEngine: lib/rust/engine/src/cache.rs with no Redis client, over any engine; which entry
--   an eviction removes is a parameter.
-- - Policy.AutoBan: lib/rust/policy/src/auto_ban.rs. Instants are nanoseconds, below 2 ^ 63
--   seconds as on Unix. The engine is a record of operations; an operation answers `none` where the
--   code would panic.
-- - Policy.IpExtractor: lib/rust/policy/src/ip_extractor.rs, over the text of the headers.
-- - Policy.RouteTrie: lib/rust/policy/src/route_trie.rs.
-- - Policy.Limiter: lib/rust/policy/src/limiter.rs; the cache of buckets is a parameter, with laws
--   for a key that stays cached.
-- - Policy.PolicyEngine: lib/rust/policy/src/lib.rs, the engine kept once for all that share
--   it, with one clock for the limiter and one for the tracker.
-- - Policy.Routed: `check_ip_with_limiter` and `PolicyHandle`, with the limiters of routes by number.
-- - Policy.Watcher: lib/rust/policy/src/watcher.rs, with the validation of lib/rust/config/src/lib.rs;
--   what a file holds comes with each event.
-- - Policy.Handle: lib/rust/policy/src/handle.rs, packed addresses and result codes.
-- - EngineWrapper: `EngineWrapper::new` of lib/rust/engine/src/engine.rs, which engine is built; the
--   processors and the free memory are arguments.
-- - Hybrid: lib/rust/engine/src/hybrid.rs over any engine, with the feature redis as an argument.
-- - MemoryCache: lib/rust/cache/src/memory.rs, with the clock and the choice of evictions as arguments.
-- - Nodes: lib/rust/engine/src/node, the eight variants of a node with their wrapper. The trees above
--   are over plain nodes: Nodes.Wrapper.Views relates the variants to these.
-- - Xdp: the blocklist of ebpf. Kernel: ebpf/xdp-kernel/src/main.rs, on the bytes of a frame. Loader:
--   ebpf/xdp-loader/src/lib.rs, the maps and their seeding, messages and normalisation. The maps of
--   the kernel (`aya`), networks (`ipnet`) and their parsing are parameters.
-- - Examples: concrete networks, trees and runs.
--
-- No loop of the model takes fuel. Not modelled: locks (each operation is one step, but for the
-- loop of the token bucket, whose steps interleave), memory reclamation (but for the boxes of
-- Art.Adapter), and what the components marked so in the manifest do.
pub mod Base
pub mod Net
pub mod Lpm
pub mod Uncompressed
pub mod RadixEngine
pub mod RouteTree
pub mod Compressed
pub mod Art
pub mod CachedEngine
pub mod Engine
pub mod Policy
pub mod Xdp
pub mod EngineWrapper
pub mod Hybrid
pub mod MemoryCache
pub mod Nodes
pub mod Examples
