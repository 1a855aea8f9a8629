-- ===== src/Policy.antt =====
-- The policy crate, lib/rust/policy.
pub mod Banned
pub mod AutoBan
pub mod IpExtractor
pub mod Handle
pub mod Routed
pub mod Limiter
pub mod PolicyEngine
pub mod RouteTrie
pub mod TokenBucket
pub mod Watcher
