-- ===== src/Examples.antt =====
-- Concrete inputs: tests of the definitions, and the properties at inputs that meet their
-- hypotheses.
pub mod Networks
pub mod Compressed
pub mod Art
pub mod Adapter
pub mod Trees
pub mod Tries
pub mod Frames
pub mod Watching
pub mod Shards
pub mod Memory
pub mod Planes
pub mod Nodes
pub mod Blocks
pub mod Buckets
pub mod Bans
pub mod Banning
pub mod Routes
pub mod Caches
pub mod Policies
pub mod Routed
pub mod Cached
