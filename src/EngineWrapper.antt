-- ===== src/EngineWrapper.antt =====
-- `EngineWrapper::new` of lib/rust/engine/src/engine.rs: which engine is built, with how many shards
-- and which nodes. The number of processors and the free memory are arguments.
pub mod Choice
use radixip.Base.{
  ℕ, ◌+◌, ◌*◌, ◌/◌, ◌^◌, ◌-◌, min, Bool, true, false, Option, none, some, List, [], ◌∷◌,
  if◌then◌else◌, leb, ltb,
}
use radixip.Nodes.Wrapper.{
  NodeVariant, normal_trie_node, atomic_trie_node, padded_trie_node, lock_free_trie_node,
  normal_radix_node, atomic_radix_node, padded_radix_node, lock_free_radix_node,
}

pub data EngineVariant : Type 0 where
  standard concurrent lock_free adaptive art : EngineVariant

-- `CompressedTree::new` and `UncompressedTree::new`: the nodes that the tree builds.
unfoldable pub compressed_node : NodeVariant → NodeVariant
compressed_node normal_trie_node = normal_radix_node
compressed_node normal_radix_node = normal_radix_node
compressed_node atomic_trie_node = atomic_radix_node
compressed_node atomic_radix_node = atomic_radix_node
compressed_node padded_trie_node = padded_radix_node
compressed_node padded_radix_node = padded_radix_node
compressed_node lock_free_trie_node = lock_free_radix_node
compressed_node lock_free_radix_node = lock_free_radix_node

-- `breakpoints.iter().find(...).map(...).unwrap_or(default)`
unfoldable pub shards_from_cpu : (breakpoints : List (ℕ × ℕ)) (default cpus : ℕ) → ℕ
shards_from_cpu [] default cpus = default
shards_from_cpu ((max_cpus, shards) ∷ breakpoints) default cpus =
    let rest = shards_from_cpu breakpoints default cpus in
    if leb cpus max_cpus then shards else rest

-- Three quarters of the free memory, whose product saturates.
unfoldable pub usable_memory_bytes : (available : ℕ) → ℕ
usable_memory_bytes available = min (available * 3) (2 ^ 64 - 1) / 4

unfoldable pub shards_from_memory : (available : ℕ) → ℕ
shards_from_memory available =
    let usable_mb = usable_memory_bytes available / (1024 * 1024) in
    if leb usable_mb 512
    then 2
    else if leb usable_mb 2048
    then 8
    else if leb usable_mb 4096
    then 16
    else if leb usable_mb 8192
    then 32
    else 64

unfoldable pub calculate_optimal_shards : EngineVariant → (cpus available : ℕ) → ℕ
calculate_optimal_shards standard cpus available = 1
calculate_optimal_shards lock_free cpus available = 1
calculate_optimal_shards art cpus available =
    shards_from_cpu ((2, 2) ∷ (4, 4) ∷ (8, 8) ∷ []) 16 cpus
calculate_optimal_shards concurrent cpus available =
    shards_from_cpu ((2, 2) ∷ (4, 8) ∷ (8, 16) ∷ (16, 32) ∷ []) 64 cpus
calculate_optimal_shards adaptive cpus available =
    min (shards_from_cpu ((2, 2) ∷ (4, 8) ∷ (8, 16) ∷ (16, 32) ∷ []) 64 cpus)
      (shards_from_memory available)

-- The engines, by what they are built from: the number of shards and the nodes of the tree.
pub data EngineWrapper : Type 0 where
  standard_uncompressed standard_compressed : (node : NodeVariant) → EngineWrapper
  concurrent_uncompressed concurrent_compressed : (shards : ℕ) (node : NodeVariant) → EngineWrapper
  standard_art : EngineWrapper
  concurrent_art : (shards : ℕ) → EngineWrapper

unfoldable pub resolved_node_variant :
    EngineVariant → (compressed : Bool) → NodeVariant → NodeVariant
resolved_node_variant lock_free true node = lock_free_radix_node
resolved_node_variant lock_free false node = lock_free_trie_node
resolved_node_variant adaptive true node = atomic_radix_node
resolved_node_variant adaptive false node = atomic_trie_node
resolved_node_variant standard _ node = node
resolved_node_variant concurrent _ node = node
resolved_node_variant art _ node = node

unfoldable pub effective_shards : EngineVariant → ℕ → ℕ
effective_shards lock_free count = 1
effective_shards standard count = count
effective_shards concurrent count = count
effective_shards adaptive count = count
effective_shards art count = count

-- From the number of shards on, for any variant but `art`.
unfoldable pub build_tree : (compressed : Bool) (shards : ℕ) → NodeVariant → EngineWrapper
build_tree true shards node =
    if ltb 1 shards
    then concurrent_compressed shards (compressed_node node)
    else standard_compressed (compressed_node node)
build_tree false shards node =
    if ltb 1 shards then concurrent_uncompressed shards node else standard_uncompressed node

unfoldable pub build_art : (shards : ℕ) → EngineWrapper
build_art shards = if ltb 1 shards then concurrent_art shards else standard_art

abbrev pub is_art : EngineVariant → Bool
is_art art = true
is_art standard = false
is_art concurrent = false
is_art lock_free = false
is_art adaptive = false

-- `EngineWrapper::new`
unfoldable pub new :
    EngineVariant
    → NodeVariant
    → (compressed : Bool) (num_shards : Option ℕ) (cpus available : ℕ) → EngineWrapper
new variant node compressed num_shards cpus available =
    let shard_count : ℕ = elim num_shards [
      | some n ↦ n
      | none ↦ calculate_optimal_shards variant cpus available
    ] in
    if is_art variant
    then build_art shard_count
    else build_tree compressed (effective_shards variant shard_count)
        (resolved_node_variant variant compressed node)
