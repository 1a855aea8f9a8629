-- ===== src/EngineWrapper/Choice.antt =====
-- What `EngineWrapper::new` chooses.
use radixip.Base.{
  ℕ, ◌*◌, ◌/◌, ◌≤◌, ◌<◌, ◌≡◌, ◌≢◌, refl, Bool, true, false, Option, List, [], ◌∷◌, All, leb, ltb,
  min, Bool-cases, either_way, ltb→lt, inl, inr, arith,
}
use radixip.Nodes.{radix}
use radixip.Nodes.Wrapper.{
  NodeVariant, kind_of, normal_trie_node, atomic_trie_node, padded_trie_node, lock_free_trie_node,
  normal_radix_node, atomic_radix_node, padded_radix_node, lock_free_radix_node,
}
use radixip.EngineWrapper.{
  EngineVariant, standard, concurrent, lock_free, adaptive, art, EngineWrapper,
  standard_uncompressed, standard_compressed, concurrent_uncompressed, concurrent_compressed,
  standard_art, concurrent_art, compressed_node, shards_from_cpu, usable_memory_bytes,
  shards_from_memory, calculate_optimal_shards, effective_shards, build_tree, build_art, is_art,
  new,
}

kind_of-compressed_node : (v : NodeVariant) → kind_of (compressed_node v) ≡ radix
unfolding compressed_node
kind_of-compressed_node normal_trie_node = refl
kind_of-compressed_node normal_radix_node = refl
kind_of-compressed_node atomic_trie_node = refl
kind_of-compressed_node atomic_radix_node = refl
kind_of-compressed_node padded_trie_node = refl
kind_of-compressed_node padded_radix_node = refl
kind_of-compressed_node lock_free_trie_node = refl
kind_of-compressed_node lock_free_radix_node = refl

-- A number of shards that the code picks by itself.
abbrev pub IsCount : ℕ → Type 0
IsCount n = (1 ≤ n) × (n ≤ 64)

shards_from_cpu-IsCount :
    (breakpoints : List (ℕ × ℕ)) (default cpus : ℕ)
    → All (λ b. IsCount b.1) breakpoints
    → IsCount default
    → IsCount (shards_from_cpu breakpoints default cpus)
unfolding shards_from_cpu
shards_from_cpu-IsCount [] default cpus h d = d
shards_from_cpu-IsCount ((max_cpus, shards) ∷ breakpoints) default cpus (h, hs) d =
    either_way IsCount (leb cpus max_cpus) h (shards_from_cpu-IsCount breakpoints default cpus hs d)

shards_from_memory-IsCount : (available : ℕ) → IsCount (shards_from_memory available)
unfolding shards_from_memory
shards_from_memory-IsCount available =
    let mb = usable_memory_bytes available / (1024 * 1024) in
    elim (Bool-cases (leb mb 512)) [
      | inl p ↦ rw p (ground arith)
      | inr p ↦ elim (Bool-cases (leb mb 2048)) [
        | inl q ↦ rw (p, q) (ground arith)
        | inr q ↦ elim (Bool-cases (leb mb 4096)) [
          | inl r ↦ rw (p, q, r) (ground arith)
          | inr r ↦
              rw (p, q, r)
                (either_way IsCount (leb mb 8192) {x = 32} {y = 64} (ground arith) (ground arith))
        ]
      ]
    ]

by_cpu : (cpus : ℕ) → IsCount (shards_from_cpu ((2, 2) ∷ (4, 8) ∷ (8, 16) ∷ (16, 32) ∷ []) 64 cpus)
by_cpu cpus =
    shards_from_cpu-IsCount ((2, 2) ∷ (4, 8) ∷ (8, 16) ∷ (16, 32) ∷ []) 64 cpus
      (
        (omega arith, omega arith),
        (
          (omega arith, omega arith),
          ((omega arith, omega arith), ((omega arith, omega arith), tt)),
        ),
      )
      (omega arith, omega arith)

-- However many processors and however much memory there are, the automatic number of shards is
-- between 1 and 64.
pub calculate_optimal_shards-IsCount :
    (variant : EngineVariant) (cpus available : ℕ)
    → IsCount (calculate_optimal_shards variant cpus available)
unfolding calculate_optimal_shards
calculate_optimal_shards-IsCount standard cpus available = (omega arith, omega arith)
calculate_optimal_shards-IsCount lock_free cpus available = (omega arith, omega arith)
calculate_optimal_shards-IsCount art cpus available =
    shards_from_cpu-IsCount ((2, 2) ∷ (4, 4) ∷ (8, 8) ∷ []) 16 cpus
      ((omega arith, omega arith), ((omega arith, omega arith), ((omega arith, omega arith), tt)))
      (omega arith, omega arith)
calculate_optimal_shards-IsCount concurrent cpus available = by_cpu cpus
calculate_optimal_shards-IsCount adaptive cpus available =
    least (by_cpu cpus) (shards_from_memory-IsCount available)
  where
    least : {x y : ℕ} → IsCount x → IsCount y → IsCount (min x y)
    least (a, b) (c, d) = (omega arith, omega arith)

-- An engine that the arguments ask for: a compressed tree, of radix nodes, or an uncompressed one,
-- more than one shard where it is sharded, and no shards for `lock_free`.
abbrev pub IsSuited : EngineVariant → (compressed : Bool) → EngineWrapper → Type 0
IsSuited variant compressed (standard_uncompressed node) =
    (is_art variant ≡ false) × (compressed ≡ false)
IsSuited variant compressed (standard_compressed node) =
    (is_art variant ≡ false) × (compressed ≡ true) × (kind_of node ≡ radix)
IsSuited variant compressed (concurrent_uncompressed shards node) =
    (is_art variant ≡ false) × (compressed ≡ false) × (1 < shards) × (variant ≢ lock_free)
IsSuited variant compressed (concurrent_compressed shards node) =
    (is_art variant ≡ false)
    × (compressed ≡ true)
    × (1 < shards)
    × (variant ≢ lock_free)
    × (kind_of node ≡ radix)
IsSuited variant compressed standard_art = variant ≡ art
IsSuited variant compressed (concurrent_art shards) = (variant ≡ art) × (1 < shards)

not_lock_free :
    (variant : EngineVariant) (count : ℕ) → 1 < effective_shards variant count → variant ≢ lock_free
unfolding effective_shards
not_lock_free lock_free count h e = absurd (omega arith)
not_lock_free standard count h e = cc
not_lock_free concurrent count h e = cc
not_lock_free adaptive count h e = cc
not_lock_free art count h e = cc

build_tree-IsSuited :
    (variant : EngineVariant) (compressed : Bool) (count : ℕ) (node : NodeVariant)
    → is_art variant ≡ false
    → IsSuited variant compressed (build_tree compressed (effective_shards variant count) node)
unfolding build_tree
build_tree-IsSuited variant true count node h =
    elim (Bool-cases (ltb 1 (effective_shards variant count))) [
      | inl p ↦
          (let many = ltb→lt 1 (effective_shards variant count) p in
            rw p (h, refl, many, not_lock_free variant count many, kind_of-compressed_node node))
      | inr p ↦ rw p (h, refl, kind_of-compressed_node node)
    ]
build_tree-IsSuited variant false count node h =
    elim (Bool-cases (ltb 1 (effective_shards variant count))) [
      | inl p ↦
          (let many = ltb→lt 1 (effective_shards variant count) p in
            rw p (h, refl, many, not_lock_free variant count many))
      | inr p ↦ rw p (h, refl)
    ]

build_art-IsSuited : (compressed : Bool) (count : ℕ) → IsSuited art compressed (build_art count)
unfolding build_art
build_art-IsSuited compressed count = elim (Bool-cases (ltb 1 count)) [
  | inl p ↦ rw p (refl, ltb→lt 1 count p)
  | inr p ↦ rw p refl
]

-- Whatever the arguments and the machine, the engine that is built suits them.
pub new-IsSuited :
    (variant : EngineVariant) (node : NodeVariant) (compressed : Bool) (num_shards : Option ℕ)
    (cpus available : ℕ)
    → IsSuited variant compressed (new variant node compressed num_shards cpus available)
unfolding new
new-IsSuited art node compressed num_shards cpus available = build_art-IsSuited compressed _
new-IsSuited standard node compressed num_shards cpus available =
    build_tree-IsSuited standard compressed _ _ refl
new-IsSuited concurrent node compressed num_shards cpus available =
    build_tree-IsSuited concurrent compressed _ _ refl
new-IsSuited lock_free node compressed num_shards cpus available =
    build_tree-IsSuited lock_free compressed _ _ refl
new-IsSuited adaptive node compressed num_shards cpus available =
    build_tree-IsSuited adaptive compressed _ _ refl
