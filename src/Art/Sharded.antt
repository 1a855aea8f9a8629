-- ===== src/Art/Sharded.antt =====
-- `ShardedARTEngineAdapter` of lib/rust/engine/src/engine_art.rs: adapters that all hold every
-- network, of which a lookup asks one. A network is given by its octets and its prefix; freed
-- pointers are as in Art.Adapter.
pub mod Alike
use Prim.Native.String.{String}
use radixip.Base.{
  ℕ, zero, suc, ◌+◌, ◌%◌, ◌^◌, Bool, true, false, Option, none, some, List, [], ◌∷◌, Result, ok,
  ◌==◌, if◌then◌else◌, ◌>>=◌, or_else, map, map_option,
}
use radixip.Net.{IpAddr, octets}
use radixip.Engine.{EngineStats, default_stats}
use radixip.Engine.Sharded.{get_shard}
use radixip.Art.Adapter
use radixip.Art.Adapter.{ArtEngineAdapter}

pub record ShardedArtEngineAdapter (M : Type 0) : Type 0 where
  pub shards : List (ArtEngineAdapter M)
  pub num_shards : ℕ
  pub shard_size : ℕ
  pub mask_bits : ℕ

module _ {M : Type 0} where
  abbrev pub repeat : ℕ → ArtEngineAdapter M → List (ArtEngineAdapter M)
  repeat zero s = []
  repeat (suc n) s = s ∷ repeat n s

  unfoldable pub new : (num_shards shard_size mask_bits : ℕ) → ShardedArtEngineAdapter M
  new num_shards shard_size mask_bits = record {
    shards = repeat num_shards Adapter.new;
    num_shards = num_shards;
    shard_size = shard_size;
    mask_bits = 32;
  }

  -- No insertion into a shard fails.
  unfoldable pub insert :
      ShardedArtEngineAdapter M
      → (ip : List ℕ) (prefix : ℕ) → M
      → ShardedArtEngineAdapter M × Result (Unit {0}) String
  insert s ip prefix metadata = (
    record s { shards = map (λ shard. (Adapter.insert shard ip prefix metadata).0) s.shards },
    ok tt,
  )

  -- `shards[index]`, which panics past the end.
  abbrev pub shard_at : List (ArtEngineAdapter M) → ℕ → Option (ArtEngineAdapter M)
  shard_at [] index = none
  shard_at (s ∷ ss) zero = some s
  shard_at (s ∷ ss) (suc index) = shard_at ss index

  -- `none` for a panic, without any shard, or a freed pointer.
  unfoldable pub lookup : ShardedArtEngineAdapter M → IpAddr → Option (Option M)
  lookup s ip =
      if s.num_shards == 0
      then none
      else (shard_at s.shards (get_shard s.num_shards s.mask_bits ip) >>= λ shard.
          Adapter.lookup shard (octets ip))

  -- The loop of `remove`, which keeps the first value found.
  unfoldable pub remove_all :
      List (ArtEngineAdapter M)
      → (ip : List ℕ) (prefix : ℕ) → Option (List (ArtEngineAdapter M) × Option M)
  remove_all [] ip prefix = some ([], none)
  remove_all (s ∷ ss) ip prefix = Adapter.remove s ip prefix >>= λ one.
      remove_all ss ip prefix >>= λ rest. some (one.0 ∷ rest.0, or_else one.1 rest.1)

  unfoldable pub remove :
      ShardedArtEngineAdapter M
      → (ip : List ℕ) (prefix : ℕ) → Option (ShardedArtEngineAdapter M × Option M)
  remove s ip prefix =
      map_option (λ r. (record s { shards = r.0 }, r.1)) (remove_all s.shards ip prefix)

  unfoldable pub contains : ShardedArtEngineAdapter M → (ip : List ℕ) → Bool
  contains s ip = elim (s.shards) [ [] ↦ false | first ∷ _ ↦ Adapter.contains first ip ]

  unfoldable pub clear : ShardedArtEngineAdapter M → ShardedArtEngineAdapter M
  clear s = record s { shards = map Adapter.clear s.shards }

  unfoldable pub size : ShardedArtEngineAdapter M → ℕ
  size s = elim (s.shards) [ [] ↦ 0 | first ∷ _ ↦ Adapter.size first ]

  -- The sizes are added up in a `usize`; an adapter counts nothing else.
  unfoldable pub total_size : List (ArtEngineAdapter M) → ℕ
  total_size [] = 0
  total_size (s ∷ ss) = (Adapter.size s + total_size ss) % 2 ^ 64

  unfoldable pub stats : ShardedArtEngineAdapter M → EngineStats
  stats s = record default_stats { size = total_size s.shards }
