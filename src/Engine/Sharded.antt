-- ===== src/Engine/Sharded.antt =====
-- `ShardedEngine` of lib/rust/engine/src/engine.rs. `new` clones the tree for each shard, and a
-- clone of a tree shares its root, so the shards are counters over one tree.
pub mod Refines
pub mod Pick
pub mod Single
use Prim.Native.String.{String}
use radixip.Base.{
  ℕ, zero, suc, ◌+◌, ◌-◌, ◌*◌, ◌/◌, ◌%◌, ◌^◌, Bool, true, false, not, ◌&&◌, Option, none, some,
  List, [], ◌∷◌, Result, ok, err, length, get_or, take, fold_left, ltb, leb, ◌==◌, is_none,
  if◌then◌else◌, or_else,
}
use radixip.Net.{IpAddr}
use radixip.RouteTree.{RouteTree}
use radixip.Engine
use radixip.Engine.{StandardEngine, EngineStats, default_stats}

-- What a shard does not share with the others.
pub record Shard : Type 0 where
  pub size : ℕ
  pub stats : EngineStats

pub record ShardedEngine (T : Type 0) : Type 0 where
  pub tree : T
  pub shards : List Shard
  pub num_shards : ℕ
  pub mask_bits : ℕ

-- The `StandardEngine` of a shard, and back.
abbrev pub engine_of : {T : Type 0} → T → Shard → StandardEngine T
engine_of tree s = record { tree = tree; size = s.size; stats = s.stats }

abbrev pub shard_of : {T : Type 0} → StandardEngine T → Shard
shard_of e = record { size = e.size; stats = e.stats }

unfoldable pub fresh_shards : ℕ → List Shard
fresh_shards zero = []
fresh_shards (suc n) = record { size = 0; stats = default_stats } ∷ fresh_shards n

unfoldable pub new : {T : Type 0} → ℕ → T → ShardedEngine T
unfolding fresh_shards
new num_shards tree = record {
  tree = tree;
  shards = fresh_shards num_shards;
  num_shards = num_shards;
  mask_bits = 32;
}

-- `u32::from_be_bytes` and `to_be_bytes`
abbrev pub from_be_bytes : List ℕ → ℕ
from_be_bytes o = fold_left (λ n byte. n * 256 + byte) 0 o

abbrev pub to_be_bytes : ℕ → List ℕ
to_be_bytes n = n / 2 ^ 24 % 256 ∷ n / 2 ^ 16 % 256 ∷ n / 2 ^ 8 % 256 ∷ n % 256 ∷ []

-- `hash.wrapping_mul(31).wrapping_add(byte)` over the bytes, in words of `width` bits.
unfoldable pub hash_bytes : ℕ → ℕ → List ℕ → ℕ
hash_bytes width hash bytes =
    fold_left (λ h byte. (h * 31 % 2 ^ width + byte) % 2 ^ width) hash bytes

-- `x & (MAX << k)`
abbrev pub keep_high : ℕ → ℕ → ℕ
keep_high x k = x / 2 ^ k * 2 ^ k

unfoldable pub hash_v4 : ℕ → List ℕ → ℕ
unfolding hash_bytes
hash_v4 mask_bits o =
    let ip_u32 = from_be_bytes o in
    let masked_ip = if leb 32 mask_bits then ip_u32 else keep_high ip_u32 (32 - mask_bits) in
    hash_bytes 32 0 (to_be_bytes masked_ip)

unfoldable pub hash_v6 : ℕ → List ℕ → ℕ
unfolding hash_bytes
hash_v6 mask_bits o =
    let bytes_to_keep = (mask_bits + 7) / 8 in
    let hash = hash_bytes 64 0 (take bytes_to_keep o) in
    if leb mask_bits 64
    then if not (mask_bits % 8 == 0) && ltb bytes_to_keep (length o)
      then (let partial_byte = keep_high (get_or o bytes_to_keep 0) (8 - mask_bits % 8) in
          hash_bytes 64 hash (partial_byte ∷ []))
      else hash
    else hash_bytes 64 0 (take 16 o)

-- `hash % self.num_shards`; the division by zero is met in `lookup`.
unfoldable pub get_shard : ℕ → ℕ → IpAddr → ℕ
unfolding hash_v4 hash_v6
get_shard num_shards mask_bits (IpAddr.v4 o) = hash_v4 mask_bits o % num_shards
get_shard num_shards mask_bits (IpAddr.v6 o) = hash_v6 mask_bits o % num_shards

module _ {T R I M : Type 0} (t : RouteTree T R I M) where
  -- `for shard in &self.shards { shard.insert(..)?; }`
  unfoldable pub insert_all : T → List Shard → R → M → T × List Shard × Result (Unit {0}) String
  insert_all tree [] prefix metadata = (tree, [], ok tt)
  insert_all tree (s ∷ ss) prefix metadata =
      let (e, result) = Engine.insert t (engine_of tree s) prefix metadata in
      let (tree', ss', result') = insert_all e.tree ss prefix metadata in
      elim result [
        | ok _ ↦ (tree', shard_of e ∷ ss', result')
        | err x ↦ (e.tree, shard_of e ∷ ss, err x)
      ]

  -- The loop of `remove`, which keeps the first value found.
  unfoldable pub remove_all : T → List Shard → R → Option M → T × List Shard × Option M
  remove_all tree [] prefix removed = (tree, [], removed)
  remove_all tree (s ∷ ss) prefix removed =
      let (e, shard_removed) = Engine.remove t (engine_of tree s) prefix in
      let (tree', ss', removed') = remove_all e.tree ss prefix (or_else removed shard_removed) in
      (tree', shard_of e ∷ ss', removed')

  -- `self.shards[shard_idx].lookup(ip)`; `None` is the panic past the end.
  unfoldable pub lookup_at : T → List Shard → ℕ → I → Option (List Shard × Option M)
  lookup_at tree [] i ip = none
  lookup_at tree (s ∷ ss) zero ip =
      let (e, result) = Engine.lookup t (engine_of tree s) ip in some (shard_of e ∷ ss, result)
  lookup_at tree (s ∷ ss) (suc i) ip = elim (lookup_at tree ss i ip) [
    | none ↦ none
    | some (ss', result) ↦ some (s ∷ ss', result)
  ]

  unfoldable pub insert : ShardedEngine T → R → M → ShardedEngine T × Result (Unit {0}) String
  insert e prefix metadata =
      let (tree, shards, result) = insert_all e.tree e.shards prefix metadata in
      (record e { tree = tree; shards = shards }, result)

  unfoldable pub remove : ShardedEngine T → R → ShardedEngine T × Option M
  remove e prefix =
      let (tree, shards, removed) = remove_all e.tree e.shards prefix none in
      (record e { tree = tree; shards = shards }, removed)

  unfoldable pub contains : ShardedEngine T → R → Bool
  contains e prefix = elim e.shards [
    | [] ↦ false
    | s ∷ _ ↦ Engine.contains t (engine_of e.tree s) prefix
  ]

  -- `for shard in &self.shards { shard.clear(); }`
  unfoldable pub clear_all : T → List Shard → T × List Shard
  clear_all tree [] = (tree, [])
  clear_all tree (s ∷ ss) =
      let e = Engine.clear t (engine_of tree s) in
      let (tree', ss') = clear_all e.tree ss in (tree', shard_of e ∷ ss')

  unfoldable pub clear : ShardedEngine T → ShardedEngine T
  clear e =
      let (tree, shards) = clear_all e.tree e.shards in record e { tree = tree; shards = shards }

module _ {T R M : Type 0} (t : RouteTree T R IpAddr M) where
  -- `None` is a panic: the remainder by zero, or an index past the end.
  unfoldable pub lookup : ShardedEngine T → IpAddr → Option (ShardedEngine T × Option M)
  lookup e ip =
      let found = lookup_at t e.tree e.shards (get_shard e.num_shards e.mask_bits ip) ip in
      if e.num_shards == 0
      then none
      else elim found [ none ↦ none | some (ss, result) ↦ some (record e { shards = ss }, result) ]

unfoldable pub size : {T : Type 0} → ShardedEngine T → ℕ
size e = elim e.shards [ [] ↦ 0 | s ∷ _ ↦ s.size ]

-- The loop of `stats` over the shards' lookups, hits and misses.
unfoldable pub add_lookups : EngineStats → List Shard → EngineStats
add_lookups total [] = total
add_lookups total (s ∷ ss) =
    add_lookups
      (record total {
        lookups = (total.lookups + s.stats.lookups) % 2 ^ 64;
        hits = (total.hits + s.stats.hits) % 2 ^ 64;
        misses = (total.misses + s.stats.misses) % 2 ^ 64;
      })
      ss

unfoldable pub stats : {T : Type 0} → ShardedEngine T → EngineStats
unfolding add_lookups size
stats e =
    let total = add_lookups default_stats e.shards in
    elim e.shards [
      | [] ↦ record total { size = size e }
      | s ∷ _ ↦ record total {
        inserts = s.stats.inserts;
        removals = s.stats.removals;
        size = size e;
      }
    ]
