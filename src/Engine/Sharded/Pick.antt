-- ===== src/Engine/Sharded/Pick.antt =====
-- The shard that `ShardedEngine::lookup` (lib/rust/engine/src/engine.rs) reads.
use radixip.Base.{ℕ, zero, suc, ◌<◌, ◌≡◌, refl, ap, false, some, List, [], ◌∷◌, length, arith, ◌==◌}
use radixip.Net.{IpAddr}
use radixip.RouteTree.{RouteTree}
use radixip.Engine
use radixip.Engine.Sharded.{Shard, ShardedEngine, lookup_at, get_shard, lookup}

get_shard-lt :
    (num_shards mask_bits : ℕ) (ip : IpAddr)
    → 0 < num_shards
    → get_shard num_shards mask_bits ip < num_shards
unfolding get_shard
get_shard-lt n k (IpAddr.v4 o) h = omega arith
get_shard-lt n k (IpAddr.v6 o) h = omega arith

module _ {T R I M : Type 0} (t : RouteTree T R I M) where
  lookup_at-some :
      (tree : T) (ss : List Shard) (i : ℕ) (ip : I)
      → i < length ss
      → (ss' : List Shard) × (lookup_at t tree ss i ip ≡ some (ss', t.lookup tree ip))
        × (length ss' ≡ length ss)
  unfolding lookup_at Engine.lookup
  lookup_at-some tree [] i ip h = elim h [ ]
  lookup_at-some tree (s ∷ ss) zero ip h = (_, refl, refl)
  lookup_at-some tree (s ∷ ss) (suc i) ip h =
      let (ss', found, same) = lookup_at-some tree ss i ip (omega arith) in
      (s ∷ ss', rw found, ap suc same)

module _ {T R M : Type 0} (t : RouteTree T R IpAddr M) where
  -- With as many shards as it says, and at least one, the engine answers any lookup without a
  -- panic, with what the shared tree answers, whichever shard the address hashes to; the tree and
  -- the number of shards stay.
  pub lookup_total :
      (e : ShardedEngine T) (ip : IpAddr)
      → 0 < e.num_shards
      → length e.shards ≡ e.num_shards
      → (e' : ShardedEngine T) × (lookup t e ip ≡ some (e', t.lookup e.tree ip))
        × (e'.tree ≡ e.tree)
        × (length e'.shards ≡ length e.shards)
  unfolding lookup
  lookup_total e ip some_shard all =
      let within : get_shard e.num_shards e.mask_bits ip < length e.shards =
        rw all (get_shard-lt e.num_shards e.mask_bits ip some_shard) in
      let (ss', found, same) = lookup_at-some t e.tree e.shards _ ip within in
      let nonzero : (e.num_shards == 0) ≡ false = ground arith in
      (record e { shards = ss' }, rw (found, nonzero), refl, same)
