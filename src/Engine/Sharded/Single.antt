-- ===== src/Engine/Sharded/Single.antt =====
-- A sharded engine of lib/rust/engine/src/engine.rs, call by call, against one engine.
use radixip.Base.{ℕ, ◌<◌, ◌≡◌, some, List, ◌∷◌, length, arith}
use radixip.Net.{IpAddr}
use radixip.RouteTree.{RouteTree, IsCounted}
use radixip.Engine
use radixip.Engine.Sharded.{Shard, ShardedEngine, engine_of, insert, lookup, remove}
use radixip.Engine.Sharded.Refines.{insert_refines, remove_refines}
use radixip.Engine.Sharded.Pick.{lookup_total}

module _ {T R M : Type 0} (t : RouteTree T R IpAddr M) (count : T → ℕ) (IsValid : T → Type 0)
    (laws : IsCounted t count IsValid) where
  -- Over a tree that counts its prefixes, with as many shards as it says and at least one: an
  -- insertion and a removal leave the shared tree and answer as one engine over it does, and a
  -- lookup does not panic, leaves the tree and answers as that engine does.
  pub calls-one_engine :
      (e : ShardedEngine T) (s : Shard) (ss : List Shard) (p : R) (m : M) (ip : IpAddr)
      → e.shards ≡ s ∷ ss
      → length e.shards ≡ e.num_shards
      → IsValid e.tree
      → (((insert t e p m).0.tree ≡ (Engine.insert t (engine_of e.tree s) p m).0.tree)
          × ((insert t e p m).1 ≡ (Engine.insert t (engine_of e.tree s) p m).1))
        × (((remove t e p).0.tree ≡ (Engine.remove t (engine_of e.tree s) p).0.tree)
            × ((remove t e p).1 ≡ (Engine.remove t (engine_of e.tree s) p).1))
        × ((after : ShardedEngine T) × (lookup t e ip
              ≡ some (after, (Engine.lookup t (engine_of e.tree s) ip).1))
            × (after.tree ≡ e.tree))
  unfolding Engine.lookup
  calls-one_engine e s ss p m ip shards all h =
      let (inserted, answer, _) = insert_refines t count IsValid laws e s ss p m shards h in
      let (removed, metadata, _) = remove_refines t count IsValid laws e s ss p shards h in
      let count_shards : 0 < length e.shards = rw shards (omega arith) in
      let (after, found, same, _) = lookup_total t e ip (ground (arith, all, count_shards)) all in
      ((inserted, answer), (removed, metadata), (after, found, same))
