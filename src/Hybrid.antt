-- ===== src/Hybrid.antt =====
-- `HybridEngine` of lib/rust/engine/src/hybrid.rs: a control plane that is written and a data plane
-- that is read. `redis` is the feature, `has_client` whether there is a client.
pub mod Planes
use Prim.Native.String.{String}
use radixip.Base.{
  ℕ, Bool, true, false, Option, none, some, Result, ok, err, List, [], ◌∷◌, ◌++◌, if◌then◌else◌,
}
use radixip.Engine.{EngineStats}
use radixip.RadixEngine.{RadixEngine}

-- `RedisCacheUpdate` of lib/rust/cache/src/redis.rs
pub data RedisCacheUpdate (R M : Type 0) : Type 0 where
  insert_update : R → M → RedisCacheUpdate R M
  remove_update : R → RedisCacheUpdate R M
  clear_update : RedisCacheUpdate R M

-- `spawned` are the updates that the tasks send that were spawned.
pub record HybridEngine (E R M : Type 0) : Type 0 where
  pub control_plane : E
  pub data_plane : E
  pub has_client : Bool
  pub spawned : List (RedisCacheUpdate R M)

-- `redis.publish_json(...)`, whose future is dropped where it is made: nothing is sent.
unfoldable pub publish_json :
    {E R M : Type 0} → RedisCacheUpdate R M → HybridEngine E R M → HybridEngine E R M
publish_json update h = h

-- The task that awaits `publish_insert`, in a runtime of tokio: `Handle::current` panics outside.
unfoldable pub spawn_publish_insert :
    {E R M : Type 0} → R → M → HybridEngine E R M → HybridEngine E R M
spawn_publish_insert prefix metadata h = record h {
  spawned = h.spawned ++ (insert_update prefix metadata ∷ []);
}

module _ {E R I M : Type 0} (engine : RadixEngine E R I M) (redis : Bool) where
  -- With the control plane written. Without the feature the whole statement is left out, its `else`
  -- included.
  unfoldable pub replicate_insert : R → M → HybridEngine E R M → HybridEngine E R M
  replicate_insert prefix metadata h =
      if redis
      then (if h.has_client
          then publish_json (insert_update prefix metadata) (spawn_publish_insert prefix metadata h)
          else record h { data_plane = (engine.insert h.data_plane prefix metadata).0 })
      else h

  -- `insert`, with the result of the control plane.
  unfoldable pub settle_insert :
      Result (Unit {0}) String
      → R
      → M
      → HybridEngine E R M
      → HybridEngine E R M × Result (Unit {0}) String
  settle_insert (ok _) prefix metadata h = (replicate_insert prefix metadata h, ok tt)
  settle_insert (err s) prefix metadata h = (h, err s)

  unfoldable pub insert : HybridEngine E R M → R → M → HybridEngine E R M × Result (Unit {0}) String
  insert h prefix metadata =
      let (control, result) = engine.insert h.control_plane prefix metadata in
      settle_insert result prefix metadata (record h { control_plane = control })

  unfoldable pub lookup : HybridEngine E R M → I → HybridEngine E R M × Option M
  lookup h ip =
      let (plane, result) = engine.lookup h.data_plane ip in
      (record h { data_plane = plane }, result)

  unfoldable pub replicate_remove : R → HybridEngine E R M → HybridEngine E R M
  replicate_remove prefix h =
      if redis
      then (if h.has_client
          then publish_json (remove_update prefix) h
          else record h { data_plane = (engine.remove h.data_plane prefix).0 })
      else h

  unfoldable pub remove : HybridEngine E R M → R → HybridEngine E R M × Option M
  remove h prefix =
      let (control, result) = engine.remove h.control_plane prefix in
      (replicate_remove prefix (record h { control_plane = control }), result)

  unfoldable pub contains : HybridEngine E R M → R → Bool
  contains h prefix = engine.contains h.data_plane prefix

  unfoldable pub replicate_clear : HybridEngine E R M → HybridEngine E R M
  replicate_clear h =
      if redis
      then (if h.has_client
          then publish_json clear_update h
          else record h { data_plane = engine.clear h.data_plane })
      else h

  unfoldable pub clear : HybridEngine E R M → HybridEngine E R M
  clear h = replicate_clear (record h { control_plane = engine.clear h.control_plane })

  unfoldable pub size : HybridEngine E R M → ℕ
  size h = engine.size h.data_plane

  unfoldable pub stats : HybridEngine E R M → EngineStats
  stats h = engine.stats h.data_plane

  -- The handler of `start_sync`, for metadata that can be read back.
  unfoldable pub on_update : RedisCacheUpdate R M → E → E
  on_update (insert_update prefix metadata) plane = (engine.insert plane prefix metadata).0
  on_update (remove_update prefix) plane = (engine.remove plane prefix).0
  on_update clear_update plane = engine.clear plane
