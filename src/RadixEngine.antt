-- ===== src/RadixEngine.antt =====
-- The trait `RadixEngine` of lib/rust/engine/src/traits.rs, and the metadata that engines store
-- (lib/rust/engine/src/types.rs).
use Prim.Native.String.{String}
use radixip.Base.{ℕ, Bool, Option, List, [], ◌∷◌, Result}
use radixip.Engine.{EngineStats, StandardEngine}
use radixip.Engine
use radixip.RouteTree.{RouteTree}

-- Every method may count, so it returns the engine. `Result<(), String>` is `Result Unit String`.
pub record RadixEngine (E R I M : Type 0) : Type 0 where
  pub insert : E → R → M → E × Result (Unit {0}) String
  pub lookup : E → I → E × Option M
  pub remove : E → R → E × Option M
  pub contains : E → R → Bool
  pub clear : E → E
  pub size : E → ℕ
  pub stats : E → EngineStats

-- `impl RadixEngine for StandardEngine`
abbrev pub standard : {T R I M : Type 0} → RouteTree T R I M → RadixEngine (StandardEngine T) R I M
standard t = record {
  insert = Engine.insert t;
  lookup = Engine.lookup t;
  remove = Engine.remove t;
  contains = Engine.contains t;
  clear = Engine.clear t;
  size = λ e. e.size;
  stats = Engine.stats;
}

pub record Metadata : Type 0 where
  pub value : String
  pub attributes : List (String × String)

-- `Metadata::new(value).with_attribute(key, text)`
abbrev pub attributed : (value key text : String) → Metadata
attributed value key text = record { value = value; attributes = (key, text) ∷ [] }
