-- ===== src/Engine.antt =====
-- `StandardEngine` of lib/rust/engine/src/engine.rs: a route tree with a size and statistics.
-- A method returns the new state. `usize` counters wrap at 2 ^ 64, as in a release build.
pub mod Counters
pub mod Sharded
pub mod Trie
use Prim.Native.String.{String}
use radixip.Base.{
  ℕ, ◌+◌, ◌-◌, ◌%◌, ◌^◌, Bool, true, false, Option, none, some, Result, ok, err, is_some,
  if◌then◌else◌,
}
use radixip.RouteTree.{RouteTree}

-- `fetch_add(1)` or `+= 1`, and `fetch_sub(1)`, on a `usize`.
abbrev pub add_one : ℕ → ℕ
add_one n = (n + 1) % 2 ^ 64

abbrev pub sub_one : ℕ → ℕ
sub_one n = (n + 2 ^ 64 - 1) % 2 ^ 64

-- `EngineStats` of lib/rust/engine/src/types.rs
pub record EngineStats : Type 0 where
  pub inserts : ℕ
  pub lookups : ℕ
  pub hits : ℕ
  pub misses : ℕ
  pub removals : ℕ
  pub size : ℕ

abbrev pub default_stats : EngineStats
default_stats = record { inserts = 0; lookups = 0; hits = 0; misses = 0; removals = 0; size = 0 }

pub record StandardEngine (T : Type 0) : Type 0 where
  pub tree : T
  pub size : ℕ
  pub stats : EngineStats

unfoldable pub new : {T : Type 0} → T → StandardEngine T
new tree = record { tree = tree; size = 0; stats = default_stats }

-- `stats()`
unfoldable pub stats : {T : Type 0} → StandardEngine T → EngineStats
stats e = record (e.stats) { size = e.size }

-- After the tree has answered `is_new`.
unfoldable pub inserted : {T : Type 0} → StandardEngine T → Bool → StandardEngine T
inserted e is_new =
    let size = if is_new then add_one e.size else e.size in
    record e {
      size = size;
      stats = record (e.stats) { inserts = add_one e.stats.inserts; size = size };
    }

module _ {T R I M : Type 0} (t : RouteTree T R I M) where
  unfoldable pub insert : StandardEngine T → R → M → StandardEngine T × Result (Unit {0}) String
  unfolding inserted
  insert e prefix metadata =
      let (tree, result) = t.insert e.tree prefix metadata in
      elim result [
        | ok is_new ↦ (inserted (record e { tree = tree }) is_new, ok tt)
        | err s ↦ (record e { tree = tree }, err s)
      ]

  unfoldable pub lookup : StandardEngine T → I → StandardEngine T × Option M
  lookup e ip =
      let result = t.lookup e.tree ip in
      let stats = record (e.stats) { lookups = add_one e.stats.lookups } in
      (
        record e {
          stats =
              if is_some result
              then record stats { hits = add_one stats.hits }
              else record stats { misses = add_one stats.misses };
        },
        result,
      )

  unfoldable pub remove : StandardEngine T → R → StandardEngine T × Option M
  remove e prefix =
      let (tree, removed) = t.remove e.tree prefix in
      let size = sub_one e.size in
      (
        if is_some removed
            then record {
              tree = tree;
              size = size;
              stats = record (e.stats) { removals = add_one e.stats.removals; size = size };
            }
            else record e { tree = tree },
        removed,
      )

  unfoldable pub contains : StandardEngine T → R → Bool
  contains e prefix = t.contains e.tree prefix

  unfoldable pub clear : StandardEngine T → StandardEngine T
  clear e = record { tree = t.clear e.tree; size = 0; stats = record (e.stats) { size = 0 } }
