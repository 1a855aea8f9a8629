-- ===== src/Engine/Sharded/Refines.antt =====
-- `ShardedEngine` against one `StandardEngine` (lib/rust/engine/src/engine.rs): its first shard
-- is that engine, and the others never change the shared tree.
use radixip.Base.{
  ℕ, ◌≡◌, refl, sym, ap, ◌∙◌, Bool, false, Option, none, some, List, [], ◌∷◌, ok, arith, or_else,
}
use radixip.RouteTree.{RouteTree, IsCounted}
use radixip.Engine
use radixip.Engine.{StandardEngine, inserted}
use radixip.Engine.Sharded.{
  Shard, ShardedEngine, engine_of, shard_of, insert_all, remove_all, insert, remove,
}

module _ {T R I M : Type 0} (t : RouteTree T R I M) where
  abbrev after_insert : T → Shard → R → M → StandardEngine T
  after_insert tree s p m = (Engine.insert t (engine_of tree s) p m).0

  abbrev after_remove : T → Shard → R → StandardEngine T
  after_remove tree s p = (Engine.remove t (engine_of tree s) p).0

  insert_all_cons :
      (tree : T) (s : Shard) (ss : List Shard) (p : R) (m : M)
      → (Engine.insert t (engine_of tree s) p m).1 ≡ ok tt
      → let rest = insert_all t (after_insert tree s p m).tree ss p m in
        insert_all t tree (s ∷ ss) p m
        ≡ (rest.0, shard_of (after_insert tree s p m) ∷ rest.1, rest.2)
  unfolding insert_all
  insert_all_cons tree s ss p m h = rw (h, insert_all)

  -- An insertion that the tree answers by `Ok`.
  engine_insert_ok :
      (tree : T) (s : Shard) (p : R) (m : M) (b : Bool)
      → (t.insert tree p m).1 ≡ ok b
      → Engine.insert t (engine_of tree s) p m
        ≡ (inserted (engine_of (t.insert tree p m).0 s) b, ok tt)
  unfolding Engine.insert
  engine_insert_ok tree s p m b h = rw (h, Engine.insert)

  engine_insert_again :
      (tree : T) (s : Shard) (p : R) (m : M)
      → t.insert tree p m ≡ (tree, ok false)
      → ((after_insert tree s p m).tree ≡ tree)
        × ((Engine.insert t (engine_of tree s) p m).1 ≡ ok tt)
  unfolding inserted
  engine_insert_again tree s p m h =
      let one = engine_insert_ok tree s p m false (ap (λ r. r.1) h) in
      (ap (λ r. r.0.tree) one ∙ ap (λ r. r.0) h, ap (λ r. r.1) one)

  -- Shards over a tree that already holds the insertion leave the tree alone.
  insert_all_again :
      (tree : T) (ss : List Shard) (p : R) (m : M)
      → t.insert tree p m ≡ (tree, ok false)
      → ((insert_all t tree ss p m).0 ≡ tree) × ((insert_all t tree ss p m).2 ≡ ok tt)
  insert_all_again tree [] p m h = unfold insert_all in (refl, refl)
  insert_all_again tree (s ∷ ss) p m h =
      let (same, answer) = engine_insert_again tree s p m h in
      rw (insert_all_cons tree s ss p m answer) (rw same (insert_all_again tree ss p m h))

  engine_remove_again :
      (tree : T) (s : Shard) (p : R)
      → t.remove tree p ≡ (tree, none)
      → ((after_remove tree s p).tree ≡ tree) × ((Engine.remove t (engine_of tree s) p).1 ≡ none)
  unfolding Engine.remove
  engine_remove_again tree s p h = rw (h, Engine.remove) (refl, refl)

  or_else-none : (found : Option M) → or_else found none ≡ found
  or_else-none none = refl
  or_else-none (some m) = refl

  remove_all_again :
      (tree : T) (ss : List Shard) (p : R) (found : Option M)
      → t.remove tree p ≡ (tree, none)
      → ((remove_all t tree ss p found).0 ≡ tree) × ((remove_all t tree ss p found).2 ≡ found)
  unfolding remove_all
  remove_all_again tree [] p found h = (refl, refl)
  remove_all_again tree (s ∷ ss) p found h =
      let (same, answer) = engine_remove_again tree s p h in
      rw (same, answer, or_else-none found) (remove_all_again tree ss p found h)

  engine_remove-tree :
      (tree : T) (s : Shard) (p : R) → (after_remove tree s p).tree ≡ (t.remove tree p).0
  unfolding Engine.remove
  engine_remove-tree tree s p = ground arith

  module _ (count : T → ℕ) (IsValid : T → Type 0) (laws : IsCounted t count IsValid) where
    engine_insert :
        (tree : T) (s : Shard) (p : R) (m : M)
        → IsValid tree
        → ((after_insert tree s p m).tree ≡ (t.insert tree p m).0)
          × ((Engine.insert t (engine_of tree s) p m).1 ≡ ok tt)
    unfolding inserted
    engine_insert tree s p m h =
        let (b, answer, counted) = laws.insert_result tree p m h in
        let one = engine_insert_ok tree s p m b answer in
        (ap (λ r. r.0.tree) one, ap (λ r. r.1) one)

    -- `insert` leaves the shared tree, the first shard and the answer as the insertion into one
    -- engine over the same tree and counters does, however many shards follow.
    pub insert_refines :
        (e : ShardedEngine T) (s : Shard) (ss : List Shard) (p : R) (m : M)
        → e.shards ≡ s ∷ ss
        → IsValid e.tree
        → let one = Engine.insert t (engine_of e.tree s) p m in
          ((insert t e p m).0.tree ≡ one.0.tree)
          × ((insert t e p m).1 ≡ one.1)
          × ((rest : List Shard) × ((insert t e p m).0.shards ≡ shard_of one.0 ∷ rest))
    unfolding insert
    insert_refines e s ss p m shards h =
        let (tree_lem, answer) = engine_insert e.tree s p m h in
        let again = rw (← tree_lem) at (laws.insert_again e.tree p m h) in
        let (same, rest) = insert_all_again (after_insert e.tree s p m).tree ss p m again in
        rw (shards, insert_all_cons e.tree s ss p m answer) (same, rest ∙ sym answer, (_, refl))

    -- `remove` likewise, also where later shards find nothing left to remove.
    pub remove_refines :
        (e : ShardedEngine T) (s : Shard) (ss : List Shard) (p : R)
        → e.shards ≡ s ∷ ss
        → IsValid e.tree
        → let one = Engine.remove t (engine_of e.tree s) p in
          ((remove t e p).0.tree ≡ one.0.tree)
          × ((remove t e p).1 ≡ one.1)
          × ((rest : List Shard) × ((remove t e p).0.shards ≡ shard_of one.0 ∷ rest))
    unfolding remove remove_all
    remove_refines e s ss p shards h =
        let again = rw (← engine_remove-tree e.tree s p) at (laws.remove_again e.tree p h) in
        let (same, rest) =
          remove_all_again (after_remove e.tree s p).tree ss p
            (Engine.remove t (engine_of e.tree s) p).1 again in
        rw shards (same, rest, (_, refl))
