-- ===== src/Engine/Counters.antt =====
-- The counters of `StandardEngine` (lib/rust/engine/src/engine.rs), over any tree that counts its
-- prefixes.
use radixip.Base.{
  ℕ, ◌+◌, ◌%◌, ◌^◌, ◌≡◌, ap, Bool, true, false, List, [], ◌∷◌, arith, Option-cases, inl, inr, ok,
}
use radixip.RouteTree.{RouteTree, IsCounted, one_if}
use radixip.Engine.{StandardEngine, new, inserted, insert, lookup, remove}

-- A call on the engine, but for `clear`.
pub data Op (R I M : Type 0) : Type 0 where
  inserts : R → M → Op R I M
  lookups : I → Op R I M
  removes : R → Op R I M

module _ {T R I M : Type 0} (t : RouteTree T R I M) where
  unfoldable pub step : StandardEngine T → Op R I M → StandardEngine T
  step e (inserts p m) = (insert t e p m).0
  step e (lookups ip) = (lookup t e ip).0
  step e (removes p) = (remove t e p).0

  unfoldable pub run : List (Op R I M) → StandardEngine T → StandardEngine T
  run [] e = e
  run (op ∷ ops) e = run ops (step e op)

module _ {T : Type 0} (count : T → ℕ) where
  -- The size is the number of stored prefixes and the one in the statistics; every lookup was a
  -- hit or a miss. Counters wrap.
  pub record Tallies (e : StandardEngine T) : Type 0 where
    pub sized : e.size ≡ count e.tree % 2 ^ 64
    pub shown : e.stats.size ≡ e.size
    pub looked : e.stats.lookups ≡ (e.stats.hits + e.stats.misses) % 2 ^ 64

inserted-Tallies :
    {T : Type 0} (count : T → ℕ) (e : StandardEngine T) (tree : T) (b : Bool)
    → Tallies count e
    → count tree ≡ count e.tree + one_if b
    → Tallies count (inserted (record e { tree = tree }) b)
unfolding inserted
inserted-Tallies count e tree true k h = omega (arith, k.sized, k.shown, k.looked)
inserted-Tallies count e tree false k h = omega (arith, k.sized, k.shown, k.looked)

module _ {T R I M : Type 0} (t : RouteTree T R I M) (count : T → ℕ) (IsValid : T → Type 0)
    (laws : IsCounted t count IsValid) where
  insert_lem :
      (e : StandardEngine T) (p : R) (m : M)
      → IsValid e.tree
      → (b : Bool) × (insert t e p m
          ≡ (inserted (record e { tree = (t.insert e.tree p m).0 }) b, ok tt))
        × (count (t.insert e.tree p m).0 ≡ count e.tree + one_if b)
  unfolding insert
  insert_lem e p m h =
      let (b, result, counted) = laws.insert_result e.tree p m h in
      (b, rw (result, insert), counted)

  insert-tree :
      (e : StandardEngine T) (p : R) (m : M)
      → IsValid e.tree
      → (insert t e p m).0.tree ≡ (t.insert e.tree p m).0
  unfolding inserted
  insert-tree e p m h = ap (λ r. r.0.tree) (insert_lem e p m h).1

  insert-Tallies :
      (e : StandardEngine T) (p : R) (m : M)
      → IsValid e.tree
      → Tallies count e
      → Tallies count (insert t e p m).0
  insert-Tallies e p m h k =
      let (b, result, counted) = insert_lem e p m h in
      rw result (inserted-Tallies count e (t.insert e.tree p m).0 b k counted)

  lookup-Tallies :
      (e : StandardEngine T) (ip : I) → Tallies count e → Tallies count (lookup t e ip).0
  unfolding lookup
  lookup-Tallies e ip k = elim (Option-cases (t.lookup e.tree ip)) [
    | inl miss ↦ rw miss (omega (arith, k.sized, k.shown, k.looked))
    | inr (m, hit) ↦ rw hit (omega (arith, k.sized, k.shown, k.looked))
  ]

  remove-Tallies :
      (e : StandardEngine T) (p : R)
      → IsValid e.tree
      → Tallies count e
      → Tallies count (remove t e p).0
  unfolding remove
  remove-Tallies e p h k =
      let counted = laws.remove_count e.tree p h in
      elim (Option-cases (t.remove e.tree p).1) [
        | inl e' ↦ rw (e', remove) (omega (arith, rw e' at counted, k.sized, k.shown, k.looked))
        | inr (m, e') ↦
            rw (e', remove) (omega (arith, rw e' at counted, k.sized, k.shown, k.looked))
      ]

  remove-tree : (e : StandardEngine T) (p : R) → (remove t e p).0.tree ≡ (t.remove e.tree p).0
  unfolding remove
  remove-tree e p = ground arith

  step-Tallies :
      (op : Op R I M) (e : StandardEngine T)
      → IsValid e.tree
      → Tallies count e
      → IsValid (step t e op).tree × Tallies count (step t e op)
  unfolding step
  step-Tallies (inserts p m) e h k =
      (rw (insert-tree e p m h) (laws.insert_valid e.tree p m h), insert-Tallies e p m h k)
  step-Tallies (lookups ip) e h k = (unfold lookup in h, lookup-Tallies e ip k)
  step-Tallies (removes p) e h k =
      (rw (remove-tree e p) (laws.remove_valid e.tree p h), remove-Tallies e p h k)

  run-Tallies_from :
      (ops : List (Op R I M)) (e : StandardEngine T)
      → IsValid e.tree
      → Tallies count e
      → Tallies count (run t ops e)
  unfolding run
  run-Tallies_from [] e h k = k
  run-Tallies_from (op ∷ ops) e h k =
      let (valid, tallies) = step-Tallies op e h k in
      run-Tallies_from ops (step t e op) valid tallies

  -- From an engine over a tree that counts no prefix, any insertions, lookups and removals keep
  -- the tallies.
  pub run-Tallies :
      (ops : List (Op R I M)) (empty : T)
      → IsValid empty
      → count empty ≡ 0
      → Tallies count (run t ops (new empty))
  unfolding new
  run-Tallies ops empty h none_yet = run-Tallies_from ops (new empty) h (omega arith)
