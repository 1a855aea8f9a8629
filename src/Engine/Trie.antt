-- ===== src/Engine/Trie.antt =====
-- `StandardEngine<UncompressedTree>` (lib/rust/engine/src/engine.rs over tree.rs): the tree fills
-- the trait, and what `clear` leaves behind.
use radixip.Base.{ℕ, ◌-◌, ◌^◌, ◌≡◌, refl, sym, ap, ◌∙◌, Bool, true, Option, some, [], is_some, ok}
use radixip.Net.{IpAddr, Network, IpNetwork, network, prefix}
use radixip.RouteTree.{RouteTree, IsCounted}
use radixip.Uncompressed.{
  UncompressedTree, Node, insert_at, insert, lookup, remove, contains, clear,
}
use radixip.Uncompressed.Routes.{route_from}
use radixip.Uncompressed.Count.{count, insert_at-count, remove_at-count}
use radixip.Uncompressed.Again.{insert_at_again, remove_at_again}
use radixip.Uncompressed.Map.{
  IsRooted, at, route, insert-IsRooted, remove-IsRooted, clear-IsRooted, at-clear, at-remove,
  contains-at, only_root,
}
use radixip.Engine
use radixip.Engine.{StandardEngine}

module _ (N4 N6 M : Type 0) ⦃a : Network 4 N4⦄ ⦃b : Network 16 N6⦄ where
  -- `impl RouteTree for UncompressedTree`
  unfoldable pub uncompressed :
      RouteTree (UncompressedTree (IpNetwork N4 N6) M) (IpNetwork N4 N6) IpAddr M
  uncompressed = record {
    insert = insert;
    lookup = lookup;
    remove = remove;
    contains = contains;
    clear = clear;
  }

  abbrev pub size_of : UncompressedTree (IpNetwork N4 N6) M → ℕ
  size_of t = count t.root

  pub uncompressed-IsCounted : IsCounted uncompressed size_of IsRooted
  unfolding uncompressed insert remove IsRooted
  uncompressed-IsCounted = record {
    insert_result = λ t p m h. (
      (insert_at (prefix p) 0 (network p) p m t.root).1,
      refl,
      insert_at-count (prefix p) 0 (network p) p m t.root h,
    );
    insert_valid = λ t p m h. insert-IsRooted t p m h;
    insert_again = λ t p m h.
        ap (λ (r : Node (IpNetwork N4 N6) M × Bool). (record { root = r.0 }, ok r.1))
          (insert_at_again (prefix p) 0 (network p) p m t.root h);
    remove_count = λ t p h. remove_at-count (prefix p) 0 (network p) t.root;
    remove_valid = λ t p h. remove-IsRooted t p h;
    remove_again = λ t p h.
        ap (λ (r : Node (IpNetwork N4 N6) M × Option M). (record { root = r.0 }, r.1))
          (remove_at_again (prefix p) 0 (network p) t.root);
    clear_valid = λ t h. clear-IsRooted t h;
  }

  route-zero : (p : IpNetwork N4 N6) → prefix p ≡ 0 → route p ≡ []
  unfolding route
  route-zero p h = rw (h, route_from)

  -- `clear` on an engine that holds a prefix of length 0 leaves a size of 0 and the prefix in
  -- place: it is still contained, and its removal answers the metadata and wraps the size to
  -- 2 ^ 64 - 1.
  pub clear_keeps_default :
      (e : StandardEngine (UncompressedTree (IpNetwork N4 N6) M)) (p : IpNetwork N4 N6) {m : M}
      → prefix p ≡ 0
      → at e.tree (route p) ≡ some m
      → ((Engine.clear uncompressed e).size ≡ 0)
        × (Engine.contains uncompressed (Engine.clear uncompressed e) p ≡ true)
        × ((Engine.remove uncompressed (Engine.clear uncompressed e) p).1 ≡ some m)
        × ((Engine.remove uncompressed (Engine.clear uncompressed e) p).0.size ≡ 2 ^ 64 - 1)
  unfolding Engine.clear Engine.contains Engine.remove uncompressed
  clear_keeps_default e p {m} short held =
      let kept : at (clear e.tree) (route p) ≡ some m =
        at-clear e.tree (route p)
        ∙ ap (only_root (at e.tree)) (route-zero p short)
        ∙ ap (at e.tree) (sym (route-zero p short))
        ∙ held in
      let removed = (at-remove (clear e.tree) p).0 ∙ kept in
      (refl, contains-at (clear e.tree) p ∙ ap is_some kept, removed, rw removed refl)
