-- ===== src/Uncompressed/Routes.antt =====
-- The bit trie of lib/rust/engine/src/tree.rs as a map from bit strings to metadata, and each
-- operation as a change of that map.
use radixip.Base.{
  ℕ, zero, suc, ◌≡◌, ◌≢◌, refl, sym, ap, ◌∙◌, Bool, true, false, Option, none, some, List, [], ◌∷◌,
  is_some, is_none,
}
use radixip.Net.{IpAddr}
use radixip.Uncompressed.{
  Node, nil, node, goes_left, child, set_child, or_build, store, insert_at, remove_at, contains_at,
}

-- The bits `depth`, `depth + 1`, … of an address, `rounds` of them.
unfoldable pub route_from : ℕ → ℕ → IpAddr → List Bool
route_from zero depth ip = []
route_from (suc rounds) depth ip = goes_left ip depth ∷ route_from rounds (suc depth) ip

module _ {R M : Type 0} where
  -- The metadata at the end of a bit string.
  unfoldable pub stored : Node R M → List Bool → Option M
  stored nil _ = none
  stored (node m p l r) [] = m
  stored (node m p l r) (true ∷ bits) = stored l bits
  stored (node m p l r) (false ∷ bits) = stored r bits

  stored-child :
      (t : Node R M) (left : Bool) (bits : List Bool)
      → stored t (left ∷ bits) ≡ stored (child left t) bits
  unfolding stored
  stored-child nil left bits = refl
  stored-child (node m p l r) true bits = refl
  stored-child (node m p l r) false bits = refl

  stored-or_build : (t : Node R M) (bits : List Bool) → stored (or_build t) bits ≡ stored t bits
  unfolding stored
  stored-or_build nil [] = refl
  stored-or_build nil (true ∷ bits) = refl
  stored-or_build nil (false ∷ bits) = refl
  stored-or_build (node m p l r) bits = refl

  -- A node, and no missing child.
  unfoldable pub IsNode : Node R M → Type 0
  IsNode nil = ⊥
  IsNode (node m p l r) = Unit

  pub or_build-IsNode : (t : Node R M) → IsNode (or_build t)
  unfolding IsNode
  or_build-IsNode nil = tt
  or_build-IsNode (node m p l r) = tt

  -- An insertion is new exactly if nothing was stored at its bits.
  pub insert_at-is_new :
      (rounds depth : ℕ) (ip : IpAddr) (route : R) (meta : M) (t : Node R M)
      → (insert_at rounds depth ip route meta t).1 ≡ is_none (stored t (route_from rounds depth ip))
  unfolding insert_at route_from
  insert_at-is_new zero depth ip route meta nil = unfold stored in refl
  insert_at-is_new zero depth ip route meta (node m p l r) = unfold stored in refl
  insert_at-is_new (suc rounds) depth ip route meta t =
      rw
        (
          stored-child t (goes_left ip depth) (route_from rounds (suc depth) ip),
          ← stored-or_build (child (goes_left ip depth) t) (route_from rounds (suc depth) ip),
        )
        (insert_at-is_new rounds (suc depth) ip route meta
          (or_build (child (goes_left ip depth) t)))

  pub set_child-IsNode : (left : Bool) (c t : Node R M) → IsNode t → IsNode (set_child left c t)
  unfolding IsNode
  set_child-IsNode left c nil h = h
  set_child-IsNode true c (node m p l r) h = tt
  set_child-IsNode false c (node m p l r) h = tt

  stored-set_child_same :
      (left : Bool) (c t : Node R M) (bits : List Bool)
      → IsNode t
      → stored (set_child left c t) (left ∷ bits) ≡ stored c bits
  unfolding stored IsNode
  stored-set_child_same left c nil bits h = elim h [ ]
  stored-set_child_same true c (node m p l r) bits h = refl
  stored-set_child_same false c (node m p l r) bits h = refl

  stored-set_child :
      (left : Bool) (c t : Node R M) (bits q : List Bool)
      → q ≢ left ∷ bits
      → ((q' : List Bool) → q' ≢ bits → stored c q' ≡ stored (child left t) q')
      → stored (set_child left c t) q ≡ stored t q
  unfolding stored
  stored-set_child left c nil bits q n h = refl
  stored-set_child true c (node m p l r) bits [] n h = refl
  stored-set_child false c (node m p l r) bits [] n h = refl
  stored-set_child true c (node m p l r) bits (true ∷ q) n h = h q (λ e. n (ap (λ z. true ∷ z) e))
  stored-set_child true c (node m p l r) bits (false ∷ q) n h = refl
  stored-set_child false c (node m p l r) bits (true ∷ q) n h = refl
  stored-set_child false c (node m p l r) bits (false ∷ q) n h =
      h q (λ e. n (ap (λ z. false ∷ z) e))

  store-IsNode : (route : R) (meta : M) (t : Node R M) → IsNode t → IsNode (store route meta t)
  unfolding IsNode
  store-IsNode route meta nil h = h
  store-IsNode route meta (node m p l r) h = tt

  pub insert_at-IsNode :
      (rounds depth : ℕ) (ip : IpAddr) (route : R) (meta : M) (t : Node R M)
      → IsNode t
      → IsNode (insert_at rounds depth ip route meta t).0
  unfolding insert_at
  insert_at-IsNode zero depth ip route meta t h = store-IsNode route meta t h
  insert_at-IsNode (suc rounds) depth ip route meta t h =
      set_child-IsNode (goes_left ip depth) _ t h

  pub remove_at-IsNode :
      (rounds depth : ℕ) (ip : IpAddr) (t : Node R M)
      → IsNode t
      → IsNode (remove_at rounds depth ip t).0
  unfolding remove_at
  remove_at-IsNode rounds depth ip nil h = h
  remove_at-IsNode zero depth ip (node m p l r) h = unfold IsNode in tt
  remove_at-IsNode (suc rounds) depth ip (node m p l r) h =
      set_child-IsNode (goes_left ip depth) _ (node m p l r) h

  -- Without its children a root keeps only what is stored at the empty bit string.
  pub stored-clear :
      (t : Node R M) (q : List Bool)
      → stored (set_child false nil (set_child true nil t)) q
        ≡ elim q [ [] ↦ stored t [] | _ ↦ none ]
  unfolding stored
  stored-clear nil [] = refl
  stored-clear nil (x ∷ q) = refl
  stored-clear (node m p l r) [] = refl
  stored-clear (node m p l r) (true ∷ q) = refl
  stored-clear (node m p l r) (false ∷ q) = refl

  pub insert_at_self :
      (rounds depth : ℕ) (ip : IpAddr) (route : R) (meta : M) (t : Node R M)
      → IsNode t
      → stored (insert_at rounds depth ip route meta t).0 (route_from rounds depth ip) ≡ some meta
  unfolding insert_at route_from
  insert_at_self zero depth ip route meta nil h = unfold IsNode in elim h [ ]
  insert_at_self zero depth ip route meta (node m p l r) h = unfold stored in refl
  insert_at_self (suc rounds) depth ip route meta t h =
      stored-set_child_same (goes_left ip depth) _ t _ h
      ∙ insert_at_self rounds (suc depth) ip route meta (or_build (child (goes_left ip depth) t))
          (or_build-IsNode _)

  pub insert_at-other :
      (rounds depth : ℕ) (ip : IpAddr) (route : R) (meta : M) (t : Node R M) (q : List Bool)
      → q ≢ route_from rounds depth ip
      → stored (insert_at rounds depth ip route meta t).0 q ≡ stored t q
  unfolding insert_at route_from
  insert_at-other zero depth ip route meta nil q n = unfold stored in refl
  insert_at-other zero depth ip route meta (node m p l r) [] n = absurd (n refl)
  insert_at-other zero depth ip route meta (node m p l r) (true ∷ q) n = unfold stored in refl
  insert_at-other zero depth ip route meta (node m p l r) (false ∷ q) n = unfold stored in refl
  insert_at-other (suc rounds) depth ip route meta t q n =
      stored-set_child (goes_left ip depth) _ t _ q n (λ q' n'.
        insert_at-other rounds (suc depth) ip route meta (or_build (child (goes_left ip depth) t))
          q' n'
        ∙ stored-or_build (child (goes_left ip depth) t) q')

  -- `remove` returns what was stored.
  pub remove_at-removed :
      (rounds depth : ℕ) (ip : IpAddr) (t : Node R M)
      → (remove_at rounds depth ip t).1 ≡ stored t (route_from rounds depth ip)
  unfolding remove_at route_from
  remove_at-removed rounds depth ip nil = unfold stored in refl
  remove_at-removed zero depth ip (node m p l r) = unfold stored in refl
  remove_at-removed (suc rounds) depth ip (node m p l r) =
      remove_at-removed rounds (suc depth) ip (child (goes_left ip depth) (node m p l r))
      ∙ sym (stored-child (node m p l r) (goes_left ip depth) (route_from rounds (suc depth) ip))

  pub remove_at_self :
      (rounds depth : ℕ) (ip : IpAddr) (t : Node R M)
      → stored (remove_at rounds depth ip t).0 (route_from rounds depth ip) ≡ none
  unfolding remove_at route_from
  remove_at_self rounds depth ip nil = unfold stored in refl
  remove_at_self zero depth ip (node m p l r) = unfold stored in refl
  remove_at_self (suc rounds) depth ip (node m p l r) =
      stored-set_child_same (goes_left ip depth) _ (node m p l r) _ (unfold IsNode in tt)
      ∙ remove_at_self rounds (suc depth) ip (child (goes_left ip depth) (node m p l r))

  pub remove_at-other :
      (rounds depth : ℕ) (ip : IpAddr) (t : Node R M) (q : List Bool)
      → q ≢ route_from rounds depth ip
      → stored (remove_at rounds depth ip t).0 q ≡ stored t q
  unfolding remove_at route_from
  remove_at-other rounds depth ip nil q n = unfold stored in refl
  remove_at-other zero depth ip (node m p l r) [] n = absurd (n refl)
  remove_at-other zero depth ip (node m p l r) (true ∷ q) n = unfold stored in refl
  remove_at-other zero depth ip (node m p l r) (false ∷ q) n = unfold stored in refl
  remove_at-other (suc rounds) depth ip (node m p l r) q n =
      stored-set_child (goes_left ip depth) _ (node m p l r) _ q n (λ q' n'.
        remove_at-other rounds (suc depth) ip (child (goes_left ip depth) (node m p l r)) q' n')

  pub contains_at-stored :
      (rounds depth : ℕ) (ip : IpAddr) (t : Node R M)
      → contains_at rounds depth ip t ≡ is_some (stored t (route_from rounds depth ip))
  unfolding contains_at route_from
  contains_at-stored rounds depth ip nil = unfold stored in refl
  contains_at-stored zero depth ip (node m p l r) = unfold stored in refl
  contains_at-stored (suc rounds) depth ip (node m p l r) =
      contains_at-stored rounds (suc depth) ip (child (goes_left ip depth) (node m p l r))
      ∙ ap is_some (
          sym (stored-child (node m p l r) (goes_left ip depth) (route_from rounds (suc depth) ip)))
