-- ===== src/Policy/Banned.antt =====
-- What a ban of lib/rust/policy/src/auto_ban.rs is worth to the next request of its address in
-- lib/rust/policy/src/lib.rs, over the standard engine of lib/rust/engine/src/engine.rs.
use radixip.Base.{
  ℕ, zero, suc, ◌+◌, ◌<◌, ◌≡◌, ◌⊎◌, inl, inr, refl, ap, ◌∙◌, Bool, true, false, Bool-cases, Option,
  none, some, is_some, arith,
}
use radixip.Net.{IpAddr, IsAddress, Network, IpNetwork, network, prefix}
use radixip.Lpm.{network_contains_ip}
use radixip.Uncompressed.{
  Node, nil, node, child, set_child, or_build, goes_left, insert_at, visit, search_from,
  UncompressedTree, insert, lookup,
}
use radixip.Uncompressed.Lookup.{binary-eq-search}
use radixip.Uncompressed.Search.{contains_bits}
use radixip.Uncompressed.Map.{IsRooted}
use radixip.Uncompressed.Routes.{IsNode, or_build-IsNode}
use radixip.Engine
use radixip.Engine.{StandardEngine}
use radixip.Engine.Trie.{uncompressed}
use radixip.RadixEngine.{RadixEngine, Metadata, standard}
use radixip.Policy.Limiter
use radixip.Policy.PolicyEngine
use radixip.Policy.PolicyEngine.{PolicyEngine}

module _ {N4 N6 : Type 0} ⦃a : Network 4 N4⦄ ⦃b : Network 16 N6⦄ where
  module _ {M : Type 0} where
    -- A walk does not lose what it has found.
    search-kept :
        (t : Node (IpNetwork N4 N6) M) (ip : IpAddr) (depth : ℕ) (best : Option M)
        → is_some best ≡ true
        → is_some (search_from t ip depth best) ≡ true
    unfolding search_from
    search-kept nil ip depth best h = h
    search-kept (node m p l r) ip depth best h =
        let kept = visit-kept ip m p best h in
        elim (Bool-cases (goes_left ip depth)) [
          | inl e ↦ rw (e, search_from) (search-kept l ip (suc depth) (visit ip m p best) kept)
          | inr e ↦ rw (e, search_from) (search-kept r ip (suc depth) (visit ip m p best) kept)
        ]
      where
        visit-kept :
            (ip : IpAddr) (m : Option M) (p : Option (IpNetwork N4 N6)) (best : Option M)
            → is_some best ≡ true
            → is_some (visit ip m p best) ≡ true
        visit-kept ip m none best h = unfold visit in h
        visit-kept ip none (some p) best h = unfold visit in h
        visit-kept ip (some m) (some p) best h = unfold visit in ground (arith, h)

    search-set_child_on :
        (c : Bool) (next : Node (IpNetwork N4 N6) M) (m : Option M) (p : Option (IpNetwork N4 N6))
        (l r : Node (IpNetwork N4 N6) M) (ip : IpAddr) (depth : ℕ) (best : Option M)
        → goes_left ip depth ≡ c
        → search_from (set_child c next (node m p l r)) ip depth best
          ≡ search_from next ip (suc depth) (visit ip m p best)
    unfolding search_from
    search-set_child_on true next m p l r ip depth best e = rw (search_from, e) refl
    search-set_child_on false next m p l r ip depth best e = rw (search_from, e) refl

    -- After the insertion of a network that contains an address, the walk finds something.
    insert_at-found :
        (rounds depth : ℕ) (net ip : IpAddr) (p : IpNetwork N4 N6) (meta : M)
        (t : Node (IpNetwork N4 N6) M) (best : Option M)
        → IsNode t
        → network_contains_ip p ip ≡ true
        → ((i : ℕ) → i < depth + rounds → goes_left ip i ≡ goes_left net i)
        → is_some (search_from (insert_at rounds depth net p meta t).0 ip depth best) ≡ true
    unfolding insert_at IsNode
    insert_at-found rounds depth net ip p meta nil best h hit way = absurd h
    insert_at-found zero depth net ip p meta (node m q l r) best h hit way =
        found_here (Bool-cases (goes_left ip depth))
      where
        here : visit ip (some meta) (some p) best ≡ some meta
        here = unfold visit in rw hit refl

        found_here :
            (goes_left ip depth ≡ true) ⊎ (goes_left ip depth ≡ false)
            → is_some (search_from (node (some meta) (some p) l r) ip depth best) ≡ true
        found_here (inl e) =
            unfold search_from in
            rw (search_from, e, here) (search-kept l ip (suc depth) (some meta) refl)
        found_here (inr e) =
            unfold search_from in
            rw (search_from, e, here) (search-kept r ip (suc depth) (some meta) refl)
    insert_at-found (suc rounds) depth net ip p meta (node m q l r) best h hit way =
        let left = goes_left net depth in
        let below = or_build (child left (node m q l r)) in
        let next = (insert_at rounds (suc depth) net p meta below).0 in
        ap is_some (search-set_child_on left next m q l r ip depth best (way depth (omega arith)))
        ∙ insert_at-found rounds (suc depth) net ip p meta below (visit ip m q best)
            (or_build-IsNode (child left (node m q l r))) hit (λ i lt. way i (omega (arith, lt)))

    pub insert-found :
        (t : UncompressedTree (IpNetwork N4 N6) M) (p : IpNetwork N4 N6) (meta : M) (ip : IpAddr)
        → IsRooted t
        → IsAddress ip
        → network_contains_ip p ip ≡ true
        → is_some (lookup (insert t p meta).0 ip) ≡ true
    unfolding lookup insert IsRooted
    insert-found t p meta ip h w hit =
        ap is_some (binary-eq-search (insert_at (prefix p) 0 (network p) p meta t.root).0 ip)
        ∙ insert_at-found (prefix p) 0 (network p) ip p meta t.root none h hit
            (λ i lt. contains_bits p ip i w hit (omega (arith, lt)))

module _ (N4 N6 : Type 0) ⦃a : Network 4 N4⦄ ⦃b : Network 16 N6⦄ where
  abbrev E : Type 0
  E = StandardEngine (UncompressedTree (IpNetwork N4 N6) Metadata)

  abbrev engine : RadixEngine E (IpNetwork N4 N6) IpAddr Metadata
  engine = standard (uncompressed N4 N6 Metadata)

  -- The engine has an entry for the address.
  abbrev IsListed : E → IpAddr → Type 0
  IsListed e address = is_some (lookup e.tree address) ≡ true
