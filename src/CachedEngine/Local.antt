-- ===== src/CachedEngine/Local.antt =====
-- Which answers an insertion into the tree of lib/rust/engine/src/tree.rs, or a removal, changes,
-- and the cache of lib/rust/engine/src/cache.rs over it.
use radixip.Base.{
  ℕ, zero, suc, ◌+◌, ◌%◌, ◌≤◌, ◌<◌, ◌≡◌, ◌≢◌, ◌⊎◌, inl, inr, refl, sym, ap, ◌∙◌, Bool, true, false,
  Bool-cases, Option, none, is_some, ◌==◌, arith,
}
use radixip.Net.{IpAddr, IsAddress, octets, bit_at, Network, IpNetwork, network, prefix}
use radixip.Lpm.{get_bit-eq-bit_at, network_contains_ip}
use radixip.Uncompressed.{
  Node, nil, node, child, or_build, set_child, goes_left, insert_at, remove_at, visit, search_from,
  UncompressedTree, insert, lookup, remove,
}
use radixip.Uncompressed.Lookup.{binary-eq-search}
use radixip.Engine
use radixip.Engine.{StandardEngine}
use radixip.Engine.Trie.{uncompressed}
use radixip.RadixEngine.{standard}
use radixip.CachedEngine.Coherence.{Family, family, family_of, IsOf, IsLocal}
use radixip.CachedEngine

-- Two ways agree for a number of steps, or they part at one of them.
agree_or_part :
    (f g : ℕ → Bool) (n : ℕ) → ((i : ℕ) → i < n → f i ≡ g i) ⊎ ((i : ℕ) × (i < n) × (f i ≢ g i))
agree_or_part f g zero = inl (λ i lt. elim lt [ ])
agree_or_part f g (suc n) = elim (agree_or_part f g n) [
  | inr (i, lt, e) ↦ inr (i, omega arith, e)
  | inl h ↦ elim (Bool-cases (f n)) [
    | inl p ↦ elim (Bool-cases (g n)) [
      | inl q ↦ inl (λ i lt. below i h (p ∙ sym q) lt)
      | inr q ↦ inr (n, omega arith, λ e. ground (arith, e, p, q))
    ]
    | inr p ↦ elim (Bool-cases (g n)) [
      | inl q ↦ inr (n, omega arith, λ e. ground (arith, e, p, q))
      | inr q ↦ inl (λ i lt. below i h (p ∙ sym q) lt)
    ]
  ]
]
  where
    last_or_below : (i m : ℕ) → i < suc m → (i < m) ⊎ (i ≡ m)
    last_or_below i m lt = ground arith

    below : (i : ℕ) → ((j : ℕ) → j < n → f j ≡ g j) → f n ≡ g n → i < suc n → f i ≡ g i
    below i h e lt = elim (last_or_below i n lt) [
      | inl l ↦ h i l
      | inr p ↦ ap f p ∙ e ∙ ap g (sym p)
    ]

bit_of_goes_left :
    (x y : IpAddr) (i : ℕ)
    → goes_left x i ≡ goes_left y i
    → bit_at (octets x) i ≡ bit_at (octets y) i
unfolding goes_left
bit_of_goes_left x y i e =
    let same : (bit_at (octets x) i == 0) ≡ (bit_at (octets y) i == 0) =
      rw (get_bit-eq-bit_at x i, get_bit-eq-bit_at y i) at e in
    binary _ _ same
  where
    binary : (a b : ℕ) → (a % 2 == 0) ≡ (b % 2 == 0) → a % 2 ≡ b % 2
    binary a b h = ground arith

-- The address leaves the way of the network at the step `i`, not before `depth`.
abbrev Parts : IpAddr → IpAddr → (depth i : ℕ) → Type 0
Parts net ip depth i = (depth ≤ i) × (goes_left ip i ≢ goes_left net i)

later :
    (net ip : IpAddr) (depth i : ℕ)
    → Parts net ip depth i
    → (goes_left ip depth ≢ goes_left net depth) ⊎ Parts net ip (suc depth) i
later net ip depth i (le, h) = elim (first_or_later depth i le) [
  | inl e ↦ inl (λ p. h (ap (goes_left ip) (sym e) ∙ p ∙ ap (goes_left net) e))
  | inr l ↦ inr (l, h)
]
  where
    first_or_later : (d j : ℕ) → d ≤ j → (d ≡ j) ⊎ (suc d ≤ j)
    first_or_later d j le = ground arith

module _ {N4 N6 : Type 0} ⦃a : Network 4 N4⦄ ⦃b : Network 16 N6⦄ where
  -- An address of the family outside a network leaves its way.
  outside-parts :
      (f : Family) (p : IpNetwork N4 N6) (ip : IpAddr)
      → family_of p ≡ f
      → IsOf f ip
      → network_contains_ip p ip ≡ false
      → (i : ℕ) × (i < prefix p) × Parts (network p) ip 0 i
  unfolding network_contains_ip
  outside-parts f p ip same (of, w) out =
      elim (agree_or_part (goes_left ip) (goes_left (network p)) (prefix p)) [
        | inr (i, lt, e) ↦ (i, lt, (omega arith, e))
        | inl h ↦ absurd (inside f p ip same of w out h)
      ]
    where
      inside :
          (f : Family) (p : IpNetwork N4 N6) (ip : IpAddr)
          → family_of p ≡ f
          → family ip ≡ f
          → IsAddress ip
          → network_contains_ip p ip ≡ false
          → ¬ ((i : ℕ) → i < prefix p → goes_left ip i ≡ goes_left (network p) i)
      inside f (IpNetwork.v4 n) (IpAddr.v4 o) same of w out h =
          let hit : a.contains n o ≡ true =
            (a.contains_iff n o w).1
              (λ i lt. bit_of_goes_left (IpAddr.v4 o) (IpAddr.v4 (a.network n)) i (h i lt)) in
          let miss : a.contains n o ≡ false = out in cc
      inside f (IpNetwork.v6 n) (IpAddr.v6 o) same of w out h =
          let hit : b.contains n o ≡ true =
            (b.contains_iff n o w).1
              (λ i lt. bit_of_goes_left (IpAddr.v6 o) (IpAddr.v6 (b.network n)) i (h i lt)) in
          let miss : b.contains n o ≡ false = out in cc
      inside f (IpNetwork.v4 n) (IpAddr.v6 o) same of w out h = cc
      inside f (IpNetwork.v6 n) (IpAddr.v4 o) same of w out h = cc

  module _ {M : Type 0} where
    -- Walks that differ at most by what stands below the first step.
    search-child :
        (ip : IpAddr) (depth : ℕ) (m : Option M) (p : Option (IpNetwork N4 N6))
        (l r : Node (IpNetwork N4 N6) M) (best : Option M)
        → search_from (node m p l r) ip depth best
          ≡ search_from
              (child (goes_left ip depth) (node m p l r))
              ip
              (suc depth)
              (visit ip m p best)
    unfolding search_from
    search-child ip depth m p l r best = elim (Bool-cases (goes_left ip depth)) [
      | inl e ↦ rw (e, search_from) refl
      | inr e ↦ rw (e, search_from) refl
    ]

    search-or_build :
        (t : Node (IpNetwork N4 N6) M) (ip : IpAddr) (depth : ℕ) (best : Option M)
        → search_from (or_build t) ip depth best ≡ search_from t ip depth best
    unfolding search_from visit
    search-or_build nil ip depth best = elim (Bool-cases (goes_left ip depth)) [
      | inl e ↦ rw (e, search_from) refl
      | inr e ↦ rw (e, search_from) refl
    ]
    search-or_build (node m p l r) ip depth best = refl

    -- A walk after one child was replaced by one in which the walk is the same.
    search-set_child :
        (c : Bool) (next : Node (IpNetwork N4 N6) M) (m : Option M) (p : Option (IpNetwork N4 N6))
        (l r : Node (IpNetwork N4 N6) M) (ip : IpAddr) (depth : ℕ) (best : Option M)
        → (goes_left ip depth ≢ c)
          ⊎ ((best : Option M)
              → search_from next ip (suc depth) best
                ≡ search_from (child c (node m p l r)) ip (suc depth) best)
        → search_from (set_child c next (node m p l r)) ip depth best
          ≡ search_from (node m p l r) ip depth best
    unfolding search_from
    search-set_child true next m p l r ip depth best (inl h) =
        elim (Bool-cases (goes_left ip depth)) [
          | inl e ↦ absurd (h e)
          | inr e ↦ rw (e, search_from) refl
        ]
    search-set_child false next m p l r ip depth best (inl h) =
        elim (Bool-cases (goes_left ip depth)) [
          | inl e ↦ rw (e, search_from) refl
          | inr e ↦ absurd (h e)
        ]
    search-set_child true next m p l r ip depth best (inr h) =
        elim (Bool-cases (goes_left ip depth)) [
          | inl e ↦ rw (e, search_from) (h (visit ip m p best))
          | inr e ↦ rw (e, search_from) refl
        ]
    search-set_child false next m p l r ip depth best (inr h) =
        elim (Bool-cases (goes_left ip depth)) [
          | inl e ↦ rw (e, search_from) refl
          | inr e ↦ rw (e, search_from) (h (visit ip m p best))
        ]

    -- An insertion changes no walk that leaves its way.
    insert_at-search :
        (rounds depth i : ℕ) (net ip : IpAddr) (p : IpNetwork N4 N6) (meta : M)
        (t : Node (IpNetwork N4 N6) M) (best : Option M)
        → i < depth + rounds
        → Parts net ip depth i
        → search_from (insert_at rounds depth net p meta t).0 ip depth best
          ≡ search_from t ip depth best
    unfolding insert_at
    insert_at-search zero depth i net ip p meta t best lt (le, h) = absurd (omega (arith, lt, le))
    insert_at-search (suc rounds) depth i net ip p meta nil best lt h = refl
    insert_at-search (suc rounds) depth i net ip p meta (node m q l r) best lt h =
        let left = goes_left net depth in
        let below = child left (node m q l r) in
        search-set_child left (insert_at rounds (suc depth) net p meta (or_build below)).0 m q l r
          ip depth best
          (elim (later net ip depth i h) [
            | inl off ↦ inl off
            | inr on ↦ inr (λ best.
                insert_at-search rounds (suc depth) i net ip p meta (or_build below) best
                  (omega (arith, lt)) on
                ∙ search-or_build below ip (suc depth) best)
          ])

    -- Neither does a removal.
    remove_at-search :
        (rounds depth i : ℕ) (net ip : IpAddr) (t : Node (IpNetwork N4 N6) M) (best : Option M)
        → i < depth + rounds
        → Parts net ip depth i
        → search_from (remove_at rounds depth net t).0 ip depth best ≡ search_from t ip depth best
    unfolding remove_at
    remove_at-search zero depth i net ip t best lt (le, h) = absurd (omega (arith, lt, le))
    remove_at-search (suc rounds) depth i net ip nil best lt h = refl
    remove_at-search (suc rounds) depth i net ip (node m q l r) best lt h =
        let left = goes_left net depth in
        search-set_child left (remove_at rounds (suc depth) net (child left (node m q l r))).0 m q l
          r ip depth best
          (elim (later net ip depth i h) [
            | inl off ↦ inl off
            | inr on ↦ inr (λ best.
                remove_at-search rounds (suc depth) i net ip (child left (node m q l r)) best
                  (omega (arith, lt)) on)
          ])

    tree-insert_local :
        (f : Family) (t : UncompressedTree (IpNetwork N4 N6) M) (p : IpNetwork N4 N6) (meta : M)
        (ip : IpAddr)
        → family_of p ≡ f
        → IsOf f ip
        → network_contains_ip p ip ≡ false
        → lookup (insert t p meta).0 ip ≡ lookup t ip
    unfolding lookup insert
    tree-insert_local f t p meta ip same of out =
        let (i, lt, parts) = outside-parts f p ip same of out in
        binary-eq-search (insert_at (prefix p) 0 (network p) p meta t.root).0 ip
        ∙ insert_at-search (prefix p) 0 i (network p) ip p meta t.root none (omega (arith, lt))
            parts
        ∙ sym (binary-eq-search t.root ip)

    tree-remove_local :
        (f : Family) (t : UncompressedTree (IpNetwork N4 N6) M) (p : IpNetwork N4 N6) (ip : IpAddr)
        → family_of p ≡ f
        → IsOf f ip
        → network_contains_ip p ip ≡ false
        → lookup (remove t p).0 ip ≡ lookup t ip
    unfolding lookup remove
    tree-remove_local f t p ip same of out =
        let (i, lt, parts) = outside-parts f p ip same of out in
        binary-eq-search (remove_at (prefix p) 0 (network p) t.root).0 ip
        ∙ remove_at-search (prefix p) 0 i (network p) ip t.root none (omega (arith, lt)) parts
        ∙ sym (binary-eq-search t.root ip)

    removed_tree :
        (e : StandardEngine (UncompressedTree (IpNetwork N4 N6) M)) (p : IpNetwork N4 N6)
        → (Engine.remove (uncompressed N4 N6 M) e p).0.tree ≡ (remove e.tree p).0
    unfolding Engine.remove uncompressed
    removed_tree e p = elim (Bool-cases (is_some (remove e.tree p).1)) [
      | inl h ↦ rw (Engine.remove, h) refl
      | inr h ↦ rw (Engine.remove, h) refl
    ]

    -- The standard engine over this tree is what the cache relies on, for either family.
    pub standard-IsLocal : (f : Family) → IsLocal (standard (uncompressed N4 N6 M)) f
    unfolding Engine.insert Engine.lookup uncompressed insert
    standard-IsLocal f = record {
      lookup_keeps = λ e ip other. refl;
      insert_local = λ e p m ip same of out. tree-insert_local f e.tree p m ip same of out;
      insert_failed = λ e p m ip x h. cc;
      remove_local = λ e p ip same of out.
          ap (λ t. lookup t ip) (removed_tree e p) ∙ tree-remove_local f e.tree p ip same of out;
    }
