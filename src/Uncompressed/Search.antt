-- ===== src/Uncompressed/Search.antt =====
-- The walk of `longest_prefix_match_binary` against the reference search over entries, both of
-- lib/rust/engine/src/lpm.rs, on the trie of lib/rust/engine/src/tree.rs.
use radixip.Base.{
  ℕ, suc, ◌<◌, ◌≡◌, ◌≢◌, refl, ap, ◌∙◌, inl, inr, Bool, true, false, Option, none, some, List, [],
  ◌∷◌, ◌++◌, fold_left, fold_left-append, arith, Bool-cases,
}
use radixip.Net.{IpAddr, octets, bit_at, IsAddress, Network, IpNetwork, network, prefix}
use radixip.Lpm.{get_bit-eq-bit_at, network_contains_ip, Entry, better, metadata_of}
use radixip.Uncompressed.{Node, nil, node, goes_left, visit, search_from}
use radixip.Uncompressed.Fits.{extend, Follows, Follows-on, OnRoute, Fits}

goes_left-bit :
    (x y : IpAddr) (i : ℕ)
    → bit_at (octets x) i ≡ bit_at (octets y) i
    → goes_left x i ≡ goes_left y i
unfolding goes_left
goes_left-bit x y i e = rw (get_bit-eq-bit_at x i, get_bit-eq-bit_at y i, e)

extend_below :
    (way : ℕ → Bool) (depth i : ℕ) (left : Bool) → i < depth → extend way depth left i ≡ way i
extend_below way depth i left lt = ground arith

-- The last step of a way.
extend_last : (way : ℕ → Bool) (depth : ℕ) (left : Bool) → extend way depth left depth ≡ left
extend_last way depth left = ground arith

module _ {N4 N6 : Type 0} ⦃a : Network 4 N4⦄ ⦃b : Network 16 N6⦄ where
  -- An address in a network goes the way of the network.
  pub contains_bits :
      (p : IpNetwork N4 N6) (ip : IpAddr) (i : ℕ)
      → IsAddress ip
      → network_contains_ip p ip ≡ true
      → i < prefix p
      → goes_left ip i ≡ goes_left (network p) i
  unfolding network_contains_ip
  contains_bits (IpNetwork.v4 n) (IpAddr.v4 o) i w h lt =
      goes_left-bit (IpAddr.v4 o) (IpAddr.v4 (a.network n)) i ((a.contains_iff n o w).0 h i lt)
  contains_bits (IpNetwork.v6 n) (IpAddr.v6 o) i w h lt =
      goes_left-bit (IpAddr.v6 o) (IpAddr.v6 (b.network n)) i ((b.contains_iff n o w).0 h i lt)
  contains_bits (IpNetwork.v4 n) (IpAddr.v6 o) i w h lt = cc
  contains_bits (IpNetwork.v6 n) (IpAddr.v4 o) i w h lt = cc

  module _ {M : Type 0} where
    abbrev pub entry_of : Option M → Option (IpNetwork N4 N6) → List (Entry N4 N6 M)
    entry_of none p = []
    entry_of (some m) none = []
    entry_of (some m) (some p) = (p, m) ∷ []

    -- The stored networks with their metadata, parents first.
    unfoldable pub entries : Node (IpNetwork N4 N6) M → List (Entry N4 N6 M)
    entries nil = []
    entries (node m p l r) = entry_of m p ++ (entries l ++ entries r)

    module _ (ip : IpAddr) (w : IsAddress ip) where
      unfoldable pub scan : Option (Entry N4 N6 M) → List (Entry N4 N6 M) → Option (Entry N4 N6 M)
      scan best xs = fold_left (better ip) best xs

      scan-append :
          (best : Option (Entry N4 N6 M)) (xs ys : List (Entry N4 N6 M))
          → scan best (xs ++ ys) ≡ scan (scan best xs) ys
      unfolding scan
      scan-append best xs ys = fold_left-append (better ip) best xs ys

      better_miss :
          (best : Option (Entry N4 N6 M)) (e : Entry N4 N6 M)
          → network_contains_ip e.0 ip ≡ false
          → better ip best e ≡ best
      unfolding better
      better_miss none e h = rw h
      better_miss (some best) e h = rw h

      -- A network off the way of the address does not contain it.
      entry_of_off :
          (way : ℕ → Bool) (depth i : ℕ) (m : Option M) (p : Option (IpNetwork N4 N6))
          (best : Option (Entry N4 N6 M))
          → i < depth
          → goes_left ip i ≢ way i
          → OnRoute way depth p
          → scan best (entry_of m p) ≡ best
      unfolding scan
      entry_of_off way depth i none p best lt off h = refl
      entry_of_off way depth i (some m) none best lt off h = refl
      entry_of_off way depth i (some m) (some p) best lt off h =
          elim (Bool-cases (network_contains_ip p ip)) [
            | inl hit ↦ absurd (off (contains_bits p ip i w hit (omega (arith, h.0)) ∙ h.1 i lt))
            | inr miss ↦ better_miss best (p, m) miss
          ]

      -- A subtree off the way of the address changes nothing.
      scan_off :
          (way : ℕ → Bool) (depth i : ℕ) (t : Node (IpNetwork N4 N6) M)
          (best : Option (Entry N4 N6 M))
          → i < depth
          → goes_left ip i ≢ way i
          → Fits way depth t
          → scan best (entries t) ≡ best
      unfolding entries
      scan_off way depth i nil best lt off h = unfold scan in refl
      scan_off way depth i (node m p l r) best lt off h =
          scan-append best (entry_of m p) (entries l ++ entries r)
          ∙ ap (λ c. scan c (entries l ++ entries r)) (entry_of_off way depth i m p best lt off h.0)
          ∙ scan-append best (entries l) (entries r)
          ∙ ap (λ c. scan c (entries r))
              (scan_off (extend way depth true) (suc depth) i l best (omega arith)
                (λ e. off (e ∙ extend_below way depth i true lt)) h.2)
          ∙ scan_off (extend way depth false) (suc depth) i r best (omega arith)
              (λ e. off (e ∙ extend_below way depth i false lt)) h.3

      abbrev IsAbove : Option (Entry N4 N6 M) → ℕ → Type 0
      IsAbove none depth = Unit
      IsAbove (some e) depth = prefix e.0 < depth

      -- A visit is a round of the reference loop, and leaves a network of the depth at most.
      visit_lem :
          (way : ℕ → Bool) (depth : ℕ) (m : Option M) (p : Option (IpNetwork N4 N6))
          (best : Option (Entry N4 N6 M))
          → IsAbove best depth
          → OnRoute way depth p
          → (metadata_of (scan best (entry_of m p)) ≡ visit ip m p (metadata_of best))
            × IsAbove (scan best (entry_of m p)) (suc depth)
      unfolding scan visit better
      visit_lem way depth none none none k h = (refl, tt)
      visit_lem way depth none none (some e) k h = (refl, omega arith)
      visit_lem way depth none (some p) none k h = (refl, tt)
      visit_lem way depth none (some p) (some e) k h = (refl, omega arith)
      visit_lem way depth (some m) none none k h = (refl, tt)
      visit_lem way depth (some m) none (some e) k h = (refl, omega arith)
      visit_lem way depth (some m) (some p) none k h = ground arith
      visit_lem way depth (some m) (some p) (some e) k h = ground arith

      -- The whole scan, on a subtree along the way of the address.
      unfoldable pub Agrees : Node (IpNetwork N4 N6) M → ℕ → Option (Entry N4 N6 M) → Type 0
      Agrees t depth best =
          metadata_of (scan best (entries t)) ≡ search_from t ip depth (metadata_of best)

      scan_node :
          (m : Option M) (p : Option (IpNetwork N4 N6)) (l r : Node (IpNetwork N4 N6) M)
          (best : Option (Entry N4 N6 M))
          → scan best (entries (node m p l r))
            ≡ scan (scan (scan best (entry_of m p)) (entries l)) (entries r)
      unfolding entries
      scan_node m p l r best =
          scan-append best (entry_of m p) (entries l ++ entries r)
          ∙ scan-append (scan best (entry_of m p)) (entries l) (entries r)

      pub Agrees-on :
          (way : ℕ → Bool) (depth : ℕ) (t : Node (IpNetwork N4 N6) M)
          (best : Option (Entry N4 N6 M))
          → Fits way depth t
          → Follows way depth ip
          → IsAbove best depth
          → Agrees t depth best
      unfolding Agrees search_from
      Agrees-on way depth nil best h f k = unfold scan entries in refl
      Agrees-on way depth (node m p l r) best h f k =
          let best' = scan best (entry_of m p) in
          let (seen, above) = visit_lem way depth m p best k h.0 in
          elim (Bool-cases (goes_left ip depth)) [
            | inl left ↦
                ap metadata_of (scan_node m p l r best)
                ∙ ap metadata_of (
                    scan_off (extend way depth false) (suc depth) depth r (scan best' (entries l))
                      (omega arith) (λ e. ground (arith, extend_last way depth false)) h.3)
                ∙ Agrees-on (extend way depth true) (suc depth) l best' h.2
                    (rw left at (Follows-on way depth ip f)) above
                ∙ rw (left, seen, search_from)
            | inr right ↦
                ap metadata_of (scan_node m p l r best)
                ∙ ap (λ c. metadata_of (scan c (entries r)))
                    (scan_off (extend way depth true) (suc depth) depth l best' (omega arith)
                      (λ e. ground (arith, extend_last way depth true)) h.2)
                ∙ Agrees-on (extend way depth false) (suc depth) r best' h.3
                    (rw right at (Follows-on way depth ip f)) above
                ∙ rw (right, seen, search_from)
          ]
