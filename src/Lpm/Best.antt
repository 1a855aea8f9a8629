-- ===== src/Lpm/Best.antt =====
-- What lib/rust/engine/src/lpm.rs promises of `longest_prefix_match_entries`: the entry that it
-- returns, described without the loop.
use radixip.Base.{
  ◌≤◌, ◌<◌, ◌≡◌, refl, ◌∙◌, ap, ◌⊎◌, inl, inr, true, false, none, some, List, [], ◌∷◌, ◌++◌, All,
  fold_left, arith, leb, Bool-cases,
}
use radixip.Net.{IpAddr, Network, prefix}
use radixip.Lpm.{Entry, network_contains_ip, better, metadata_of, longest_prefix_match_entries}

module _ {N4 N6 : Type 0} ⦃a : Network 4 N4⦄ ⦃b : Network 16 N6⦄ {M : Type 0} (ip : IpAddr) where
  abbrev pub Misses : Entry N4 N6 M → Type 0
  Misses f = network_contains_ip f.0 ip ≡ false

  abbrev pub IsShorter : Entry N4 N6 M → Entry N4 N6 M → Type 0
  IsShorter e f = network_contains_ip f.0 ip ≡ true → prefix f.0 < prefix e.0

  abbrev pub NotLonger : Entry N4 N6 M → Entry N4 N6 M → Type 0
  NotLonger e f = network_contains_ip f.0 ip ≡ true → prefix f.0 ≤ prefix e.0

  -- The entry `e` contains the address; every containing entry before it is shorter, and none
  -- after it is longer.
  pub record Selects (entries : List (Entry N4 N6 M)) (e : Entry N4 N6 M) : Type 0 where
    pub before : List (Entry N4 N6 M)
    pub after : List (Entry N4 N6 M)
    pub split : entries ≡ before ++ (e ∷ after)
    pub hit : network_contains_ip e.0 ip ≡ true
    pub shorter : All (IsShorter e) before
    pub not_longer : All (NotLonger e) after

  later :
      {e : Entry N4 N6 M} (x : Entry N4 N6 M) {xs : List (Entry N4 N6 M)}
      → IsShorter e x
      → Selects xs e
      → Selects (x ∷ xs) e
  later x h s = record {
    before = x ∷ s.before;
    after = s.after;
    split = ap (λ ys. x ∷ ys) s.split;
    hit = s.hit;
    shorter = (h, s.shorter);
    not_longer = s.not_longer;
  }

  first :
      (x : Entry N4 N6 M) (xs : List (Entry N4 N6 M))
      → network_contains_ip x.0 ip ≡ true
      → All (NotLonger x) xs
      → Selects (x ∷ xs) x
  first x xs h k = record {
    before = [];
    after = xs;
    split = refl;
    hit = h;
    shorter = tt;
    not_longer = k;
  }

  -- The loop from a best entry: either that entry stays, or a longer one replaces it.
  abbrev Replaces : Entry N4 N6 M → List (Entry N4 N6 M) → Type 0
  Replaces best xs =
      ((fold_left (better ip) (some best) xs ≡ some best) × All (NotLonger best) xs)
      ⊎ ((e : Entry N4 N6 M) × (fold_left (better ip) (some best) xs ≡ some e)
          × Selects xs e
          × (prefix best.0 < prefix e.0))

  replaced :
      (best x : Entry N4 N6 M) (xs : List (Entry N4 N6 M))
      → network_contains_ip x.0 ip ≡ true
      → prefix best.0 < prefix x.0
      → fold_left (better ip) (some best) (x ∷ xs) ≡ fold_left (better ip) (some x) xs
      → Replaces x xs
      → Replaces best (x ∷ xs)
  replaced best x xs h lt step (inl (e, all)) = inr (x, step ∙ e, first x xs h all, lt)
  replaced best x xs h lt step (inr (e, eq, s, longer)) =
      inr (e, step ∙ eq, later x (λ _. longer) s, omega arith)

  kept :
      (best x : Entry N4 N6 M) (xs : List (Entry N4 N6 M))
      → NotLonger best x
      → fold_left (better ip) (some best) (x ∷ xs) ≡ fold_left (better ip) (some best) xs
      → Replaces best xs
      → Replaces best (x ∷ xs)
  kept best x xs h step (inl (e, all)) = inl (step ∙ e, (h, all))
  kept best x xs h step (inr (e, eq, s, longer)) =
      inr (e, step ∙ eq, later x (λ c. omega (arith, h c)) s, longer)

  from_some : (best : Entry N4 N6 M) (xs : List (Entry N4 N6 M)) → Replaces best xs
  unfolding better
  from_some best [] = inl (refl, tt)
  from_some best (x ∷ xs) = elim (Bool-cases (network_contains_ip x.0 ip)) [
    | inl hit ↦ elim (Bool-cases (leb (prefix x.0) (prefix best.0))) [
      | inl le ↦ kept best x xs (λ _. ground arith) (rw (hit, le, better)) (from_some best xs)
      | inr gt ↦ replaced best x xs hit (ground arith) (rw (hit, gt, better)) (from_some x xs)
    ]
    | inr miss ↦ kept best x xs (λ c. cc) (rw (miss, better)) (from_some best xs)
  ]

  abbrev Found : List (Entry N4 N6 M) → Type 0
  Found xs =
      ((fold_left (better ip) none xs ≡ none) × All Misses xs)
      ⊎ ((e : Entry N4 N6 M) × (fold_left (better ip) none xs ≡ some e) × Selects xs e)

  Found-first :
      (x : Entry N4 N6 M) (xs : List (Entry N4 N6 M))
      → network_contains_ip x.0 ip ≡ true
      → fold_left (better ip) none (x ∷ xs) ≡ fold_left (better ip) (some x) xs
      → Replaces x xs
      → Found (x ∷ xs)
  Found-first x xs h step (inl (e, all)) = inr (x, step ∙ e, first x xs h all)
  Found-first x xs h step (inr (e, eq, s, longer)) = inr (e, step ∙ eq, later x (λ _. longer) s)

  Found-later :
      (x : Entry N4 N6 M) (xs : List (Entry N4 N6 M))
      → Misses x
      → fold_left (better ip) none (x ∷ xs) ≡ fold_left (better ip) none xs
      → Found xs
      → Found (x ∷ xs)
  Found-later x xs h step (inl (e, all)) = inl (step ∙ e, (h, all))
  Found-later x xs h step (inr (e, eq, s)) = inr (e, step ∙ eq, later x (λ c. cc) s)

  from_none : (xs : List (Entry N4 N6 M)) → Found xs
  unfolding better
  from_none [] = inl (refl, tt)
  from_none (x ∷ xs) = elim (Bool-cases (network_contains_ip x.0 ip)) [
    | inl hit ↦ Found-first x xs hit (rw (hit, better)) (from_some x xs)
    | inr miss ↦ Found-later x xs miss (rw (miss, better)) (from_none xs)
  ]

  -- The search over any entries returns `None` where every entry misses the address, and
  -- otherwise the metadata of the first of the longest entries that contain it.
  pub longest_prefix_match_entries-Selects :
      (entries : List (Entry N4 N6 M))
      → ((longest_prefix_match_entries entries ip ≡ none) × All Misses entries)
        ⊎ ((e : Entry N4 N6 M) × (longest_prefix_match_entries entries ip ≡ some e.1)
            × Selects entries e)
  unfolding longest_prefix_match_entries
  longest_prefix_match_entries-Selects entries = elim (from_none entries) [
    | inl (e, all) ↦ inl (ap metadata_of e, all)
    | inr (e, eq, s) ↦ inr (e, ap metadata_of eq, s)
  ]
