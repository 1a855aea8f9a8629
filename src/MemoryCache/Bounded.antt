-- ===== src/MemoryCache/Bounded.antt =====
-- How many entries a cache holds.
use radixip.Base.{
  ℕ, ◌≤◌, ◌<◌, ◌≡◌, ◌⊎◌, refl, inl, inr, not, Bool-cases, Option, Option-cases, none, some, List,
  [], ◌∷◌, length, leb, Key, find, length-erase_le, length-erase_lt, length-retain_le, arith,
}
use radixip.Net.{IpAddr}
use radixip.MemoryCache.{
  CacheConfig, CacheEntry, Entries, has_expired, read_entry, get, evict, insert, invalidate_prefix,
  clear, Call, gets, inserts, invalidates, clears, after, run, new,
}

module _ ⦃k : Key IpAddr⦄ {V : Type 0} (victim : Entries V → Option IpAddr)
    (config : CacheConfig) where
  -- The first key of a map: there is none only in an empty map.
  abbrev pub IsVictim : Type 0
  IsVictim =
      (m : Entries V)
      → ((victim m ≡ none) × (m ≡ []))
        ⊎ ((key : IpAddr) × (e : CacheEntry V) × (victim m ≡ some key) × (find key m ≡ some e))

  abbrev pub IsBounded : Entries V → Type 0
  IsBounded m = (length m ≤ config.max_entries) ⊎ (length m ≤ 1)

  length-evict :
      (m : Entries V)
      → IsVictim
      → IsBounded m
      → (length (evict victim config m) < config.max_entries) ⊎ (length (evict victim config m) ≡ 0)
  unfolding evict
  length-evict m first bound = elim (Bool-cases (leb config.max_entries (length m))) [
    | inl p ↦ elim (first m) [
      | inl (q, empty) ↦ rw (evict, p, q) (inr (rw empty refl))
      | inr (key, e, q, found) ↦
          (let less = length-erase_lt key m e found in rw (evict, p, q) (fewer _ _ _ bound less))
    ]
    | inr p ↦ rw (evict, p) (inl (ground (arith, p)))
  ]
    where
      fewer : (l n m : ℕ) → ((n ≤ m) ⊎ (n ≤ 1)) → l < n → (l < m) ⊎ (l ≡ 0)
      fewer l n m (inl h) less = inl (omega arith)
      fewer l n m (inr h) less = inr (omega arith)

  insert-IsBounded :
      (now : ℕ) (ip : IpAddr) (v : V) (m : Entries V)
      → IsVictim
      → IsBounded m
      → IsBounded (insert victim config now ip v m)
  unfolding insert
  insert-IsBounded now ip v m first bound =
      let left = evict victim config m in
      let shorter = length-erase_le ip left in
      elim (length-evict m first bound) [
        | inl h ↦ inl (omega (arith, shorter, h))
        | inr h ↦ inr (omega (arith, shorter, h))
      ]

  shorter-IsBounded : (m n : Entries V) → length n ≤ length m → IsBounded m → IsBounded n
  shorter-IsBounded m n h (inl b) = inl (omega arith)
  shorter-IsBounded m n h (inr b) = inr (omega arith)

  length-get : (now : ℕ) (ip : IpAddr) (m : Entries V) → length (get now ip m).0 ≤ length m
  unfolding get read_entry
  length-get now ip m = elim (Option-cases (find ip m)) [
    | inl p ↦ rw (get, p) (omega arith)
    | inr (e, p) ↦ elim (Bool-cases (has_expired now e)) [
      | inl q ↦ rw (get, p, read_entry, q) (length-erase_le ip m)
      | inr q ↦ rw (get, p, read_entry, q) (omega arith)
    ]
  ]

  after-IsBounded :
      (c : Call V) (m : Entries V) → IsVictim → IsBounded m → IsBounded (after victim config c m)
  unfolding after invalidate_prefix clear
  after-IsBounded (gets now ip) m first bound =
      shorter-IsBounded m (get now ip m).0 (length-get now ip m) bound
  after-IsBounded (inserts now ip v) m first bound = insert-IsBounded now ip v m first bound
  after-IsBounded (invalidates matches) m first bound =
      shorter-IsBounded m _ (length-retain_le (λ e. not (matches e.0)) m) bound
  after-IsBounded clears m first bound = inr (omega arith)

  run-IsBounded_from :
      (cs : List (Call V)) (m : Entries V)
      → IsVictim
      → IsBounded m
      → IsBounded (run victim config cs m)
  unfolding run
  run-IsBounded_from [] m first bound = bound
  run-IsBounded_from (c ∷ cs) m first bound =
      run-IsBounded_from cs (after victim config c m) first (after-IsBounded c m first bound)

  -- If an eviction finds a key wherever there is one, a new cache holds at most max_entries
  -- entries after any calls, or one if max_entries is 0.
  pub run-IsBounded : (cs : List (Call V)) → IsVictim → IsBounded (run victim config cs new)
  run-IsBounded cs first = run-IsBounded_from cs new first (inr (omega arith))
