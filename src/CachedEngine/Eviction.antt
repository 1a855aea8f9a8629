-- ===== src/CachedEngine/Eviction.antt =====
-- Entries that are left after evictions and invalidations of the cache of
-- lib/rust/engine/src/cache.rs.
use radixip.Base.{
  ℕ, ◌≡◌, inl, inr, Bool-cases, Option, Option-cases, some, length, leb, Key, find,
  find-erase_found,
}
use radixip.Net.{IpAddr}
use radixip.CachedEngine.{Entries, evict}

module _ ⦃k : Key IpAddr⦄ {M : Type 0} where
  pub find-evict_found :
      (victim : Entries M → Option IpAddr) (max_entries : ℕ) (ip : IpAddr) (m : Entries M)
      (r : Option M)
      → find ip (evict victim max_entries m) ≡ some r
      → find ip m ≡ some r
  unfolding evict
  find-evict_found victim max_entries ip m r h = elim (Bool-cases (leb max_entries (length m))) [
    | inl p ↦ elim (Option-cases (victim m)) [
      | inl e ↦ rw (p, e, evict) at h
      | inr (key, e) ↦ find-erase_found ip key m r (rw (p, e, evict) at h)
    ]
    | inr p ↦ rw (p, evict) at h
  ]
