-- ===== src/CachedEngine.antt =====
-- `RadixCache` and `CachedEngine` of lib/rust/engine/src/cache.rs, with no Redis client.
-- The cache of lookups is a map; which entry the eviction removes is left to `victim`, since the
-- order of a `HashMap`'s keys is unspecified.
pub mod Eviction
pub mod Coherence
pub mod Local
use Prim.Native.String.{String}
use radixip.Base.{
  ℕ, Bool, true, false, not, Option, none, some, List, [], length, leb, Key, find, put, erase,
  retain, Result, ok, err, if◌then◌else◌,
}
use radixip.Net.{IpAddr, Network, IpNetwork}
use radixip.Lpm.{network_contains_ip}
use radixip.RadixEngine.{RadixEngine}
use radixip.Engine.{EngineStats}

-- The entries, and the engine behind them.
pub record CachedEngine (E M : Type 0) : Type 0 where
  pub cache : List (IpAddr × Option M)
  pub inner : E

abbrev pub Entries : Type 0 → Type 0
Entries M = List (IpAddr × Option M)

unfoldable pub new : {E M : Type 0} → E → CachedEngine E M
new inner = record { cache = []; inner = inner }

module _ ⦃k : Key IpAddr⦄ {M : Type 0} where
  -- `if cache.len() >= max_entries`, remove one key if there is one.
  unfoldable pub evict :
      (victim : Entries M → Option IpAddr) (max_entries : ℕ) → Entries M → Entries M
  evict victim max_entries cache =
      if leb max_entries (length cache)
      then elim (victim cache) [ none ↦ cache | some key ↦ erase key cache ]
      else cache

module _ {N4 N6 : Type 0} ⦃a : Network 4 N4⦄ ⦃b : Network 16 N6⦄ {M : Type 0} where
  -- `RadixCache::invalidate`
  unfoldable pub invalidate : IpNetwork N4 N6 → Entries M → Entries M
  invalidate prefix cache = retain (λ e. not (network_contains_ip prefix e.0)) cache

  module _ {E : Type 0} ⦃k : Key IpAddr⦄ (t : RadixEngine E (IpNetwork N4 N6) IpAddr M)
      (victim : Entries M → Option IpAddr) (max_entries : ℕ) where
    -- A miss: the engine is asked and its answer stored.
    unfoldable pub fetch : CachedEngine E M → IpAddr → CachedEngine E M × Option M
    fetch s ip =
        let (inner, result) = t.lookup s.inner ip in
        (record { cache = put ip result (evict victim max_entries s.cache); inner = inner }, result)

    -- `lookup_with_cache`
    unfoldable pub lookup : CachedEngine E M → IpAddr → CachedEngine E M × Option M
    lookup s ip = elim (find ip s.cache) [ none ↦ fetch s ip | some entry ↦ (s, entry) ]

    -- `?` on the engine's answer: an error leaves the cache.
    unfoldable pub inserted :
        CachedEngine E M
        → IpNetwork N4 N6
        → Result (Unit {0}) String
        → CachedEngine E M × Result (Unit {0}) String
    inserted s prefix (ok u) = (record s { cache = invalidate prefix s.cache }, ok tt)
    inserted s prefix (err e) = (s, err e)

    unfoldable pub insert :
        CachedEngine E M → IpNetwork N4 N6 → M → CachedEngine E M × Result (Unit {0}) String
    insert s prefix metadata =
        let (inner, result) = t.insert s.inner prefix metadata in
        inserted (record s { inner = inner }) prefix result

    unfoldable pub remove : CachedEngine E M → IpNetwork N4 N6 → CachedEngine E M × Option M
    remove s prefix =
        let (inner, result) = t.remove s.inner prefix in
        (record { cache = invalidate prefix s.cache; inner = inner }, result)

    unfoldable pub contains : CachedEngine E M → IpNetwork N4 N6 → Bool
    contains s prefix = t.contains s.inner prefix

    unfoldable pub clear : CachedEngine E M → CachedEngine E M
    clear s = record { cache = []; inner = t.clear s.inner }

    unfoldable pub size : CachedEngine E M → ℕ
    size s = t.size s.inner

    unfoldable pub stats : CachedEngine E M → EngineStats
    stats s = t.stats s.inner
