-- ===== src/MemoryCache.antt =====
-- `RadixCache` of lib/rust/cache/src/memory.rs, a cache with a time to live. Instants are
-- nanoseconds, without a bound; the clock is an argument. Which key an eviction removes is left to
-- `victim`, since the order of a `HashMap`'s keys is unspecified.
pub mod Bounded
pub mod Recent
use radixip.Base.{
  ℕ, ◌+◌, ◌*◌, ◌^◌, Bool, true, false, not, Option, none, some, List, [], ◌∷◌, length, leb, Key,
  find, put, erase, retain, if◌then◌else◌, map_option,
}
use radixip.Net.{IpAddr}

pub record CacheConfig : Type 0 where
  pub max_entries : ℕ
  pub ttl_seconds : Option ℕ

pub record CacheEntry (V : Type 0) : Type 0 where
  pub value : V
  pub expires_at : Option ℕ

-- The entries, `cache`.
abbrev pub Entries : Type 0 → Type 0
Entries V = List (IpAddr × CacheEntry V)

abbrev pub new : {V : Type 0} → Entries V
new = []

abbrev pub has_expired : {V : Type 0} → (now : ℕ) → CacheEntry V → Bool
has_expired now entry = elim (entry.expires_at) [ none ↦ false | some at ↦ leb at now ]

abbrev pub deadline : CacheConfig → (now : ℕ) → Option ℕ
deadline config now = map_option (λ ttl. now + ttl * 10 ^ 9) config.ttl_seconds

module _ ⦃k : Key IpAddr⦄ {V : Type 0} where
  -- An entry that is found.
  unfoldable pub read_entry : (now : ℕ) → IpAddr → CacheEntry V → Entries V → Entries V × Option V
  read_entry now ip entry cache =
      if has_expired now entry
      then (erase ip cache, none)
      else (cache, map_option (λ e. e.value) (find ip cache))

  unfoldable pub get : (now : ℕ) → IpAddr → Entries V → Entries V × Option V
  get now ip cache = elim (find ip cache) [
    | none ↦ (cache, none)
    | some entry ↦ read_entry now ip entry cache
  ]

  unfoldable pub evict : (victim : Entries V → Option IpAddr) → CacheConfig → Entries V → Entries V
  evict victim config cache =
      if leb config.max_entries (length cache)
      then elim (victim cache) [ none ↦ cache | some oldest_key ↦ erase oldest_key cache ]
      else cache

  unfoldable pub insert :
      (victim : Entries V → Option IpAddr)
      → CacheConfig
      → (now : ℕ) → IpAddr
      → V
      → Entries V
      → Entries V
  insert victim config now ip value cache =
      put ip (record { value = value; expires_at = deadline config now })
        (evict victim config cache)

  unfoldable pub invalidate_prefix : (IpAddr → Bool) → Entries V → Entries V
  invalidate_prefix matches cache = retain (λ e. not (matches e.0)) cache

  unfoldable pub clear : Entries V → Entries V
  clear cache = []

-- A call, with the instant at which it is made.
pub data Call (V : Type 0) : Type 0 where
  gets : (now : ℕ) → IpAddr → Call V
  inserts : (now : ℕ) → IpAddr → V → Call V
  invalidates : (IpAddr → Bool) → Call V
  clears : Call V

module _ ⦃k : Key IpAddr⦄ {V : Type 0} where
  module _ (victim : Entries V → Option IpAddr) (config : CacheConfig) where
    unfoldable pub after : Call V → Entries V → Entries V
    after (gets now ip) cache = (get now ip cache).0
    after (inserts now ip value) cache = insert victim config now ip value cache
    after (invalidates matches) cache = invalidate_prefix matches cache
    after clears cache = clear cache

    unfoldable pub run : List (Call V) → Entries V → Entries V
    run [] cache = cache
    run (c ∷ cs) cache = run cs (after c cache)
