-- ===== src/Examples/Memory.antt =====
-- A cache with a time to live, whose evictions take the first entry of the list.
use radixip.Base.{
  ℕ, ◌+◌, ◌*◌, ◌^◌, ◌≡◌, inl, inr, refl, false, Option, none, some, List, [], ◌∷◌, same_self,
}
use radixip.Net.{IpAddr}
use radixip.Net.Equality.{ip_key}
use radixip.MemoryCache.{
  CacheConfig, CacheEntry, Entries, new, has_expired, get, evict, insert, read_entry, Call, gets,
  inserts, after, run,
}
use radixip.MemoryCache.Bounded.{IsVictim, IsBounded, run-IsBounded}
use radixip.MemoryCache.Recent.{record_calls, run-get}

abbrev first_key : Entries ℕ → Option IpAddr
first_key [] = none
first_key (e ∷ _) = some e.0

first_key-IsVictim : (config : CacheConfig) → IsVictim first_key config
first_key-IsVictim config [] = inl (refl, refl)
first_key-IsVictim config (e ∷ m) = inr (e.0, e.1, refl, rw (same_self e.0) refl)

abbrev one_minute : CacheConfig
one_minute = record { max_entries = 1; ttl_seconds = some 60 }

abbrev here : IpAddr
here = IpAddr.v4 (192 ∷ 0 ∷ 2 ∷ 1 ∷ [])

abbrev there : IpAddr
there = IpAddr.v4 (192 ∷ 0 ∷ 2 ∷ 2 ∷ [])

abbrev cache_calls : List (Call ℕ)
cache_calls = inserts 0 there 1 ∷ inserts 5 here 2 ∷ gets 6 there ∷ []

run-IsBounded_example : IsBounded first_key one_minute (run first_key one_minute cache_calls new)
run-IsBounded_example =
    run-IsBounded first_key one_minute cache_calls (first_key-IsVictim one_minute)

-- One second before the entry runs out, and when it does.
still_there : (get (59 * 10 ^ 9) here (run first_key one_minute cache_calls new)).1 ≡ some 2
unfolding get read_entry run after insert evict
still_there = refl

gone : (get (60 * 10 ^ 9 + 5) here (run first_key one_minute cache_calls new)).1 ≡ none
unfolding get read_entry run after insert evict
gone = refl

run-get_example :
    (e : CacheEntry ℕ) × (record_calls first_key one_minute cache_calls (λ _. none) here ≡ some e)
    × (e.value ≡ 2)
    × (has_expired (59 * 10 ^ 9) e ≡ false)
run-get_example = run-get first_key one_minute cache_calls (59 * 10 ^ 9) here 2 still_there
