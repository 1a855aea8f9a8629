-- ===== src/Policy/Limiter.antt =====
-- lib/rust/policy/src/limiter.rs: token buckets by address or by subnet.
-- The `moka` cache is a parameter: it answers the bucket of a key, and makes it when absent; the
-- bucket is shared, so what `allow` stores in it is seen by the next call while it stays cached.
-- `none` stands for a panic. Both readings of the clock in one call are the argument `now`.
pub mod Rate
use radixip.Base.{
  ℕ, zero, suc, ◌+◌, ◌-◌, ◌*◌, ◌/◌, ◌%◌, ◌^◌, ◌≡◌, Bool, true, false, Option, none, some, List, [],
  ◌∷◌, fold_left, leb, is_some, map_option, ◌>>=◌, if◌then◌else◌,
}
use radixip.Net.{IpAddr, Network, IpNetwork}
use radixip.RadixEngine.{RadixEngine, Metadata}
use radixip.Policy.TokenBucket

pub data BucketKeyMode : Type 0 where
  ip : BucketKeyMode
  subnet : (depth_v4 depth_v6 : ℕ) → BucketKeyMode
  both : (depth_v4 depth_v6 : ℕ) → BucketKeyMode

-- The fields of `RateLimitConfig` that a call reads.
pub record RateLimitConfig : Type 0 where
  pub enabled : Bool
  pub bucket_mode : BucketKeyMode
  pub capacity : ℕ
  pub refill_rate : ℕ

pub data BucketKey (N4 N6 : Type 0) : Type 0 where
  exact : IpAddr → BucketKey N4 N6
  subnet : IpNetwork N4 N6 → BucketKey N4 N6

-- `moka::sync::Cache<BucketKey, Arc<TokenBucket>>`: `bucket` is what a key holds now, `get_with`
-- the call, and `stored` the effect of a store through the shared bucket.
pub record Cache (C K : Type 0) : Type 0 where
  pub bucket : C → K → Option ℕ
  pub get_with : C → K → (init : ℕ) → C × ℕ
  pub stored : C → K → ℕ → C
  pub get_with_present :
      (c : C) (k : K) (init w : ℕ)
      → bucket c k ≡ some w
      → ((get_with c k init).1 ≡ w) × (bucket (get_with c k init).0 k ≡ some w)
  pub get_with_absent :
      (c : C) (k : K) (init : ℕ)
      → bucket c k ≡ none
      → ((get_with c k init).1 ≡ init) × (bucket (get_with c k init).0 k ≡ some init)
  pub stored_bucket :
      (c : C) (k : K) (v w : ℕ) → bucket c k ≡ some v → bucket (stored c k w) k ≡ some w

-- `u32::from` and `u128::from` on octets, and back.
abbrev pub bits_of : List ℕ → ℕ
bits_of octets = fold_left (λ n o. n * 256 + o) 0 octets

abbrev pub octets_of : (size : ℕ) → ℕ → List ℕ
octets_of zero bits = []
octets_of (suc size) bits = bits / 256 ^ size % 256 ∷ octets_of size bits

-- `bits & (!0 << (width - depth))`, and 0 at depth 0.
abbrev pub masked : (width depth bits : ℕ) → ℕ
masked width depth bits = bits / 2 ^ (width - depth) * 2 ^ (width - depth)

module _ {N4 N6 C : Type 0} (cache : Cache C (BucketKey N4 N6)) (cfg : RateLimitConfig) where
  unfoldable pub consume : C → BucketKey N4 N6 → (now : ℕ) → C × Bool
  consume c key now =
      let (c, word) = cache.get_with c key (TokenBucket.new now cfg.capacity) in
      let (word, allowed) = TokenBucket.allow cfg.capacity cfg.refill_rate now word in
      (cache.stored c key word, allowed)

  -- `subnet && exact`: the second is consumed only if the first is allowed.
  unfoldable pub consume_both : C → (first second : BucketKey N4 N6) → (now : ℕ) → C × Bool
  consume_both c first second now =
      let (c, allowed) = consume c first now in
      elim allowed [ true ↦ consume c second now | false ↦ (c, false) ]

module _ {N4 N6 : Type 0} ⦃a : Network 4 N4⦄ ⦃b : Network 16 N6⦄ where
  -- A depth above the width panics: the shift in a debug build, `new(..).unwrap()` in any.
  unfoldable pub truncate_to_prefix : IpAddr → (depth_v4 depth_v6 : ℕ) → Option (IpNetwork N4 N6)
  truncate_to_prefix (IpAddr.v4 o) depth_v4 depth_v6 =
      let net_addr = octets_of 4 (masked 32 depth_v4 (bits_of o)) in
      map_option IpNetwork.v4 (a.new net_addr depth_v4)
  truncate_to_prefix (IpAddr.v6 o) depth_v4 depth_v6 =
      let net_addr = octets_of 16 (masked 128 depth_v6 (bits_of o)) in
      map_option IpNetwork.v6 (b.new net_addr depth_v6)

  module _ {E : Type 0} (t : RadixEngine E (IpNetwork N4 N6) IpAddr Metadata) where
    -- The engine counts its lookups, so it is returned.
    unfoldable pub ip_to_key : IpAddr → BucketKeyMode → E → E × Option (BucketKey N4 N6)
    ip_to_key addr ip engine = (engine, some (exact addr))
    ip_to_key addr (subnet depth_v4 depth_v6) engine =
        let (engine, found) = t.lookup engine addr in
        elim (is_some found) [
          | true ↦ (engine, map_option BucketKey.subnet (truncate_to_prefix addr depth_v4 depth_v6))
          | false ↦ (engine, some (exact addr))
        ]
    ip_to_key addr (both _ _) engine = (engine, some (exact addr))

    module _ {C : Type 0} (cache : Cache C (BucketKey N4 N6)) (cfg : RateLimitConfig) where
      -- `allow`, by the mode of the configuration.
      unfoldable pub allow_in : BucketKeyMode → C → E → IpAddr → (now : ℕ) → Option (C × E × Bool)
      allow_in (both depth_v4 depth_v6) c engine addr now =
          let (engine, key) = ip_to_key addr (subnet depth_v4 depth_v6) engine in
          key >>= λ subnet_key.
          let (c, allowed) = consume_both cache cfg c subnet_key (exact addr) now in
          some (c, engine, allowed)
      allow_in ip c engine addr now =
          let (engine, key) = ip_to_key addr ip engine in
          key >>= λ key. let (c, allowed) = consume cache cfg c key now in some (c, engine, allowed)
      allow_in (subnet depth_v4 depth_v6) c engine addr now =
          let (engine, key) = ip_to_key addr (subnet depth_v4 depth_v6) engine in
          key >>= λ key. let (c, allowed) = consume cache cfg c key now in some (c, engine, allowed)

      unfoldable pub allow : C → E → IpAddr → (now : ℕ) → Option (C × E × Bool)
      allow c engine addr now = allow_in cfg.bucket_mode c engine addr now
