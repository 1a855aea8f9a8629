-- ===== src/Policy/Limiter/Rate.antt =====
-- The rate that the limiter of lib/rust/policy/src/limiter.rs enforces on one address.
use radixip.Base.{
  ℕ, ◌+◌, ◌-◌, ◌*◌, ◌^◌, ◌≤◌, ◌<◌, ◌≡◌, refl, sym, subst, ap, ap₂, ◌∙◌, inl, inr, false, Bool-cases,
  Option, Option-cases, none, some, List, [], ◌∷◌, ◌>>=◌, arith,
}
use radixip.Net.{IpAddr, Network, IpNetwork}
use radixip.RadixEngine.{RadixEngine, Metadata}
use radixip.Policy.TokenBucket
use radixip.Policy.TokenBucket.{allow_all, one_if}
use radixip.Policy.TokenBucket.Rate.{IsOrdered, allow_all_bound}
use radixip.Policy.Limiter.{
  BucketKeyMode, RateLimitConfig, BucketKey, exact, Cache, ip_to_key, consume, consume_both,
  allow_in, allow,
}

module _ {N4 N6 C : Type 0} (cache : Cache C (BucketKey N4 N6)) (cfg : RateLimitConfig) where
  -- The word that a call at `now` works on.
  abbrev pub held : Option ℕ → (now : ℕ) → ℕ
  held none now = TokenBucket.new now cfg.capacity
  held (some w) now = w

  consume-held :
      (c : C) (k : BucketKey N4 N6) (now : ℕ)
      → let w = held (cache.bucket c k) now in
        let (after, allowed) = TokenBucket.allow cfg.capacity cfg.refill_rate now w in
        ((consume cache cfg c k now).1 ≡ allowed)
        × (cache.bucket (consume cache cfg c k now).0 k ≡ some after)
  unfolding consume
  consume-held c k now = elim (Option-cases (cache.bucket c k)) [
    | inl e ↦
        let (w, b) = cache.get_with_absent c k (TokenBucket.new now cfg.capacity) e in
        rw (e, w) (refl, cache.stored_bucket _ k _ _ b)
    | inr (v, e) ↦
        let (w, b) = cache.get_with_present c k (TokenBucket.new now cfg.capacity) v e in
        rw (e, w) (refl, cache.stored_bucket _ k _ _ b)
  ]

  -- Calls on one key, one after the other, at the given times: how many are allowed.
  unfoldable pub consume_all : C → BucketKey N4 N6 → List ℕ → C × ℕ
  consume_all c k [] = (c, 0)
  consume_all c k (now ∷ times) =
      let (c, allowed) = consume cache cfg c k now in
      let (c, granted) = consume_all c k times in (c, one_if allowed + granted)

  consume_all-bucket :
      (times : List ℕ) (c : C) (k : BucketKey N4 N6) (w : ℕ)
      → cache.bucket c k ≡ some w
      → (consume_all c k times).1 ≡ (allow_all cfg.capacity cfg.refill_rate times w).1
  unfolding consume_all allow_all
  consume_all-bucket [] c k w e = refl
  consume_all-bucket (now ∷ times) c k w e =
      let (allowed, b) =
        subst
          (λ o.
            let (after, answer) = TokenBucket.allow cfg.capacity cfg.refill_rate now (held o now) in
            ((consume cache cfg c k now).1 ≡ answer)
            × (cache.bucket (consume cache cfg c k now).0 k ≡ some after))
          e (consume-held c k now) in
      ap₂ (λ x n. one_if x + n) allowed (consume_all-bucket times _ k _ b)

  consume_all-absent :
      (times : List ℕ) (c : C) (k : BucketKey N4 N6) (now : ℕ)
      → cache.bucket c k ≡ none
      → (consume_all c k (now ∷ times)).1
        ≡ (allow_all cfg.capacity cfg.refill_rate
            (now ∷ times)
            (TokenBucket.new now cfg.capacity)).1
  unfolding consume_all allow_all
  consume_all-absent times c k now e =
      let (allowed, b) =
        subst
          (λ o.
            let (after, answer) = TokenBucket.allow cfg.capacity cfg.refill_rate now (held o now) in
            ((consume cache cfg c k now).1 ≡ answer)
            × (cache.bucket (consume cache cfg c k now).0 k ≡ some after))
          e (consume-held c k now) in
      ap₂ (λ x n. one_if x + n) allowed (consume_all-bucket times _ k _ b)

  consumed_twice :
      (c : C) (k : BucketKey N4 N6) (now : ℕ)
      → cfg.capacity ≡ 1
      → cache.bucket c k ≡ none
      → now < 2 ^ 32
      → (consume_both cache cfg c k k now).1 ≡ false
  unfolding consume_both consume_all
  consumed_twice c k now one e l =
      let (c1, first) = consume cache cfg c k now in
      let (c2, second) = consume cache cfg c1 k now in
      let bound : one_if first + (one_if second + 0)
          ≤ cfg.capacity + (now - now) * cfg.refill_rate =
        subst (λ n. n ≤ cfg.capacity + (now - now) * cfg.refill_rate)
          (sym (consume_all-absent (now ∷ []) c k now e))
          (allow_all_bound cfg.capacity cfg.refill_rate now now (now ∷ now ∷ []) l
            (omega arith, (omega arith, omega arith))) in
      let few : one_if first + (one_if second + 0) ≤ 1 = ground (arith, bound, one) in
      elim (Bool-cases first) [
        | inr p ↦ rw (p, consume_both) refl
        | inl p ↦
            rw (p, consume_both)
              (elim (Bool-cases second) [
                | inr q ↦ q
                | inl q ↦ let no : ⊥ = omega (arith, few, ap one_if p, ap one_if q) in absurd no
              ])
      ]

module _ {N4 N6 : Type 0} ⦃a : Network 4 N4⦄ ⦃b : Network 16 N6⦄ {E C : Type 0}
    (t : RadixEngine E (IpNetwork N4 N6) IpAddr Metadata) (cache : Cache C (BucketKey N4 N6))
    (cfg : RateLimitConfig) where
  -- Requests of one address, one after the other, at the given times: how many are allowed.
  unfoldable pub allow_each : C → E → IpAddr → List ℕ → Option (C × E × ℕ)
  allow_each c engine addr [] = some (c, engine, 0)
  allow_each c engine addr (now ∷ times) = do
    one ← allow t cache cfg c engine addr now
    rest ← allow_each one.0 one.1 addr times
    some (rest.0, rest.1, one_if one.2 + rest.2)

  allow-ip :
      (c : C) (engine : E) (addr : IpAddr) (now : ℕ)
      → cfg.bucket_mode ≡ BucketKeyMode.ip
      → allow t cache cfg c engine addr now
        ≡ some (
          (consume cache cfg c (exact addr) now).0,
          engine,
          (consume cache cfg c (exact addr) now).1,
        )
  unfolding allow allow_in ip_to_key
  allow-ip c engine addr now h = rw h

  allow_each-ip :
      (times : List ℕ) (c : C) (engine : E) (addr : IpAddr)
      → cfg.bucket_mode ≡ BucketKeyMode.ip
      → allow_each c engine addr times
        ≡ some (
          (consume_all cache cfg c (exact addr) times).0,
          engine,
          (consume_all cache cfg c (exact addr) times).1,
        )
  unfolding allow_each consume_all
  allow_each-ip [] c engine addr h = refl
  allow_each-ip (now ∷ times) c engine addr h =
      rw (allow-ip c engine addr now h, allow_each-ip times _ engine addr h)

  -- With one bucket for each address, the requests of an address without a bucket, at times that
  -- never go back and stay below 2 ^ 32, are all answered while its bucket stays cached, and at
  -- most capacity of them and refill_rate more for each second are allowed.
  pub allow_each_bound :
      (c : C) (engine : E) (addr : IpAddr) (now to : ℕ) (times : List ℕ)
      → cfg.bucket_mode ≡ BucketKeyMode.ip
      → cache.bucket c (exact addr) ≡ none
      → to < 2 ^ 32
      → IsOrdered now to times
      → (after : C) × (granted : ℕ) × (allow_each c engine addr (now ∷ times)
          ≡ some (after, engine, granted))
        × (granted ≤ cfg.capacity + (to - now) * cfg.refill_rate)
  allow_each_bound c engine addr now to times h e l ordered = (
    (consume_all cache cfg c (exact addr) (now ∷ times)).0,
    (consume_all cache cfg c (exact addr) (now ∷ times)).1,
    allow_each-ip (now ∷ times) c engine addr h,
    rw (consume_all-absent cache cfg times c (exact addr) now e) (
        allow_all_bound cfg.capacity cfg.refill_rate now to (now ∷ times) l (omega arith, ordered)),
  )

  ip_to_key-unmatched :
      (engine : E) (addr : IpAddr) (depth_v4 depth_v6 : ℕ)
      → (t.lookup engine addr).1 ≡ none
      → ip_to_key t addr (BucketKeyMode.subnet depth_v4 depth_v6) engine
        ≡ ((t.lookup engine addr).0, some (exact addr))
  unfolding ip_to_key
  ip_to_key-unmatched engine addr depth_v4 depth_v6 miss = rw (miss, ip_to_key) refl

  -- In mode `Both`, an address that the engine does not match is charged twice: with a capacity
  -- of 1, its first request is rejected.
  pub both_rejects_unmatched :
      (c : C) (engine : E) (addr : IpAddr) (now depth_v4 depth_v6 : ℕ)
      → cfg.bucket_mode ≡ BucketKeyMode.both depth_v4 depth_v6
      → (t.lookup engine addr).1 ≡ none
      → cfg.capacity ≡ 1
      → cache.bucket c (exact addr) ≡ none
      → now < 2 ^ 32
      → (after : C) × (allow t cache cfg c engine addr now
          ≡ some (after, (t.lookup engine addr).0, false))
  unfolding allow allow_in
  both_rejects_unmatched c engine addr now depth_v4 depth_v6 h miss one e l = (
    (consume_both cache cfg c (exact addr) (exact addr) now).0,
    ap (λ m. allow_in t cache cfg m c engine addr now) h
        ∙ rw
            (
              ip_to_key-unmatched engine addr depth_v4 depth_v6 miss,
              consumed_twice cache cfg c (exact addr) now one e l,
            )
            refl,
  )
