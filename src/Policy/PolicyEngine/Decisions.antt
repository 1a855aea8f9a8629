-- ===== src/Policy/PolicyEngine/Decisions.antt =====
-- Decisions of `PolicyEngine` (lib/rust/policy/src/lib.rs) that involve several of its parts.
use radixip.Base.{
  ◌≡◌, refl, sym, ap, ◌∙◌, Bool, true, false, not, ◌&&◌, Option, none, some, Key, ◌>>=◌,
}
use radixip.Net.{IpAddr, Network, IpNetwork}
use radixip.RadixEngine.{RadixEngine, Metadata}
use radixip.Policy.Limiter
use radixip.Policy.Limiter.{BucketKey, Cache}
use radixip.Policy.PolicyEngine.{
  allow, PolicyEngine, PolicyConfig, Clock, blocked, answered, rate_check, decide_from, decide,
  settle, check_ip_from, check_ip,
}

module _ {N4 N6 : Type 0} ⦃a : Network 4 N4⦄ ⦃b : Network 16 N6⦄ {E C : Type 0} ⦃k : Key IpAddr⦄
    (t : RadixEngine E (IpNetwork N4 N6) IpAddr Metadata) (cache : Cache C (BucketKey N4 N6))
    (cfg : PolicyConfig N4 N6) where
  settle-answered :
      (s : PolicyEngine E C) (ip : IpAddr) (now : Clock) (o : Option (C × E × Bool))
      → (o >>= λ r.
          settle t cache cfg (record s { limiter = r.0; engine = r.1 }) ip now (true && not r.2))
        ≡ (o >>= λ r. answered t cache cfg (record s { limiter = r.0; engine = r.1 }) ip now r.2)
  unfolding settle answered
  settle-answered s ip now none = refl
  settle-answered s ip now (some (c, e, true)) = refl
  settle-answered s ip now (some (c, e, false)) = refl

  from_agree :
      (s : PolicyEngine E C) (ip : IpAddr) (now : Clock) (found : E × Bool)
      → check_ip_from t cache cfg s ip now true found ≡ decide_from t cache cfg s ip now true found
  unfolding check_ip_from decide_from rate_check
  from_agree s ip now (engine, true) = refl
  from_agree s ip now (engine, false) =
      settle-answered s ip now
        (Limiter.allow t cache cfg.rate_limit s.limiter engine ip now.seconds)

  -- With rate limiting enabled, check after the extraction and check_ip do the same.
  pub check_ip-decide :
      (s : PolicyEngine E C) (ip : IpAddr) (now : Clock)
      → cfg.rate_limit.enabled ≡ true
      → check_ip t cache cfg s ip now ≡ decide t cache cfg s ip now
  unfolding decide check_ip
  check_ip-decide s ip now on =
      ap (λ f. check_ip_from t cache cfg s ip now f (blocked t cache cfg s.engine ip)) on
      ∙ from_agree s ip now (blocked t cache cfg s.engine ip)
      ∙ ap (λ f. decide_from t cache cfg s ip now f (blocked t cache cfg s.engine ip)) (sym on)

  -- With rate limiting disabled, an address that is not blocked is allowed by both, but check_ip
  -- leaves the limiter's cache charged, where check leaves it as it was.
  pub disabled_still_charges :
      (s : PolicyEngine E C) (ip : IpAddr) (now : Clock) (engine e : E) (c : C) (allowed : Bool)
      → cfg.rate_limit.enabled ≡ false
      → blocked t cache cfg s.engine ip ≡ (engine, false)
      → Limiter.allow t cache cfg.rate_limit s.limiter engine ip now.seconds ≡ some (c, e, allowed)
      → (check_ip t cache cfg s ip now ≡ some (record s { limiter = c; engine = e }, allow))
        × (decide t cache cfg s ip now ≡ some (record s { engine = engine }, allow))
  unfolding decide check_ip check_ip_from decide_from rate_check settle
  disabled_still_charges s ip now engine e c allowed off miss asked = (
    ap (λ f. check_ip_from t cache cfg s ip now f (blocked t cache cfg s.engine ip)) off
        ∙ ap (check_ip_from t cache cfg s ip now false) miss
        ∙ ap
            (λ o. o >>= λ r.
              settle t cache cfg (record s { limiter = r.0; engine = r.1 }) ip now
                (false && not r.2))
            asked,
    ap (λ f. decide_from t cache cfg s ip now f (blocked t cache cfg s.engine ip)) off
        ∙ ap (decide_from t cache cfg s ip now false) miss,
  )
